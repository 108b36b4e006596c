-- ===== src/Helpers.antt =====
-- eth2/beacon/helpers.py: epochs, historical roots, seeds, balances and signing domains. The
-- `lru_cache` decorators only remember results of pure functions and are not modelled.
use trinity_eth.Base.{
  ℕ, zero, suc, ◌+◌, ◌-◌, ◌*◌, ◌%◌, max, ltb, leb, ◌==◌, Bool, if◌then◌else◌, Option, none, some,
  List, [], ◌∷◌, ◌++◌, take, sum, Result, ok, ◌>>=◌, ◌>>◌, raise_if, index, for_each,
  validation_error,
}
use trinity_eth.Types.{
  Bytes, Root, Hash32, Version, Domain, Slot, Epoch, Gwei, ValidatorIndex, SignatureDomain,
  domain_value, Fork, Validator, is_active, BeaconState, current_epoch, Eth2Config,
}
use trinity_eth.Extern.{Extern}
use trinity_eth.Utils.Bytes.{little_endian, to_bytes}

abbrev pub compute_start_slot_at_epoch : Epoch → ℕ → Slot
compute_start_slot_at_epoch epoch slots_per_epoch = epoch * slots_per_epoch

-- The indices, from `i` on, of the items that pass the test.
abbrev pub indices_where {ℓ} : {A : Type ℓ} → (A → Bool) → ℕ → List A → List ℕ
indices_where p i [] = []
indices_where p i (x ∷ xs) = let rest = indices_where p (suc i) xs in if p x then i ∷ rest else rest

unfoldable pub get_active_validator_indices : List Validator → Epoch → List ValidatorIndex
get_active_validator_indices validators epoch =
    indices_where (λ v. is_active v epoch) zero validators

unfoldable pub get_historical_root : List Root → Slot → Slot → ℕ → Result Root
get_historical_root historical_roots state_slot slot slots_per_historical_root = do
  raise_if (leb state_slot slot) validation_error
  raise_if (ltb (slot + slots_per_historical_root) state_slot) validation_error
  index historical_roots (slot % slots_per_historical_root)

unfoldable pub get_block_root_at_slot : BeaconState → Slot → ℕ → Result Root
get_block_root_at_slot state slot slots_per_historical_root =
    get_historical_root state.block_roots state.slot slot slots_per_historical_root

unfoldable pub get_block_root : BeaconState → Epoch → ℕ → ℕ → Result Root
get_block_root state epoch slots_per_epoch slots_per_historical_root =
    get_block_root_at_slot state (compute_start_slot_at_epoch epoch slots_per_epoch)
      slots_per_historical_root

unfoldable pub get_randao_mix : BeaconState → Epoch → ℕ → Result Hash32
get_randao_mix state epoch epochs_per_historical_vector =
    index state.randao_mixes (epoch % epochs_per_historical_vector)

-- The combined effective balance, and at least one increment.
unfoldable pub get_total_balance : BeaconState → List ValidatorIndex → Eth2Config → Result Gwei
get_total_balance state validator_indices config = do
  balances ←
      for_each validator_indices (λ i. index state.validators i >>= λ v. ok v.effective_balance)
  ok (max (sum balances) config.effective_balance_increment)

abbrev pub get_fork_version : Fork → Epoch → Version
get_fork_version fork epoch =
    if ltb epoch fork.epoch then fork.previous_version else fork.current_version

abbrev pub signature_domain_to_domain_type : SignatureDomain → Bytes
signature_domain_to_domain_type s = little_endian (domain_value s) 4

module _ (ext : Extern) where
  unfoldable pub get_state_root_at_slot : BeaconState → Slot → ℕ → Result Hash32
  get_state_root_at_slot state slot slots_per_historical_root =
      if slot == state.slot
      then ok (ext.state_root state)
      else get_historical_root state.state_roots state.slot slot slots_per_historical_root

  -- `_get_seed` with the providers that `get_seed` passes.
  unfoldable pub get_seed : BeaconState → Epoch → Bytes → Eth2Config → Result Hash32
  get_seed state epoch domain_type config = do
    randao_mix ←
        get_randao_mix state
          (epoch + config.epochs_per_historical_vector - config.min_seed_lookahead - 1)
          config.epochs_per_historical_vector
    epoch_as_bytes ← to_bytes epoch 8
    ok (ext.sha256 (domain_type ++ epoch_as_bytes ++ randao_mix))

  unfoldable pub compute_fork_data_root : Version → Root → Root
  compute_fork_data_root current_version genesis_validators_root = ext.fork_data_root (record {
    current_version = current_version;
    genesis_validators_root = genesis_validators_root;
  })

  unfoldable pub compute_fork_digest : Version → Root → Bytes
  compute_fork_digest current_version genesis_validators_root =
      take 4 (compute_fork_data_root current_version genesis_validators_root)

  unfoldable pub compute_domain : SignatureDomain → Version → Root → Domain
  compute_domain signature_domain fork_version genesis_validators_root =
      signature_domain_to_domain_type signature_domain
      ++ take 28 (compute_fork_data_root fork_version genesis_validators_root)

  -- `message_epoch` is `none` where the caller passes no epoch.
  unfoldable pub get_domain : BeaconState → SignatureDomain → ℕ → Option Epoch → Domain
  get_domain state signature_domain slots_per_epoch message_epoch =
      let epoch : Epoch = elim message_epoch [
        | none ↦ current_epoch state slots_per_epoch
        | some e ↦ e
      ] in
      compute_domain signature_domain (get_fork_version state.fork epoch)
        state.genesis_validators_root

  -- The object is given by its hash tree root.
  unfoldable pub compute_signing_root : Root → Domain → Root
  compute_signing_root object_root domain =
      ext.signing_data_root (record { object_root = object_root; domain = domain })
