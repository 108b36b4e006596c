-- ===== src/Epoch/Justification/WellFormed.antt =====
-- Justification and finalization keep the state's shape, the four bits among it.
use trinity_eth.Base.{
  ℕ, suc, ◌≡◌, Bool, true, false, List, [], ◌∷◌, length, all_but_last, ok, Ensures, Ensures-ok,
  Ensures-bind, Ensures-if, leb, ◌+◌, refl, ◌∙◌, ap, arith,
}
use trinity_eth.Types.{Slot, Epoch, BeaconState, Eth2Config, current_epoch, genesis_epoch}
use trinity_eth.Extern.{Extern}
use trinity_eth.Invariant.{IsWellFormed}
use trinity_eth.Utils.Bitfield.{length-update_tuple_item_with_fn}
use trinity_eth.Epoch.Justification.{
  determine_updated_justification_data, determine_updated_justifications,
  determine_new_justified_epoch_and_bitfield, determine_new_justified_checkpoint_and_bitfield,
  process_justification_and_finalization,
}

abbrev HasFourBits : Epoch × List Bool → Type 0
HasFourBits justified = length justified.1 ≡ 4

updated_data-HasFourBits :
    (epoch : Epoch) (bits : List Bool) (justifiable : Bool) (candidate : Epoch) (offset : ℕ)
    → length bits ≡ 4
    → Ensures HasFourBits
        (determine_updated_justification_data epoch bits justifiable candidate offset)
updated_data-HasFourBits epoch bits true candidate offset four = Ensures-bind _ _ λ bits' e.
    Ensures-ok _ ((length-update_tuple_item_with_fn bits offset (λ _. true)).at bits' e ∙ four)
updated_data-HasFourBits epoch bits false candidate offset four = Ensures-ok _ four

updated-HasFourBits :
    (p : Bool) (previous : Epoch) (c : Bool) (current epoch : Epoch) (bits : List Bool)
    → length bits ≡ 4
    → Ensures HasFourBits (determine_updated_justifications p previous c current epoch bits)
unfolding determine_updated_justifications
updated-HasFourBits p previous c current epoch bits four = Ensures-bind _ _ λ r e.
    updated_data-HasFourBits _ _ c current 0
      ((updated_data-HasFourBits epoch bits p previous 1 four).at r e)

length-all_but_last {ℓ} :
    {A : Type ℓ} (x : A) (xs : List A) → length (all_but_last (x ∷ xs)) ≡ length xs
length-all_but_last x [] = refl
length-all_but_last x (y ∷ xs) = ap suc (length-all_but_last y xs)

length-shifted : (bits : List Bool) → length bits ≡ 4 → length (false ∷ all_but_last bits) ≡ 4
length-shifted [] four = absurd (omega arith)
length-shifted (b ∷ bits) four = omega (arith, length-all_but_last b bits)

module _ (ext : Extern) (config : Eth2Config) (n : Slot) (s : BeaconState) where
  new_epoch-HasFourBits :
      length s.justification_bits ≡ 4
      → Ensures HasFourBits (determine_new_justified_epoch_and_bitfield ext s config)
  unfolding determine_new_justified_epoch_and_bitfield
  new_epoch-HasFourBits four = Ensures-bind _ _ λ p _.
      Ensures-bind _ _
        λ c _. updated-HasFourBits p _ c _ _ _ (length-shifted s.justification_bits four)

  new_checkpoint-HasFourBits :
      length s.justification_bits ≡ 4
      → Ensures (λ r. length r.1 ≡ 4) (determine_new_justified_checkpoint_and_bitfield ext s config)
  unfolding determine_new_justified_checkpoint_and_bitfield
  new_checkpoint-HasFourBits four =
      Ensures-bind _ _
        λ r e. Ensures-bind _ _ λ checkpoint _. Ensures-ok _ ((new_epoch-HasFourBits four).at r e)

  pub process_justification_and_finalization-IsWellFormed :
      IsWellFormed config n s
      → Ensures (IsWellFormed config n) (process_justification_and_finalization ext s config)
  unfolding process_justification_and_finalization
  process_justification_and_finalization-IsWellFormed h =
      Ensures-if (leb (current_epoch s config.slots_per_epoch) (genesis_epoch + 1)) (ok s) _
        (λ _. Ensures-ok _ h)
        λ _. Ensures-bind _ _ λ r e. Ensures-bind _ _ λ finalized _.
          Ensures-ok _ (ground (arith, (new_checkpoint-HasFourBits h.justification_bits).at r e))
