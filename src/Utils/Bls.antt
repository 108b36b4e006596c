-- ===== src/Utils/Bls.antt =====
-- eth2/_utils/bls: the checks that `Eth2BLS.validate` makes before and after the backend's call.
use trinity_eth.Base.{
  Bool, true, false, not, List, [], ◌∷◌, ◌&&◌, ◌==◌, if◌then◌else◌, length, same_bytes, Result, ok,
  raise, ◌>>◌, raise_if, signature_error, public_key_error,
}
use trinity_eth.Types.{Hash32, BlsPubkey, BlsSignature, empty_signature, empty_pubkey}
use trinity_eth.Extern.{Extern}

unfoldable pub validate_public_key : BlsPubkey → Bool → Result (Unit {0})
validate_public_key pubkey allow_empty = do
  raise_if (not (length pubkey == 48)) public_key_error
  raise_if (not allow_empty && same_bytes pubkey empty_pubkey) public_key_error

unfoldable pub validate_many_public_keys : List BlsPubkey → Result (Unit {0})
unfolding validate_public_key
validate_many_public_keys [] = ok tt
validate_many_public_keys (key ∷ keys) =
    validate_public_key key true >> validate_many_public_keys keys

unfoldable pub validate_signature : BlsSignature → Result (Unit {0})
validate_signature signature = do
  raise_if (not (length signature == 96)) signature_error
  raise_if (same_bytes signature empty_signature) signature_error

module _ (ext : Extern) where
  unfoldable pub verify : Hash32 → BlsSignature → BlsPubkey → Bool
  verify message signature key = ext.verify key message signature

  unfoldable pub fast_aggregate_verify : Hash32 → BlsSignature → List BlsPubkey → Bool
  fast_aggregate_verify message signature keys = ext.fast_aggregate_verify keys message signature

  -- `Eth2BLS.validate(message, signature, *public_keys)`
  unfoldable pub validate : Hash32 → BlsSignature → List BlsPubkey → Result (Unit {0})
  unfolding verify fast_aggregate_verify
  validate message signature [] = raise signature_error
  validate message signature (key ∷ []) = do
    if ext.is_noop_backend
        then ok tt
        else do validate_signature signature; validate_public_key key false
    raise_if (not (verify message signature key)) signature_error
  validate message signature (key ∷ other ∷ keys) = do
    if ext.is_noop_backend
        then ok tt
        else do validate_signature signature; validate_many_public_keys (key ∷ other ∷ keys)
    raise_if (not (fast_aggregate_verify message signature (key ∷ other ∷ keys))) signature_error
