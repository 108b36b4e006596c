-- ===== src/ValidatorClient/Keys.antt =====
-- What the signatory uses of eth2/validator_client/key_store.py, `KeyStore.private_key_for`, and of
-- eth2/_utils/bls, `Eth2BLS.sign` and `validate_private_key`. The order of the curve and the
-- signing of the backend are parameters. A private key is a number, as `KeyStore` reads it from
-- bytes.
use trinity_eth.Base.{
  leb, Dict, dict_get, ◌>>◌, raise_if, or_raise, Result, ℕ, ◌||◌, ok, value_error, key_error,
}
use trinity_eth.Types.{Root, BlsPubkey, BlsSignature}

pub record KeyStore : Type 0 where
  pub key_pairs : Dict ℕ

-- `Eth2BLS.backend`, and `curve_order` of py_ecc.
pub record Backend : Type 0 where
  pub curve_order : ℕ
  pub sign_root : ℕ → Root → BlsSignature

abbrev pub private_key_for : KeyStore → BlsPubkey → Result ℕ
private_key_for key_store public_key = or_raise (dict_get public_key key_store.key_pairs) key_error

abbrev pub validate_private_key : Backend → ℕ → Result (Unit {0})
validate_private_key backend private_key =
    raise_if (leb private_key 0 || leb backend.curve_order private_key) value_error

abbrev pub bls_sign : Backend → ℕ → Root → Result BlsSignature
bls_sign backend private_key message = do
  validate_private_key backend private_key
  ok (backend.sign_root private_key message)
