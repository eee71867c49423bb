-- ===== src/StellarClient/Addresses.antt =====
-- validateWalletAddress accepts what the SDK accepts.
use nova_support.Base.{◌≡◌, ◌↔◌, Bool, true, arith, length}
use nova_support.Sanitizer.Units.{Text, trim}
use nova_support.StellarClient.{valid, starts_with_g, check_address, validate_wallet_address}

-- A public key of the SDK has 56 characters, of which the first is "G".
pub record StrKey (is_public_key : Text → Bool) : Type 0 where
  pub key_length : (a : Text) → is_public_key a ≡ true → length a ≡ 56
  pub key_start : (a : Text) → is_public_key a ≡ true → starts_with_g a ≡ true

-- An address is valid exactly when the SDK takes its text, without the white space around it, for a
-- public key: the tests before it give better messages and refuse nothing more.
validate_wallet_address_iff :
    (is_public_key : Text → Bool) (raw : Text)
    → StrKey is_public_key
    → (validate_wallet_address is_public_key raw ≡ valid) ↔ (is_public_key (trim raw) ≡ true)
unfolding validate_wallet_address check_address
validate_wallet_address_iff is_public_key raw key =
    ground (arith, key.key_length (trim raw), key.key_start (trim raw))
