-- ===== src/Common/Fields.antt =====
-- apps/common/fields.py: `CIDRField`, and the encrypted field over a cipher that is a parameter.
pub mod Laws
use ip_scout.Prelude.{
  ℕ, Bool, true, false, ◌≡◌, refl, Option, none, some, List, [], ◌∷◌, Text, codes,
}
use ip_scout.Errors.{Error, Outcome, ok, raise, validation_error, improperly_configured, ◌>>=◌}
use ip_scout.Python.Strip.{is_nil}
use ip_scout.Python.Ipaddress.Network.{ip_network, print_network}

-- CIDRField.get_prep_value; the empty text counts as None.
unfoldable pub get_prep_value : Option Text → Outcome (Option Text)
unfolding ip_network print_network
get_prep_value none = ok none
get_prep_value (some []) = ok none
get_prep_value (some (c ∷ s)) = elim (ip_network (c ∷ s)) [
  | none ↦ raise validation_error
  | some n ↦ ok (some (print_network n))
]

-- CIDRField.to_python
unfoldable pub to_python : Option Text → Option Text
to_python none = none
to_python (some []) = none
to_python (some (c ∷ s)) = some (c ∷ s)

-- `Fernet` of the package `cryptography` under a key: what it encrypts under a key decrypts under
-- the same key. `none` is an InvalidToken.
pub record Fernet : Type 0 where
  pub encrypt : Text → Text → Text
  pub decrypt : Text → Text → Option Text

-- _fernet(): the configured key
unfoldable pub configured_key : Option Text → Outcome Text
configured_key none = raise (improperly_configured (codes "SSH_CREDENTIAL_ENCRYPTION_KEY"))
configured_key (some []) = raise (improperly_configured (codes "SSH_CREDENTIAL_ENCRYPTION_KEY"))
configured_key (some (c ∷ s)) = ok (c ∷ s)

module _ (fernet : Fernet) where
  -- EncryptedTextField.get_prep_value
  unfoldable pub encrypted_prep_value : Option Text → Text → Outcome Text
  unfolding configured_key
  encrypted_prep_value key [] = ok []
  encrypted_prep_value key (c ∷ s) = do k ← configured_key key; ok (fernet.encrypt k (c ∷ s))

  -- EncryptedTextField.from_db_value
  unfoldable pub encrypted_from_db : Option Text → Text → Outcome Text
  unfolding configured_key
  encrypted_from_db key [] = ok []
  encrypted_from_db key (c ∷ s) = do
    k ← configured_key key
    elim (fernet.decrypt k (c ∷ s)) [ none ↦ ok [] | some t ↦ ok t ]
