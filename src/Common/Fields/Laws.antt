-- ===== src/Common/Fields/Laws.antt =====
-- What an encrypted column stores is read back as it was written.
use ip_scout.Prelude.{◌≡◌, ◌≢◌, refl, Option, some, [], ◌∷◌, Text, subst}
use ip_scout.Errors.{ok, >>=-eq-ok, ok-injective}
use ip_scout.Common.Fields.{Fernet, configured_key, encrypted_prep_value, encrypted_from_db}

-- What is documented of Fernet: a token is not empty, and decrypts to the text under its key.
pub record IsFernet (fernet : Fernet) : Type 0 where
  pub token : (key text : Text) → fernet.encrypt key text ≢ []
  pub decrypts : (key text : Text) → fernet.decrypt key (fernet.encrypt key text) ≡ some text

from_db_token :
    (fernet : Fernet) (key : Option Text) (k token text : Text)
    → configured_key key ≡ ok k
    → token ≢ []
    → fernet.decrypt k token ≡ some text
    → encrypted_from_db fernet key token ≡ ok text
unfolding encrypted_from_db
from_db_token fernet key k [] text e ne d = absurd (ne refl)
from_db_token fernet key k (c ∷ s) text e ne d = rw e (rw d refl)

-- A value that an encrypted field stores is loaded unchanged under the same key. An empty value needs no
-- key.
pub encrypted_from_db-prep_value :
    (fernet : Fernet) (key : Option Text) (text stored : Text)
    → IsFernet fernet
    → encrypted_prep_value fernet key text ≡ ok stored
    → encrypted_from_db fernet key stored ≡ ok text
unfolding encrypted_prep_value encrypted_from_db
encrypted_from_db-prep_value fernet key [] stored is_fernet h =
    subst (λ s. encrypted_from_db fernet key s ≡ ok []) (ok-injective [] stored h) refl
encrypted_from_db-prep_value fernet key (c ∷ s) stored is_fernet h =
    let (k, e, h') = >>=-eq-ok (configured_key key) _ h in
    subst (λ t. encrypted_from_db fernet key t ≡ ok (c ∷ s))
      (ok-injective (fernet.encrypt k (c ∷ s)) stored h')
      (from_db_token fernet key k (fernet.encrypt k (c ∷ s)) (c ∷ s) e (is_fernet.token k (c ∷ s))
        (is_fernet.decrypts k (c ∷ s)))
