-- ===== src/Errors.antt =====
-- Python's exceptions as values: an operation returns its result or the exception that leaves it.
use ip_scout.Prelude.{Text, ◌≡◌, refl, ◌⊎◌, inl, inr}

pub data Error : Type 0 where
  value_error key_error validation_error type_error overflow_error index_error : Error
  log_parse_error re_error data_error : Error
  ssh_error : Text → Error
  improperly_configured : Text → Error

pub data Outcome (A : Type 0) : Type 0 where
  ok : A → Outcome A
  raise : Error → Outcome A

infixl 5 ◌>>=◌ ◌>>◌
abbrev pub ◌>>=◌ : {A B : Type 0} → Outcome A → (A → Outcome B) → Outcome B
ok a >>= f = f a
raise e >>= f = raise e

abbrev pub ◌>>◌ : {B : Type 0} → Outcome (Unit {0}) → Outcome B → Outcome B
m >> k = m >>= λ _. k

pub Outcome-cases :
    {A : Type 0} (o : Outcome A) → ((e : Error) × (o ≡ raise e)) ⊎ ((a : A) × (o ≡ ok a))
Outcome-cases (ok a) = inr (a, refl)
Outcome-cases (raise e) = inl (e, refl)

-- What is known of a chain that returned.
pub >>=-eq-ok :
    {X Y : Type 0} (o : Outcome X) (k : X → Outcome Y) {y : Y}
    → (o >>= k) ≡ ok y
    → (x : X) × (o ≡ ok x) × (k x ≡ ok y)
>>=-eq-ok (raise e) k done = cc
>>=-eq-ok (ok x) k done = (x, refl, done)

pub ok-injective : {A : Type 0} (a b : A) → ok a ≡ ok b → a ≡ b
ok-injective a b h = cc
