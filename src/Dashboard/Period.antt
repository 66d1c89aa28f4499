-- ===== src/Dashboard/Period.antt =====
-- When a period of the dashboard cannot be read.
use ip_scout.Prelude.{
  ◌≡◌, ◌⊎◌, refl, not, ◌&&◌, Option, none, some, Text, codes, text_eq, text_eq_iff, arith,
  Bool-cases, inl, inr,
}
use ip_scout.Errors.{Error, raise, Outcome-cases}
use ip_scout.Python.Strip.{is_nil}
use ip_scout.Models.{Time}
use ip_scout.Dashboard.{ParseDatetime, custom_period, resolve_period}

-- A text of a custom period at which the parser raises.
pub record Unparsed (parse : ParseDatetime) (e : Error) (period : Text)
    (custom_start custom_end : Option Text) : Type 0 where
  pub custom : period ≡ codes "custom"
  pub text : Text
  pub given : (custom_start ≡ some text) ⊎ (custom_end ≡ some text)
  pub raised : parse text ≡ raise e

custom_period-raise :
    (parse : ParseDatetime) (default : Time × Time) (s t : Text) (e : Error)
    → custom_period parse default s t ≡ raise e
    → (parse s ≡ raise e) ⊎ (parse t ≡ raise e)
unfolding custom_period
custom_period-raise parse default s t e h = elim (Outcome-cases (parse s)) [
  | inl (x, f) ↦ inl (ground arith)
  | inr (a, f) ↦ elim (Outcome-cases (parse t)) [
    | inl (y, g) ↦ inr (ground arith)
    | inr (b, g) ↦ absurd (ground arith)
  ]
]

module _ (parse : ParseDatetime) (now : Time) (period : Text) (e : Error) where
  -- A period is refused only for a custom one with both ends, one of which the parser refuses.
  pub resolve_period-Unparsed :
      (custom_start custom_end : Option Text)
      → resolve_period parse now period custom_start custom_end ≡ raise e
      → Unparsed parse e period custom_start custom_end
  unfolding resolve_period
  resolve_period-Unparsed none custom_end h = absurd (ground arith)
  resolve_period-Unparsed (some s) none h = absurd (ground arith)
  resolve_period-Unparsed (some s) (some t) h =
      elim (Bool-cases (text_eq period (codes "custom") && not (is_nil s) && not (is_nil t))) [
        | inr default ↦ absurd (ground arith)
        | inl custom ↦
            let name : period ≡ codes "custom" =
              (text_eq_iff period (codes "custom")).0 (ground arith) in
            elim (custom_period-raise parse _ s t e (rw custom at h)) [
              | inl f ↦ record { custom = name; text = s; given = inl refl; raised = f }
              | inr f ↦ record { custom = name; text = t; given = inr refl; raised = f }
            ]
      ]
