-- ===== src/Logs/Pattern/Remote.antt =====
-- The address that a line is captured to have holds no white space.
use ip_scout.Prelude.{
  ℕ, ◌≡◌, refl, sym, ap, ◌∙◌, true, false, some, List, [], ◌∷◌, Text, All, any, arith, Bool-cases,
  inl, inr, subst,
}
use ip_scout.Python.Strip.{is_space}
use ip_scout.Logs.Format.{
  Variable, remote_addr, remote_user, time_local, request, status, body_bytes_sent, http_referer,
  http_user_agent, request_time, host, Piece, literal, token, is_named, same_variable,
}
use ip_scout.Logs.Pattern.{accepts, Captures, group}
use ip_scout.Logs.Pattern.Laws.{Matches}

-- The fragment of the address accepts no white space.
accepts-no_space :
    (v : Variable) (c : ℕ)
    → same_variable remote_addr v ≡ true
    → accepts v c ≡ true
    → is_space c ≡ false
unfolding same_variable accepts
accepts-no_space remote_addr c same h = ground arith
accepts-no_space remote_user c same h = absurd (ground arith)
accepts-no_space time_local c same h = absurd (ground arith)
accepts-no_space request c same h = absurd (ground arith)
accepts-no_space status c same h = absurd (ground arith)
accepts-no_space body_bytes_sent c same h = absurd (ground arith)
accepts-no_space http_referer c same h = absurd (ground arith)
accepts-no_space http_user_agent c same h = absurd (ground arith)
accepts-no_space request_time c same h = absurd (ground arith)
accepts-no_space host c same h = absurd (ground arith)

All-no_space :
    (v : Variable) (t : Text)
    → same_variable remote_addr v ≡ true
    → All (λ c. accepts v c ≡ true) t
    → any is_space t ≡ false
unfolding any
All-no_space v [] same all = refl
All-no_space v (c ∷ t) same (h, all) =
    rw (accepts-no_space v c same h, any) (All-no_space v t same all)

-- The captured address has no white space in it.
pub Matches-no_space :
    (ps : List Piece) (caps : Captures) (s t : Text)
    → Matches ps caps s
    → group remote_addr caps ≡ some t
    → any is_space t ≡ false
unfolding group
Matches-no_space [] caps s t (e, _) h = absurd (ground arith)
Matches-no_space (literal p ∷ ps) caps s t (r, _, m) h = Matches-no_space ps caps r t m h
Matches-no_space (token v ∷ ps) caps s t (u, r, more, e, _, fits, m) h =
    let here : group remote_addr ((v, u) ∷ more) ≡ some t = ap (group remote_addr) (sym e) ∙ h in
    elim (Bool-cases (same_variable remote_addr v)) [
      | inr other ↦ Matches-no_space ps more r t m (ground arith)
      | inl same ↦ elim (Bool-cases (is_named v)) [
        | inr unnamed ↦ Matches-no_space ps more r t m (ground arith)
        | inl named ↦
            let whole : u ≡ t = ground arith in
            subst (λ x. any is_space x ≡ false) whole (All-no_space v u same fits.chars)
      ]
    ]
