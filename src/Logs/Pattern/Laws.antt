-- ===== src/Logs/Pattern/Laws.antt =====
-- The matcher against a declarative reading of a pattern: it finds a match exactly if there is one.
use ip_scout.Prelude.{
  ◌⊎◌, Option-cases, ℕ, ◌+◌, ◌≤◌, ◌<◌, ◌≡◌, ◌≢◌, refl, sym, ap, true, false, ◌&&◌, Option, none,
  some, List, [], ◌∷◌, ◌++◌, Text, arith, ltb, length, length-append, Bool-cases, Option-cases, inl,
  inr, append_assoc, append-nil, All, ◌∙◌, subst,
}
use ip_scout.Logs.Format.{Variable, Piece, literal, token}
use ip_scout.Logs.Pattern.{
  accepts, at_least, has_room, Captures, finish, match_token, match_pieces, at_end,
}

-- The text may stand where the variable does.
pub record Fits (v : Variable) (t : Text) : Type 0 where
  pub enough : at_least v ≤ length t
  pub chars : All (λ c. accepts v c ≡ true) t
  pub room : (n : ℕ) → n < length t → has_room v n ≡ true

-- The captures read a text by the pieces, from left to right.
abbrev pub Matches : List Piece → Captures → Text → Type 0
Matches [] caps s = (caps ≡ []) × (at_end s ≡ true)
Matches (literal p ∷ ps) caps s = (r : Text) × (s ≡ p ∷ r) × Matches ps caps r
Matches (token v ∷ ps) caps s =
    (t : Text) × (r : Text) × (more : Captures) × (caps ≡ (v, t) ∷ more)
    × (s ≡ t ++ r)
    × Fits v t
    × Matches ps more r

-- What is known of the part that a variable has taken so far.
record Taken (v : Variable) (t : Text) : Type 0 where
  chars : All (λ c. accepts v c ≡ true) t
  room : (n : ℕ) → n < length t → has_room v n ≡ true

leb-false : (m n : ℕ) → ltb n m ≡ false → n < m + 1 → m ≡ n
leb-false m n h k = ground arith

All-snoc : (P : ℕ → Type 0) (t : Text) (c : ℕ) → All P t → P c → All P (t ++ c ∷ [])
All-snoc P [] c h p = (p, tt)
All-snoc P (d ∷ t) c h p = (h.0, All-snoc P t c h.1 p)

Taken-snoc :
    {v : Variable} (t : Text) (c : ℕ)
    → Taken v t
    → accepts v c ≡ true
    → has_room v (length t) ≡ true
    → Taken v (t ++ c ∷ [])
Taken-snoc t c k a r = record {
  chars = All-snoc _ t c k.chars a;
  room = λ n h. elim (Bool-cases (ltb n (length t))) [
    | inl before ↦ k.room n (ground arith)
    | inr last ↦
        let e : length t ≡ n =
          omega (arith, length-append t (c ∷ []), leb-false (length t) n last) in
        rw e at r
  ];
}

module _ (v : Variable) (rest : Text → Option Captures) where
  -- The whole that the variable takes, with `taken` at its front, and how the rest matches.
  record Split (taken s : Text) (caps : Captures) : Type 0 where
    pub whole : Text
    pub part : Text
    pub left : Text
    pub more : Captures
    pub joined : whole ≡ taken ++ part
    pub captured : caps ≡ (v, whole) ∷ more
    pub parts : s ≡ part ++ left
    pub fits : Fits v whole
    pub matched : rest left ≡ some more

  finish-Split :
      (taken s : Text) (caps : Captures)
      → Taken v taken
      → finish v rest taken s ≡ some caps
      → Split taken s caps
  unfolding finish
  finish-Split taken s caps k h = elim (Option-cases (rest s)) [
    | inl failed ↦ absurd (ground arith)
    | inr (more, found) ↦ record {
      whole = taken;
      part = [];
      left = s;
      more = more;
      joined = sym (append-nil taken);
      captured = ground arith;
      parts = refl;
      fits = record { enough = ground arith; chars = k.chars; room = k.room };
      matched = found;
    }
  ]

  extend_Split :
      (taken s : Text) (c : ℕ) (caps : Captures)
      → Split (taken ++ c ∷ []) s caps
      → Split taken (c ∷ s) caps
  extend_Split taken s c caps h = record {
    whole = h.whole;
    part = c ∷ h.part;
    left = h.left;
    more = h.more;
    joined = h.joined ∙ append_assoc taken (c ∷ []) h.part;
    captured = h.captured;
    parts = ap (◌∷◌ c) h.parts;
    fits = h.fits;
    matched = h.matched;
  }

  match_token-Split :
      (taken s : Text) (caps : Captures)
      → Taken v taken
      → match_token v rest taken s ≡ some caps
      → Split taken s caps
  unfolding match_token
  match_token-Split taken [] caps k h = finish-Split taken [] caps k h
  match_token-Split taken (c ∷ s) caps k h =
      elim (Bool-cases (accepts v c && has_room v (length taken))) [
        | inr stop ↦ finish-Split taken (c ∷ s) caps k (ground arith)
        | inl go ↦ elim (Option-cases (match_token v rest (taken ++ c ∷ []) s)) [
          | inl back ↦ finish-Split taken (c ∷ s) caps k (ground arith)
          | inr (caps', found) ↦ extend_Split taken s c caps (
              match_token-Split (taken ++ c ∷ []) s caps
                (Taken-snoc taken c k (ground arith) (ground arith)) (ground arith))
        ]
      ]

Taken-nil : (v : Variable) → Taken v []
Taken-nil v = record { chars = tt; room = λ n h. absurd (omega arith) }

-- A match is a reading.
pub match_pieces-Matches :
    (ps : List Piece) (s : Text) (caps : Captures)
    → match_pieces ps s ≡ some caps
    → Matches ps caps s
unfolding match_pieces
match_pieces-Matches [] s caps h = ground arith
match_pieces-Matches (literal p ∷ ps) [] caps h = cc
match_pieces-Matches (literal p ∷ ps) (c ∷ s) caps h =
    (s, ground arith, match_pieces-Matches ps s caps (ground arith))
match_pieces-Matches (token v ∷ ps) s caps h =
    let k = match_token-Split v (match_pieces ps) [] s caps (Taken-nil v) h in
    (
      k.whole,
      k.left,
      k.more,
      k.captured,
      k.parts ∙ ap (λ t. t ++ k.left) (sym k.joined),
      k.fits,
      match_pieces-Matches ps k.left k.more k.matched,
    )

module _ (v : Variable) (rest : Text → Option Captures) where
  -- If the variable can stop here, the matcher finds a match, perhaps a longer one.
  stop-found : (taken s : Text) → finish v rest taken s ≢ none → match_token v rest taken s ≢ none
  unfolding match_token
  stop-found taken [] h = h
  stop-found taken (c ∷ s) h = ground arith

  finish-found : (taken s : Text) → Fits v taken → rest s ≢ none → finish v rest taken s ≢ none
  unfolding finish
  finish-found taken s f h = ground (arith, f.enough)

  All-middle : (P : ℕ → Type 0) (t : Text) (c : ℕ) (u : Text) → All P (t ++ c ∷ u) → P c
  All-middle P [] c u h = h.0
  All-middle P (d ∷ t) c u h = All-middle P t c u h.1

  match_token-found :
      (taken part left : Text)
      → Fits v (taken ++ part)
      → rest left ≢ none
      → match_token v rest taken (part ++ left) ≢ none
  unfolding match_token
  match_token-found taken [] left f h =
      stop-found taken left (finish-found taken left (subst (Fits v) (append-nil taken) f) h)
  match_token-found taken (c ∷ part) left f h =
      let a : accepts v c ≡ true = All-middle _ taken c part f.chars in
      let r : has_room v (length taken) ≡ true =
        f.room (length taken) (omega (arith, length-append taken (c ∷ part))) in
      let inner =
        match_token-found (taken ++ c ∷ []) part left
          (subst (Fits v) (sym (append_assoc taken (c ∷ []) part)) f) h in
      ground arith

match_pieces-found :
    (ps : List Piece) (caps : Captures) (s : Text) → Matches ps caps s → match_pieces ps s ≢ none
unfolding match_pieces
match_pieces-found [] caps s m = ground (arith, m.1)
match_pieces-found (literal p ∷ ps) caps s m =
    let inner = match_pieces-found ps caps m.0 m.2 in rw (m.1) (ground arith)
match_pieces-found (token v ∷ ps) caps s m =
    let (t, r, more, captured, parts, fits, matched) = m in
    rw parts
      (match_token-found v (match_pieces ps) [] t r fits (match_pieces-found ps more r matched))

-- The matcher decides whether the pieces of a format can read a text: it finds a match that reads the whole
-- text, each variable by as many characters as it may take, all of which it accepts, or it finds none, and
-- then no captures are such a reading.
pub match_pieces_total :
    (ps : List Piece) (s : Text)
    → ((caps : Captures) × (match_pieces ps s ≡ some caps) × Matches ps caps s)
      ⊎ ((match_pieces ps s ≡ none) × ((caps : Captures) → ¬ (Matches ps caps s)))
match_pieces_total ps s = elim (Option-cases (match_pieces ps s)) [
  | inl gone ↦ inr (gone, λ caps m. match_pieces-found ps caps s m gone)
  | inr (caps, h) ↦ inl (caps, h, match_pieces-Matches ps s caps h)
]
