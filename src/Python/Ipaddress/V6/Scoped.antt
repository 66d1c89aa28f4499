-- ===== src/Python/Ipaddress/V6/Scoped.antt =====
-- An IPv6 address that is printed can be read back.
use ip_scout.Prelude.{
  ℕ, ◌≡◌, refl, sym, ap, ◌∙◌, true, false, ◌||◌, none, some, is_some, [], ◌∷◌, ◌++◌, Text, ◌==◌,
  any, if◌then◌else◌, arith, Bool-cases, Option-cases, inl, inr, subst,
}
use ip_scout.Python.Strip.{is_nil}
use ip_scout.Python.Ipaddress.V6.{hex_value, of_text, partition, parse, print}
use ip_scout.Python.Ipaddress.V6.Digits.{Free}
use ip_scout.Python.Ipaddress.V6.Printed.{Free-append, text_of, text_of-Free, text_of_total}

partition-Free : (c : ℕ) (s : Text) → Free c s → partition c s ≡ (s, none)
unfolding partition any
partition-Free c [] h = refl
partition-Free c (d ∷ s) h =
    let other : (d == c) ≡ false = ground arith in
    rw (other, partition) (rw (partition-Free c s (ground arith)) refl)

partition-append : (c : ℕ) (s t : Text) → Free c s → partition c (s ++ c ∷ t) ≡ (s, some t)
unfolding partition any
partition-append c [] t h = ground arith
partition-append c (d ∷ s) t h =
    let other : (d == c) ≡ false = ground arith in
    rw (other, partition) (rw (partition-append c s t (ground arith)) refl)

-- What follows the first "%" holds no character that the whole does not hold.
partition-rest :
    (c e : ℕ) (s before after : Text)
    → partition c s ≡ (before, some after)
    → Free e s
    → Free e after
unfolding partition any
partition-rest c e [] before after h free = absurd (ground arith)
partition-rest c e (d ∷ s) before after h free = elim (Bool-cases (d == c)) [
  | inl found ↦ let same : s ≡ after = ground arith in subst (Free e) same (ground arith)
  | inr other ↦ partition-rest c e s (partition c s).0 after (ground arith) (ground arith)
]

-- The scope of an address.
abbrev Clean : Text → Type 0
Clean scope = Free b'%' scope × Free b'/' scope

parse_plain :
    (s address : Text) (n : ℕ)
    → partition b'%' s ≡ (address, none)
    → Free b'/' s
    → of_text address ≡ some n
    → parse s ≡ some (n, [])
unfolding parse
parse_plain s address n p no_slash found =
    let first : (partition b'%' s).0 ≡ address = ap (λ q. q.0) p in
    let second : (partition b'%' s).1 ≡ none = ap (λ q. q.1) p in
    let read = ap of_text first ∙ found in rw (no_slash, parse) (rw second (rw read refl))

parse_scoped :
    (s address id : Text) (n : ℕ)
    → partition b'%' s ≡ (address, some id)
    → Free b'/' s
    → (is_nil id || any (λ c. c == b'%') id) ≡ false
    → of_text address ≡ some n
    → parse s ≡ some (n, id)
unfolding parse
parse_scoped s address id n p no_slash fine found =
    let first : (partition b'%' s).0 ≡ address = ap (λ q. q.0) p in
    let second : (partition b'%' s).1 ≡ some id = ap (λ q. q.1) p in
    let read = ap of_text first ∙ found in rw (no_slash, parse) (rw second (rw fine (rw read refl)))

scope_total :
    (address scope : Text)
    → Free b'%' address
    → Free b'/' address
    → is_some (of_text address) ≡ true
    → Clean scope
    → is_some (parse (if is_nil scope then address else address ++ b'%' ∷ scope)) ≡ true
unfolding any
scope_total address scope no_mark no_slash read (a, b) = elim (Option-cases (of_text address)) [
  | inl missing ↦ absurd (ground arith)
  | inr (n, found) ↦ with_scope scope a b n found
]
  where
    with_scope :
        (scope : Text)
        → Free b'%' scope
        → Free b'/' scope
        → (n : ℕ) → of_text address ≡ some n
        → is_some (parse (if is_nil scope then address else address ++ b'%' ∷ scope)) ≡ true
    with_scope [] a b n found =
        ap is_some
          (parse_plain address address n (partition-Free b'%' address no_mark) no_slash found)
    with_scope (c ∷ scope) a b n found = ap is_some (
        parse_scoped (address ++ b'%' ∷ c ∷ scope) address (c ∷ scope) n
          (partition-append b'%' address (c ∷ scope) no_mark)
          (Free-append b'/' address (b'%' ∷ c ∷ scope) no_slash b) a found)

parse-Clean : (s : Text) (n : ℕ) (scope : Text) → parse s ≡ some (n, scope) → Clean scope
unfolding parse any
parse-Clean s n scope h = elim (Bool-cases (any (λ c. c == b'/') s)) [
  | inl slash ↦ absurd (ground arith)
  | inr no_slash ↦ elim (Option-cases (partition b'%' s).1) [
    | inl without ↦ elim (Option-cases (of_text (partition b'%' s).0)) [
      | inl missing ↦ absurd (ground arith)
      | inr (m, found) ↦ let e : scope ≡ [] = ground arith in subst Clean (sym e) (refl, refl)
    ]
    | inr (id, there) ↦ elim (Bool-cases (is_nil id || any (λ c. c == b'%') id)) [
      | inl wrong ↦ absurd (ground arith)
      | inr fine ↦ elim (Option-cases (of_text (partition b'%' s).0)) [
        | inl missing ↦ absurd (ground arith)
        | inr (m, found) ↦
            let e : id ≡ scope = ground arith in
            let p : partition b'%' s ≡ ((partition b'%' s).0, some id) =
              ap (λ o. ((partition b'%' s).0, o)) there in
            subst Clean e
              (ground arith, partition-rest b'%' b'/' s (partition b'%' s).0 id p no_slash)
      ]
    ]
  ]
]

-- An address that is read is printed as a text that can be read.
pub parse-print_total :
    (s : Text) (n : ℕ) (scope : Text)
    → parse s ≡ some (n, scope)
    → is_some (parse (print n scope)) ≡ true
unfolding print hex_value
parse-print_total s n scope h =
    scope_total (text_of n) scope (text_of-Free b'%' n refl refl refl refl)
      (text_of-Free b'/' n refl refl refl refl) (text_of_total n) (parse-Clean s n scope h)
