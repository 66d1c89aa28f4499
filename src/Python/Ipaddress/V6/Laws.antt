-- ===== src/Python/Ipaddress/V6/Laws.antt =====
-- An IPv6 address that is printed can be read back.
use ip_scout.Prelude.{
  ℕ, zero, suc, ◌+◌, ◌-◌, ◌<◌, ◌≤◌, ◌≡◌, refl, true, false, not, is_some, List, [], ◌∷◌, ◌++◌, Text,
  ◌==◌, ltb, length, length-append, any, take, drop, map, All, arith, Bool-cases, inl, inr,
}
use ip_scout.Python.Strip.{is_nil}
use ip_scout.Python.Ipaddress.V6.{hex_value, first, print_hextet, of_parts, join}
use ip_scout.Python.Ipaddress.V6.{longest_run, compress, hextets_of, print_number}
use ip_scout.Python.Ipaddress.V6.Digits.{Hextet, print_hextet-Hextet, hextets_total}
use ip_scout.Python.Ipaddress.V6.Parts.{
  of_parts-middle, of_parts-front, of_parts-back, of_parts-nothing, empty_parts-full, last-full,
}

-- The run of zeros that is found lies within the parts.
longest_run-within :
    (i run best best_length : ℕ) (hs : List ℕ)
    → run ≤ i
    → best + best_length ≤ i
    → (longest_run i run best best_length hs).0 + (longest_run i run best best_length hs).1
      ≤ i + length hs
unfolding longest_run
longest_run-within i run best best_length [] r b = omega arith
longest_run-within i run best best_length (h ∷ hs) r b = elim (Bool-cases (h == 0)) [
  | inr other ↦
      let rest = longest_run-within (suc i) 0 best best_length hs (omega arith) (omega arith) in
      rw (other, longest_run) (omega (arith, rest))
  | inl zero_part ↦ elim (Bool-cases (ltb best_length (suc run))) [
    | inl longer ↦
        let rest =
          longest_run-within (suc i) (suc run) (i - run) (suc run) hs (omega arith) (omega arith) in
        rw (zero_part, longest_run) (rw (longer, longest_run) (omega (arith, rest)))
    | inr shorter ↦
        let rest =
          longest_run-within (suc i) (suc run) best best_length hs (omega arith) (omega arith) in
        rw (zero_part, longest_run) (rw (shorter, longest_run) (omega (arith, rest)))
  ]
]

All-take : (n : ℕ) (ts : List Text) → All Hextet ts → All Hextet (take n ts)
All-take zero ts all = tt
All-take (suc n) [] all = tt
All-take (suc n) (t ∷ ts) (h, all) = (h, All-take n ts all)

All-drop : (n : ℕ) (ts : List Text) → All Hextet ts → All Hextet (drop n ts)
All-drop zero ts all = all
All-drop (suc n) [] all = tt
All-drop (suc n) (t ∷ ts) (h, all) = All-drop n ts all

length-take : (n : ℕ) (ts : List Text) → n ≤ length ts → length (take n ts) ≡ n
length-take zero ts h = refl
length-take (suc n) [] h = absurd (omega arith)
length-take (suc n) (t ∷ ts) h = omega (arith, length-take n ts (omega arith))

length-drop : (n : ℕ) (ts : List Text) → n ≤ length ts → n + length (drop n ts) ≡ length ts
length-drop zero ts h = omega arith
length-drop (suc n) [] h = absurd (omega arith)
length-drop (suc n) (t ∷ ts) h = omega (arith, length-drop n ts (omega arith))

-- Hexadecimal digits, or nothing.
abbrev pub Tidy : Text → Type 0
Tidy t = any (λ c. not (is_some (hex_value c))) t ≡ false

-- Parts that the printed form of a number is joined from.
pub record Written (parts : List Text) : Type 0 where
  pub tidy : All Tidy parts
  pub read : is_some (of_parts parts) ≡ true
  pub many : 3 ≤ length parts

All-Tidy : (ts : List Text) → All Hextet ts → All Tidy ts
All-Tidy [] all = tt
All-Tidy (t ∷ ts) (h, all) = (h.digits, All-Tidy ts all)

All-append : (ts us : List Text) → All Tidy ts → All Tidy us → All Tidy (ts ++ us)
All-append [] us all back = back
All-append (t ∷ ts) us (h, all) back = (h, All-append ts us all back)

all_parts-Written : (ts : List Text) → All Hextet ts → length ts ≡ 8 → Written ts
unfolding of_parts first
all_parts-Written [] all size = absurd (omega arith)
all_parts-Written (t ∷ ts) all size =
    let front : is_nil (first (t ∷ ts)) ≡ false = all.0.full in
    let back = last-full t ts all in
    let none_empty = empty_parts-full 0 (t ∷ ts) all in
    let read = hextets_total 0 (t ∷ ts) all in
    record { tidy = All-Tidy (t ∷ ts) all; read = ground arith; many = omega arith }

front-Written :
    (ts : List Text) → All Hextet ts → 0 < length ts → length ts ≤ 7 → Written (ts ++ [] ∷ [] ∷ [])
unfolding any
front-Written [] all some_part fits = absurd (omega arith)
front-Written (t ∷ ts) all some_part fits = record {
  tidy = All-append (t ∷ ts) ([] ∷ [] ∷ []) (All-Tidy (t ∷ ts) all) (refl, (refl, tt));
  read = of_parts-front t ts all fits;
  many = omega (arith, length-append (t ∷ ts) ([] ∷ [] ∷ []));
}

back-Written :
    (us : List Text) → All Hextet us → 0 < length us → length us ≤ 7 → Written ([] ∷ [] ∷ us)
unfolding any
back-Written [] all some_part fits = absurd (omega arith)
back-Written (u ∷ us) all some_part fits = record {
  tidy = (refl, (refl, All-Tidy (u ∷ us) all));
  read = of_parts-back u us all fits;
  many = omega arith;
}

middle-Written :
    (ts us : List Text)
    → All Hextet ts
    → All Hextet us
    → 0 < length ts
    → 0 < length us
    → length ts + length us ≤ 7
    → Written (ts ++ [] ∷ us)
unfolding any
middle-Written [] us front back a b fits = absurd (omega arith)
middle-Written (t ∷ ts) [] front back a b fits = absurd (omega arith)
middle-Written (t ∷ ts) (u ∷ us) front back a b fits = record {
  tidy = All-append (t ∷ ts) ([] ∷ u ∷ us) (All-Tidy (t ∷ ts) front) (refl, All-Tidy (u ∷ us) back);
  read = of_parts-middle t u ts us front back fits;
  many = omega (arith, length-append (t ∷ ts) ([] ∷ u ∷ us));
}

nothing-Written : Written ([] ∷ [] ∷ [] ∷ [])
unfolding any
nothing-Written = record {
  tidy = (refl, (refl, (refl, tt)));
  read = of_parts-nothing;
  many = omega arith;
}

All-print_hextet : (hs : List ℕ) → All (λ h. h < 65536) hs → All Hextet (map print_hextet hs)
All-print_hextet [] all = tt
All-print_hextet (h ∷ hs) (small, all) = (print_hextet-Hextet h small, All-print_hextet hs all)

length-texts : (hs : List ℕ) → length (map print_hextet hs) ≡ length hs
length-texts [] = refl
length-texts (h ∷ hs) = omega (arith, length-texts hs)

compress-Written :
    (hs : List ℕ) (start run : ℕ)
    → All (λ h. h < 65536) hs
    → length hs ≡ 8
    → start + run ≤ 8
    → (parts : List Text) × (compress hs (start, run) ≡ join parts) × Written parts
unfolding compress
compress-Written hs start run small size within =
    let texts = map print_hextet hs in
    let all = All-print_hextet hs small in
    let same = length-texts hs in
    let before = length-take start texts (omega arith) in
    let behind = length-drop (start + run) texts (omega arith) in
    let front = All-take start texts all in
    let back = All-drop (start + run) texts all in
    elim (Bool-cases (ltb run 2)) [
      | inl few ↦ (texts, rw (few, compress) refl, all_parts-Written texts all (omega arith))
      | inr more ↦ elim (Bool-cases (start == 0)) [
        | inl at_start ↦ elim (Bool-cases (start + run == length hs)) [
          | inl at_end ↦ (
            [] ∷ [] ∷ [] ∷ [],
            rw (more, compress) (rw at_start (rw at_end refl)),
            nothing-Written,
          )
          | inr inside ↦ (
            [] ∷ [] ∷ drop (start + run) texts,
            rw (more, compress) (rw at_start (rw inside refl)),
            back-Written (drop (start + run) texts) back (ground arith) (ground arith),
          )
        ]
        | inr later ↦ elim (Bool-cases (start + run == length hs)) [
          | inl at_end ↦ (
            take start texts ++ [] ∷ [] ∷ [],
            rw (more, compress) (rw later (rw at_end refl)),
            front-Written (take start texts) front (ground arith) (ground arith),
          )
          | inr inside ↦ (
            take start texts ++ [] ∷ drop (start + run) texts,
            rw (more, compress) (rw later (rw inside refl)),
            middle-Written (take start texts) (drop (start + run) texts) front back (ground arith)
                (ground arith) (ground arith),
          )
        ]
      ]
    ]

pub print_number-Written :
    (n : ℕ) → (parts : List Text) × (print_number n ≡ join parts) × Written parts
unfolding print_number hextets_of
print_number-Written n =
    let hs = hextets_of n in
    let found = longest_run 0 0 0 0 hs in
    compress-Written hs found.0 found.1
      (
        omega arith,
        (
          omega arith,
          (
            omega arith,
            (omega arith, (omega arith, (omega arith, (omega arith, (omega arith, tt))))),
          ),
        ),
      )
      refl (longest_run-within 0 0 0 0 hs (omega arith) (omega arith))
