-- ===== src/Python/Ipaddress/V6/Digits.antt =====
-- The parts of an IPv6 address, their digits, and their joining.
use ip_scout.Prelude.{
  ℕ, ◌+◌, ◌*◌, ◌/◌, ◌%◌, ◌<◌, ◌≤◌, ◌≡◌, refl, ap, ◌∙◌, true, false, not, ◌||◌, none, some, is_some,
  List, [], ◌∷◌, Text, ◌==◌, ltb, length, any, All, arith, Bool-cases, Option-cases, inl, inr,
}
use ip_scout.Python.Strip.{is_nil}
use ip_scout.Python.Split.{split}
use ip_scout.Python.Split.Laws.{split-append, split-none}
use ip_scout.Python.Ipaddress.V6.{
  hex_value, hex_from, hextet, hextets, dotted, hex_digit, print_hextet, join,
}

-- One to four hexadecimal digits.
pub record Hextet (t : Text) : Type 0 where
  pub full : is_nil t ≡ false
  pub short : length t ≤ 4
  pub digits : any (λ c. not (is_some (hex_value c))) t ≡ false

hex_value-digit : (d : ℕ) → d < 16 → is_some (hex_value (hex_digit d)) ≡ true
unfolding hex_value hex_digit
hex_value-digit d h = ground arith

pub print_hextet-Hextet : (n : ℕ) → n < 65536 → Hextet (print_hextet n)
unfolding print_hextet any
print_hextet-Hextet n h =
    let a = hex_value-digit (n / 4096) (omega arith) in
    let b = hex_value-digit (n / 256 % 16) (omega arith) in
    let c = hex_value-digit (n / 16 % 16) (omega arith) in
    let d = hex_value-digit (n % 16) (omega arith) in
    elim (Bool-cases (ltb n 16)) [
      | inl one ↦
          let v = hex_value-digit n (ground arith) in
          rw one (record { full = refl; short = omega arith; digits = ground arith })
      | inr more ↦ elim (Bool-cases (ltb n 256)) [
        | inl two ↦
            let v = hex_value-digit (n / 16) (ground arith) in
            rw (more, two) (record { full = refl; short = omega arith; digits = ground arith })
        | inr more' ↦ elim (Bool-cases (ltb n 4096)) [
          | inl three ↦
              let v = hex_value-digit (n / 256) (ground arith) in
              rw (more, more', three)
                (record { full = refl; short = omega arith; digits = ground arith })
          | inr four ↦
              rw (more, more', four)
                (record { full = refl; short = omega arith; digits = ground arith })
        ]
      ]
    ]

hex_from_total :
    (acc : ℕ) (t : Text)
    → any (λ c. not (is_some (hex_value c))) t ≡ false
    → is_some (hex_from acc t) ≡ true
unfolding hex_from any
hex_from_total acc [] h = refl
hex_from_total acc (c ∷ t) h = elim (Option-cases (hex_value c)) [
  | inl missing ↦ absurd (ground arith)
  | inr (d, found) ↦ ground (arith, hex_from_total (acc * 16 + d) t)
]

hextet_total : (t : Text) → Hextet t → is_some (hextet t) ≡ true
unfolding hextet
hextet_total t h =
    let fits : (is_nil t || ltb 4 (length t)) ≡ false =
      let full = h.full in let short = h.short in ground arith in
    rw fits (hex_from_total 0 t h.digits)

pub hextets_total : (acc : ℕ) (ts : List Text) → All Hextet ts → is_some (hextets acc ts) ≡ true
unfolding hextets
hextets_total acc [] all = refl
hextets_total acc (t ∷ ts) (h, all) = elim (Option-cases (hextet t)) [
  | inl missing ↦ let there = hextet_total t h in absurd (ground arith)
  | inr (v, found) ↦ let rest = hextets_total (acc * 65536 + v) ts all in ground arith
]

-- A character that is no digit does not occur.
pub Hextet-free :
    (c : ℕ) (t : Text)
    → is_some (hex_value c) ≡ false
    → any (λ d. not (is_some (hex_value d))) t ≡ false
    → any (λ d. d == c) t ≡ false
unfolding any
Hextet-free c [] no_digit h = refl
Hextet-free c (d ∷ t) no_digit h = elim (Bool-cases (d == c)) [
  | inl same ↦
      let e : d ≡ c = ground arith in
      let v : is_some (hex_value d) ≡ false = ap (λ x. is_some (hex_value x)) e ∙ no_digit in
      absurd (ground arith)
  | inr other ↦ ground (arith, Hextet-free c t no_digit)
]

abbrev pub Free : ℕ → Text → Type 0
Free c t = any (λ d. d == c) t ≡ false

pub split-join :
    (t : Text) (ts : List Text) → All (Free b':') (t ∷ ts) → split b':' (join (t ∷ ts)) ≡ t ∷ ts
unfolding join
split-join t [] h = split-none b':' t h.0
split-join t (u ∷ ts) h = split-append b':' t (join (u ∷ ts)) h.0 ∙ ap (◌∷◌ t) (split-join u ts h.1)

-- Parts without a dot are left as they are.
pub dotted-plain : (ts : List Text) → All (Free b'.') ts → dotted ts ≡ some (ts, none)
unfolding dotted
dotted-plain [] h = refl
dotted-plain (t ∷ []) h = rw (h.0) refl
dotted-plain (t ∷ u ∷ ts) h = rw (dotted-plain (u ∷ ts) h.1) refl
