-- ===== src/Python/Ipaddress/V6/Parts.antt =====
-- The parts of an IPv6 address with a "::" in it can be read.
use ip_scout.Prelude.{
  ℕ, suc, ◌+◌, ◌-◌, ◌*◌, ◌^◌, ◌≤◌, ◌≡◌, refl, sym, ap, ◌∙◌, true, false, ◌&&◌, ◌||◌, is_some, List,
  [], ◌∷◌, ◌++◌, Text, ltb, length, length-append, take, drop, if◌then◌else◌, All, arith,
  Option-cases, inl, inr, subst,
}
use ip_scout.Python.Strip.{is_nil}
use ip_scout.Python.Ipaddress.V6.{hextets, empty_parts, first, last, around, with_skip, of_parts}
use ip_scout.Python.Ipaddress.V6.Digits.{Hextet, hextets_total}

-- Where the empty parts are.
pub empty_parts-full : (i : ℕ) (ts : List Text) → All Hextet ts → empty_parts i ts ≡ []
unfolding empty_parts
empty_parts-full i [] all = refl
empty_parts-full i (t ∷ []) all = refl
empty_parts-full i (t ∷ u ∷ ts) (h, all) =
    let full = h.full in ground (arith, empty_parts-full (suc i) (u ∷ ts) all)

empty_parts-front :
    (i : ℕ) (ts : List Text) (u : Text) (us : List Text)
    → All Hextet ts
    → empty_parts i (ts ++ u ∷ us) ≡ empty_parts (i + length ts) (u ∷ us)
unfolding empty_parts
empty_parts-front i [] u us all =
    let same : i ≡ i + 0 = omega arith in ap (λ k. empty_parts k (u ∷ us)) same
empty_parts-front i (t ∷ []) u us (h, all) =
    let full = h.full in
    let same : suc i ≡ i + 1 = omega arith in ground (arith, ap (λ k. empty_parts k (u ∷ us)) same)
empty_parts-front i (t ∷ v ∷ ts) u us (h, all) =
    let full = h.full in
    let same : suc i + length (v ∷ ts) ≡ i + length (t ∷ v ∷ ts) = omega arith in
    ground
      (arith, empty_parts-front (suc i) (v ∷ ts) u us all, ap (λ k. empty_parts k (u ∷ us)) same)

around_total :
    (before after : ℕ) (parts : List Text)
    → (is_nil (first parts) ≡ true → before ≡ 0)
    → (is_nil (last parts) ≡ true → after ≡ 0)
    → before + after ≤ 7
    → All Hextet (take before parts)
    → All Hextet (drop (length parts - after) parts)
    → is_some (around before after parts) ≡ true
unfolding around
around_total before after parts fb lb fits high low =
    let fine : (is_nil (first parts) && ltb 0 before
          || is_nil (last parts) && ltb 0 after
          || ltb 7 (before + after))
        ≡ false =
      ground arith in
    elim (Option-cases (hextets 0 (take before parts))) [
      | inl missing ↦ let there = hextets_total 0 (take before parts) high in absurd (ground arith)
      | inr (v, found) ↦
          let rest =
            hextets_total (v * 65536 ^ (8 - (before + after))) (drop (length parts - after) parts)
              low in
          rw (fine, found, is_some) rest
    ]

with_skip_total :
    (skip : ℕ) (parts : List Text) (before after : ℕ)
    → (if is_nil (first parts) then skip - 1 else skip) ≡ before
    → (if is_nil (last parts) then length parts - skip - 1 - 1 else length parts - skip - 1) ≡ after
    → is_some (around before after parts) ≡ true
    → is_some (with_skip skip parts) ≡ true
unfolding with_skip
with_skip_total skip parts before after b a h =
    subst
      (λ k.
        is_some (
          around k
            (if is_nil (last parts) then length parts - skip - 1 - 1 else length parts - skip - 1)
            parts)
        ≡ true)
      (sym b) (subst (λ k. is_some (around before k parts) ≡ true) (sym a) h)

of_parts_skip :
    (skip : ℕ) (parts : List Text)
    → empty_parts 0 parts ≡ skip ∷ []
    → length parts ≤ 9
    → is_some (with_skip skip parts) ≡ true
    → is_some (of_parts parts) ≡ true
unfolding of_parts
of_parts_skip skip parts e fits h =
    let short : ltb 9 (length parts) ≡ false = ground arith in rw (short, e, of_parts) h

take-append : (ts us : List Text) → take (length ts) (ts ++ us) ≡ ts
take-append [] us = refl
take-append (t ∷ ts) us = ap (◌∷◌ t) (take-append ts us)

-- What stands behind a list and one more part.
drop-behind :
    (ts : List Text) (u : Text) (us : List Text)
    → drop (length (ts ++ u ∷ us) - length us) (ts ++ u ∷ us) ≡ us
drop-behind ts u us =
    let n : length (ts ++ u ∷ us) - length us ≡ suc (length ts) =
      omega (arith, length-append ts (u ∷ us)) in
    ap (λ k. drop k (ts ++ u ∷ us)) n ∙ behind ts
  where
    behind : (xs : List Text) → drop (suc (length xs)) (xs ++ u ∷ us) ≡ us
    behind [] = refl
    behind (x ∷ xs) = behind xs

drop-all : (ts : List Text) → drop (length ts - 0) ts ≡ []
drop-all [] = refl
drop-all (t ∷ ts) =
    let same : length (t ∷ ts) - 0 ≡ suc (length ts) = omega arith in
    ap (λ k. drop k (t ∷ ts)) same ∙ drop-all' ts
  where
    drop-all' : (xs : List Text) → drop (length xs) xs ≡ []
    drop-all' [] = refl
    drop-all' (x ∷ xs) = drop-all' xs

last-behind :
    (ts : List Text) (u v : Text) (us : List Text) → last (ts ++ u ∷ v ∷ us) ≡ last (v ∷ us)
unfolding last
last-behind [] u v us = refl
last-behind (t ∷ []) u v us = refl
last-behind (t ∷ t' ∷ ts) u v us = last-behind (t' ∷ ts) u v us

pub last-full : (t : Text) (ts : List Text) → All Hextet (t ∷ ts) → is_nil (last (t ∷ ts)) ≡ false
unfolding last
last-full t [] all = all.0.full
last-full t (u ∷ ts) all = last-full u ts all.1

-- The four forms that a text with a "::" has: with or without parts in front of it and behind it.
pub of_parts-middle :
    (t u : Text) (ts us : List Text)
    → All Hextet (t ∷ ts)
    → All Hextet (u ∷ us)
    → length (t ∷ ts) + length (u ∷ us) ≤ 7
    → is_some (of_parts ((t ∷ ts) ++ [] ∷ u ∷ us)) ≡ true
unfolding empty_parts first
of_parts-middle t u ts us front back fits =
    let parts = (t ∷ ts) ++ [] ∷ u ∷ us in
    let size = length-append (t ∷ ts) ([] ∷ u ∷ us) in
    let skip = length (t ∷ ts) in
    let here : 0 + length (t ∷ ts) ≡ skip = omega arith in
    let there : empty_parts 0 parts ≡ skip ∷ [] =
      empty_parts-front 0 (t ∷ ts) [] (u ∷ us) front
      ∙ ap (λ k. empty_parts k ([] ∷ u ∷ us)) here
      ∙ ground (arith, empty_parts-full (suc skip) (u ∷ us) back) in
    let no_front : is_nil (first parts) ≡ false = front.0.full in
    let no_back : is_nil (last parts) ≡ false =
      ap is_nil (last-behind (t ∷ ts) [] u us) ∙ last-full u us back in
    of_parts_skip skip parts there (omega (arith, size)) (
      with_skip_total skip parts skip (length (u ∷ us)) (rw no_front refl)
        (rw no_back (omega (arith, size)))
        (around_total skip (length (u ∷ us)) parts (λ h. absurd (ground arith))
          (λ h. absurd (ground arith)) fits
          (subst (All Hextet) (sym (take-append (t ∷ ts) ([] ∷ u ∷ us))) front)
          (subst (All Hextet) (sym (drop-behind (t ∷ ts) [] (u ∷ us))) back)))

pub of_parts-front :
    (t : Text) (ts : List Text)
    → All Hextet (t ∷ ts)
    → length (t ∷ ts) ≤ 7
    → is_some (of_parts ((t ∷ ts) ++ [] ∷ [] ∷ [])) ≡ true
unfolding empty_parts first last
of_parts-front t ts front fits =
    let parts = (t ∷ ts) ++ [] ∷ [] ∷ [] in
    let size = length-append (t ∷ ts) ([] ∷ [] ∷ []) in
    let skip = length (t ∷ ts) in
    let here : 0 + length (t ∷ ts) ≡ skip = omega arith in
    let there : empty_parts 0 parts ≡ skip ∷ [] =
      empty_parts-front 0 (t ∷ ts) [] ([] ∷ []) front
      ∙ ap (λ k. empty_parts k ([] ∷ [] ∷ [])) here
      ∙ ground arith in
    let no_front : is_nil (first parts) ≡ false = front.0.full in
    let a_back : is_nil (last parts) ≡ true = ap is_nil (last-behind (t ∷ ts) [] [] []) in
    of_parts_skip skip parts there (omega (arith, size)) (
      with_skip_total skip parts skip 0 (rw no_front refl) (rw a_back (omega (arith, size))) (
        around_total skip 0 parts (λ h. absurd (ground arith)) (λ h. refl) (omega (arith, fits))
          (subst (All Hextet) (sym (take-append (t ∷ ts) ([] ∷ [] ∷ []))) front)
          (subst (All Hextet) (sym (drop-all parts)) tt)))

pub of_parts-back :
    (u : Text) (us : List Text)
    → All Hextet (u ∷ us)
    → length (u ∷ us) ≤ 7
    → is_some (of_parts ([] ∷ [] ∷ u ∷ us)) ≡ true
unfolding empty_parts first last
of_parts-back u us back fits =
    let parts = [] ∷ [] ∷ u ∷ us in
    let there : empty_parts 0 parts ≡ 1 ∷ [] = ground (arith, empty_parts-full 2 (u ∷ us) back) in
    let no_back : is_nil (last parts) ≡ false = last-full u us back in
    of_parts_skip 1 parts there (omega arith) (
      with_skip_total 1 parts 0 (length (u ∷ us)) refl (rw no_back (omega arith)) (
        around_total 0 (length (u ∷ us)) parts (λ h. refl) (λ h. absurd (ground arith))
          (omega arith) tt (subst (All Hextet) (sym (drop-behind ([] ∷ []) [] (u ∷ us))) back)))

pub of_parts-nothing : is_some (of_parts ([] ∷ [] ∷ [] ∷ [])) ≡ true
unfolding of_parts empty_parts with_skip first last hextets
of_parts-nothing = refl
