-- ===== src/Python/Ipaddress/V4/Laws.antt =====
-- An address that is printed is read back.
use ip_scout.Prelude.{
  ℕ, ◌+◌, ◌*◌, ◌/◌, ◌%◌, ◌<◌, ◌≡◌, refl, ap, ◌∙◌, Bool, true, false, some, [], ◌∷◌, ◌++◌, ◌==◌, ltb,
  arith, any, between, Text, Bool-cases, inl, inr,
}
use ip_scout.Python.Split.{split}
use ip_scout.Python.Split.Laws.{split-append, split-none}
use ip_scout.Python.Ipaddress.V4.{octet, of_octets, parse, print_octet, print}

octet-print_octet : (n : ℕ) → n < 256 → octet (print_octet n) ≡ some n
unfolding octet print_octet
octet-print_octet n h = elim (Bool-cases (ltb n 10)) [
  | inl one ↦ ground arith
  | inr more ↦ elim (Bool-cases (ltb n 100)) [ inl two ↦ ground arith | inr three ↦ ground arith ]
]

no_other :
    (c n : ℕ) → n < 256 → between b'0' b'9' c ≡ false → any (λ d. d == c) (print_octet n) ≡ false
unfolding print_octet any
no_other c n h no_digit = elim (Bool-cases (ltb n 10)) [
  | inl one ↦ ground arith
  | inr more ↦ elim (Bool-cases (ltb n 100)) [ inl two ↦ ground arith | inr three ↦ ground arith ]
]

no_dot : (n : ℕ) → n < 256 → any (λ c. c == b'.') (print_octet n) ≡ false
no_dot n h = no_other b'.' n h refl

split-print :
    (a b c d : ℕ)
    → a < 256
    → b < 256
    → c < 256
    → d < 256
    → split b'.'
        (print_octet a ++ b'.' ∷ (print_octet b ++ b'.' ∷ (print_octet c ++ b'.' ∷ print_octet d)))
      ≡ print_octet a ∷ print_octet b ∷ print_octet c ∷ print_octet d ∷ []
split-print a b c d ha hb hc hd =
    split-append b'.' (print_octet a) _ (no_dot a ha)
    ∙ ap (◌∷◌ (print_octet a)) (
        split-append b'.' (print_octet b) _ (no_dot b hb)
        ∙ ap (◌∷◌ (print_octet b)) (
            split-append b'.' (print_octet c) _ (no_dot c hc)
            ∙ ap (◌∷◌ (print_octet c)) (split-none b'.' (print_octet d) (no_dot d hd))))

of_octets-print :
    (a b c d : ℕ)
    → a < 256
    → b < 256
    → c < 256
    → d < 256
    → of_octets (print_octet a ∷ print_octet b ∷ print_octet c ∷ print_octet d ∷ [])
      ≡ some (((a * 256 + b) * 256 + c) * 256 + d)
unfolding of_octets
of_octets-print a b c d ha hb hc hd =
    rw (octet-print_octet a ha)
      (rw (octet-print_octet b hb) (rw (octet-print_octet c hc) (rw (octet-print_octet d hd) refl)))

-- An IPv4 address that is printed is read back.
pub parse-print : (n : ℕ) → n < 4294967296 → parse (print n) ≡ some n
unfolding parse print
parse-print n h =
    let a = n / 16777216 % 256 in
    let b = n / 65536 % 256 in
    let c = n / 256 % 256 in
    let d = n % 256 in
    let whole : ((a * 256 + b) * 256 + c) * 256 + d ≡ n = omega arith in
    ap of_octets (split-print a b c d (omega arith) (omega arith) (omega arith) (omega arith))
    ∙ of_octets-print a b c d (omega arith) (omega arith) (omega arith) (omega arith)
    ∙ ap some whole

any_append :
    (p : ℕ → Bool) (xs ys : Text) → any p xs ≡ false → any p ys ≡ false → any p (xs ++ ys) ≡ false
unfolding any
any_append p [] ys h k = k
any_append p (x ∷ xs) ys h k = ground (arith, any_append p xs ys)

dotted_free :
    (c n : ℕ) (s : Text)
    → n < 256
    → between b'0' b'9' c ≡ false
    → (b'.' == c) ≡ false
    → any (λ d. d == c) s ≡ false
    → any (λ d. d == c) (print_octet n ++ b'.' ∷ s) ≡ false
unfolding any
dotted_free c n s h no_digit no_point k =
    any_append (λ d. d == c) (print_octet n) (b'.' ∷ s) (no_other c n h no_digit) (rw no_point k)

-- A character that is neither a digit nor a point does not occur.
pub print-free :
    (c n : ℕ)
    → between b'0' b'9' c ≡ false
    → (b'.' == c) ≡ false
    → any (λ d. d == c) (print n) ≡ false
unfolding print
print-free c n no_digit no_point =
    dotted_free c (n / 16777216 % 256) _ (omega arith) no_digit no_point (
      dotted_free c (n / 65536 % 256) _ (omega arith) no_digit no_point (
        dotted_free c (n / 256 % 256) _ (omega arith) no_digit no_point
          (no_other c (n % 256) (omega arith) no_digit)))

any-behind : (p : ℕ → Bool) (xs ys : Text) (c : ℕ) → p c ≡ true → any p (xs ++ c ∷ ys) ≡ true
unfolding any
any-behind p [] ys c h = rw (h, any) refl
any-behind p (x ∷ xs) ys c h = ground (arith, any-behind p xs ys c h)

pub print-dotted : (n : ℕ) → any (λ c. c == b'.') (print n) ≡ true
unfolding print
print-dotted n = any-behind (λ c. c == b'.') (print_octet (n / 16777216 % 256)) _ b'.' refl
