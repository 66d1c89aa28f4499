-- ===== src/Python/Ipaddress/V6/Printed.antt =====
-- The text of an IPv6 number can be read.
use ip_scout.Prelude.{
  ℕ, ◌/◌, ◌%◌, ◌<◌, ◌≤◌, ◌≡◌, refl, sym, ap, ◌∙◌, true, false, some, is_some, List, [], ◌∷◌, ◌++◌,
  Text, ◌==◌, ltb, between, length, codes, any, if◌then◌else◌, All, arith, Bool-cases, inl, inr,
  subst,
}
use ip_scout.Python.Strip.{is_nil}
use ip_scout.Python.Split.{split}
use ip_scout.Python.Split.Laws.{split-append, split-none}
use ip_scout.Python.Ipaddress.V4
use ip_scout.Python.Ipaddress.V4.Laws.{parse-print, print-free, print-dotted}
use ip_scout.Python.Ipaddress.V6.{
  hex_value, dotted, of_parts, of_text, join, print_hextet, print_number,
}
use ip_scout.Python.Ipaddress.V6.Digits.{
  Hextet-free, print_hextet-Hextet, Free, split-join, dotted-plain,
}
use ip_scout.Python.Ipaddress.V6.Parts.{of_parts-back}
use ip_scout.Python.Ipaddress.V6.Laws.{Tidy, Written, print_number-Written}

All-Free : (c : ℕ) (ts : List Text) → is_some (hex_value c) ≡ false → All Tidy ts → All (Free c) ts
All-Free c [] no_digit all = tt
All-Free c (t ∷ ts) no_digit (h, all) = (Hextet-free c t no_digit h, All-Free c ts no_digit all)

pub Free-append : (c : ℕ) (xs ys : Text) → Free c xs → Free c ys → Free c (xs ++ ys)
unfolding any
Free-append c [] ys h k = k
Free-append c (x ∷ xs) ys h k =
    let other : (x == c) ≡ false = ground arith in
    rw (other, any) (Free-append c xs ys (ground arith) k)

join-Free : (c : ℕ) (ts : List Text) → (b':' == c) ≡ false → All (Free c) ts → Free c (join ts)
unfolding join any
join-Free c [] other all = refl
join-Free c (t ∷ []) other all = all.0
join-Free c (t ∷ u ∷ ts) other all =
    Free-append c t (b':' ∷ join (u ∷ ts)) all.0
      (rw (other, any) (join-Free c (u ∷ ts) other all.1))

join-full : (ts : List Text) → 3 ≤ length ts → is_nil (join ts) ≡ false
unfolding join
join-full [] many = absurd (omega arith)
join-full (t ∷ []) many = absurd (omega arith)
join-full ([] ∷ u ∷ ts) many = refl
join-full ((c ∷ t) ∷ u ∷ ts) many = refl

join-Written : (ts : List Text) → Written ts → is_some (of_text (join ts)) ≡ true
unfolding of_text
join-Written [] w = let many = w.many in absurd (omega arith)
join-Written (t ∷ ts) w =
    let parts = split-join t ts (All-Free b':' (t ∷ ts) refl w.tidy) in
    let plain = dotted-plain (t ∷ ts) (All-Free b'.' (t ∷ ts) refl w.tidy) in
    let full = join-full (t ∷ ts) w.many in
    let many = w.many in
    let enough : ltb (length (t ∷ ts)) 3 ≡ false = ground arith in
    rw (full, of_text) (rw parts (rw enough (rw (plain, is_some) w.read)))

ends_dotted :
    (s t u v : Text) (n : ℕ)
    → V4.parse v ≡ some n
    → any (λ c. c == b'.') v ≡ true
    → dotted (s ∷ t ∷ u ∷ v ∷ []) ≡ some (s ∷ t ∷ u ∷ [], some n)
unfolding dotted
ends_dotted s t u v n e h = rw (h, dotted) (rw e refl)

mapped_number : print_number 0xffff ≡ codes "::ffff"
unfolding print_number
mapped_number = refl

of_text-dotted :
    (s : Text) (parts front : List Text) (n : ℕ)
    → is_nil s ≡ false
    → split b':' s ≡ parts
    → ltb (length parts) 3 ≡ false
    → dotted parts ≡ some (front, some n)
    → of_text s ≡ of_parts (front ++ print_hextet (n / 65536) ∷ print_hextet (n % 65536) ∷ [])
unfolding of_text
of_text-dotted s parts front n full p enough d =
    rw (full, of_text) (rw p (rw enough (rw (d, of_text) refl)))

-- The dotted form of an IPv4-mapped address can be read.
mapped_total :
    (m : ℕ) → m < 4294967296 → is_some (of_text (print_number 0xffff ++ b':' ∷ V4.print m)) ≡ true
unfolding any print_hextet
mapped_total m small =
    let last = V4.print m in
    let parts : split b':' (codes "::ffff" ++ b':' ∷ last) ≡ [] ∷ [] ∷ codes "ffff" ∷ last ∷ [] =
      split-append b':' [] (b':' ∷ codes "ffff" ++ b':' ∷ last) refl
      ∙ ap (◌∷◌ []) (
          split-append b':' [] (codes "ffff" ++ b':' ∷ last) refl
          ∙ ap (◌∷◌ []) (
              split-append b':' (codes "ffff") last refl
              ∙ ap (◌∷◌ (codes "ffff")) (split-none b':' last (print-free b':' m refl refl)))) in
    let ends = ends_dotted [] [] (codes "ffff") last m (parse-print m small) (print-dotted m) in
    let read =
      of_parts-back (codes "ffff") (print_hextet (m / 65536) ∷ print_hextet (m % 65536) ∷ [])
        (
          print_hextet-Hextet 0xffff (omega arith),
          (
            print_hextet-Hextet (m / 65536) (omega arith),
            (print_hextet-Hextet (m % 65536) (omega arith), tt),
          ),
        )
        (omega arith) in
    rw mapped_number (
      ap is_some (of_text-dotted (codes "::ffff" ++ b':' ∷ last) _ _ m refl parts refl ends) ∙ read)

-- The text of a number, without a scope.
abbrev pub text_of : ℕ → Text
text_of n =
    if n / 4294967296 == 0xffff
    then print_number 0xffff ++ b':' ∷ V4.print (n % 4294967296)
    else print_number n

number_total : (n : ℕ) → is_some (of_text (print_number n)) ≡ true
number_total n = let (parts, e, w) = print_number-Written n in rw e (join-Written parts w)

number-Free :
    (c n : ℕ) → is_some (hex_value c) ≡ false → (b':' == c) ≡ false → Free c (print_number n)
number-Free c n no_digit other =
    let (parts, e, w) = print_number-Written n in
    subst (Free c) (sym e) (join-Free c parts other (All-Free c parts no_digit w.tidy))

pub text_of_total : (n : ℕ) → is_some (of_text (text_of n)) ≡ true
text_of_total n = elim (Bool-cases (n / 4294967296 == 0xffff)) [
  | inl is_mapped ↦ rw is_mapped (mapped_total (n % 4294967296) (omega arith))
  | inr plain ↦ rw plain (number_total n)
]

pub text_of-Free :
    (c n : ℕ)
    → is_some (hex_value c) ≡ false
    → (b':' == c) ≡ false
    → (b'.' == c) ≡ false
    → between b'0' b'9' c ≡ false
    → Free c (text_of n)
unfolding any
text_of-Free c n no_hex no_colon no_point no_digit = elim (Bool-cases (n / 4294967296 == 0xffff)) [
  | inl is_mapped ↦ rw is_mapped (
      Free-append c (print_number 0xffff) (b':' ∷ V4.print (n % 4294967296))
        (number-Free c 0xffff no_hex no_colon)
        (rw (no_colon, any) (print-free c (n % 4294967296) no_digit no_point)))
  | inr plain ↦ rw plain (number-Free c n no_hex no_colon)
]
