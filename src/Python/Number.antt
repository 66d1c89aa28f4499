-- ===== src/Python/Number.antt =====
-- int(s), str.isdigit and the decimal digits of Unicode 15.1 that they and `\d` of `re` accept.
use ip_scout.Prelude.{
  ℕ, suc, ◌+◌, ◌-◌, ◌*◌, ◌/◌, ◌%◌, ◌++◌, ◌≡◌, refl, Bool, true, false, not, ◌&&◌, ◌||◌, Option,
  none, some, List, [], ◌∷◌, Text, ◌==◌, ltb, between, codes, if◌then◌else◌, any, find?, is_some,
}
use ip_scout.Prelude.Int.{ℤ, pos, negsuc}
use ip_scout.Python.Strip.{strip, is_nil}

-- The zero of each script; its other digits follow it.
zeros : List ℕ
zeros =
    0x30 ∷ 0x660 ∷ 0x6f0 ∷ 0x7c0 ∷ 0x966 ∷ 0x9e6 ∷ 0xa66 ∷ 0xae6 ∷ 0xb66 ∷ 0xbe6 ∷ 0xc66 ∷ 0xce6
    ∷ 0xd66 ∷ 0xde6 ∷ 0xe50 ∷ 0xed0 ∷ 0xf20 ∷ 0x1040 ∷ 0x1090 ∷ 0x17e0 ∷ 0x1810 ∷ 0x1946 ∷ 0x19d0
    ∷ 0x1a80 ∷ 0x1a90 ∷ 0x1b50 ∷ 0x1bb0 ∷ 0x1c40 ∷ 0x1c50 ∷ 0xa620 ∷ 0xa8d0 ∷ 0xa900 ∷ 0xa9d0
    ∷ 0xa9f0 ∷ 0xaa50 ∷ 0xabf0 ∷ 0xff10 ∷ 0x104a0 ∷ 0x10d30 ∷ 0x11066 ∷ 0x110f0 ∷ 0x11136 ∷ 0x111d0
    ∷ 0x112f0 ∷ 0x11450 ∷ 0x114d0 ∷ 0x11650 ∷ 0x116c0 ∷ 0x11730 ∷ 0x118e0 ∷ 0x11950 ∷ 0x11c50
    ∷ 0x11d50 ∷ 0x11da0 ∷ 0x11f50 ∷ 0x16a60 ∷ 0x16ac0 ∷ 0x16b50 ∷ 0x1d7ce ∷ 0x1d7d8 ∷ 0x1d7e2
    ∷ 0x1d7ec ∷ 0x1d7f6 ∷ 0x1e140 ∷ 0x1e2f0 ∷ 0x1e4f0 ∷ 0x1e950 ∷ 0x1fbf0 ∷ []

unfoldable pub digit_value : ℕ → Option ℕ
unfolding zeros find?
digit_value c = elim (find? (λ z. between z (z + 9) c) zeros) [
  | none ↦ none
  | some z ↦ some (c - z)
]

-- What `isdigit` accepts beyond the decimal digits, such as superscripts and circled digits.
other_digits : List (ℕ × ℕ)
other_digits =
    (0xb2, 0xb3)
    ∷ (0xb9, 0xb9)
    ∷ (0x1369, 0x1371)
    ∷ (0x19da, 0x19da)
    ∷ (0x2070, 0x2070)
    ∷ (0x2074, 0x2079)
    ∷ (0x2080, 0x2089)
    ∷ (0x2460, 0x2468)
    ∷ (0x2474, 0x247c)
    ∷ (0x2488, 0x2490)
    ∷ (0x24ea, 0x24ea)
    ∷ (0x24f5, 0x24fd)
    ∷ (0x24ff, 0x24ff)
    ∷ (0x2776, 0x277e)
    ∷ (0x2780, 0x2788)
    ∷ (0x278a, 0x2792)
    ∷ (0x10a40, 0x10a43)
    ∷ (0x10e60, 0x10e68)
    ∷ (0x11052, 0x1105a)
    ∷ (0x1f100, 0x1f10a)
    ∷ []

digit_like : ℕ → Bool
unfolding digit_value other_digits any
digit_like c = is_some (digit_value c) || any (λ r. between r.0 r.1 c) other_digits

all_digits : Text → Bool
unfolding digit_like
all_digits [] = true
all_digits (c ∷ s) = digit_like c && all_digits s

-- s.isdigit()
unfoldable pub isdigit : Text → Bool
unfolding all_digits
isdigit s = not (is_nil s) && all_digits s

-- Digits, with single underscores between them. `after` is whether a digit stands just before.
-- More than 4300 digits are refused, as CPython does.
digits : Text → Bool → ℕ → ℕ → Option ℕ
unfolding digit_value
digits [] after acc count = if after && not (ltb 4300 count) then some acc else none
digits (c ∷ s) after acc count = elim (digit_value c) [
  | some d ↦ digits s true (acc * 10 + d) (suc count)
  | none ↦ elim (after && c == b'_') [ true ↦ digits s false acc count | false ↦ none ]
]

negate : ℕ → ℤ
negate ℕ.zero = pos 0
negate (suc n) = negsuc n

signed : Text → Option ℤ
unfolding digits negate
signed [] = none
signed (c ∷ s) =
    if c == b'-'
    then elim (digits s false 0 0) [ none ↦ none | some n ↦ some (negate n) ]
    else if c == b'+'
    then elim (digits s false 0 0) [ none ↦ none | some n ↦ some (pos n) ]
    else elim (digits (c ∷ s) false 0 0) [ none ↦ none | some n ↦ some (pos n) ]

-- int(s); `none` is a ValueError.
unfoldable pub int : Text → Option ℤ
unfolding signed strip
int s = signed (strip s)

-- The decimal digits of a number; a number has fewer digits than its successor counts.
print_from : ℕ → ℕ → Text
print_from ℕ.zero n = []
print_from (suc fuel) n =
    let front = print_from fuel (n / 10) in
    if ltb n 10 then (b'0' + n) ∷ [] else front ++ (b'0' + n % 10) ∷ []

-- str(n)
unfoldable pub print : ℕ → Text
unfolding print_from
print n = print_from (suc n) n

print_example : print 10203 ≡ codes "10203"
unfolding print
print_example = refl

int_example : int (codes " -1_0 ") ≡ some (negsuc 9)
unfolding int
int_example = refl
