-- ===== src/Python/Ipaddress/V4.antt =====
-- IPv4Address(s) and str(a).
pub mod Laws
use ip_scout.Prelude.{
  ℕ, ◌+◌, ◌-◌, ◌*◌, ◌/◌, ◌%◌, ◌≡◌, refl, Bool, true, false, ◌&&◌, ◌||◌, not, Option, none, some,
  List, [], ◌∷◌, ◌++◌, Text, ◌==◌, ltb, leb, between, if◌then◌else◌, length, codes, any,
}
use ip_scout.Python.Split.{split}

is_ascii_digit : ℕ → Bool
is_ascii_digit c = between b'0' b'9' c

-- The value of up to three ASCII digits, with no leading zero and at most 255.
unfoldable pub octet : Text → Option ℕ
unfolding is_ascii_digit
octet (a ∷ []) = if is_ascii_digit a then some (a - b'0') else none
octet (a ∷ b ∷ []) =
    if is_ascii_digit a && is_ascii_digit b && not (a == b'0')
    then some ((a - b'0') * 10 + (b - b'0'))
    else none
octet (a ∷ b ∷ c ∷ []) =
    let n = ((a - b'0') * 10 + (b - b'0')) * 10 + (c - b'0') in
    if is_ascii_digit a && is_ascii_digit b && is_ascii_digit c && not (a == b'0') && leb n 255
    then some n
    else none
octet _ = none

infixl 5 ◌>>=◌
abbrev ◌>>=◌ : {A B : Type 0} → Option A → (A → Option B) → Option B
none >>= f = none
some a >>= f = f a

unfoldable pub of_octets : List Text → Option ℕ
unfolding octet
of_octets (a ∷ b ∷ c ∷ d ∷ []) = do
  a ← octet a
  b ← octet b
  c ← octet c
  d ← octet d
  some (((a * 256 + b) * 256 + c) * 256 + d)
of_octets _ = none

-- IPv4Address(s); `none` is an AddressValueError. A "/" is refused with the other characters.
unfoldable pub parse : Text → Option ℕ
unfolding of_octets split
parse s = of_octets (split b'.' s)

-- str(n) of a number below 1000
unfoldable pub print_octet : ℕ → Text
print_octet n =
    if ltb n 10
    then (b'0' + n) ∷ []
    else if ltb n 100
    then (b'0' + n / 10) ∷ (b'0' + n % 10) ∷ []
    else (b'0' + n / 100) ∷ (b'0' + n / 10 % 10) ∷ (b'0' + n % 10) ∷ []

unfoldable pub print : ℕ → Text
unfolding print_octet
print n =
    print_octet (n / 16777216 % 256)
    ++ b'.'
      ∷ (print_octet (n / 65536 % 256)
          ++ b'.' ∷ (print_octet (n / 256 % 256) ++ b'.' ∷ print_octet (n % 256)))

parse_example : parse (codes "5.1.10.255") ≡ some 83954431
unfolding parse
parse_example = refl

print_example : print 83954431 ≡ codes "5.1.10.255"
unfolding print
print_example = refl
