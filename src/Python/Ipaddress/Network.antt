-- ===== src/Python/Ipaddress/Network.antt =====
-- ip_address, ip_network(s, strict=False), str of both, and summarize_address_range.
pub mod Summary
use ip_scout.Prelude.{
  ℕ, zero, suc, ◌+◌, ◌-◌, ◌*◌, ◌/◌, ◌%◌, ◌^◌, ◌≡◌, refl, Bool, true, false, ◌&&◌, ◌||◌, not, Option,
  none, some, List, [], ◌∷◌, ◌++◌, Text, ◌==◌, ltb, leb, between, if◌then◌else◌, codes, min, find?,
  any, length,
}
use ip_scout.Prelude.Int.{ℤ, pos, negsuc}
use ip_scout.Python.Split.{split}
use ip_scout.Python.Number.{int}
use ip_scout.Python.Ipaddress.{Address, v4, v6}
use ip_scout.Python.Ipaddress.V4
use ip_scout.Python.Ipaddress.V6

-- ipaddress.ip_address(s); `none` is a ValueError.
unfoldable pub ip_address : Text → Option Address
unfolding V4.parse V6.parse
ip_address s = elim (V4.parse s) [
  | some n ↦ some (v4 n)
  | none ↦ elim (V6.parse s) [ none ↦ none | some (n, scope) ↦ some (v6 n scope) ]
]

-- str(a)
unfoldable pub print_address : Address → Text
unfolding V4.print V6.print
print_address (v4 n) = V4.print n
print_address (v6 n scope) = V6.print n scope

unfoldable pub version : Address → ℕ
version (v4 _) = 4
version (v6 _ _) = 6

-- A network: its version by the number of bits, its first address and its prefix length.
pub record Network : Type 0 where
  pub bits : ℕ
  pub first : ℕ
  pub prefix : ℕ

-- str(n) of a number below 1000, which a prefix length is.
unfoldable pub print_network : Network → Text
unfolding V4.print V6.print V4.print_octet
print_network n =
    (if n.bits == 32 then V4.print n.first else V6.print n.first [])
    ++ b'/' ∷ V4.print_octet n.prefix

ascii_digits : Text → Bool
ascii_digits t = not (any (λ c. not (between b'0' b'9' c)) t)

-- _prefix_from_prefix_string
prefix_number : ℕ → Text → Option ℕ
unfolding ascii_digits any
prefix_number most s = elim (int s) [
  | some (pos n) ↦ if ascii_digits s && leb n most then some n else none
  | _ ↦ none
]

-- The prefix lengths 0 to 32.
lengths : ℕ → List ℕ
lengths zero = 0 ∷ []
lengths (suc n) = suc n ∷ lengths n

-- A netmask, or else a host mask, as a prefix length.
mask_length : Text → Option ℕ
unfolding V4.parse lengths find?
mask_length s = elim (V4.parse s) [
  | none ↦ none
  | some n ↦ elim (find? (λ p. n == 4294967296 - 2 ^ (32 - p)) (lengths 32)) [
    | some p ↦ some p
    | none ↦ find? (λ p. n == 2 ^ (32 - p) - 1) (lengths 32)
  ]
]

prefix_v4 : Text → Option ℕ
unfolding prefix_number mask_length
prefix_v4 s = elim (prefix_number 32 s) [ some p ↦ some p | none ↦ mask_length s ]

unfoldable pub network_of : ℕ → ℕ → ℕ → Network
network_of bits n prefix = record {
  bits = bits;
  first = n / 2 ^ (bits - prefix) * 2 ^ (bits - prefix);
  prefix = prefix;
}

with_prefix : Text → Option ℕ → Option ℕ → Option Network
unfolding ip_address network_of
with_prefix address p4 p6 = elim (ip_address address) [
  | none ↦ none
  | some (v4 n) ↦ elim p4 [ none ↦ none | some p ↦ some (network_of 32 n p) ]
  | some (v6 n _) ↦ elim p6 [ none ↦ none | some p ↦ some (network_of 128 n p) ]
]

network_parts : List Text → Option Network
unfolding with_prefix prefix_v4 prefix_number
network_parts (address ∷ []) = with_prefix address (some 32) (some 128)
network_parts (address ∷ prefix ∷ []) =
    with_prefix address (prefix_v4 prefix) (prefix_number 128 prefix)
network_parts _ = none

-- ipaddress.ip_network(s, strict=False); `none` is a ValueError.
unfoldable pub ip_network : Text → Option Network
unfolding network_parts split
ip_network s = network_parts (split b'/' s)

-- _count_righthand_zero_bits(number, bits)
unfoldable pub trailing_zeros : ℕ → ℕ → ℕ
trailing_zeros zero n = 0
trailing_zeros (suc bits) n =
    let more = trailing_zeros bits (n / 2) in if n % 2 == 0 then suc more else 0

-- n.bit_length() - 1 of a positive number, the fuel being a bound on its bits.
unfoldable pub log2 : ℕ → ℕ → ℕ
log2 zero n = 0
log2 (suc fuel) n = let more = log2 fuel (n / 2) in if ltb n 2 then 0 else suc more

-- The block that starts at `first`: the zeros at its end, or what is left of the range.
unfoldable pub block_bits : ℕ → ℕ → ℕ → ℕ
unfolding trailing_zeros log2
block_bits bits first count = min (trailing_zeros bits first) (log2 bits count)

-- The loop of summarize_address_range, `count` addresses being left. Each round takes at least one
-- of them, so `count` is enough fuel.
unfoldable pub summarize_from : ℕ → ℕ → ℕ → ℕ → List Network
unfolding block_bits
summarize_from zero bits first count = []
summarize_from (suc fuel) bits first count =
    let n = block_bits bits first count in
    let rest = summarize_from fuel bits (first + 2 ^ n) (count - 2 ^ n) in
    if count == 0 then [] else record { bits = bits; first = first; prefix = bits - n } ∷ rest

-- ipaddress.summarize_address_range(first, last) within one version; `none` is the ValueError for a
-- last address before the first.
unfoldable pub summarize : ℕ → ℕ → ℕ → Option (List Network)
unfolding summarize_from
summarize bits first last =
    let count = last + 1 - first in
    if ltb last first then none else some (summarize_from count bits first count)

normal_example : Option Text
unfolding ip_network print_network
normal_example = elim (ip_network (codes "5.1.2.3/255.255.252.0")) [
  | none ↦ none
  | some n ↦ some (print_network n)
]

network_example : normal_example ≡ some (codes "5.1.0.0/22")
unfolding normal_example int
network_example = refl

summary_example :
    summarize 32 10 25
    ≡ some (
        record { bits = 32; first = 10; prefix = 31 }
        ∷ record { bits = 32; first = 12; prefix = 30 }
        ∷ record { bits = 32; first = 16; prefix = 29 }
        ∷ record { bits = 32; first = 24; prefix = 31 }
        ∷ [])
unfolding summarize
summary_example = refl
