-- ===== src/Python/Ipaddress/V6.antt =====
-- IPv6Address(s) and str(a).
pub mod Digits
pub mod Parts
pub mod Laws
pub mod Printed
pub mod Scoped
use ip_scout.Prelude.{
  ℕ, suc, ◌+◌, ◌-◌, ◌*◌, ◌/◌, ◌%◌, ◌^◌, ◌≡◌, refl, true, false, ◌&&◌, ◌||◌, not, Option, none, some,
  List, [], ◌∷◌, ◌++◌, Text, ◌==◌, ltb, between, if◌then◌else◌, length, codes, any, take, drop, map,
}
use ip_scout.Python.Split.{split}
use ip_scout.Python.Strip.{is_nil}
use ip_scout.Python.Ipaddress.V4

pub hex_value : ℕ → Option ℕ
hex_value c =
    if between b'0' b'9' c
    then some (c - b'0')
    else if between b'a' b'f' c
    then some (c - b'a' + 10)
    else if between b'A' b'F' c
    then some (c - b'A' + 10)
    else none

pub hex_from : ℕ → Text → Option ℕ
unfolding hex_value
hex_from acc [] = some acc
hex_from acc (c ∷ s) = elim (hex_value c) [ none ↦ none | some d ↦ hex_from (acc * 16 + d) s ]

-- _parse_hextet: one to four hexadecimal digits
pub hextet : Text → Option ℕ
unfolding hex_from
hextet s = if is_nil s || ltb 4 (length s) then none else hex_from 0 s

pub hextets : ℕ → List Text → Option ℕ
unfolding hextet
hextets acc [] = some acc
hextets acc (s ∷ parts) = elim (hextet s) [ none ↦ none | some h ↦ hextets (acc * 65536 + h) parts ]

-- The last part and those before it, with a dotted last part as its value.
pub dotted : List Text → Option (List Text × Option ℕ)
unfolding V4.parse
dotted [] = some ([], none)
dotted (s ∷ []) =
    if any (λ c. c == b'.') s
    then elim (V4.parse s) [ none ↦ none | some n ↦ some ([], some n) ]
    else some (s ∷ [], none)
dotted (s ∷ t ∷ parts) = elim (dotted (t ∷ parts)) [
  | none ↦ none
  | some (front, last) ↦ some (s ∷ front, last)
]

-- How many parts in the middle are empty, and the place of the first.
pub empty_parts : ℕ → List Text → List ℕ
empty_parts i [] = []
empty_parts i (s ∷ []) = []
empty_parts i (s ∷ t ∷ parts) =
    let rest = empty_parts (suc i) (t ∷ parts) in if is_nil s && ltb 0 i then i ∷ rest else rest

pub first : List Text → Text
first [] = []
first (s ∷ _) = s

pub last : List Text → Text
last [] = []
last (s ∷ []) = s
last (s ∷ t ∷ parts) = last (t ∷ parts)

pub hex_digit : ℕ → ℕ
hex_digit d = if ltb d 10 then b'0' + d else b'a' + (d - 10)

-- "%x" of a number below 65536
pub print_hextet : ℕ → Text
unfolding hex_digit
print_hextet n =
    if ltb n 16
    then hex_digit n ∷ []
    else if ltb n 256
    then hex_digit (n / 16) ∷ hex_digit (n % 16) ∷ []
    else if ltb n 4096
    then hex_digit (n / 256) ∷ hex_digit (n / 16 % 16) ∷ hex_digit (n % 16) ∷ []
    else hex_digit (n / 4096)
      ∷ hex_digit (n / 256 % 16)
      ∷ hex_digit (n / 16 % 16)
      ∷ hex_digit (n % 16)
      ∷ []

-- The value of the parts before and after a "::", and of what it stands for.
pub around : ℕ → ℕ → List Text → Option ℕ
unfolding hextets first last
around before after parts =
    if is_nil (first parts) && ltb 0 before
      || is_nil (last parts) && ltb 0 after
      || ltb 7 (before + after)
    then none
    else elim (hextets 0 (take before parts)) [
      | none ↦ none
      | some high ↦
          hextets (high * 65536 ^ (8 - (before + after))) (drop (length parts - after) parts)
    ]

-- With a "::" at place `skip`: how many parts stand before it and after it.
pub with_skip : ℕ → List Text → Option ℕ
unfolding around first last
with_skip skip parts =
    let before = if is_nil (first parts) then skip - 1 else skip in
    let after_skip = length parts - skip - 1 in
    let after = if is_nil (last parts) then after_skip - 1 else after_skip in
    around before after parts

pub of_parts : List Text → Option ℕ
unfolding hextets with_skip empty_parts first last
of_parts parts = if ltb 9 (length parts) then none else elim (empty_parts 0 parts) [
  | [] ↦
      if not (length parts == 8) || is_nil (first parts) || is_nil (last parts)
      then none
      else hextets 0 parts
  | skip ∷ [] ↦ with_skip skip parts
  | _ ↦ none
]

-- _ip_int_from_string
unfoldable pub of_text : Text → Option ℕ
unfolding split dotted of_parts print_hextet any
of_text s =
    if is_nil s || ltb (length (split b':' s)) 3 then none else elim (dotted (split b':' s)) [
      | none ↦ none
      | some (parts, none) ↦ of_parts parts
      | some (parts, some n) ↦
          of_parts (parts ++ print_hextet (n / 65536) ∷ print_hextet (n % 65536) ∷ [])
    ]

-- The text up to the first "%", and what follows it, if there is one.
pub partition : ℕ → Text → Text × Option Text
partition sep [] = ([], none)
partition sep (c ∷ s) =
    let (before, after) = partition sep s in if c == sep then ([], some s) else (c ∷ before, after)

-- IPv6Address(s): the number and the scope, empty where there is none.
unfoldable pub parse : Text → Option (ℕ × Text)
unfolding of_text partition any
parse s =
    let (address, scope) = partition b'%' s in
    if any (λ c. c == b'/') s then none else elim scope [
      | none ↦ elim (of_text address) [ none ↦ none | some n ↦ some (n, []) ]
      | some id ↦
          if is_nil id || any (λ c. c == b'%') id
          then none
          else elim (of_text address) [ none ↦ none | some n ↦ some (n, id) ]
    ]

pub hextets_of : ℕ → List ℕ
hextets_of n =
    n / 65536 ^ 7 % 65536
    ∷ n / 65536 ^ 6 % 65536
    ∷ n / 65536 ^ 5 % 65536
    ∷ n / 65536 ^ 4 % 65536
    ∷ n / 65536 ^ 3 % 65536
    ∷ n / 65536 ^ 2 % 65536
    ∷ n / 65536 % 65536
    ∷ n % 65536
    ∷ []

-- The first longest run of zeros: `best` and its length, with the run that ends here.
pub longest_run : ℕ → ℕ → ℕ → ℕ → List ℕ → ℕ × ℕ
longest_run i run best best_length [] = (best, best_length)
longest_run i run best best_length (h ∷ hs) = elim (h == 0) [
  | true ↦ elim (ltb best_length (suc run)) [
    | true ↦ longest_run (suc i) (suc run) (i - run) (suc run) hs
    | false ↦ longest_run (suc i) (suc run) best best_length hs
  ]
  | false ↦ longest_run (suc i) 0 best best_length hs
]

pub join : List Text → Text
join [] = []
join (s ∷ []) = s
join (s ∷ t ∷ parts) = s ++ b':' ∷ join (t ∷ parts)

-- _compress_hextets and the joining colons
pub compress : List ℕ → ℕ × ℕ → Text
unfolding print_hextet join
compress hs (start, run) =
    let texts = map print_hextet hs in
    if ltb run 2
    then join texts
    else let before = if start == 0 then [] ∷ [] else take start texts in
      let after = if start + run == length hs then [] ∷ [] else drop (start + run) texts in
      join (before ++ [] ∷ after)

unfoldable pub print_number : ℕ → Text
unfolding hextets_of longest_run compress
print_number n = compress (hextets_of n) (longest_run 0 0 0 0 (hextets_of n))

-- str(a): an IPv4-mapped address is shown in the dotted form.
unfoldable pub print : ℕ → Text → Text
unfolding print_number V4.print
print n scope =
    let text =
      if n / 4294967296 == 0xffff
      then print_number 0xffff ++ b':' ∷ V4.print (n % 4294967296)
      else print_number n in
    if is_nil scope then text else text ++ b'%' ∷ scope

parse_example : parse (codes "2001:db8::1:0:0") ≡ some (42540766411282592856903984955948793856, [])
unfolding parse
parse_example = refl

print_example : print (42540766411282592856903984955948793856) [] ≡ codes "2001:db8::1:0:0"
unfolding print
print_example = refl
