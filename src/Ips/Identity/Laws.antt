-- ===== src/Ips/Identity/Laws.antt =====
-- Every spelling of an IPv4 address is stored as one text.
use ip_scout.Prelude.{
  ℕ, ◌+◌, ◌*◌, ◌/◌, ◌%◌, ◌<◌, ◌≡◌, refl, sym, ap, ◌∙◌, Bool, false, ◌||◌, some, List, [], ◌∷◌, ◌++◌,
  Text, ltb, arith, any, Bool-cases, inl, inr, Option-cases,
}
use ip_scout.Errors.{ok}
use ip_scout.Python.Strip.{is_space, lstrip_by, rstrip_by, strip}
use ip_scout.Python.Split.{split}
use ip_scout.Python.Ipaddress.{v4}
use ip_scout.Python.Ipaddress.V4
use ip_scout.Python.Ipaddress.V4.Laws.{parse-print}
use ip_scout.Python.Ipaddress.Network.{ip_address, print_address}
use ip_scout.Ips.Identity.{normalize_ip, version_of}

any-append : (p : ℕ → Bool) (xs ys : Text) → any p (xs ++ ys) ≡ (any p xs || any p ys)
unfolding any
any-append p [] ys = refl
any-append p (x ∷ xs) ys = ground (arith, any-append p xs ys)

lstrip_fixed : (s : Text) → any is_space s ≡ false → lstrip_by is_space s ≡ s
unfolding lstrip_by any
lstrip_fixed [] h = refl
lstrip_fixed (c ∷ s) h = ground arith

rstrip_fixed : (s : Text) → any is_space s ≡ false → rstrip_by is_space s ≡ s
unfolding rstrip_by any
rstrip_fixed [] h = refl
rstrip_fixed (c ∷ s) h = ground (arith, rstrip_fixed s)

pub strip_fixed : (s : Text) → any is_space s ≡ false → strip s ≡ s
unfolding strip
strip_fixed s h = ap (rstrip_by is_space) (lstrip_fixed s h) ∙ rstrip_fixed s h

octet-lt : (s : Text) (n : ℕ) → V4.octet s ≡ some n → n < 256
unfolding V4.octet
octet-lt [] n h = cc
octet-lt (a ∷ []) n h = ground arith
octet-lt (a ∷ b ∷ []) n h = ground arith
octet-lt (a ∷ b ∷ c ∷ []) n h = ground arith
octet-lt (a ∷ b ∷ c ∷ d ∷ s) n h = cc

print_octet-no_space : (n : ℕ) → n < 256 → any is_space (V4.print_octet n) ≡ false
unfolding V4.print_octet any is_space
print_octet-no_space n h = elim (Bool-cases (ltb n 10)) [
  | inl one ↦ ground arith
  | inr more ↦ elim (Bool-cases (ltb n 100)) [ inl two ↦ ground arith | inr three ↦ ground arith ]
]

dotted-no_space :
    (a : ℕ) (s : Text)
    → a < 256
    → any is_space s ≡ false
    → any is_space (V4.print_octet a ++ b'.' ∷ s) ≡ false
unfolding any is_space
dotted-no_space a s h k =
    any-append is_space (V4.print_octet a) (b'.' ∷ s) ∙ rw (print_octet-no_space a h) k

print-no_space : (n : ℕ) → any is_space (V4.print n) ≡ false
unfolding V4.print
print-no_space n = dotted-no_space (n / 16777216 % 256) _ (omega arith) (
    dotted-no_space (n / 65536 % 256) _ (omega arith) (
      dotted-no_space (n / 256 % 256) _ (omega arith)
        (print_octet-no_space (n % 256) (omega arith))))

of_octets-lt : (parts : List Text) (n : ℕ) → V4.of_octets parts ≡ some n → n < 4294967296
unfolding V4.of_octets
of_octets-lt [] n h = cc
of_octets-lt (_ ∷ []) n h = cc
of_octets-lt (_ ∷ _ ∷ []) n h = cc
of_octets-lt (_ ∷ _ ∷ _ ∷ []) n h = cc
of_octets-lt (_ ∷ _ ∷ _ ∷ _ ∷ _ ∷ _) n h = cc
of_octets-lt (a ∷ b ∷ c ∷ d ∷ []) n h = elim (Option-cases (V4.octet a)) [
  | inl missing ↦ absurd (ground arith)
  | inr (i, ha) ↦ elim (Option-cases (V4.octet b)) [
    | inl missing ↦ absurd (ground arith)
    | inr (j, hb) ↦ elim (Option-cases (V4.octet c)) [
      | inl missing ↦ absurd (ground arith)
      | inr (k, hc) ↦ elim (Option-cases (V4.octet d)) [
        | inl missing ↦ absurd (ground arith)
        | inr (l, hd) ↦
            let e : some (((i * 256 + j) * 256 + k) * 256 + l) ≡ some n =
              sym (all_four ha hb hc hd) ∙ h in
            let value : ((i * 256 + j) * 256 + k) * 256 + l ≡ n = cc in
            omega (arith, octet-lt a i ha, octet-lt b j hb, octet-lt c k hc, octet-lt d l hd)
      ]
    ]
  ]
]
  where
    all_four :
        {i j k l : ℕ}
        → V4.octet a ≡ some i
        → V4.octet b ≡ some j
        → V4.octet c ≡ some k
        → V4.octet d ≡ some l
        → V4.of_octets (a ∷ b ∷ c ∷ d ∷ []) ≡ some (((i * 256 + j) * 256 + k) * 256 + l)
    all_four ha hb hc hd = rw (ha, V4.of_octets) (rw hb (rw hc (rw hd refl)))

pub parse-lt : (s : Text) (n : ℕ) → V4.parse s ≡ some n → n < 4294967296
unfolding V4.parse
parse-lt s n h = of_octets-lt (split b'.' s) n h

pub ip_address_v4 : (s : Text) (n : ℕ) → V4.parse s ≡ some n → ip_address s ≡ some (v4 n)
unfolding ip_address
ip_address_v4 s n h = rw (h, ip_address) refl

normalize_ip_v4 :
    (raw : Text) (n : ℕ) → V4.parse (strip raw) ≡ some n → normalize_ip raw ≡ ok (V4.print n)
unfolding normalize_ip print_address
normalize_ip_v4 raw n h = rw (ip_address_v4 (strip raw) n h, normalize_ip) refl

-- A text that holds an IPv4 address, with or without white space around it, is stored as the text
-- that prints the address. That text is its own normal form, reads back as the same address, and
-- is of version 4, so that two texts have one normal form if they hold one address.
pub normalize_ip-v4 :
    (raw : Text) (n : ℕ)
    → V4.parse (strip raw) ≡ some n
    → (a : Text) × (normalize_ip raw ≡ ok a)
      × (V4.parse a ≡ some n)
      × (normalize_ip a ≡ ok a)
      × (version_of a ≡ ok 4)
unfolding version_of
normalize_ip-v4 raw n h =
    let a = V4.print n in
    let back : V4.parse a ≡ some n = parse-print n (parse-lt (strip raw) n h) in
    let stripped : V4.parse (strip a) ≡ some n =
      ap V4.parse (strip_fixed a (print-no_space n)) ∙ back in
    (
      a,
      normalize_ip_v4 raw n h,
      back,
      normalize_ip_v4 a n stripped,
      rw (ip_address_v4 a n back, version_of) refl,
    )
