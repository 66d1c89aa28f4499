-- ===== src/Iran/Providers/Laws.antt =====
-- The networks of an ipv4 record cover exactly its addresses.
use ip_scout.Prelude.{
  ◌⊎◌, ℕ, zero, suc, ◌+◌, ◌-◌, ◌≤◌, ◌<◌, ◌≡◌, true, false, none, some, List, Text, ltb, arith,
  Option-cases, inl, inr, subst,
}
use ip_scout.Prelude.Int.{ℤ, pos, negsuc}
use ip_scout.Python.Number.{int}
use ip_scout.Python.Ipaddress.V4
use ip_scout.Python.Ipaddress.Network.{Network, summarize, summarize_from}
use ip_scout.Python.Ipaddress.Network.Summary.{Tiles, summarize_from-Tiles}
use ip_scout.Iran.Providers.{ipv4_blocks}

-- The record is well formed: a start, a positive number of addresses, and all of them in IPv4.
pub record IsIpv4Record (start value : Text) (first count : ℕ) : Type 0 where
  pub number : int value ≡ some (pos count)
  pub address : V4.parse start ≡ some first
  pub positive : 0 < count
  pub within : first + count ≤ 4294967296

summarize-Tiles :
    (first more : ℕ)
    → (ns : List Network) × (summarize 32 first (first + more) ≡ some ns)
      × Tiles 32 first ns (first + suc more)
unfolding summarize
summarize-Tiles first more =
    let count = first + more + 1 - first in
    let e : first + count ≡ first + suc more = omega arith in
    let ordered : ltb (first + more) first ≡ false = ground arith in
    (
      summarize_from count 32 first count,
      rw ordered,
      subst (Tiles 32 first (summarize_from count 32 first count)) e
          (summarize_from-Tiles count 32 first count (omega arith)),
    )

ipv4_blocks-eq :
    (start value : Text) (first more : ℕ) (ns : List Network)
    → int value ≡ some (pos (suc more))
    → V4.parse start ≡ some first
    → ltb (first + more) 4294967296 ≡ true
    → summarize 32 first (first + more) ≡ some ns
    → ipv4_blocks start value ≡ some ns
unfolding ipv4_blocks
ipv4_blocks-eq start value first more ns number address fits e =
    rw (number, ipv4_blocks) (rw address (rw fits e))

ipv4_blocks-Tiles :
    (start value : Text) (first count : ℕ)
    → IsIpv4Record start value first count
    → (ns : List Network) × (ipv4_blocks start value ≡ some ns) × Tiles 32 first ns (first + count)
unfolding ipv4_blocks
ipv4_blocks-Tiles start value first zero r = absurd (omega (arith, r.positive))
ipv4_blocks-Tiles start value first (suc more) r =
    let (ns, e, t) = summarize-Tiles first more in
    let fits : ltb (first + more) 4294967296 ≡ true = ground (arith, r.within) in
    (ns, ipv4_blocks-eq start value first more ns r.number r.address fits e, t)

ipv4_blocks-IsIpv4Record :
    (start value : Text) (ns : List Network)
    → ipv4_blocks start value ≡ some ns
    → (first : ℕ) × (count : ℕ) × IsIpv4Record start value first count
unfolding ipv4_blocks
ipv4_blocks-IsIpv4Record start value ns h = elim (Option-cases (int value)) [
  | inl no_number ↦ absurd (ground arith)
  | inr (n, number) ↦ elim (Option-cases (V4.parse start)) [
    | inl no_address ↦ absurd (no_start n number no_address)
    | inr (first, address) ↦ count_of n first number address
  ]
]
  where
    no_start : (n : ℤ) → int value ≡ some n → V4.parse start ≡ none → ⊥
    no_start (pos zero) e f = ground arith
    no_start (pos (suc m)) e f = ground arith
    no_start (negsuc m) e f = ground arith

    count_of :
        (n : ℤ) (first : ℕ)
        → int value ≡ some n
        → V4.parse start ≡ some first
        → (first : ℕ) × (count : ℕ) × IsIpv4Record start value first count
    count_of (pos zero) first e f = absurd (ground arith)
    count_of (negsuc m) first e f = absurd (ground arith)
    count_of (pos (suc m)) first e f = (
      first,
      suc m,
      record { number = e; address = f; positive = omega arith; within = ground arith },
    )

-- An ipv4 record that is well formed yields networks that follow one another without a gap from its first
-- address to its last, each aligned to its size; any other yields none and is skipped.
pub ipv4_blocks_total :
    (start value : Text)
    → ((first : ℕ) × (count : ℕ) × (ns : List Network) × IsIpv4Record start value first count
        × (ipv4_blocks start value ≡ some ns)
        × Tiles 32 first ns (first + count))
      ⊎ ((ipv4_blocks start value ≡ none)
          × ((first count : ℕ) → ¬ (IsIpv4Record start value first count)))
ipv4_blocks_total start value = elim (Option-cases (ipv4_blocks start value)) [
  | inl skipped ↦ inr (
    skipped,
    λ first count r.
        let (ns, e, _) = ipv4_blocks-Tiles start value first count r in absurd (ground arith),
  )
  | inr (ns, found) ↦
      let (first, count, r) = ipv4_blocks-IsIpv4Record start value ns found in
      let (ns', e, tiles) = ipv4_blocks-Tiles start value first count r in
      inl (first, count, ns', r, e, tiles)
]
