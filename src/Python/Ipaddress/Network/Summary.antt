-- ===== src/Python/Ipaddress/Network/Summary.antt =====
-- The blocks of a summarised range tile it: each starts where the one before it ends, is aligned to
-- its size, and together they end at the last address.
use ip_scout.Prelude.{
  ℕ, zero, suc, ◌+◌, ◌-◌, ◌*◌, ◌/◌, ◌%◌, ◌^◌, ◌≤◌, ◌<◌, ◌≡◌, refl, List, [], ◌∷◌, min, arith, ◌==◌,
  Bool-cases, ◌∙◌, subst, inl, inr, ap,
}
use ip_scout.Python.Ipaddress.Network.{Network, trailing_zeros, log2, block_bits, summarize_from}
use native.Mathlib.Nat.{pow-suc, mul-mod_right, le_trans}

abbrev pub Tiles : ℕ → ℕ → List Network → ℕ → Type 0
Tiles bits first [] end = first ≡ end
Tiles bits first (n ∷ ns) end =
    (n.first ≡ first)
    × (n.bits ≡ bits)
    × (n.prefix ≤ bits)
    × (first % 2 ^ (bits - n.prefix) ≡ 0)
    × Tiles bits (first + 2 ^ (bits - n.prefix)) ns end

trailing_zeros-le : (bits n : ℕ) → trailing_zeros bits n ≤ bits
unfolding trailing_zeros
trailing_zeros-le zero n = omega arith
trailing_zeros-le (suc bits) n = ground (arith, trailing_zeros-le bits (n / 2))

pow_pos : (n : ℕ) → 0 < 2 ^ n
pow_pos zero = omega arith
pow_pos (suc n) = omega (arith, pow_pos n, pow-suc 2 n)

pow-le : (m n : ℕ) → m ≤ n → 2 ^ m ≤ 2 ^ n
pow-le zero n h = omega (arith, pow_pos n)
pow-le (suc m) zero h = absurd (omega arith)
pow-le (suc m) (suc n) h = omega (arith, pow-suc 2 m, pow-suc 2 n, pow-le m n (omega arith))

log2-pow-le : (fuel n : ℕ) → 0 < n → 2 ^ log2 fuel n ≤ n
unfolding log2
log2-pow-le zero n h = omega arith
log2-pow-le (suc fuel) n h = ground (arith, log2-pow-le fuel (n / 2), pow-suc 2 (log2 fuel (n / 2)))

-- What `trailing_zeros` counts divides the number, and so does any smaller power of two.
trailing_zeros-divides : (bits n k : ℕ) → k ≤ trailing_zeros bits n → (q : ℕ) × (n ≡ 2 ^ k * q)
unfolding trailing_zeros
trailing_zeros-divides bits n zero h = (n, omega arith)
trailing_zeros-divides zero n (suc k) h = absurd (omega arith)
trailing_zeros-divides (suc bits) n (suc k) h =
    let even : n % 2 ≡ 0 = ground arith in
    let (q, e) = trailing_zeros-divides bits (n / 2) k (ground arith) in
    (q, rw pow-suc (omega (arith, e, even)))

module _ (bits first count : ℕ) where
  block_bits-le : block_bits bits first count ≤ bits
  unfolding block_bits
  block_bits-le = omega (arith, trailing_zeros-le bits first)

  block_fits : 0 < count → 2 ^ block_bits bits first count ≤ count
  unfolding block_bits
  block_fits h =
      le_trans
        (pow-le (min (trailing_zeros bits first) (log2 bits count)) (log2 bits count) (omega arith))
        (log2-pow-le bits count h)

  block_aligned : first % 2 ^ block_bits bits first count ≡ 0
  unfolding block_bits
  block_aligned =
      let b = min (trailing_zeros bits first) (log2 bits count) in
      let (q, e) = trailing_zeros-divides bits first b (omega arith) in
      ap (λ t. t % 2 ^ b) e ∙ mul-mod_right (2 ^ b) q

-- The blocks of the loop tile what is left of the range.
pub summarize_from-Tiles :
    (fuel bits first count : ℕ)
    → count ≤ fuel
    → Tiles bits first (summarize_from fuel bits first count) (first + count)
unfolding summarize_from
summarize_from-Tiles zero bits first count h = omega arith
summarize_from-Tiles (suc fuel) bits first count h = elim (Bool-cases (count == 0)) [
  | inl none_left ↦ rw none_left (ground arith)
  | inr some_left ↦
      let b = block_bits bits first count in
      let fits : 2 ^ b ≤ count = block_fits bits first count (ground arith) in
      let small : bits - (bits - b) ≡ b = omega (arith, block_bits-le bits first count) in
      let end : first + 2 ^ b + (count - 2 ^ b) ≡ first + count = omega (arith, fits) in
      rw some_left (
        refl,
        refl,
        omega arith,
        rw small (block_aligned bits first count),
        rw small (
            subst
              (Tiles bits (first + 2 ^ b)
                (summarize_from fuel bits (first + 2 ^ b) (count - 2 ^ b)))
              end
              (summarize_from-Tiles fuel bits (first + 2 ^ b) (count - 2 ^ b)
                (omega (arith, pow_pos b, h, fits)))),
      )
]
