-- ===== src/Bits.antt =====
-- `n & (n - 1)`, the source's test for a power of two, at every number and not only at numerals.
use Prim.Native.Nat.{digits, bit_and-bitwise, min}
use native.Mathlib.Nat.{pow-suc}
use hype_r_io_vm.Base.{
  ℕ, zero, suc, ◌+◌, ◌-◌, ◌*◌, ◌/◌, ◌%◌, ◌^◌, ◌≤◌, ◌<◌, ◌≡◌, refl, ap, bit_and, arith, ℕ_discrete,
}

-- The digit recursion behind the native operation, with its bound on the digits explicit.
abbrev and_upto : ℕ → ℕ → ℕ → ℕ
and_upto bound a b = digits (λ _. zero) min bound a b

-- Any two bounds that cover the first number give the same result.
and_upto_stable : (a j k b : ℕ) → a ≤ j → a ≤ k → and_upto j a b ≡ and_upto k a b
and_upto_stable zero zero zero b h g = refl
and_upto_stable zero zero (suc k) b h g = refl
and_upto_stable zero (suc j) zero b h g = refl
and_upto_stable zero (suc j) (suc k) b h g = refl
and_upto_stable (suc a) zero k b h g = absurd (omega arith)
and_upto_stable (suc a) (suc j) zero b h g = absurd (omega arith)
and_upto_stable (suc a) (suc j) (suc k) b h g =
    let shorter = and_upto_stable (suc a / 2) j k (b / 2) (omega arith) (omega arith) in
    omega (arith, shorter)

bit_and_zero_left : (b : ℕ) → bit_and 0 b ≡ 0
bit_and_zero_left b = bit_and-bitwise 0 b

-- The lowest digit of a conjunction, and the rest.
bit_and_low : (a b : ℕ) → bit_and a b ≡ bit_and (a / 2) (b / 2) * 2 + min (a % 2) (b % 2)
bit_and_low zero b = omega (arith, bit_and_zero_left b, bit_and_zero_left (b / 2))
bit_and_low (suc a) b =
    let rest = and_upto_stable (suc a / 2) a (suc a / 2) (b / 2) (omega arith) (omega arith) in
    omega (arith, rest, bit_and-bitwise (suc a) b, bit_and-bitwise (suc a / 2) (b / 2))

bit_and_self : (k a : ℕ) → a ≤ k → bit_and a a ≡ a
bit_and_self k zero h = refl
bit_and_self zero (suc a) h = absurd (omega arith)
bit_and_self (suc k) (suc a) h =
    omega (arith, bit_and_low (suc a) (suc a), bit_and_self k (suc a / 2) (omega arith))

-- An odd number of two digits or more shares its upper digits with its predecessor.
odd_shares : (n : ℕ) → 1 < n → n % 2 ≡ 1 → 0 < bit_and n (n - 1)
odd_shares n big odd =
    let upper : (n - 1) / 2 ≡ n / 2 = omega arith in
    let shared : bit_and (n / 2) ((n - 1) / 2) ≡ n / 2 =
      rw upper (bit_and_self n (n / 2) (omega arith)) in
    omega (arith, bit_and_low n (n - 1), shared)

-- A number above one that passes the test is even, and its half passes it too.
halves : (n : ℕ) → 1 < n → bit_and n (n - 1) ≡ 0 → (n % 2 ≡ 0) × (bit_and (n / 2) (n / 2 - 1) ≡ 0)
halves n big pass = (even, below)
  where
    even : n % 2 ≡ 0
    even = elim (ℕ_discrete (n % 2) 1) [
      | yes odd ↦ absurd (omega (arith, odd_shares n big odd))
      | no other ↦ omega arith
    ]

    below : bit_and (n / 2) (n / 2 - 1) ≡ 0
    below =
        let e : n / 2 - 1 ≡ (n - 1) / 2 = omega (arith, even) in
        rw e (omega (arith, bit_and_low n (n - 1)))

pow_pos : (k : ℕ) → 0 < 2 ^ k
pow_pos zero = omega arith
pow_pos (suc k) = omega (arith, pow-suc 2 k, pow_pos k)

-- So it is a multiple of every power of two that it reaches.
pub pow2_divides : (k n : ℕ) → 2 ^ k ≤ n → bit_and n (n - 1) ≡ 0 → (q : ℕ) × (n ≡ 2 ^ k * q)
pow2_divides zero n h pass = (n, omega arith)
pow2_divides (suc k) n h pass =
    let double : 2 ^ suc k ≡ 2 ^ k * 2 = pow-suc 2 k in
    let pos : 0 < 2 ^ k = omega (arith, pow_pos k) in
    let big : 1 < n = omega arith in
    let (even, below) = halves n big pass in
    let (q, e) = pow2_divides k (n / 2) (omega arith) below in
    (q, omega (arith, e, even, ap (λ (t : ℕ). t * q) double))
