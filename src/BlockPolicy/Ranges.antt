-- ===== src/BlockPolicy/Ranges.antt =====
-- What the range tests decide: an accepted range lies inside its disk, and two ranges conflict
-- exactly where a writable sector is shared.
use hype_r_io_vm.Base.{
  ℕ, ◌+◌, ◌-◌, ◌*◌, ◌/◌, ◌%◌, ◌^◌, ◌≤◌, ◌<◌, ◌≡◌, ◌⊎◌, true, false, arith, bit_and, ap, dec_lt,
}
use native.Mathlib.Nat.{le_trans, div-add-mod}
use hype_r_io_vm.Bits.{pow2_divides}
use hype_r_io_vm.BlockPolicy.{BlockRange, range_valid, ranges_conflict}

-- The range's bytes lie inside a disk of `bytes` bytes and `sector`-byte sectors.
pub record Fits (bytes sector disk_read_only : ℕ) (r : BlockRange) : Type 0 where
  pub sector_low : 512 ≤ sector
  pub sector_high : sector ≤ 65536
  pub sector_pow2 : bit_and sector (sector - 1) ≡ 0
  pub whole : bytes % sector ≡ 0
  pub disk_named : 0 < r.disk
  pub nonempty : 0 < r.count
  pub inside : r.first + r.count ≤ bytes / sector
  pub flag : r.read_only ≤ 1
  pub respects : 0 < disk_read_only → r.read_only ≡ 1

pub range_valid-Fits :
    (bytes sector disk_read_only : ℕ) (r : BlockRange)
    → range_valid bytes sector disk_read_only r ≡ true
    → Fits bytes sector disk_read_only r
unfolding range_valid
range_valid-Fits bytes sector disk_read_only r h = ground arith

pub Fits-range_valid :
    (bytes sector disk_read_only : ℕ) (r : BlockRange)
    → Fits bytes sector disk_read_only r
    → range_valid bytes sector disk_read_only r ≡ true
unfolding range_valid
Fits-range_valid bytes sector disk_read_only r h = ground arith

pub sector_whole :
    (sector : ℕ) → 512 ≤ sector → bit_and sector (sector - 1) ≡ 0 → sector / 512 * 512 ≡ sector
sector_whole sector low pow2 =
    let (q, e) = pow2_divides 9 sector (omega arith) pow2 in omega (arith, e)

mul_mono : (a b c : ℕ) → a ≤ b → a * c ≤ b * c
mul_mono a b c h = grind arith

div_mul_le : (a b : ℕ) → a / b * b ≤ a
div_mul_le a b = omega (arith, div-add-mod a b)

-- The test at 512-byte units, which the device mapper counts in, is exact, and the
-- mapped bytes end inside the disk.
pub Fits-mapped :
    (bytes sector disk_read_only : ℕ) (r : BlockRange)
    → Fits bytes sector disk_read_only r
    → (r.count * (sector / 512) * 512 ≡ r.count * sector)
      × (r.first * (sector / 512) * 512 + r.count * (sector / 512) * 512 ≤ bytes)
Fits-mapped bytes sector disk_read_only r f = (exact r.count, omega (arith, inside, total))
  where
    exact : (n : ℕ) → n * (sector / 512) * 512 ≡ n * sector
    exact n = omega (arith, ap (λ (t : ℕ). n * t) (sector_whole sector f.sector_low f.sector_pow2))

    total :
        r.first * (sector / 512) * 512 + r.count * (sector / 512) * 512
        ≡ (r.first + r.count) * sector
    total = omega (arith, exact r.first, exact r.count)

    inside : (r.first + r.count) * sector ≤ bytes
    inside =
        le_trans (mul_mono (r.first + r.count) (bytes / sector) sector f.inside)
          (div_mul_le bytes sector)

-- A sector that both ranges hold.
abbrev pub Shares : BlockRange → BlockRange → ℕ → Type 0
Shares a b lba =
    (a.first ≤ lba) × (lba < a.first + a.count) × (b.first ≤ lba) × (lba < b.first + b.count)

pub no_conflict :
    (a b : BlockRange) (lba : ℕ)
    → a.first + a.count < 2 ^ 64
    → b.first + b.count < 2 ^ 64
    → 0 < a.disk
    → a.disk ≡ b.disk
    → Shares a b lba
    → ranges_conflict a b ≡ false
    → (0 < a.read_only) × (0 < b.read_only)
unfolding ranges_conflict
no_conflict a b lba fa fb named e s h = ground arith

pub conflict-Shares :
    (a b : BlockRange)
    → a.first + a.count < 2 ^ 64
    → b.first + b.count < 2 ^ 64
    → 0 < a.count
    → 0 < b.count
    → ranges_conflict a b ≡ true
    → (a.disk ≡ b.disk) × ((lba : ℕ) × Shares a b lba) × ((a.read_only ≡ 0) ⊎ (b.read_only ≡ 0))
unfolding ranges_conflict
conflict-Shares a b fa fb na nb h = elim (dec_lt a.first b.first) [
  | yes p ↦ (ground arith, (b.first, ground arith), ground arith)
  | no p ↦ (ground arith, (a.first, ground arith), ground arith)
]
