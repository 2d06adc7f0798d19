-- ===== src/BlockTarget/Linear.antt =====
-- The bytes that a client's linear table maps.
use hype_r_io_vm.Base.{ℕ, ◌+◌, ◌*◌, ◌/◌, ◌^◌, ◌≤◌, ◌<◌, ◌≡◌, ap, arith}
use hype_r_io_vm.BlockPolicy.{BlockRange}
use hype_r_io_vm.BlockPolicy.Ranges.{Fits, Fits-mapped, sector_whole}
use hype_r_io_vm.BlockTarget.{mul64, table_of}

-- A product that lies within the disk's bytes does not wrap.
mul64_exact : (a b bytes : ℕ) → a * b * 512 ≤ bytes → bytes < 2 ^ 64 → mul64 a b ≡ a * b
mul64_exact a b bytes h small = omega (arith, h, small)

-- The table of a range that fits its disk of a 64-bit size maps that range's bytes and no
-- others: the start and the length are exact in 512-byte units, no product wraps, and the end is
-- inside the disk.
pub table_of-Fits :
    (device bytes sector disk_read_only : ℕ) (r : BlockRange)
    → Fits bytes sector disk_read_only r
    → bytes < 2 ^ 64
    → let t = table_of device sector r in
      (t.offset * 512 ≡ r.first * sector)
      × (t.length * 512 ≡ r.count * sector)
      × (t.offset * 512 + t.length * 512 ≤ bytes)
unfolding table_of
table_of-Fits device bytes sector disk_read_only r f small =
    let units = sector_whole sector f.sector_low f.sector_pow2 in
    let (_, inside) = Fits-mapped bytes sector disk_read_only r f in
    let first = mul64_exact r.first (sector / 512) bytes (omega (arith, inside)) small in
    let count = mul64_exact r.count (sector / 512) bytes (omega (arith, inside)) small in
    (
      rw first (omega (arith, ap (λ (t : ℕ). r.first * t) units)),
      rw count (omega (arith, ap (λ (t : ℕ). r.count * t) units)),
      rw first (rw count inside),
    )
