-- ===== src/BlockPolicy.antt =====
-- The LBA range policy of include/hyper_block_policy.h. Numbers are `uint64_t` or `unsigned`
-- below their widths; where the code wraps, the wrap is written out.
pub mod Ranges
use hype_r_io_vm.Base.{
  ℕ, ◌+◌, ◌-◌, ◌/◌, ◌%◌, ◌^◌, Bool, true, false, ◌&&◌, ◌||◌, not, ltb, leb, ◌==◌, nonzero, bit_and,
  if◌then◌else◌,
}

abbrev pub block_clients : ℕ
block_clients = 128

abbrev pub block_disks : ℕ
block_disks = 128

-- `struct hyper_block_range`
pub record BlockRange : Type 0 where
  pub disk : ℕ  -- uint64_t
  pub first : ℕ  -- uint64_t
  pub count : ℕ  -- uint64_t
  pub read_only : ℕ  -- unsigned

-- `uint64_t` addition.
abbrev pub add64 : ℕ → ℕ → ℕ
add64 a b = (a + b) % 2 ^ 64

-- `hyper_block_range_valid`
unfoldable pub range_valid : ℕ → ℕ → ℕ → BlockRange → Bool
range_valid bytes sector disk_read_only r =
    if ltb sector 512
      || ltb 65536 sector
      || nonzero (bit_and sector (sector - 1))
      || bytes == 0
      || nonzero (bytes % sector)
      || r.disk == 0
      || r.count == 0
      || ltb 1 r.read_only
      || (nonzero disk_read_only && r.read_only == 0)
    then false
    else (let sectors = bytes / sector in ltb r.first sectors && leb r.count (sectors - r.first))

-- `hyper_block_ranges_conflict`
unfoldable pub ranges_conflict : BlockRange → BlockRange → Bool
ranges_conflict a b =
    if a.disk == 0 || not (a.disk == b.disk) || (nonzero a.read_only && nonzero b.read_only)
    then false
    else ltb a.first (add64 b.first b.count) && ltb b.first (add64 a.first a.count)

-- `hyper_block_read_valid`; `bytes - length` is reached only after `length <= bytes`.
unfoldable pub read_valid : ℕ → ℕ → ℕ → ℕ → ℕ → ℕ → Bool
read_valid bytes sector offset length memory_bytes memory_offset =
    nonzero sector
    && nonzero length
    && leb length (2 ^ 20)
    && not (nonzero (offset % sector))
    && not (nonzero (length % sector))
    && leb length bytes
    && leb offset (bytes - length)
    && leb length memory_bytes
    && leb memory_offset (memory_bytes - length)
