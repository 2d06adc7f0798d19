-- ===== src/Block/Read.antt =====
-- BLOCK_READ of `block_dispatch` in service/block.c: metadata sectors into the owner's scratch
-- memory. A `pread` that EINTR interrupted is simply made again, so a call here is one that was not.
pub mod Extent
use hype_r_io_vm.Base.{
  ℕ, zero, suc, ◌+◌, ◌-◌, ◌^◌, ◌≤◌, ◌<◌, ◌≡◌, Bool, true, false, ◌&&◌, ◌||◌, not, Option, none,
  some, List, [], ◌∷◌, ◌==◌, ltb, leb, on_option, is_some, length, get_elem?, All, if◌then◌else◌,
  arith,
}
use hype_r_io_vm.BlockPolicy.{read_valid}
use hype_r_io_vm.Service.State.{Status, ok, invalid, backend_failure}
use hype_r_io_vm.Wire.{ReadRequest}
use hype_r_io_vm.Block.{PhysicalDisk, BlockOwner, Media, disk_current}

-- `pread(fd, _, count, offset)`: how many bytes it gave; nothing for an error or the end of file.
abbrev pub Reader : Type 0
Reader = ℕ → ℕ → ℕ → Option ℕ

-- A write of `count` bytes at `offset` of the scratch memory.
pub record Fill : Type 0 where
  pub offset : ℕ
  pub count : ℕ

-- The loop from `done` bytes on, with one round of fuel for each byte that is left.
unfoldable pub read_loop : ℕ → Reader → PhysicalDisk → ReadRequest → ℕ → Status × List Fill
read_loop zero reader d q done = (ok, [])
read_loop (suc fuel) reader d q done = elim (ltb done q.length) [
  | false ↦ (ok, [])
  | true ↦ elim (reader d.fd (q.length - done) (q.offset + done)) [
    | none ↦ (backend_failure, [])
    | some zero ↦ (backend_failure, [])
    | some (suc n) ↦
        (let (s, fills) = read_loop fuel reader d q (done + suc n) in
          (s, record { offset = q.memory_offset + done; count = suc n } ∷ fills))
  ]
]

-- `memory_bytes` is nothing where no scratch memory is mapped. INT64_MAX is 2 ^ 63 - 1.
unfoldable pub block_read :
    Reader → Media → ReadRequest → Option ℕ → BlockOwner → Status × List Fill
block_read reader media q memory_bytes o =
    on_option memory_bytes (invalid, [])
      λ bytes.
        if q.disk == 0 || ltb (length o.disks) q.disk
        then (invalid, [])
        else on_option (get_elem? o.disks (q.disk - 1)) (invalid, [])
            λ d.
              if not (disk_current media d)
              then (backend_failure, [])
              else if not (read_valid d.bytes d.logical q.offset q.length bytes q.memory_offset)
                  || ltb (2 ^ 63 - 1) q.offset
                  || ltb (2 ^ 63 - 1 - q.offset) q.length
              then (invalid, [])
              else read_loop q.length reader d q 0

-- `pread` gives no more than it is asked for.
abbrev pub Bounded : Reader → Type 0
Bounded reader = (fd count offset n : ℕ) → reader fd count offset ≡ some n → n ≤ count
