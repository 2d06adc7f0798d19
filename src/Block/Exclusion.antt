-- ===== src/Block/Exclusion.antt =====
-- No two clients can write a sector that the other may reach.
use native.Mathlib.Nat.{div-le_self}
use hype_r_io_vm.Base.{
  ℕ, zero, suc, ◌+◌, ◌^◌, ◌<◌, ◌≡◌, ◌≢◌, inl, inr, ◌∙◌, some, List, [], ◌∷◌, get_elem?, All, arith,
}
use hype_r_io_vm.BlockPolicy.{BlockRange}
use hype_r_io_vm.BlockPolicy.Ranges.{Fits, Shares, no_conflict}
use hype_r_io_vm.BlockTarget.{Host, Log}
use hype_r_io_vm.Block.{PhysicalDisk, BlockOwner, BindRequest, Media, binding, bind_range}
use hype_r_io_vm.Block.Bindings.{IsValid, Bound, bind_range-IsValid}

-- `bytes` is a `uint64_t`.
abbrev pub Sized : BlockOwner → Type 0
Sized o = All (λ d. d.bytes < 2 ^ 64) o.disks

All-get_elem? :
    (ds : List PhysicalDisk) (i : ℕ) (d : PhysicalDisk)
    → All (λ x. x.bytes < 2 ^ 64) ds
    → get_elem? ds i ≡ some d
    → d.bytes < 2 ^ 64
All-get_elem? [] i d h e = absurd (cc)
All-get_elem? (x ∷ ds) zero d h e = ground (arith, h.0)
All-get_elem? (x ∷ ds) (suc i) d h e = All-get_elem? ds i d h.1 e

Fits-no_wrap :
    (bytes sector read_only : ℕ) (r : BlockRange)
    → bytes < 2 ^ 64
    → Fits bytes sector read_only r
    → r.first + r.count < 2 ^ 64
Fits-no_wrap bytes sector read_only r small f = omega (arith, f.inside, div-le_self bytes sector)

Bound-no_wrap :
    (o : BlockOwner) (i : ℕ)
    → Sized o
    → Bound o i
    → (binding o i).disk ≢ 0
    → (binding o i).first + (binding o i).count < 2 ^ 64
Bound-no_wrap o i sized (inl unset) named = absurd (named unset)
Bound-no_wrap o i sized (inr (d, e, f)) named =
    Fits-no_wrap d.bytes d.logical d.read_only (binding o i) (All-get_elem? o.disks _ d sized e) f

-- In a valid table, over disks of 64-bit sizes, two different clients whose bindings name one
-- disk and share a sector both have it read only.
pub shared_read_only :
    (o : BlockOwner) (i j lba : ℕ)
    → IsValid o
    → Sized o
    → i ≢ j
    → (binding o i).disk ≢ 0
    → (binding o i).disk ≡ (binding o j).disk
    → Shares (binding o i) (binding o j) lba
    → (0 < (binding o i).read_only) × (0 < (binding o j).read_only)
shared_read_only o i j lba v sized ne named same shares =
    no_conflict (binding o i) (binding o j) lba (Bound-no_wrap o i sized (v.bound i) named)
      (Bound-no_wrap o j sized (v.bound j) (λ z. named (same ∙ z))) (omega (arith, named)) same
      shares (v.apart i j ne)

-- Any sequence of requests, each with its own view of the media.
unfoldable pub bind_all : Host → List (Media × BindRequest) → BlockOwner → Log → BlockOwner × Log
bind_all host [] o log = (o, log)
bind_all host ((media, q) ∷ qs) o log =
    let (_, o', log') = bind_range host media q o log in bind_all host qs o' log'

pub bind_all-IsValid :
    (host : Host) (qs : List (Media × BindRequest)) (o : BlockOwner) (log : Log)
    → IsValid o
    → IsValid (bind_all host qs o log).0
unfolding bind_all
bind_all-IsValid host [] o log v = v
bind_all-IsValid host ((media, q) ∷ qs) o log v =
    bind_all-IsValid host qs _ _ (bind_range-IsValid host media q o log v)
