-- ===== src/GuestMemory.antt =====
-- The files of modules/guest-memory/memory.c over the registry of granules: a device's page-backed
-- mappings of memory that is granted to it. Every operation on an open file takes the device's lock
-- for all that it does. Linux is a parameter: whether it allocates and copies, what the caller's
-- array of pages holds, `sort`, and whether a page can be inserted into a mapping.
pub mod Compact
pub mod Acquire
pub mod Prepare
pub mod Mappings
pub mod Device
use Prim.Native.Nat.{Ordering}
use hype_r_io_vm.Base.{
  ℕ, zero, suc, ◌+◌, ◌-◌, ◌*◌, ◌/◌, ◌%◌, ◌^◌, Bool, true, false, ◌&&◌, ◌||◌, not, Option, none,
  some, is_some, List, [], ◌∷◌, map, take, length, get_or, set, ◌==◌, ltb, leb, nonzero,
  if◌then◌else◌,
}
use hype_r_io_vm.Layout.{u64_max, page_size, granule_size, page_aperture}
use hype_r_io_vm.Service.Prepare.{max_grant_pages}
use hype_r_io_vm.Granules
use hype_r_io_vm.Granules.{Registry, Acquired, acquired, hyper_granule_get, hyper_granules_put}

-- `struct hyper_guest_memory`. A pointer that is NULL is `none`, and the granules are their indices.
pub record Memory : Type 0 where
  pub references : ℕ
  pub first_pfn : ℕ
  pub pages : ℕ
  pub live : Bool
  pub dynamic : Bool
  pub opened : Bool
  pub vmas : ℕ
  pub start : ℕ  -- of `aperture`
  pub stop : ℕ  -- `aperture.end`
  pub pfns : Option (List ℕ)
  pub granules : List ℕ
  pub guest_base : ℕ

-- The device's memory and the registry that all devices share.
pub record Host : Type 0 where
  pub memory : Memory
  pub registry : Registry

-- 0, or a negative error number; `not_granted` is the error of `hyper_granule_get`.
pub data Outcome : Type 0 where
  done no_device busy invalid no_memory bad_address not_a_command : Outcome
  not_granted : Acquired → Outcome
  not_inserted : Outcome

abbrev pub is_done : Outcome → Bool
is_done done = true
is_done _ = false

-- `struct hyper_memory_prepare`; `reserved` is its last field.
pub record Request : Type 0 where
  pub guest_base : ℕ
  pub length : ℕ
  pub token : ℕ
  pub alias : ℕ
  pub count : ℕ
  pub pages : ℕ
  pub reserved : ℕ

-- What Linux answers to one `hyper_memory_prepare`: the three arrays, the copy and word `k` of what
-- it copied, `sort`, the array of granules, and what each acquisition meets.
pub record Answers : Type 0 where
  pub allocated : Bool
  pub copied : Bool
  pub word : ℕ → ℕ
  pub sort : (ℕ → ℕ → Ordering) → List ℕ → List ℕ
  pub reserved : Bool
  pub granule : ℕ → Granules.Answers

-- `(a > b) - (a < b)`
abbrev pub compare_indices : ℕ → ℕ → Ordering
compare_indices a b = if ltb b a then Ordering.gt else if ltb a b then Ordering.lt else Ordering.eq

unfoldable pub hyper_memory_unprepare : Host → Host
hyper_memory_unprepare h =
    let m = h.memory in
    let cleared : Memory = record m { granules = []; pfns = none } in
    record {
      memory = if m.dynamic then record cleared { first_pfn = 0; pages = 0 } else cleared;
      registry = hyper_granules_put m.granules h.registry;
    }

-- The words `i` to `i + n` of an array.
unfoldable pub tabulate : (ℕ → ℕ) → ℕ → ℕ → List ℕ
tabulate f i zero = []
tabulate f i (suc n) = f i ∷ tabulate f (i + 1) n

-- The test of the loop that fills `pfns` and `indices`.
unfoldable pub all_inside : ℕ → ℕ → List ℕ → Bool
all_inside start stop [] = true
all_inside start stop (a ∷ l) = page_aperture a start stop && all_inside start stop l

-- The loop over `indices` from `i` on: `unique` so far, and the array, which it writes in place.
unfoldable pub compact : ℕ → ℕ → ℕ → List ℕ → ℕ × List ℕ
compact zero i unique a = (unique, a)
compact (suc n) i unique a =
    let v = get_or a i 0 in
    let kept = compact n (i + 1) (unique + 1) (set a unique v) in
    let skipped = compact n (i + 1) unique a in
    if i == 0 || not (v == get_or a (i - 1) 0) then kept else skipped

-- What the loop does with the result of one acquisition and with what follows it.
abbrev pub go_on :
    Acquired → ℕ → Registry → Acquired × List ℕ × Registry → Acquired × List ℕ × Registry
go_on acquired i s rest = (rest.0, i ∷ rest.1, rest.2)
go_on e i s rest = (e, [], s)

-- The loop of acquisitions: its result, the granules acquired and the registry.
unfoldable pub acquire_all :
    (ℕ → Granules.Answers) → List ℕ → Registry → Acquired × List ℕ × Registry
acquire_all x [] s = (acquired, [], s)
acquire_all x (i ∷ is) s =
    let (result, s1) = hyper_granule_get (x i) i s in go_on result i s1 (acquire_all x is s1)

-- From the result of the loop on: the publication, or the label `out`.
unfoldable pub publish : Acquired × List ℕ × Registry → Request → List ℕ → Host → Outcome × Host
publish (acquired, granules, s) p pfns h =
    let m = h.memory in
    (
      done,
      record {
        memory = record m {
          pfns = some pfns;
          granules = granules;
          pages = p.count;
          guest_base = p.guest_base;
        };
        registry = s;
      },
    )
publish (e, granules, s) p pfns h =
    (not_granted e, record h { registry = hyper_granules_put granules s })

-- The sorted indices, each once.
unfoldable pub unique_indices : Answers → List ℕ → List ℕ
unique_indices x aliases =
    let sorted = x.sort compare_indices (map (λ a. a / granule_size) aliases) in
    let (unique, indices) = compact (length aliases) 0 0 sorted in take unique indices

-- The part of `hyper_memory_prepare` for a dynamic device.
unfoldable pub prepare_dynamic : Answers → Request → Host → Outcome × Host
prepare_dynamic x p h =
    let m = h.memory in
    let aliases = tabulate x.word 0 p.count in
    let granted = acquire_all x.granule (unique_indices x aliases) h.registry in
    if p.token == 0
      || p.count == 0
      || ltb max_grant_pages p.count
      || not (p.count == p.length / page_size)
    then (invalid, h)
    else if is_some m.pfns
    then (busy, h)
    else if not x.allocated
    then (no_memory, h)
    else if not x.copied
    then (bad_address, h)
    else if nonzero p.alias || not (all_inside m.start m.stop aliases)
    then (invalid, h)
    else if not x.reserved
    then (no_memory, h)
    else publish granted p (map (λ a. a / page_size) aliases) h

-- The part of `hyper_memory_prepare` for a reserved region, which is always prepared.
unfoldable pub prepare_reserved : Request → Memory → Outcome
prepare_reserved p m =
    if p.token == 0
      && p.count == 0
      && p.pages == 0
      && p.alias == m.first_pfn * page_size % 2 ^ 64
      && leb p.length (m.pages * page_size % 2 ^ 64)
    then done
    else invalid

unfoldable pub hyper_memory_prepare : Answers → Request → Host → Outcome × Host
hyper_memory_prepare x p h =
    if p.length == 0
      || nonzero (p.length % page_size)
      || nonzero (p.guest_base % page_size)
      || nonzero p.reserved
      || ltb (u64_max - p.length) p.guest_base
    then (invalid, h)
    else if not h.memory.dynamic
    then (prepare_reserved p h.memory, h)
    else prepare_dynamic x p h

unfoldable pub hyper_memory_open : Memory → Outcome × Memory
hyper_memory_open m =
    if not m.live
    then (no_device, m)
    else if m.dynamic && m.opened
    then (busy, m)
    else (done, record m { references = m.references + 1; opened = true })

-- `hyper_memory_release` up to its `kref_put`.
unfoldable pub hyper_memory_release : Host → Host
hyper_memory_release h =
    let h' = if h.memory.dynamic then hyper_memory_unprepare h else h in
    record h' { memory = record h'.memory { opened = false } }

unfoldable pub hyper_vma_open : Memory → Memory
hyper_vma_open m = record m { vmas = (m.vmas + 1) % 2 ^ 32 }

unfoldable pub hyper_vma_close : Memory → Memory
hyper_vma_close m = record m { vmas = (m.vmas + (2 ^ 32 - 1)) % 2 ^ 32 }

-- A mapping that is asked for: its flags VM_SHARED and VM_EXEC, `vm_pgoff` and `vma_pages`.
pub record Area : Type 0 where
  pub shared : Bool
  pub executable : Bool
  pub offset : ℕ
  pub count : ℕ

-- The frame at `offset`.
unfoldable pub pfn_at : Memory → ℕ → ℕ
pfn_at m offset =
    if m.dynamic
    then elim m.pfns [ some pfns ↦ get_or pfns offset 0 | none ↦ 0 ]
    else m.first_pfn + offset

-- The loop of `hyper_memory_mmap`: the frames inserted, and whether each insertion succeeded.
unfoldable pub insert_pages : (ℕ → Bool) → Memory → ℕ → ℕ → Bool × List ℕ
insert_pages inserted m offset zero = (true, [])
insert_pages inserted m offset (suc n) =
    let rest = insert_pages inserted m (offset + 1) n in
    if inserted (pfn_at m offset) then (rest.0, pfn_at m offset ∷ rest.1) else (false, [])

-- The frames that the mapping holds, with the result; Linux takes back those of a mapping that
-- failed.
unfoldable pub hyper_memory_mmap : (ℕ → Bool) → Area → Memory → Outcome × List ℕ × Memory
hyper_memory_mmap inserted a m =
    let (fine, frames) = insert_pages inserted m a.offset a.count in
    if not a.shared || a.executable
    then (invalid, [], m)
    else if leb m.pages a.offset || ltb (m.pages - a.offset) a.count
    then (invalid, [], m)
    else if not m.live
    then (no_device, [], m)
    else if not fine
    then (not_inserted, [], m)
    else (done, frames, record m { vmas = (m.vmas + 1) % 2 ^ 32 })

pub data Command : Type 0 where
  info prepare release unknown : Command

abbrev pub is_known : Command → Bool
is_known unknown = false
is_known _ = true

-- What is copied out: `guest_base` and `length`.
abbrev pub Output : Type 0
Output = Option (ℕ × ℕ)

-- `resource_size`
abbrev pub resource_size : ℕ → ℕ → ℕ
resource_size start stop = (stop + 1 + 2 ^ 64 - start) % 2 ^ 64

unfoldable pub info_of : Memory → ℕ × ℕ
info_of m =
    (m.guest_base, if m.dynamic then resource_size m.start m.stop else m.pages * page_size % 2 ^ 64)

-- The commands on a device that is live.
unfoldable pub command_memory : Answers → Bool → Request → Command → Host → Outcome × Output × Host
command_memory x copied_out p prepare h =
    let (result, h') = hyper_memory_prepare x p h in (result, none, h')
command_memory x copied_out p release h =
    if nonzero h.memory.vmas then (busy, none, h) else (done, none, hyper_memory_unprepare h)
command_memory x copied_out p info h =
    if copied_out then (done, some (info_of h.memory), h) else (bad_address, none, h)
command_memory x copied_out p unknown h = (not_a_command, none, h)

abbrev pub is_prepare : Command → Bool
is_prepare prepare = true
is_prepare _ = false

-- `copied_in` and `copied_out` are the copies of the request and of the information.
unfoldable pub hyper_memory_ioctl :
    Answers → Bool → Bool → Request → Command → Host → Outcome × Output × Host
hyper_memory_ioctl x copied_in copied_out p c h =
    if not (is_known c)
    then (not_a_command, none, h)
    else if is_prepare c && not copied_in
    then (bad_address, none, h)
    else if not h.memory.live
    then (no_device, none, h)
    else command_memory x copied_out p c h

-- `hyper_memory_remove` up to its `kref_put`.
unfoldable pub hyper_memory_remove : Memory → Memory
hyper_memory_remove m = record m { live = false }
