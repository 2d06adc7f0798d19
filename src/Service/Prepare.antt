-- ===== src/Service/Prepare.antt =====
-- `prepare_memory` of service/memory.c: the admission of a grant, the walk over its extents, and
-- the mapping. Request fields are the numbers that `le64toh` gives. `size_t` is 64 bits wide, so
-- the test `(uint64_t)(size_t)length != length` never fires and is left out.
pub mod Pages
pub mod Grant
pub mod Result
use hype_r_io_vm.Base.{
  ℕ, zero, suc, ◌+◌, ◌-◌, ◌*◌, ◌/◌, ◌%◌, ◌^◌, Bool, true, false, ◌&&◌, ◌||◌, not, Option, none,
  some, List, [], ◌∷◌, ◌==◌, ltb, leb, nonzero, is_some, on_option, set, replicate, if◌then◌else◌,
}
use hype_r_io_vm.Layout.{u64_max, page_size, extent_valid}
use hype_r_io_vm.Service.Calls.{
  Kernel, Trace, Extent, Region, Device, guest_memory, open_device, allocate, map_shared,
  memory_info, memory_prepare, admit_token, read_extent,
}
use hype_r_io_vm.Service.State.{
  Backend, World, Status, ok, invalid, busy, backend_failure, quiescence_failed, memory_endpoint,
}
use hype_r_io_vm.Service.Retire.{release_memory}

abbrev pub max_grant_pages : ℕ
max_grant_pages = 2 ^ 20

abbrev pub block_max_read : ℕ
block_max_read = 2 ^ 20

-- `struct hyper_io_prepare_memory`, without its header.
pub record PrepareRequest : Type 0 where
  pub alias : ℕ
  pub guest_base : ℕ
  pub length : ℕ
  pub token : ℕ

-- The inner loop: `rounds` pages from offset `at` of the extent that starts at `cursor`.
unfoldable pub fill_pages : ℕ → ℕ → ℕ → ℕ → List ℕ → List ℕ
fill_pages zero cursor alias at pages = pages
fill_pages (suc rounds) cursor alias at pages =
    fill_pages rounds cursor alias (at + page_size)
      (set pages ((cursor + at) / page_size) (alias + at))

-- The outer loop, over the extents `i, i + 1, ...`, `left` of them. It yields the cursor and
-- the page table, or nothing where the code goes to `failed`. An accepted extent is a whole number
-- of pages, so the inner loop makes `length / page_size` rounds.
unfoldable pub collect :
    Kernel → Option ℕ → ℕ → ℕ → ℕ → ℕ → List ℕ → Trace → Option (ℕ × List ℕ) × Trace
collect k route total zero i cursor pages t = (some (cursor, pages), t)
collect k route total (suc left) i cursor pages t =
    let t' = read_extent route i ∷ t in
    elim (k.extent t (read_extent route i)) [
      | none ↦ (none, t')
      | some x ↦ elim (extent_valid cursor total x.alias x.offset x.length) [
        | false ↦ (none, t')
        | true ↦
            collect k route total left (i + 1) (cursor + x.length)
              (fill_pages (x.length / page_size) cursor x.alias 0 pages) t'
      ]
    ]

-- The label `failed`.
unfoldable pub fail_prepare : Kernel → World → Status × World
fail_prepare k w =
    let (s, w') = release_memory k w in
    (elim s [ ok ↦ backend_failure | _ ↦ quiescence_failed ], w')

-- From the open of the memory device on; `pages` is empty where no token is given.
unfoldable pub map_memory : Kernel → PrepareRequest → ℕ → List ℕ → World → Status × World
map_memory k r count pages w =
    let b = w.backend in
    let opened = open_device guest_memory in
    let t1 = opened ∷ w.trace in
    on_option (k.number w.trace opened) (fail_prepare k (record w { trace = t1 })) λ fd.
      let b1 = record b { memory_fd = some fd } in
      let info = memory_info (some fd) in
      let t2 = info ∷ t1 in
      let prepare = memory_prepare (some fd) r.alias r.guest_base r.length r.token count pages in
      let t3 = prepare ∷ t2 in
      let mapping = map_shared r.length (some fd) in
      let t4 = mapping ∷ t3 in
      on_option (k.window t1 info) (fail_prepare k (record { backend = b1; trace = t2 })) λ window.
        if ltb window.length r.length
        then fail_prepare k (record { backend = b1; trace = t2 })
        else if not (k.accepts t2 prepare)
        then fail_prepare k (record { backend = b1; trace = t3 })
        else on_option (k.number t3 mapping) (fail_prepare k (record { backend = b1; trace = t4 }))
            λ address. (
              ok,
              record {
                backend = record b1 {
                  memory = some address;
                  token = r.token;
                  region = record { guest_base = r.guest_base; length = r.length };
                };
                trace = t4;
              },
            )

-- The test `cursor != length` after the walk.
unfoldable pub use_table : Kernel → PrepareRequest → Option (ℕ × List ℕ) → World → Status × World
use_table k r none w = fail_prepare k w
use_table k r (some (cursor, pages)) w =
    if cursor == r.length then map_memory k r (r.length / page_size) pages w else fail_prepare k w

-- The branch of a nonzero token, up to the page table.
unfoldable pub admit_grant : Kernel → PrepareRequest → World → Status × World
admit_grant k r w =
    let b = w.backend in
    let route = (memory_endpoint b).notification in
    let count = r.length / page_size in
    let admission = admit_token route r.token r.guest_base r.length in
    let t1 = admission ∷ w.trace in
    if nonzero r.alias || ltb max_grant_pages count
    then (invalid, w)
    else on_option (k.number w.trace admission) (invalid, record w { trace = t1 })
        λ extents.
          let b1 = record b { token = r.token } in
          let t2 = allocate count ∷ t1 in
          let walk = collect k route r.length extents 0 0 (replicate count 0) t2 in
          if not (k.accepts t1 (allocate count))
          then fail_prepare k (record { backend = b1; trace = t2 })
          else use_table k r walk.0 (record { backend = b1; trace = walk.1 })

unfoldable pub prepare_memory : Kernel → PrepareRequest → World → Status × World
prepare_memory k r w =
    let b = w.backend in
    if not b.managed || is_some b.memory || is_some b.memory_fd || nonzero b.token
    then (busy, w)
    else if r.length == 0
        || nonzero (r.length % 4096)
        || nonzero (r.guest_base % 4096)
        || ltb (u64_max - r.length) r.guest_base
        || (b.owner && (ltb block_max_read r.length || nonzero r.token))
    then (invalid, w)
    else if nonzero r.token
    then admit_grant k r w
    else map_memory k r 0 [] w
