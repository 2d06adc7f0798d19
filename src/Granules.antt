-- ===== src/Granules.antt =====
-- The registry of modules/guest-memory/granules.c: 2 MiB granules of guest memory, each claimed
-- and mapped once and shared by its users. Linux is a parameter: whether it allocates, claims,
-- maps and stores. A call takes the lock for all of its changes of the registry.
pub mod Batches
pub mod Held
pub mod Counted
use hype_r_io_vm.Base.{
  ℕ, zero, suc, ◌+◌, ◌-◌, ◌%◌, ◌^◌, Bool, true, false, Option, none, some, List, [], ◌∷◌, ◌==◌,
  if◌then◌else◌, length, take, drop, on_option, not,
}

-- `struct hyper_granule`; `index` is `pgmap.range.start / SZ_2M`.
pub record Granule : Type 0 where
  pub index : ℕ
  pub users : ℕ  -- unsigned int

-- `granules`, with the resource regions claimed and the page maps made.
pub record Registry : Type 0 where
  pub granules : List Granule
  pub claimed : List ℕ
  pub mapped : List ℕ

-- What kzalloc, request_mem_region, memremap_pages and xa_store come to in one call.
pub record Answers : Type 0 where
  pub allocated : Bool
  pub requested : Bool
  pub remapped : Bool
  pub stored : Bool

pub data Acquired : Type 0 where
  acquired out_of_memory region_busy not_mapped not_stored : Acquired

-- `xa_load`
unfoldable pub users_of : ℕ → List Granule → Option ℕ
users_of i [] = none
users_of i (g ∷ gs) = if g.index == i then some g.users else users_of i gs

unfoldable pub set_users : ℕ → ℕ → List Granule → List Granule
set_users i n [] = []
set_users i n (g ∷ gs) = if g.index == i then record g { users = n } ∷ gs else g ∷ set_users i n gs

-- `xa_erase`
unfoldable pub erase : ℕ → List Granule → List Granule
erase i [] = []
erase i (g ∷ gs) = if g.index == i then gs else g ∷ erase i gs

-- One claim or one mapping is given back.
unfoldable pub give_back : ℕ → List ℕ → List ℕ
give_back i [] = []
give_back i (j ∷ js) = if j == i then js else j ∷ give_back i js

abbrev pub increment : ℕ → ℕ
increment n = (n + 1) % 2 ^ 32

abbrev pub decrement : ℕ → ℕ
decrement n = (n + (2 ^ 32 - 1)) % 2 ^ 32

-- A granule that is not known yet, with the labels `release` and `free`.
unfoldable pub create : Answers → ℕ → Registry → Acquired × Registry
create x i s =
    let claimed : Registry = record s { claimed = i ∷ s.claimed } in
    let mapped : Registry = record claimed { mapped = i ∷ s.mapped } in
    let unmapped : Registry = record mapped { mapped = give_back i mapped.mapped } in
    let released : Registry = record claimed { claimed = give_back i claimed.claimed } in
    if not x.allocated
    then (out_of_memory, s)
    else if not x.requested
    then (region_busy, s)
    else if not x.remapped
    then (not_mapped, released)
    else if not x.stored
    then (not_stored, record unmapped { claimed = give_back i unmapped.claimed })
    else (acquired, record mapped { granules = record { index = i; users = 1 } ∷ s.granules })

unfoldable pub hyper_granule_get : Answers → ℕ → Registry → Acquired × Registry
hyper_granule_get x i s =
    let created = create x i s in
    on_option (users_of i s.granules) created
      λ n. (acquired, record s { granules = set_users i (increment n) s.granules })

-- The loop under the lock, for one entry: whether it was the last user.
unfoldable pub detach : ℕ → List Granule → Bool × List Granule
detach i gs =
    on_option (users_of i gs) (false, gs)
      λ n. if decrement n == 0 then (true, erase i gs) else (false, set_users i (decrement n) gs)

-- The entries that remain in `owned` after the loop under the lock.
unfoldable pub detach_all : List ℕ → List Granule → List ℕ × List Granule
detach_all [] gs = ([], gs)
detach_all (i ∷ is) gs =
    let (last, gs') = detach i gs in
    let (finals, gs'') = detach_all is gs' in if last then (i ∷ finals, gs'') else (finals, gs'')

-- `granule_retire`
unfoldable pub granule_retire : ℕ → Registry → Registry
granule_retire i s = record s { claimed = give_back i s.claimed; mapped = give_back i s.mapped }

-- The callbacks of a batch, in the order in which they are flushed.
unfoldable pub retire_all : List ℕ → Registry → Registry
retire_all [] s = s
retire_all (i ∷ is) s = retire_all is (granule_retire i s)

unfoldable pub put_batch : List ℕ → Registry → Registry
put_batch owned s =
    let (finals, gs) = detach_all owned s.granules in retire_all finals (record s { granules = gs })

-- HYPER_GRANULE_RETIRE_BATCH
abbrev pub retire_batch : ℕ
retire_batch = 32

-- The loop over the batches, with fuel for each entry.
unfoldable pub put_loop : ℕ → List ℕ → Registry → Registry
put_loop zero owned s = s
put_loop (suc fuel) [] s = s
put_loop (suc fuel) (i ∷ is) s =
    put_loop fuel (drop retire_batch (i ∷ is)) (put_batch (take retire_batch (i ∷ is)) s)

unfoldable pub hyper_granules_put : List ℕ → Registry → Registry
hyper_granules_put owned s = put_loop (length owned) owned s
