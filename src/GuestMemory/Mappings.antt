-- ===== src/GuestMemory/Mappings.antt =====
-- A dynamic device among the others that share its granules: what its mappings reach stays mapped.
pub mod Holding
pub mod Mapped
pub mod Hosts
pub mod Parts
pub mod Reached
use hype_r_io_vm.Base.{
  ℕ, zero, suc, ◌+◌, ◌-◌, ◌/◌, ◌^◌, ◌≤◌, ◌<◌, ◌≡◌, ◌⊎◌, map, nonzero, is_some, Bool, true, false,
  Option, none, some, List, [], ◌∷◌, length, get_elem?, ◌==◌, if◌then◌else◌,
}
use hype_r_io_vm.Granules
use hype_r_io_vm.Granules.{Registry, Acquired, acquired, hyper_granule_get, hyper_granules_put}
use hype_r_io_vm.Granules.Counted.{tally, one_more, one_less}
use hype_r_io_vm.GuestMemory.{
  Memory, Host, Outcome, is_done, Request, Answers, Area, Command, hyper_memory_open,
  hyper_memory_release, hyper_vma_open, hyper_vma_close, hyper_memory_mmap, hyper_memory_ioctl,
  hyper_memory_remove, unique_indices, publish, hyper_memory_unprepare,
}
use hype_r_io_vm.GuestMemory.Prepare.{Sorts, words}
use hype_r_io_vm.Layout.{page_size}

-- The device with the registry, the frames of each mapping, and how often each granule is held by
-- others: the other devices, and the calls of this device that are under way.
pub record System : Type 0 where
  pub host : Host
  pub others : ℕ → ℕ
  pub areas : List (List ℕ)

-- Who holds a granule, the device and the others together.
abbrev pub holders : System → ℕ → ℕ
holders s i = tally i s.host.memory.granules + s.others i

unfoldable pub remove_at : ℕ → List (List ℕ) → List (List ℕ)
remove_at k [] = []
remove_at zero (a ∷ l) = l
remove_at (suc k) (a ∷ l) = a ∷ remove_at k l

abbrev pub with_memory : Memory → System → System
with_memory m s = record s { host = record s.host { memory = m } }

-- The mappings after `mmap`.
abbrev pub areas_after : Outcome × List ℕ × Memory → List (List ℕ) → List (List ℕ)
areas_after r areas = if is_done r.0 then r.1 ∷ areas else areas

-- The frames of the words of a request.
abbrev pub frames_of : Answers → Request → List ℕ
frames_of x p = map (λ a. a / page_size) (words x p)

abbrev pub others_after : Acquired → ℕ → (ℕ → ℕ) → ℕ → ℕ
others_after acquired i others = one_more i others
others_after _ i others = others

-- A dynamic device as `hyper_memory_probe` leaves it.
abbrev pub loaded : ℕ → ℕ → Registry → (ℕ → ℕ) → System
loaded start stop registry others = record {
  host = record {
    memory = record {
      references = 1;
      first_pfn = 0;
      pages = 0;
      live = true;
      dynamic = true;
      opened = false;
      vmas = 0;
      start = start;
      stop = stop;
      pfns = none;
      granules = [];
      guest_base = 0;
    };
    registry = registry;
  };
  others = others;
  areas = [];
}

-- A mapping keeps its file from being released, also where the mapping is a copy. The other
-- devices acquire and put granules of their own, one at a time. A preparation and a release give
-- granules_lock back between two acquisitions or batches, so that others come in between: `commands`
-- and `releases` are those with nothing in between, and any other is in parts. Its acquisitions
-- and puts are then those of one of the others, `publishes` hands to the device what was acquired
-- for it, and `detaches` takes from it what is still to be put; both make fewer tests than the
-- code, and so allow more runs.
pub data Step (s : System) : System → Type 0 where
  opens : Step s (with_memory (hyper_memory_open s.host.memory).1 s)
  maps :
      (inserted : ℕ → Bool) (a : Area)
      → Step s (record (with_memory (hyper_memory_mmap inserted a s.host.memory).2 s) {
        areas = areas_after (hyper_memory_mmap inserted a s.host.memory) s.areas;
      })
  forks :
      (k : ℕ) (frames : List ℕ)
      → get_elem? s.areas k ≡ some frames
      → Step s (record (with_memory (hyper_vma_open s.host.memory) s) { areas = frames ∷ s.areas })
  unmaps :
      (k : ℕ)
      → k < length s.areas
      → Step s
          (record (with_memory (hyper_vma_close s.host.memory) s) { areas = remove_at k s.areas })
  commands :
      (x : Answers) (copied_in copied_out : Bool) (p : Request) (c : Command)
      → Sorts x.sort
      → Step s (record s { host = (hyper_memory_ioctl x copied_in copied_out p c s.host).2 })
  releases : s.areas ≡ [] → Step s (record s { host = hyper_memory_release s.host })
  publishes :
      (x : Answers) (p : Request)
      → Sorts x.sort
      → is_some s.host.memory.pfns ≡ false
      → ((i : ℕ) → tally i (unique_indices x (words x p)) ≤ s.others i)
      → Step s (record s {
        host =
            (publish
              (acquired, unique_indices x (words x p), s.host.registry)
              p
              (frames_of x p)
              s.host).1;
        others = λ i. s.others i - tally i (unique_indices x (words x p));
      })
  detaches :
      (s.areas ≡ []) ⊎ (nonzero s.host.memory.vmas ≡ false)
      → Step s (record (with_memory (hyper_memory_unprepare s.host).memory s) {
        others = λ i. s.others i + tally i s.host.memory.granules;
      })
  removes : Step s (with_memory (hyper_memory_remove s.host.memory) s)
  other_gets :
      (x : Granules.Answers) (i : ℕ)
      → Step s (record s {
        host = record s.host { registry = (hyper_granule_get x i s.host.registry).1 };
        others = others_after (hyper_granule_get x i s.host.registry).0 i s.others;
      })
  other_puts :
      (i : ℕ)
      → 0 < s.others i
      → Step s (record s {
        host = record s.host { registry = hyper_granules_put (i ∷ []) s.host.registry };
        others = one_less i s.others;
      })

-- Fewer holders of any granule, and fewer mappings, than the 32-bit counters can tell.
abbrev pub IsSmall : System → Type 0
IsSmall s = ((i : ℕ) → holders s i + 1 < 2 ^ 32) × (length s.areas + 1 < 2 ^ 32)

-- From a registry in which the others hold what they hold.
pub data Reach (s0 : System) : System → Type 0 where
  start : IsSmall s0 → Reach s0 s0
  later : {s t : System} → Reach s0 s → Step s t → IsSmall t → Reach s0 t
