-- ===== src/Examples/Guests.antt =====
-- A dynamic device that is prepared with three pages and mapped, over a sort by insertion.
use Prim.Native.Nat.{Ordering}
use hype_r_io_vm.Base.{
  ℕ, zero, suc, ◌+◌, ◌*◌, ◌^◌, ◌≤◌, ◌<◌, ◌≡◌, ◌⊎◌, inl, inr, refl, sym, ap, ◌∙◌, subst, true, false,
  ◌||◌, List, [], ◌∷◌, All, Pairs, length, get_or, ◌==◌, if◌then◌else◌, arith,
}
use hype_r_io_vm.Granules.{Registry, users_of, hyper_granule_get, create}
use hype_r_io_vm.Granules.Counted.{IsCounted, tally}
use hype_r_io_vm.GuestMemory.{
  Request, Answers, Area, prepare, is_done, compare_indices, hyper_memory_unprepare,
  hyper_memory_prepare, hyper_memory_ioctl, hyper_memory_mmap, command_memory, prepare_dynamic,
  tabulate, all_inside, unique_indices, compact, acquire_all, publish, insert_pages, pfn_at,
}
use hype_r_io_vm.Layout.{page_aperture}
use hype_r_io_vm.GuestMemory.Compact.{has}
use hype_r_io_vm.GuestMemory.Acquire.{HasRoom}
use hype_r_io_vm.GuestMemory.Mappings.{
  System, loaded, with_memory, areas_after, commands, maps, Reach, start, later,
}
use hype_r_io_vm.GuestMemory.Mappings.Reached.{IsRegistered, Reach-IsRegistered}
use hype_r_io_vm.GuestMemory.Prepare.{Sorts, hyper_memory_prepare_atomic}

insert : (ℕ → ℕ → Ordering) → ℕ → List ℕ → List ℕ
insert cmp a [] = a ∷ []
insert cmp a (b ∷ l) =
    let rest = insert cmp a l in elim (cmp a b) [ Ordering.gt ↦ b ∷ rest | _ ↦ a ∷ b ∷ l ]

insertion_sort : (ℕ → ℕ → Ordering) → List ℕ → List ℕ
insertion_sort cmp [] = []
insertion_sort cmp (a ∷ l) = insert cmp a (insertion_sort cmp l)

Sorted : List ℕ → Type 0
Sorted l = Pairs (λ a b. a ≤ b) l

length-insert : (a : ℕ) (l : List ℕ) → length (insert compare_indices a l) ≡ suc (length l)
unfolding insert
length-insert a [] = refl
length-insert a (b ∷ l) = let rest = length-insert a l in ground (arith, rest)

has-insert : (a v : ℕ) (l : List ℕ) → has v (insert compare_indices a l) ≡ (a == v || has v l)
unfolding insert has
has-insert a v [] = refl
has-insert a v (b ∷ l) = let rest = has-insert a v l in ground (arith, rest)

insert_cases :
    (a b : ℕ) (l : List ℕ)
    → ((b ≤ a) × (insert compare_indices a (b ∷ l) ≡ b ∷ insert compare_indices a l))
      ⊎ ((a ≤ b) × (insert compare_indices a (b ∷ l) ≡ a ∷ b ∷ l))
unfolding insert
insert_cases a b l = ground arith

All-insert :
    (c a : ℕ) (l : List ℕ)
    → c ≤ a
    → All (λ b. c ≤ b) l
    → All (λ b. c ≤ b) (insert compare_indices a l)
unfolding insert
All-insert c a [] h hs = (h, tt)
All-insert c a (b ∷ l) h (one, hs) = elim (insert_cases a b l) [
  | inl (low, e) ↦ subst (All (λ b. c ≤ b)) (sym e) (one, All-insert c a l h hs)
  | inr (high, e) ↦ subst (All (λ b. c ≤ b)) (sym e) (h, (one, hs))
]

All-le : (a b : ℕ) (l : List ℕ) → a ≤ b → All (λ c. b ≤ c) l → All (λ c. a ≤ c) l
All-le a b [] h hs = tt
All-le a b (c ∷ l) h (one, hs) = (omega (arith, h, one), All-le a b l h hs)

Sorted-insert : (a : ℕ) (l : List ℕ) → Sorted l → Sorted (insert compare_indices a l)
unfolding insert Sorted
Sorted-insert a [] h = (tt, tt)
Sorted-insert a (b ∷ l) (h, hs) = elim (insert_cases a b l) [
  | inl (low, e) ↦
      subst (Pairs (λ a b. a ≤ b)) (sym e) (All-insert b a l low h, Sorted-insert a l hs)
  | inr (high, e) ↦ subst (Pairs (λ a b. a ≤ b)) (sym e) ((high, All-le a b l high h), (h, hs))
]

first_le : (a : ℕ) (l : List ℕ) → 0 < length l → All (λ b. a ≤ b) l → a ≤ get_or l 0 0
first_le a [] some_left h = absurd (omega (arith, some_left))
first_le a (b ∷ l) some_left (h, hs) = h

Sorted-rises :
    (l : List ℕ) (k : ℕ) → Sorted l → suc k < length l → get_or l k 0 ≤ get_or l (suc k) 0
unfolding Sorted
Sorted-rises [] k h fits = absurd (omega (arith, fits))
Sorted-rises (a ∷ l) zero (h, hs) fits = first_le a l (omega (arith, fits)) h
Sorted-rises (a ∷ l) (suc k) (h, hs) fits = Sorted-rises l k hs (omega (arith, fits))

length-insertion_sort : (l : List ℕ) → length (insertion_sort compare_indices l) ≡ length l
unfolding insertion_sort
length-insertion_sort [] = refl
length-insertion_sort (a ∷ l) =
    length-insert a (insertion_sort compare_indices l) ∙ ap suc (length-insertion_sort l)

has-insertion_sort :
    (l : List ℕ) (v : ℕ) → has v l ≡ true → has v (insertion_sort compare_indices l) ≡ true
unfolding insertion_sort has
has-insertion_sort [] v h = h
has-insertion_sort (a ∷ l) v h =
    let one = has-insert a v (insertion_sort compare_indices l) in
    let rest = has-insertion_sort l v in ground (arith, h, one, rest)

insertion_sort-Sorted : (l : List ℕ) → Sorted (insertion_sort compare_indices l)
unfolding insertion_sort Sorted
insertion_sort-Sorted [] = tt
insertion_sort-Sorted (a ∷ l) =
    Sorted-insert a (insertion_sort compare_indices l) (insertion_sort-Sorted l)

insertion_sort-Sorts : Sorts insertion_sort
insertion_sort-Sorts = record {
  size = length-insertion_sort;
  same = has-insertion_sort;
  rises = λ l k fits.
      let s = insertion_sort compare_indices l in
      let one : k + 1 ≡ suc k = omega arith in
      let size = length-insertion_sort l in
      let up =
        subst (λ j. get_or s k 0 ≤ get_or s j 0) (sym one)
          (Sorted-rises s k (insertion_sort-Sorted l) (omega (arith, fits, size))) in
      ground (arith, up);
}

-- Pages in two granules, out of order.
abbrev answers : Answers
answers = record {
  allocated = true;
  copied = true;
  word = λ k. if k == 0 then 2097152 else k * 4096;
  sort = insertion_sort;
  reserved = true;
  granule = λ i. record { allocated = true; requested = true; remapped = true; stored = true };
}

abbrev request : Request
request = record {
  guest_base = 0;
  length = 12288;
  token = 77;
  alias = 0;
  count = 3;
  pages = 4096;
  reserved = 0;
}

abbrev empty : Registry
empty = record { granules = []; claimed = []; mapped = [] }

abbrev nobody : ℕ → ℕ
nobody i = 0

abbrev bare : System
bare = loaded 0 4194303 empty nobody

empty-HasRoom : HasRoom empty
unfolding users_of
empty-HasRoom i n h = absurd (ground (arith, h))

hyper_memory_prepare_atomic_example :
    ((is_done (hyper_memory_prepare answers request bare.host).0 ≡ false)
      × ((hyper_memory_prepare answers request bare.host).1 ≡ bare.host))
    ⊎ ((is_done (hyper_memory_prepare answers request bare.host).0 ≡ true)
        × (hyper_memory_unprepare (hyper_memory_prepare answers request bare.host).1
            ≡ record bare.host {
              memory = record bare.host.memory { guest_base = request.guest_base };
            }))
hyper_memory_prepare_atomic_example =
    hyper_memory_prepare_atomic answers insertion_sort-Sorts request bare.host empty-HasRoom refl
      (refl, refl, refl, refl)

empty-IsCounted : IsCounted nobody empty
unfolding users_of
empty-IsCounted = record { distinct = tt; counted = λ i. refl }

abbrev ready : System
ready = record bare { host = (hyper_memory_ioctl answers true true request prepare bare.host).2 }

-- The first two pages, which lie in different granules.
abbrev area : Area
area = record { shared = true; executable = false; offset = 0; count = 2 }

abbrev in_use : System
in_use = record (with_memory (hyper_memory_mmap (λ f. true) area ready.host.memory).2 ready) {
  areas = areas_after (hyper_memory_mmap (λ f. true) area ready.host.memory) ready.areas;
}

-- What the device holds after each of the two calls, and the frames that it then maps.
in_use_lem :
    (ready.host.memory.granules ≡ 0 ∷ 1 ∷ [])
    × (in_use.host.memory.granules ≡ 0 ∷ 1 ∷ [])
    × (in_use.areas ≡ (512 ∷ 1 ∷ []) ∷ [])
unfolding hyper_memory_ioctl command_memory hyper_memory_prepare prepare_dynamic tabulate all_inside
    page_aperture unique_indices compact acquire_all hyper_granule_get users_of create publish
    insertion_sort insert hyper_memory_mmap insert_pages pfn_at
in_use_lem = (refl, refl, refl)

few_held : (i : ℕ) (l : List ℕ) → l ≡ 0 ∷ 1 ∷ [] → tally i l + 0 + 1 < 2 ^ 32
few_held i l e = rw e (ground arith)

in_use-Reach : Reach bare in_use
in_use-Reach =
    later
      (later (start (λ i. omega arith, omega arith))
        (commands answers true true request prepare insertion_sort-Sorts)
        (λ i. few_held i ready.host.memory.granules in_use_lem.0, omega arith))
      (maps (λ f. true) area)
      (
        λ i. few_held i in_use.host.memory.granules in_use_lem.1,
        subst (λ l. length l + 1 < 2 ^ 32) (sym in_use_lem.2) (omega arith),
      )

Reach-IsRegistered_example : All (All (IsRegistered in_use.host.registry)) in_use.areas
Reach-IsRegistered_example = Reach-IsRegistered 0 4194303 empty nobody empty-IsCounted in_use-Reach
