-- ===== src/GuestMemory/Prepare.antt =====
-- What a preparation does to the registry and to the device.
use Prim.Native.Nat.{Ordering}
use hype_r_io_vm.Base.{
  ℕ, suc, ◌+◌, ◌/◌, ◌≤◌, ◌<◌, ◌≡◌, ◌≢◌, ◌⊎◌, inl, inr, refl, sym, ap, ◌∙◌, subst, true, false, none,
  some, is_some, List, [], ◌∷◌, map, All, Pairs, length, take, get_or, arith,
}
use hype_r_io_vm.Layout.{page_size, granule_size}
use hype_r_io_vm.Granules.{
  Registry, Acquired, acquired, out_of_memory, region_busy, not_mapped, not_stored,
  hyper_granules_put,
}
use hype_r_io_vm.GuestMemory.{
  Memory, Host, Outcome, done, invalid, not_granted, is_done, Request, Answers, compare_indices,
  hyper_memory_unprepare, tabulate, all_inside, compact, acquire_all, publish, unique_indices,
  prepare_dynamic, hyper_memory_prepare,
}
use hype_r_io_vm.GuestMemory.Compact.{uniques, has, compact-uniques, uniques_distinct}
use hype_r_io_vm.GuestMemory.Acquire.{HasRoom, acquire_all_undone}

-- What the driver relies on of Linux's `sort`: the entries stay, none stands before a smaller one.
pub record Sorts (sort : (ℕ → ℕ → Ordering) → List ℕ → List ℕ) : Type 0 where
  pub size : (l : List ℕ) → length (sort compare_indices l) ≡ length l
  pub same : (l : List ℕ) (v : ℕ) → has v l ≡ true → has v (sort compare_indices l) ≡ true
  pub rises :
      (l : List ℕ) (k : ℕ)
      → k + 1 < length l
      → compare_indices
          (get_or (sort compare_indices l) k 0)
          (get_or (sort compare_indices l) (k + 1) 0)
        ≢ Ordering.gt

compare_indices_le : (a b : ℕ) → compare_indices a b ≢ Ordering.gt → a ≤ b
compare_indices_le a b h = ground (arith, h)

pub length-map : (f : ℕ → ℕ) (l : List ℕ) → length (map f l) ≡ length l
length-map f [] = refl
length-map f (a ∷ l) = ap suc (length-map f l)

All-apart : (a : ℕ) (l : List ℕ) → All (λ b. a < b) l → All (λ b. a ≢ b) l
All-apart a [] h = tt
All-apart a (b ∷ l) (h, hs) = (λ e. omega (arith, h, e), All-apart a l hs)

Pairs-apart : (l : List ℕ) → Pairs (λ a b. a < b) l → Pairs (λ a b. a ≢ b) l
Pairs-apart [] h = tt
Pairs-apart (a ∷ l) (h, hs) = (All-apart a l h, Pairs-apart l hs)

unfoldable pub sorted_of : Answers → List ℕ → List ℕ
sorted_of x aliases = x.sort compare_indices (map (λ a. a / granule_size) aliases)

module _ (x : Answers) (sorts : Sorts x.sort) where
  sorted_size : (aliases : List ℕ) → length (sorted_of x aliases) ≡ length aliases
  unfolding sorted_of
  sorted_size aliases = sorts.size _ ∙ length-map (λ a. a / granule_size) aliases

  pub unique_indices_lem :
      (aliases : List ℕ)
      → unique_indices x aliases
        ≡ uniques (λ k. get_or (sorted_of x aliases) k 0) 0 (length (sorted_of x aliases))
  unfolding unique_indices sorted_of
  unique_indices_lem aliases =
      let a = sorted_of x aliases in
      ap (λ n. take (compact n 0 0 a).0 (compact n 0 0 a).1) (sym (sorted_size aliases))
      ∙ compact-uniques a

  pub unique_indices_distinct : (aliases : List ℕ) → Pairs (λ i j. i ≢ j) (unique_indices x aliases)
  unfolding sorted_of
  unique_indices_distinct aliases =
      let a = sorted_of x aliases in
      let size = sorts.size (map (λ a. a / granule_size) aliases) in
      subst (Pairs (λ i j. i ≢ j)) (sym (unique_indices_lem aliases)) (
        Pairs-apart _ (
          uniques_distinct (λ k. get_or a k 0) (length a)
            λ k fits.
              compare_indices_le (get_or a k 0) (get_or a (k + 1) 0)
                (sorts.rises (map (λ a. a / granule_size) aliases) k (omega (arith, fits, size)))))

-- What `publish` makes of a result of the loop.
publish_cases :
    (g : Acquired × List ℕ × Registry) (p : Request) (pfns : List ℕ) (h : Host)
    → ((g.0 ≡ acquired)
        × (publish g p pfns h ≡ (
          done,
          record {
            memory = record h.memory {
              pfns = some pfns;
              granules = g.1;
              pages = p.count;
              guest_base = p.guest_base;
            };
            registry = g.2;
          },
        )))
      ⊎ (publish g p pfns h ≡ (not_granted g.0, record h { registry = hyper_granules_put g.1 g.2 }))
unfolding publish
publish_cases (acquired, granules, s) p pfns h = inl (refl, refl)
publish_cases (out_of_memory, granules, s) p pfns h = inr refl
publish_cases (region_busy, granules, s) p pfns h = inr refl
publish_cases (not_mapped, granules, s) p pfns h = inr refl
publish_cases (not_stored, granules, s) p pfns h = inr refl

-- The page words of a request, and what the loop of acquisitions makes of them.
abbrev pub words : Answers → Request → List ℕ
words x p = tabulate x.word 0 p.count

abbrev pub granted : Answers → Request → Host → Acquired × List ℕ × Registry
granted x p h = acquire_all x.granule (unique_indices x (words x p)) h.registry

dynamic_cases :
    (x : Answers) (p : Request) (h : Host)
    → ((is_done (prepare_dynamic x p h).0 ≡ false) × ((prepare_dynamic x p h).1 ≡ h))
      ⊎ ((is_some h.memory.pfns ≡ false)
          × (all_inside h.memory.start h.memory.stop (words x p) ≡ true)
          × (prepare_dynamic x p h
              ≡ publish (granted x p h) p (map (λ a. a / page_size) (words x p)) h))
unfolding prepare_dynamic
dynamic_cases x p h = ground arith

-- A device that holds what was published.
abbrev pub published : Answers → Request → Host → Host
published x p h = record {
  memory = record h.memory {
    pfns = some (map (λ a. a / page_size) (words x p));
    granules = (granted x p h).1;
    pages = p.count;
    guest_base = p.guest_base;
  };
  registry = (granted x p h).2;
}

-- A device with nothing prepared.
abbrev pub IsBare : Memory → Type 0
IsBare m = (m.pfns ≡ none) × (m.granules ≡ []) × (m.first_pfn ≡ 0) × (m.pages ≡ 0)

bare_lem :
    (m : Memory) (base : ℕ)
    → IsBare m
    → record m { granules = []; pfns = none; first_pfn = 0; pages = 0; guest_base = base }
      ≡ record m { guest_base = base }
bare_lem m base (pfns, granules, first, pages) = ground (arith, pfns, granules, first, pages)

pub unprepare_dynamic :
    (h : Host)
    → h.memory.dynamic ≡ true
    → hyper_memory_unprepare h ≡ record {
      memory = record h.memory { granules = []; pfns = none; first_pfn = 0; pages = 0 };
      registry = hyper_granules_put h.memory.granules h.registry;
    }
unfolding hyper_memory_unprepare
unprepare_dynamic h on = ground (arith, on)

-- What a preparation comes to: it failed and left all as it was; or the region is reserved and it
-- changed nothing; or it published.
abbrev pub Settled : Answers → Request → Host → Outcome × Host → Type 0
Settled x p h r =
    ((is_done r.0 ≡ false) × (r.1 ≡ h))
    ⊎ (((h.memory.dynamic ≡ false) × (r.1 ≡ h))
        ⊎ ((h.memory.dynamic ≡ true)
            × (is_some h.memory.pfns ≡ false)
            × (all_inside h.memory.start h.memory.stop (words x p) ≡ true)
            × ((granted x p h).0 ≡ acquired)
            × (r ≡ (done, published x p h))))

module _ (x : Answers) (sorts : Sorts x.sort) (p : Request) (h : Host)
    (room : HasRoom h.registry) where
  granted_undone : hyper_granules_put (granted x p h).1 (granted x p h).2 ≡ h.registry
  granted_undone =
      acquire_all_undone x.granule (unique_indices x (words x p)) h.registry
        (unique_indices_distinct x sorts (words x p)) room

  dynamic-Settled : h.memory.dynamic ≡ true → Settled x p h (prepare_dynamic x p h)
  dynamic-Settled on = elim (dynamic_cases x p h) [
    | inl fails ↦ inl fails
    | inr (free, inside, same) ↦
        let pfns = map (λ a. a / page_size) (words x p) in
        elim (publish_cases (granted x p h) p pfns h) [
          | inl (fine, e) ↦ inr (inr (on, free, inside, fine, same ∙ e))
          | inr e ↦ inl (
            ap (λ r. is_done r.0) (same ∙ e),
            ap (λ r. r.1) (same ∙ e) ∙ ap (λ s. record h { registry = s }) granted_undone,
          )
        ]
  ]

  -- Shut, so that the search sees one fact and not its cases.
  Ends : Outcome × Host → Type 0
  Ends r = Settled x p h r

  wrong : Ends (invalid, h)
  unfolding Ends
  wrong = inl (refl, refl)

  reserved : (o : Outcome) → h.memory.dynamic ≡ false → Ends (o, h)
  unfolding Ends
  reserved o off = inr (inl (off, refl))

  dynamic : h.memory.dynamic ≡ true → Ends (prepare_dynamic x p h)
  unfolding Ends
  dynamic on = dynamic-Settled on

  prepare-Ends : Ends (hyper_memory_prepare x p h)
  unfolding hyper_memory_prepare
  prepare-Ends = grind (arith, wrong, reserved, dynamic)

  pub hyper_memory_prepare-Settled : Settled x p h (hyper_memory_prepare x p h)
  unfolding Ends
  hyper_memory_prepare-Settled = prepare-Ends

  -- On a dynamic device that holds nothing, where `sort` sorts and the users of every registered
  -- granule are not none and fit their counter: a preparation that does not succeed, whatever
  -- fails and however many granules it has acquired by then, leaves the device and the registry
  -- exactly as they were; one that succeeds is undone exactly by `hyper_memory_unprepare`, but
  -- for `guest_base`.
  pub hyper_memory_prepare_atomic :
      h.memory.dynamic ≡ true
      → IsBare h.memory
      → ((is_done (hyper_memory_prepare x p h).0 ≡ false) × ((hyper_memory_prepare x p h).1 ≡ h))
        ⊎ ((is_done (hyper_memory_prepare x p h).0 ≡ true)
            × (hyper_memory_unprepare (hyper_memory_prepare x p h).1
                ≡ record h { memory = record h.memory { guest_base = p.guest_base } }))
  hyper_memory_prepare_atomic on bare = elim hyper_memory_prepare-Settled [
    | inl fails ↦ inl fails
    | inr (inl (off, same)) ↦ absurd (ground (arith, on, off))
    | inr (inr (_, free, inside, fine, same)) ↦ inr (
      ap (λ r. is_done r.0) same,
      ap (λ r. hyper_memory_unprepare r.1) same
          ∙ unprepare_dynamic (published x p h) on
          ∙ ap
              (λ s.
                record (record h {
                  memory = record (published x p h).memory {
                    granules = [];
                    pfns = none;
                    first_pfn = 0;
                    pages = 0;
                  };
                }) { registry = s })
              granted_undone
          ∙ ap (λ m. record h { memory = m }) (bare_lem h.memory p.guest_base bare),
    )
  ]
