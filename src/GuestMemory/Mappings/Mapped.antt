-- ===== src/GuestMemory/Mappings/Mapped.antt =====
-- What a device's mappings reach, as an invariant, and the calls that map and unmap.
use hype_r_io_vm.Base.{
  ℕ, zero, suc, ◌+◌, ◌-◌, ◌/◌, ◌%◌, ◌^◌, ◌≤◌, ◌<◌, ◌≡◌, refl, sym, subst, Bool, true, false, some,
  is_some, List, [], ◌∷◌, All, length, get_elem?, if◌then◌else◌, arith, inl, inr, ◌⊎◌, Bool-cases,
}
use hype_r_io_vm.Granules.Counted.{IsCounted}
use hype_r_io_vm.GuestMemory.{
  Memory, is_done, Area, hyper_memory_open, hyper_vma_open, hyper_vma_close, pfn_at, insert_pages,
  hyper_memory_mmap, hyper_memory_remove,
}
use hype_r_io_vm.GuestMemory.Compact.{has}
use hype_r_io_vm.GuestMemory.Prepare.{IsBare}
use hype_r_io_vm.GuestMemory.Mappings.{
  System, holders, remove_at, with_memory, areas_after, IsSmall,
}
use hype_r_io_vm.GuestMemory.Mappings.Holding.{frames_per_granule, IsCovered}

-- A frame of a granule that a device holds.
abbrev pub Holds : Memory → ℕ → Type 0
Holds m f = has (f / frames_per_granule) m.granules ≡ true

-- Between two steps: the users of each granule are its holders, the device's frames and those of
-- every mapping lie in granules that it holds, it counts its mappings, it has mappings only while it
-- is prepared, and a device that is not prepared holds nothing.
pub record IsMapped (s : System) : Type 0 where
  pub counted : IsCounted (holders s) s.host.registry
  pub dynamic : s.host.memory.dynamic ≡ true
  pub covered : IsCovered s.host.memory
  pub bare : is_some s.host.memory.pfns ≡ false → IsBare s.host.memory
  pub vmas : s.host.memory.vmas ≡ length s.areas
  pub prepared : 0 < length s.areas → is_some s.host.memory.pfns ≡ true
  pub reached : All (All (Holds s.host.memory)) s.areas

insert_pages-Holds :
    (inserted : ℕ → Bool) (m : Memory) (offset n : ℕ)
    → IsCovered m
    → offset + n ≤ m.pages
    → All (Holds m) (insert_pages inserted m offset n).1
unfolding insert_pages
insert_pages-Holds inserted m offset zero v fits = tt
insert_pages-Holds inserted m offset (suc n) v fits =
    let rest = insert_pages-Holds inserted m (offset + 1) n v (omega (arith, fits)) in
    let here = v offset (omega (arith, fits)) in
    elim (Bool-cases (inserted (pfn_at m offset))) [ inl e ↦ rw e (here, rest) | inr e ↦ rw e tt ]

mmap_cases :
    (inserted : ℕ → Bool) (a : Area) (m : Memory)
    → let r = hyper_memory_mmap inserted a m in
      ((is_done r.0 ≡ false) × (r.2 ≡ m))
      ⊎ ((is_done r.0 ≡ true)
          × (a.offset < m.pages)
          × (a.offset + a.count ≤ m.pages)
          × (r.1 ≡ (insert_pages inserted m a.offset a.count).1)
          × (r.2 ≡ record m { vmas = (m.vmas + 1) % 2 ^ 32 }))
unfolding hyper_memory_mmap
mmap_cases inserted a m = ground arith

-- The device and its mappings, the rest being as it was.
unfoldable pub After : System → Memory → List (List ℕ) → Type 0
After s m areas = IsMapped (record (with_memory m s) { areas = areas })

pub length_zero : (l : List (List ℕ)) → length l ≡ 0 → l ≡ []
length_zero [] e = refl
length_zero (a ∷ l) e = absurd (omega (arith, e))

remove_at-All : (P : List ℕ → Type 0) (k : ℕ) (l : List (List ℕ)) → All P l → All P (remove_at k l)
unfolding remove_at
remove_at-All P k [] h = tt
remove_at-All P zero (a ∷ l) (h, hs) = hs
remove_at-All P (suc k) (a ∷ l) (h, hs) = (h, remove_at-All P k l hs)

length-remove_at :
    (k : ℕ) (l : List (List ℕ)) → k < length l → length (remove_at k l) + 1 ≡ length l
unfolding remove_at
length-remove_at k [] h = absurd (omega (arith, h))
length-remove_at zero (a ∷ l) h = omega arith
length-remove_at (suc k) (a ∷ l) h =
    let rest = length-remove_at k l (omega (arith, h)) in omega (arith, rest)

get_elem?-All :
    (P : List ℕ → Type 0) (k : ℕ) (l : List (List ℕ)) (a : List ℕ)
    → get_elem? l k ≡ some a
    → All P l
    → P a × (0 < length l)
get_elem?-All P k [] a e h = absurd (ground (arith, e))
get_elem?-All P zero (b ∷ l) a e (h, hs) =
    (subst P (let f : b ≡ a = ground (arith, e) in f) h, omega arith)
get_elem?-All P (suc k) (b ∷ l) a e (h, hs) = ((get_elem?-All P k l a e hs).0, omega arith)

here : {s : System} → IsMapped s → After s s.host.memory s.areas
unfolding After
here v = v

module _ (s : System) (v : IsMapped s) (small : IsSmall s) where
  -- A change of what the device counts and not of what it holds.
  recounted-After :
      (references vmas : ℕ) (live opened : Bool) (areas : List (List ℕ))
      → vmas ≡ length areas
      → (0 < length areas → is_some s.host.memory.pfns ≡ true)
      → All (All (Holds s.host.memory)) areas
      → After s
          (record s.host.memory {
            references = references;
            vmas = vmas;
            live = live;
            opened = opened;
          })
          areas
  unfolding After pfn_at
  recounted-After references vmas live opened areas same on held = record {
    counted = v.counted;
    dynamic = v.dynamic;
    covered = v.covered;
    bare = v.bare;
    vmas = same;
    prepared = on;
    reached = held;
  }

  more-After :
      (frames : List ℕ)
      → All (Holds s.host.memory) frames
      → is_some s.host.memory.pfns ≡ true
      → After s
          (record s.host.memory { vmas = (s.host.memory.vmas + 1) % 2 ^ 32 })
          (frames ∷ s.areas)
  more-After frames held on =
      let m = s.host.memory in
      let vmas = v.vmas in
      let few = small.1 in
      recounted-After m.references ((m.vmas + 1) % 2 ^ 32) m.live m.opened (frames ∷ s.areas)
        (omega (arith, vmas, few)) (λ h. on) (held, v.reached)

  pub maps-After :
      (inserted : ℕ → Bool) (a : Area)
      → let r = hyper_memory_mmap inserted a s.host.memory in After s r.2 (areas_after r s.areas)
  maps-After inserted a =
      let m = s.host.memory in
      let r = hyper_memory_mmap inserted a m in
      elim (mmap_cases inserted a m) [
        | inl (fails, same) ↦
            subst (λ k. After s k (areas_after r s.areas)) (sym same)
              (subst (λ b. After s m (if b then r.1 ∷ s.areas else s.areas)) (sym fails) (here v))
        | inr (fine, low, fits, frames, same) ↦
            let held = insert_pages-Holds inserted m a.offset a.count v.covered fits in
            let bare = v.bare in
            let on : is_some m.pfns ≡ true = elim (Bool-cases (is_some m.pfns)) [
              | inl on ↦ on
              | inr off ↦ let none_held = bare off in absurd (omega (arith, low, none_held.3))
            ] in
            subst (λ k. After s k (areas_after r s.areas)) (sym same)
              (subst
                (λ b.
                  After s (record m { vmas = (m.vmas + 1) % 2 ^ 32 })
                    (if b then r.1 ∷ s.areas else s.areas))
                (sym fine)
                (subst (λ l. After s (record m { vmas = (m.vmas + 1) % 2 ^ 32 }) (l ∷ s.areas))
                  (sym frames) (more-After (insert_pages inserted m a.offset a.count).1 held on)))
      ]

  pub forks-After :
      (k : ℕ) (frames : List ℕ)
      → get_elem? s.areas k ≡ some frames
      → After s (hyper_vma_open s.host.memory) (frames ∷ s.areas)
  unfolding hyper_vma_open
  forks-After k frames h =
      let (held, some_area) =
        get_elem?-All (All (Holds s.host.memory)) k s.areas frames h v.reached in
      more-After frames held (v.prepared some_area)

  pub unmaps-After :
      (k : ℕ) → k < length s.areas → After s (hyper_vma_close s.host.memory) (remove_at k s.areas)
  unfolding hyper_vma_close
  unmaps-After k h =
      let m = s.host.memory in
      let vmas = v.vmas in
      let few = small.1 in
      let less = length-remove_at k s.areas h in
      recounted-After m.references ((m.vmas + (2 ^ 32 - 1)) % 2 ^ 32) m.live m.opened
        (remove_at k s.areas) (omega (arith, vmas, few, less))
        (λ some_area. v.prepared (omega (arith, some_area, less)))
        (remove_at-All (All (Holds m)) k s.areas v.reached)

  pub opens-After : After s (hyper_memory_open s.host.memory).1 s.areas
  unfolding hyper_memory_open
  opens-After =
      let m = s.host.memory in
      let same = here v in
      let opened =
        recounted-After (m.references + 1) m.vmas m.live true s.areas v.vmas v.prepared v.reached in
      grind (arith, same, opened)

  pub removes-After : After s (hyper_memory_remove s.host.memory) s.areas
  unfolding hyper_memory_remove
  removes-After =
      let m = s.host.memory in
      recounted-After m.references m.vmas false m.opened s.areas v.vmas v.prepared v.reached
