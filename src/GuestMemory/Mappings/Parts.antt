-- ===== src/GuestMemory/Mappings/Parts.antt =====
-- A preparation and a release in parts: what is handed to the device, and taken from it.
use hype_r_io_vm.Base.{
  ℕ, ◌+◌, ◌-◌, ◌≤◌, ◌≡◌, ◌⊎◌, refl, sym, ap, subst, false, none, is_some, [], All, length, ◌==◌,
  nonzero, arith, inl, inr, Bool-cases,
}
use hype_r_io_vm.Granules.{acquired}
use hype_r_io_vm.Granules.Counted.{tally, IsCounted-ext}
use hype_r_io_vm.GuestMemory.{Request, Answers, unique_indices, publish, hyper_memory_unprepare}
use hype_r_io_vm.GuestMemory.Prepare.{Sorts, words, unprepare_dynamic}
use hype_r_io_vm.GuestMemory.Mappings.{System, holders, with_memory, frames_of}
use hype_r_io_vm.GuestMemory.Mappings.Holding.{frames-IsCovered}
use hype_r_io_vm.GuestMemory.Mappings.Mapped.{Holds, IsMapped, length_zero}

module _ (s : System) (v : IsMapped s) where
  -- A device that is not prepared has no mapping.
  no_areas : is_some s.host.memory.pfns ≡ false → s.areas ≡ []
  no_areas free = elim (Bool-cases (0 == length s.areas)) [
    | inl e ↦ length_zero s.areas (ground (arith, e))
    | inr e ↦ absurd (let on = v.prepared (ground (arith, e)) in ground (arith, on, free))
  ]

  pub publishes-IsMapped :
      (x : Answers) (p : Request)
      → Sorts x.sort
      → is_some s.host.memory.pfns ≡ false
      → ((i : ℕ) → tally i (unique_indices x (words x p)) ≤ s.others i)
      → IsMapped (record s {
        host =
            (publish
              (acquired, unique_indices x (words x p), s.host.registry)
              p
              (frames_of x p)
              s.host).1;
        others = λ i. s.others i - tally i (unique_indices x (words x p));
      })
  unfolding publish
  publishes-IsMapped x p sorts free held =
      let is = unique_indices x (words x p) in
      let none_held = λ (i : ℕ). ap (tally i) (v.bare free).1 in
      record {
        counted =
            IsCounted-ext (holders s) (λ i. tally i is + (s.others i - tally i is)) s.host.registry
              (λ i. let z = none_held i in let fits = held i in omega (arith, z, fits)) v.counted;
        dynamic = v.dynamic;
        covered = frames-IsCovered x sorts p s.host.memory v.dynamic;
        bare = λ h. absurd (ground (arith, h));
        vmas = v.vmas;
        prepared = λ h. refl;
        reached =
            subst
              (λ l.
                All
                  (All (
                    Holds
                      (publish (acquired, is, s.host.registry) p (frames_of x p) s.host).1.memory))
                  l)
              (sym (no_areas free)) tt;
      }

  -- No mapping is left where the device counts none.
  unmapped_of : (s.areas ≡ []) ⊎ (nonzero s.host.memory.vmas ≡ false) → s.areas ≡ []
  unmapped_of (inl unmapped) = unmapped
  unmapped_of (inr unused) = let vmas = v.vmas in length_zero s.areas (ground (arith, vmas, unused))

  bared-IsMapped :
      s.areas ≡ []
      → IsMapped
          (record (with_memory
            (record s.host.memory { granules = []; pfns = none; first_pfn = 0; pages = 0 })
            s) { others = λ i. s.others i + tally i s.host.memory.granules })
  bared-IsMapped unmapped =
      let m = s.host.memory in
      record {
        counted =
            IsCounted-ext (holders s) (λ i. 0 + (s.others i + tally i m.granules)) s.host.registry
              (λ i. omega arith) v.counted;
        dynamic = v.dynamic;
        covered = λ k h. absurd (omega (arith, h));
        bare = λ h. (refl, refl, refl, refl);
        vmas = v.vmas;
        prepared = λ h. absurd (let none_left = ap length unmapped in omega (arith, h, none_left));
        reached =
            subst
              (λ l.
                All
                  (All (Holds (record m { granules = []; pfns = none; first_pfn = 0; pages = 0 })))
                  l)
              (sym unmapped) tt;
      }

  pub detaches-IsMapped :
      (s.areas ≡ []) ⊎ (nonzero s.host.memory.vmas ≡ false)
      → IsMapped (record (with_memory (hyper_memory_unprepare s.host).memory s) {
        others = λ i. s.others i + tally i s.host.memory.granules;
      })
  detaches-IsMapped unused =
      subst
        (λ m.
          IsMapped (record (with_memory m s) {
            others = λ i. s.others i + tally i s.host.memory.granules;
          }))
        (sym (ap (λ h. h.memory) (unprepare_dynamic s.host v.dynamic)))
        (bared-IsMapped (unmapped_of unused))
