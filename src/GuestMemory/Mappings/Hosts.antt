-- ===== src/GuestMemory/Mappings/Hosts.antt =====
-- The calls that change what a device holds, and those of the other devices.
use hype_r_io_vm.Base.{
  ℕ, ◌+◌, ◌-◌, ◌^◌, ◌<◌, ◌≡◌, refl, sym, ap, subst, Bool, false, none, is_some, List, [], ◌∷◌, All,
  length, ◌==◌, nonzero, arith, inl, inr, Bool-cases,
}
use hype_r_io_vm.Granules.{
  Registry, Acquired, acquired, out_of_memory, region_busy, not_mapped, not_stored,
  hyper_granules_put,
}
use hype_r_io_vm.Granules.Counted.{
  tally, one_more, one_less, IsCounted, IsCounted-ext, Got, hyper_granules_put-IsCounted,
}
use hype_r_io_vm.GuestMemory.{
  Host, Request, Answers, Command, info, prepare, release, unknown, hyper_memory_unprepare,
  hyper_memory_prepare, hyper_memory_release, pfn_at, command_memory, hyper_memory_ioctl,
  unique_indices,
}
use hype_r_io_vm.GuestMemory.Acquire.{HasRoom}
use hype_r_io_vm.GuestMemory.Prepare.{
  Sorts, words, granted, published, unprepare_dynamic, hyper_memory_prepare-Settled,
  unique_indices_distinct,
}
use hype_r_io_vm.GuestMemory.Mappings.{System, holders, others_after, IsSmall}
use hype_r_io_vm.GuestMemory.Mappings.Holding.{published-IsCovered, acquire_all-IsCounted}
use hype_r_io_vm.GuestMemory.Mappings.Mapped.{Holds, IsMapped, length_zero}

module _ (s : System) (v : IsMapped s) (small : IsSmall s) where
  holders_room : (is : List ℕ) → All (λ i. holders s i + 1 < 2 ^ 32) is
  holders_room [] = tt
  holders_room (i ∷ is) = (small.0 i, holders_room is)

  registry-HasRoom : HasRoom s.host.registry
  registry-HasRoom i n known =
      let counted = v.counted.counted i in
      let few = small.0 i in ground (arith, counted, known, few)

  -- Shut, so that the search sees one fact and not its fields.
  unfoldable pub With : Host → Type 0
  With h = IsMapped (record s { host = h })

  stays : With s.host
  unfolding With
  stays = v

  unprepares-With : s.areas ≡ [] → With (hyper_memory_unprepare s.host)
  unfolding With
  unprepares-With no_areas =
      let m = s.host.memory in
      subst (λ h. IsMapped (record s { host = h })) (sym (unprepare_dynamic s.host v.dynamic))
        (record {
          counted =
              IsCounted-ext (λ i. holders s i - tally i m.granules) (λ i. 0 + s.others i)
                (hyper_granules_put m.granules s.host.registry) (λ i. omega arith)
                (hyper_granules_put-IsCounted m.granules (holders s) s.host.registry
                  (λ i. let few = small.0 i in (omega arith, omega (arith, few))) v.counted);
          dynamic = v.dynamic;
          covered = λ k h. absurd (omega (arith, h));
          bare = λ h. (refl, refl, refl, refl);
          vmas = v.vmas;
          prepared =
              λ h. absurd (let none_left = ap length no_areas in omega (arith, h, none_left));
          reached =
              subst
                (λ l.
                  All
                    (All
                      (Holds (record m { granules = []; pfns = none; first_pfn = 0; pages = 0 })))
                    l)
                (sym no_areas) tt;
        })

  published-With :
      (x : Answers) (sorts : Sorts x.sort) (p : Request)
      → is_some s.host.memory.pfns ≡ false
      → (granted x p s.host).0 ≡ acquired
      → With (published x p s.host)
  unfolding With
  published-With x sorts p free fine =
      let m = s.host.memory in
      let g = granted x p s.host in
      let none_held = λ (i : ℕ). ap (tally i) (v.bare free).1 in
      let no_areas : s.areas ≡ [] = elim (Bool-cases (0 == length s.areas)) [
        | inl e ↦ length_zero s.areas (ground (arith, e))
        | inr e ↦ absurd (let on = v.prepared (ground (arith, e)) in ground (arith, on, free))
      ] in
      let is = unique_indices x (words x p) in
      record {
        counted =
            IsCounted-ext (λ i. holders s i + tally i g.1) (λ i. tally i g.1 + s.others i) g.2
              (λ i. let z = none_held i in omega (arith, z))
              (acquire_all-IsCounted x.granule is (holders s) s.host.registry
                (unique_indices_distinct x sorts (words x p)) (holders_room is) v.counted);
        dynamic = v.dynamic;
        covered = published-IsCovered x sorts p s.host v.dynamic fine;
        bare = λ h. absurd (ground (arith, h));
        vmas = v.vmas;
        prepared = λ h. refl;
        reached = subst (λ l. All (All (Holds (published x p s.host).memory)) l) (sym no_areas) tt;
      }

  prepares-With :
      (x : Answers) (sorts : Sorts x.sort) (p : Request) → With (hyper_memory_prepare x p s.host).1
  prepares-With x sorts p = elim (hyper_memory_prepare-Settled x sorts p s.host registry-HasRoom) [
    | inl (fails, same) ↦ subst With (sym same) stays
    | inr (inl (reserved, same)) ↦ subst With (sym same) stays
    | inr (inr (on, free, inside, fine, same)) ↦
        subst (λ r. With r.1) (sym same) (published-With x sorts p free fine)
  ]

  command-With :
      (x : Answers) (out : Bool) (p : Request) (c : Command)
      → Sorts x.sort
      → With (command_memory x out p c s.host).2
  unfolding command_memory
  command-With x out p prepare sorts = prepares-With x sorts p
  command-With x out p info sorts = let same = stays in grind (arith, same)
  command-With x out p unknown sorts = stays
  command-With x out p release sorts = elim (Bool-cases (nonzero s.host.memory.vmas)) [
    | inl used ↦ rw used stays
    | inr unused ↦
        let vmas = v.vmas in
        rw unused (unprepares-With (length_zero s.areas (ground (arith, vmas, unused))))
  ]

  pub ioctl-With :
      (x : Answers) (copied_in out : Bool) (p : Request) (c : Command)
      → Sorts x.sort
      → With (hyper_memory_ioctl x copied_in out p c s.host).2
  unfolding hyper_memory_ioctl
  ioctl-With x copied_in out p c sorts =
      let same = stays in let next = command-With x out p c sorts in grind (arith, same, next)

  opened-With :
      (h : Host) → With h → With (record h { memory = record h.memory { opened = false } })
  unfolding With pfn_at
  opened-With h w = record {
    counted = w.counted;
    dynamic = w.dynamic;
    covered = w.covered;
    bare = w.bare;
    vmas = w.vmas;
    prepared = w.prepared;
    reached = w.reached;
  }

  release_dynamic : hyper_memory_release s.host ≡ record (hyper_memory_unprepare s.host) {
    memory = record (hyper_memory_unprepare s.host).memory { opened = false };
  }
  unfolding hyper_memory_release
  release_dynamic = let on = v.dynamic in ground (arith, on)

  pub release-With : s.areas ≡ [] → With (hyper_memory_release s.host)
  release-With no_areas =
      subst With (sym release_dynamic)
        (opened-With (hyper_memory_unprepare s.host) (unprepares-With no_areas))

  -- What the other devices do.
  others-IsMapped :
      (others : ℕ → ℕ) (t : Registry)
      → IsCounted (λ i. tally i s.host.memory.granules + others i) t
      → IsMapped (record s { host = record s.host { registry = t }; others = others })
  others-IsMapped others t c = record {
    counted = c;
    dynamic = v.dynamic;
    covered = v.covered;
    bare = v.bare;
    vmas = v.vmas;
    prepared = v.prepared;
    reached = v.reached;
  }

  pub gets-IsMapped :
      (e : Acquired) (i : ℕ) (t : Registry)
      → Got (holders s) s.host.registry v.counted i (e, t)
      → IsMapped
          (record s { host = record s.host { registry = t }; others = others_after e i s.others })
  unfolding Got
  gets-IsMapped acquired i t got = others-IsMapped (one_more i s.others) t (
      IsCounted-ext (one_more i (holders s))
        (λ j. tally j s.host.memory.granules + one_more i s.others j) t (λ j. ground arith) got)
  gets-IsMapped out_of_memory i t got = others-IsMapped s.others t got
  gets-IsMapped region_busy i t got = others-IsMapped s.others t got
  gets-IsMapped not_mapped i t got = others-IsMapped s.others t got
  gets-IsMapped not_stored i t got = others-IsMapped s.others t got

  pub puts-IsMapped :
      (i : ℕ)
      → 0 < s.others i
      → IsMapped (record s {
        host = record s.host { registry = hyper_granules_put (i ∷ []) s.host.registry };
        others = one_less i s.others;
      })
  puts-IsMapped i held =
      let t = hyper_granules_put (i ∷ []) s.host.registry in
      let few = λ (j : ℕ). small.0 j in
      let alike = λ (j : ℕ) (e : i ≡ j). ap s.others e in
      others-IsMapped (one_less i s.others) t (
        IsCounted-ext (λ j. holders s j - tally j (i ∷ []))
          (λ j. tally j s.host.memory.granules + one_less i s.others j) t
          (λ j. let same = alike j in ground (arith, held, same))
          (hyper_granules_put-IsCounted (i ∷ []) (holders s) s.host.registry
            (λ j. let fits = few j in let same = alike j in ground (arith, fits, held, same))
            v.counted))
