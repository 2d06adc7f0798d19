-- ===== src/GuestMemory/Mappings/Reached.antt =====
-- Every frame that a mapping reaches lies in a granule that stays registered.
use hype_r_io_vm.Base.{ℕ, ◌+◌, ◌/◌, ◌<◌, ◌≡◌, refl, true, is_some, List, [], ◌∷◌, All, arith}
use hype_r_io_vm.Granules.{Registry, users_of, hyper_granule_get}
use hype_r_io_vm.Granules.Counted.{tally, IsCounted, IsCounted-ext, get-Got}
use hype_r_io_vm.GuestMemory.Compact.{has}
use hype_r_io_vm.GuestMemory.Mappings.{
  System, holders, loaded, Step, opens, maps, forks, unmaps, commands, releases, publishes,
  detaches, removes, other_gets, other_puts, IsSmall, Reach, start, later,
}
use hype_r_io_vm.GuestMemory.Mappings.Holding.{frames_per_granule}
use hype_r_io_vm.GuestMemory.Mappings.Mapped.{
  Holds, IsMapped, After, maps-After, forks-After, unmaps-After, opens-After, removes-After,
}
use hype_r_io_vm.GuestMemory.Mappings.Parts.{publishes-IsMapped, detaches-IsMapped}
use hype_r_io_vm.GuestMemory.Mappings.Hosts.{
  With, ioctl-With, release-With, gets-IsMapped, puts-IsMapped,
}

Step-IsMapped : {s t : System} → Step s t → IsSmall s → IsMapped s → IsMapped t
unfolding After With
Step-IsMapped {s} opens small v = opens-After s v small
Step-IsMapped {s} (maps inserted a) small v = maps-After s v small inserted a
Step-IsMapped {s} (forks k frames h) small v = forks-After s v small k frames h
Step-IsMapped {s} (unmaps k h) small v = unmaps-After s v small k h
Step-IsMapped {s} (commands x copied_in out p c sorts) small v =
    ioctl-With s v small x copied_in out p c sorts
Step-IsMapped {s} (releases no_areas) small v = release-With s v small no_areas
Step-IsMapped {s} (publishes x p sorts free held) small v =
    publishes-IsMapped s v x p sorts free held
Step-IsMapped {s} (detaches unused) small v = detaches-IsMapped s v unused
Step-IsMapped {s} removes small v = removes-After s v small
Step-IsMapped {s} (other_gets x i) small v =
    let r = hyper_granule_get x i s.host.registry in
    gets-IsMapped s v small r.0 i r.1
      (get-Got (holders s) s.host.registry v.counted x i (small.0 i))
Step-IsMapped {s} (other_puts i held) small v = puts-IsMapped s v small i held

Reach-IsSmall : {s0 s : System} → Reach s0 s → IsSmall s
Reach-IsSmall (start small) = small
Reach-IsSmall (later r step small) = small

Reach-IsMapped : {s0 s : System} → IsMapped s0 → Reach s0 s → IsMapped s
Reach-IsMapped v (start small) = v
Reach-IsMapped v (later r step small) = Step-IsMapped step (Reach-IsSmall r) (Reach-IsMapped v r)

loaded-IsMapped :
    (begin end : ℕ) (registry : Registry) (others : ℕ → ℕ)
    → IsCounted others registry
    → IsMapped (loaded begin end registry others)
loaded-IsMapped begin end registry others counted = record {
  counted = IsCounted-ext others (λ i. 0 + others i) registry (λ i. omega arith) counted;
  dynamic = refl;
  covered = λ k h. absurd (omega (arith, h));
  bare = λ h. (refl, refl, refl, refl);
  vmas = refl;
  prepared = λ h. absurd (omega (arith, h));
  reached = tt;
}

-- The granule of a frame is in the registry.
abbrev pub IsRegistered : Registry → ℕ → Type 0
IsRegistered r f = is_some (users_of (f / frames_per_granule) r.granules) ≡ true

has-tally : (i : ℕ) (l : List ℕ) → has i l ≡ true → 0 < tally i l
unfolding has
has-tally i [] h = absurd (ground (arith, h))
has-tally i (j ∷ l) h = let rest = has-tally i l in ground (arith, h, rest)

Holds-IsRegistered :
    (s : System) → IsMapped s → (f : ℕ) → Holds s.host.memory f → IsRegistered s.host.registry f
Holds-IsRegistered s v f h =
    let i = f / frames_per_granule in
    let counted = v.counted.counted i in
    let mine = has-tally i s.host.memory.granules h in ground (arith, counted, mine)

All-map {ℓ κ κ'} :
    {A : Type ℓ} (P : A → Type κ) (Q : A → Type κ')
    → ((a : A) → P a → Q a)
    → (l : List A) → All P l
    → All Q l
All-map P Q f [] h = tt
All-map P Q f (a ∷ l) (h, hs) = (f a h, All-map P Q f l hs)

-- From a dynamic device as `hyper_memory_probe` leaves it, among other devices that hold what
-- the registry counts, whatever was opened, mapped, copied, unmapped, prepared, released,
-- removed, and acquired or put by the others, also between two acquisitions or puts of one
-- preparation or release, in whatever order and with whatever failures, while the 32-bit
-- counters suffice: each frame of each mapping of the device lies in a granule that is
-- registered.
pub Reach-IsRegistered :
    (begin end : ℕ) (registry : Registry) (others : ℕ → ℕ)
    → IsCounted others registry
    → {s : System} → Reach (loaded begin end registry others) s
    → All (All (IsRegistered s.host.registry)) s.areas
Reach-IsRegistered begin end registry others counted {s} r =
    let v = Reach-IsMapped (loaded-IsMapped begin end registry others counted) r in
    let one = Holds-IsRegistered s v in
    All-map (All (Holds s.host.memory)) (All (IsRegistered s.host.registry))
      (All-map (Holds s.host.memory) (IsRegistered s.host.registry) one) s.areas v.reached
