-- ===== src/Service/Prepare/Result.antt =====
-- `prepare_memory` as a whole: what each status says of the backend it leaves.
use hype_r_io_vm.Base.{◌≤◌, ◌≡◌, ◌≢◌, ◌⊎◌, inl, inr, refl, true, none, arith, []}
use hype_r_io_vm.Layout.{u64_max}
use hype_r_io_vm.Service.Calls.{Kernel}
use hype_r_io_vm.Service.State.{
  World, Status, ok, unsupported, invalid, busy, backend_failure, quiescence_failed, idle,
  no_region,
}
use hype_r_io_vm.Service.Prepare.{PrepareRequest, map_memory, admit_grant, prepare_memory}
use hype_r_io_vm.Service.Prepare.Grant.{
  WellFormed, Mapped, Granted, GrantsOr, MapsOr, map_memory-MapsOr, admit_grant-GrantsOr,
}

-- Success maps exactly the requested bytes: without a token the alias window, with one the pages
-- of extents that tile the grant. `busy` changes nothing and `invalid` leaves the backend
-- as it was; a backend failure has given everything back; a failed quiescence has mapped nothing.
abbrev pub Prepares : Kernel → PrepareRequest → World → Status → World → Type 0
Prepares k r w ok w' =
    WellFormed r
    × (w.backend.memory ≡ none)
    × (((r.token ≡ 0) × Mapped r 0 [] w w') ⊎ ((r.token ≢ 0) × Granted k r w w'))
Prepares k r w unsupported w' = ⊥
Prepares k r w invalid w' = w'.backend ≡ w.backend
Prepares k r w busy w' = w' ≡ w
Prepares k r w backend_failure w' = (idle w'.backend ≡ true) × (w'.backend.region ≡ no_region)
Prepares k r w quiescence_failed w' = w'.backend.memory ≡ none

module _ (k : Kernel) (r : PrepareRequest) (w : World) where
  Outcome : Status × World → Type 0
  Outcome x = Prepares k r w x.0 x.1

  rejects : Outcome (invalid, w)
  unfolding Outcome
  rejects = refl

  waits : Outcome (busy, w)
  unfolding Outcome
  waits = refl

  maps : WellFormed r → r.token ≡ 0 → w.backend.memory ≡ none → Outcome (map_memory k r 0 [] w)
  unfolding Outcome
  maps f z m = widen _ _ (map_memory-MapsOr k r 0 [] w m)
    where
      widen : (s : Status) (w' : World) → MapsOr r 0 [] w s w' → Prepares k r w s w'
      widen ok w' h = (f, m, inl (z, h))
      widen unsupported w' h = h
      widen invalid w' h = absurd h
      widen busy w' h = absurd h
      widen backend_failure w' h = h
      widen quiescence_failed w' h = h

  grants : WellFormed r → r.token ≢ 0 → w.backend.memory ≡ none → Outcome (admit_grant k r w)
  unfolding Outcome
  grants f z m = widen _ _ (admit_grant-GrantsOr k r w f m)
    where
      widen : (s : Status) (w' : World) → GrantsOr k r w s w' → Prepares k r w s w'
      widen ok w' h = (f, m, inr (z, h))
      widen unsupported w' h = h
      widen invalid w' h = h
      widen busy w' h = absurd h
      widen backend_failure w' h = h
      widen quiescence_failed w' h = h

  prepare_memory-Outcome : r.length ≤ u64_max → Outcome (prepare_memory k r w)
  unfolding prepare_memory
  prepare_memory-Outcome small = grind (arith, rejects, waits, maps, grants)

  -- Of a request whose length is a 64-bit number, and whatever the kernel answers, every status
  -- of `prepare_memory` means what `Prepares` says of the backend left: the grant mapped, with a
  -- token by the pages of the extents that the kernel answered and with no calls but those
  -- named; nothing changed; everything given back; or nothing mapped.
  pub prepare_memory-Prepares :
      r.length ≤ u64_max → Prepares k r w (prepare_memory k r w).0 (prepare_memory k r w).1
  unfolding Outcome
  prepare_memory-Prepares small = prepare_memory-Outcome small
