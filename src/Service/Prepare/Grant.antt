-- ===== src/Service/Prepare/Grant.antt =====
-- What `prepare_memory` has done when it returns, for each status.
use hype_r_io_vm.Base.{
  ℕ, ◌+◌, ◌/◌, ◌%◌, ◌≤◌, ◌<◌, ◌≡◌, true, none, some, arith, Option, ◌∷◌, List, is_some, replicate,
  ℕ_discrete, refl, length,
}
use hype_r_io_vm.Layout.{page_size, u64_max}
use hype_r_io_vm.Service.Calls.{
  Kernel, Trace, Extent, Call, admit_token, allocate, map_shared, memory_prepare, memory_info,
  open_device, guest_memory,
}
use hype_r_io_vm.Service.State.{
  Backend, World, Status, ok, invalid, backend_failure, quiescence_failed, idle, no_region,
  memory_endpoint,
}
use hype_r_io_vm.Service.Retire.Release.{release_memory-idle, release_memory_unmaps}
use hype_r_io_vm.Service.Prepare.{
  PrepareRequest, collect, fail_prepare, map_memory, use_table, admit_grant,
}
use hype_r_io_vm.Service.Prepare.Pages.{
  Answers, Tiles, pages_of, reads, collect-reads, collect-Tiles,
}

-- The world that a successful mapping leaves.
pub record Mapped (r : PrepareRequest) (count : ℕ) (pages : List ℕ) (w w' : World) : Type 0 where
  pub mapped : is_some w'.backend.memory ≡ true
  pub opened : is_some w'.backend.memory_fd ≡ true
  pub token : w'.backend.token ≡ r.token
  pub base : w'.backend.region.guest_base ≡ r.guest_base
  pub len : w'.backend.region.length ≡ r.length
  pub disk : w'.backend.disk ≡ w.backend.disk
  pub net : w'.backend.net ≡ w.backend.net
  pub calls :
      w'.trace
      ≡ map_shared r.length w'.backend.memory_fd
        ∷ memory_prepare w'.backend.memory_fd r.alias r.guest_base r.length r.token count pages
        ∷ memory_info w'.backend.memory_fd
        ∷ open_device guest_memory
        ∷ w.trace

-- A failed preparation: nothing is mapped; where the status says so, all of it is given back.
abbrev pub Abandons : Status → Backend → Type 0
Abandons backend_failure b = (idle b ≡ true) × (b.region ≡ no_region)
Abandons quiescence_failed b = b.memory ≡ none
Abandons _ b = ⊥

abbrev pub MapsOr : PrepareRequest → ℕ → List ℕ → World → Status → World → Type 0
MapsOr r count pages w ok w' = Mapped r count pages w w'
MapsOr r count pages w backend_failure w' = Abandons backend_failure w'.backend
MapsOr r count pages w s w' = Abandons s w'.backend

fail_prepare-Abandons :
    (k : Kernel) (w : World)
    → w.backend.memory ≡ none
    → Abandons (fail_prepare k w).0 (fail_prepare k w).1.backend
unfolding fail_prepare
fail_prepare-Abandons k w m = ground (arith, release_memory-idle k w, release_memory_unmaps k w)

Abandons-MapsOr :
    (r : PrepareRequest) (count : ℕ) (pages : List ℕ) (w : World) (s : Status) (w' : World)
    → Abandons s w'.backend
    → MapsOr r count pages w s w'
Abandons-MapsOr r count pages w ok w' h = absurd h
Abandons-MapsOr r count pages w _ w' h = h

module _ (k : Kernel) (r : PrepareRequest) (count : ℕ) (pages : List ℕ) (w : World) where
  -- Shut, so that a proof by branches can find it in its goal.
  Outcome : Status × World → Type 0
  Outcome x = MapsOr r count pages w x.0 x.1

  fails : (w' : World) → w'.backend.memory ≡ none → Outcome (fail_prepare k w')
  unfolding Outcome
  fails w' m = Abandons-MapsOr r count pages w _ _ (fail_prepare-Abandons k w' m)

  maps : (w' : World) → Mapped r count pages w w' → Outcome (ok, w')
  unfolding Outcome
  maps w' h = h

  map_memory-Outcome : w.backend.memory ≡ none → Outcome (map_memory k r count pages w)
  unfolding map_memory
  map_memory-Outcome m = grind (arith, fails, maps)

  pub map_memory-MapsOr :
      w.backend.memory ≡ none
      → MapsOr r count pages w (map_memory k r count pages w).0 (map_memory k r count pages w).1
  unfolding Outcome
  map_memory-MapsOr m = map_memory-Outcome m

-- What a request asks of the numbers in it.
pub record WellFormed (r : PrepareRequest) : Type 0 where
  pub nonempty : 0 < r.length
  pub whole : r.length % page_size ≡ 0
  pub aligned : r.guest_base % page_size ≡ 0
  pub no_wrap : r.guest_base + r.length ≤ u64_max

-- The route of a grant, the token's admission on it, and the calls before the walk.
abbrev pub route_of : World → Option ℕ
route_of w = (memory_endpoint w.backend).notification

abbrev pub admission : PrepareRequest → World → Call
admission r w = admit_token (route_of w) r.token r.guest_base r.length

abbrev pub asked : PrepareRequest → World → Trace
asked r w = allocate (r.length / page_size) ∷ admission r w ∷ w.trace

-- The table that the driver is given for a request with a token: the pages of the extents that
-- the kernel answered, which tile the request.
abbrev pub GrantTable : Kernel → PrepareRequest → World → ℕ → List ℕ → Type 0
GrantTable k r w extents pages =
    (xs : List Extent) × Answers k (route_of w) 0 (asked r w) xs
    × (length xs ≡ extents)
    × Tiles 0 xs r.length
    × (pages ≡ pages_of xs)

-- `admit_grant`: refused with nothing changed, mapped with a table that tiles the grant, or given
-- up.
abbrev pub Granted : Kernel → PrepareRequest → World → World → Type 0
Granted k r w w' =
    (extents : ℕ) × (pages : List ℕ) × (k.number w.trace (admission r w) ≡ some extents)
    × GrantTable k r w extents pages
    × Mapped r (r.length / page_size) pages
        (record w { trace = reads (route_of w) extents 0 (asked r w) }) w'

abbrev pub GrantsOr : Kernel → PrepareRequest → World → Status → World → Type 0
GrantsOr k r w ok w' = Granted k r w w'
GrantsOr k r w invalid w' = w'.backend ≡ w.backend
GrantsOr k r w s w' = Abandons s w'.backend

module _ (k : Kernel) (r : PrepareRequest) (w : World) where
  GrantOutcome : Status × World → Type 0
  GrantOutcome x = GrantsOr k r w x.0 x.1

  refuses : (w' : World) → w'.backend ≡ w.backend → GrantOutcome (invalid, w')
  unfolding GrantOutcome
  refuses w' e = e

  abandons : (w' : World) → w'.backend.memory ≡ none → GrantOutcome (fail_prepare k w')
  unfolding GrantOutcome
  abandons w' m = weaken _ _ (fail_prepare-Abandons k w' m)
    where
      weaken : (s : Status) (v : World) → Abandons s v.backend → GrantsOr k r w s v
      weaken ok v h = absurd h
      weaken invalid v h = absurd h
      weaken _ v h = h

  token_set : Trace → World
  token_set t = record { backend = record (w.backend) { token = r.token }; trace = t }

  grants :
      (extents : ℕ) (pages : List ℕ)
      → w.backend.memory ≡ none
      → k.number w.trace (admission r w) ≡ some extents
      → GrantTable k r w extents pages
      → GrantOutcome (
          map_memory k r
            (r.length / page_size)
            pages
            (token_set (reads (route_of w) extents 0 (asked r w))))
  unfolding GrantOutcome token_set
  grants extents pages m admitted g =
      let t = reads (route_of w) extents 0 (asked r w) in
      weaken _ _ (map_memory-MapsOr k r (r.length / page_size) pages (token_set t) m)
    where
      weaken :
          (s : Status) (v : World)
          → MapsOr r
              (r.length / page_size)
              pages
              (token_set (reads (route_of w) extents 0 (asked r w)))
              s
              v
          → GrantsOr k r w s v
      weaken ok v h = (extents, pages, admitted, g, ground arith)
      weaken invalid v h = absurd h
      weaken _ v h = h

  use_table-GrantOutcome :
      (extents : ℕ) (t : Trace) (walk : Option (ℕ × List ℕ))
      → w.backend.memory ≡ none
      → k.number w.trace (admission r w) ≡ some extents
      → ((x : ℕ × List ℕ) → walk ≡ some x → t ≡ reads (route_of w) extents 0 (asked r w))
      → ((pages : List ℕ) → walk ≡ some (r.length, pages) → GrantTable k r w extents pages)
      → GrantOutcome (use_table k r walk (token_set t))
  unfolding use_table token_set
  use_table-GrantOutcome extents t none m admitted calls table = abandons (token_set t) m
  use_table-GrantOutcome extents t (some (cursor, pages)) m admitted calls table =
      elim (ℕ_discrete cursor r.length) [
        | yes e ↦
            let at = calls (cursor, pages) refl in
            ground (arith, at, grants extents pages m admitted (table pages (ground arith)))
        | no d ↦ ground (arith, abandons (token_set t) m)
      ]

  walked :
      (extents : ℕ)
      → WellFormed r
      → w.backend.memory ≡ none
      → k.number w.trace (admission r w) ≡ some extents
      → let walk =
          collect k
            (route_of w)
            r.length
            extents
            0
            0
            (replicate (r.length / page_size) 0)
            (asked r w) in
        GrantOutcome (use_table k r walk.0 (token_set walk.1))
  walked extents f m admitted =
      let small : r.length ≤ u64_max = omega (arith, f) in
      let table : List ℕ = replicate (r.length / page_size) 0 in
      use_table-GrantOutcome extents _ _ m admitted
        (λ x e. collect-reads k (route_of w) r.length extents 0 0 table (asked r w) x e)
        λ pages e. collect-Tiles k (route_of w) r.length extents (asked r w) pages small f.whole e

  admit_grant-GrantOutcome :
      WellFormed r → w.backend.memory ≡ none → GrantOutcome (admit_grant k r w)
  unfolding admit_grant token_set
  admit_grant-GrantOutcome f m = grind (arith, refuses, abandons, walked)

  pub admit_grant-GrantsOr :
      WellFormed r
      → w.backend.memory ≡ none
      → GrantsOr k r w (admit_grant k r w).0 (admit_grant k r w).1
  unfolding GrantOutcome
  admit_grant-GrantsOr f m = admit_grant-GrantOutcome f m
