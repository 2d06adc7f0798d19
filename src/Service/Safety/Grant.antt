-- ===== src/Service/Safety/Grant.antt =====
-- `prepare_memory` keeps the invariant.
use hype_r_io_vm.Base.{ℕ, ◌<◌, ◌≡◌, Option, List, none, some, arith, []}
use hype_r_io_vm.Service.Calls.{Kernel}
use hype_r_io_vm.Service.State.{World, Status}
use hype_r_io_vm.Service.Prepare.{
  PrepareRequest, fail_prepare, map_memory, use_table, admit_grant, prepare_memory,
}
use hype_r_io_vm.Service.Safety.{IsSafe}
use hype_r_io_vm.Service.Safety.Keep.{release_memory-IsSafe}

module _ (k : Kernel) where
  fail_prepare-IsSafe : (w : World) → IsSafe w.backend → IsSafe (fail_prepare k w).1.backend
  unfolding fail_prepare
  fail_prepare-IsSafe w s = release_memory-IsSafe k w s

  module _ (r : PrepareRequest) where
    map_memory-IsSafe :
        (count : ℕ) (pages : List ℕ) (w : World)
        → 0 < r.length
        → w.backend.memory ≡ none
        → IsSafe w.backend
        → IsSafe (map_memory k r count pages w).1.backend
    unfolding map_memory
    map_memory-IsSafe count pages w f m s = grind (arith, fail_prepare-IsSafe)

    use_table-IsSafe :
        (walk : Option (ℕ × List ℕ)) (w : World)
        → 0 < r.length
        → w.backend.memory ≡ none
        → IsSafe w.backend
        → IsSafe (use_table k r walk w).1.backend
    unfolding use_table
    use_table-IsSafe none w f m s = fail_prepare-IsSafe w s
    use_table-IsSafe (some (cursor, pages)) w f m s =
        grind (arith, fail_prepare-IsSafe, map_memory-IsSafe)

    admit_grant-IsSafe :
        (w : World)
        → 0 < r.length
        → w.backend.memory ≡ none
        → IsSafe w.backend
        → IsSafe (admit_grant k r w).1.backend
    unfolding admit_grant
    admit_grant-IsSafe w f m s = grind (arith, fail_prepare-IsSafe, use_table-IsSafe)

    module _ (w : World) (s : IsSafe w.backend) where
      -- Shut, so that the search sees one fact and not its fields.
      Kept : Status × World → Type 0
      Kept x = IsSafe x.1.backend

      refuses : (status : Status) → Kept (status, w)
      unfolding Kept
      refuses status = s

      grants : 0 < r.length → w.backend.memory ≡ none → Kept (admit_grant k r w)
      unfolding Kept
      grants f m = admit_grant-IsSafe w f m s

      maps : 0 < r.length → w.backend.memory ≡ none → Kept (map_memory k r 0 [] w)
      unfolding Kept
      maps f m = map_memory-IsSafe 0 [] w f m s

      prepare_memory-Kept : Kept (prepare_memory k r w)
      unfolding prepare_memory
      prepare_memory-Kept = grind (arith, refuses, grants, maps)

    -- Preparing memory keeps a safe backend safe, on every path and whatever the kernel answers.
    pub prepare_memory-IsSafe :
        (w : World) → IsSafe w.backend → IsSafe (prepare_memory k r w).1.backend
    unfolding Kept
    prepare_memory-IsSafe w s = prepare_memory-Kept w s
