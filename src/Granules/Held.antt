-- ===== src/Granules/Held.antt =====
-- Every granule of the registry holds exactly its own claim and its own mapping.
use hype_r_io_vm.Base.{
  ℕ, ◌+◌, ◌^◌, ◌<◌, ◌≡◌, refl, sym, ◌∙◌, inl, inr, false, some, List, [], ◌∷◌, ◌==◌, subst, arith,
  Option-cases,
}
use hype_r_io_vm.Granules.{
  Granule, Registry, Answers, Acquired, acquired, out_of_memory, region_busy, not_mapped,
  not_stored, users_of, set_users, erase, give_back, create, hyper_granule_get, decrement,
  increment, detach, granule_retire, hyper_granules_put,
}
use hype_r_io_vm.Granules.Batches.{put_one, put_each, hyper_granules_put_lem}

abbrev pub indices : List Granule → List ℕ
indices [] = []
indices (g ∷ gs) = g.index ∷ indices gs

-- The claims and the mappings are those of the registered granules, newest first.
pub record IsHeld (s : Registry) : Type 0 where
  pub claimed : s.claimed ≡ indices s.granules
  pub mapped : s.mapped ≡ indices s.granules

indices-set_users : (i n : ℕ) (gs : List Granule) → indices (set_users i n gs) ≡ indices gs
unfolding set_users
indices-set_users i n [] = refl
indices-set_users i n (g ∷ gs) = let rest = indices-set_users i n gs in ground arith

indices-erase : (i : ℕ) (gs : List Granule) → indices (erase i gs) ≡ give_back i (indices gs)
unfolding erase give_back
indices-erase i [] = refl
indices-erase i (g ∷ gs) = let rest = indices-erase i gs in ground arith

give_back_newest : (i : ℕ) (js : List ℕ) → give_back i (i ∷ js) ≡ js
unfolding give_back
give_back_newest i js = ground arith

-- Where the claims and the mappings are those of the registered granules, an acquisition keeps
-- them so, whether it succeeds or fails and whatever Linux answers.
pub hyper_granule_get-IsHeld :
    (x : Answers) (i : ℕ) (s : Registry) → IsHeld s → IsHeld (hyper_granule_get x i s).1
unfolding hyper_granule_get create
hyper_granule_get-IsHeld x i s v =
    grind (arith, indices-set_users, give_back_newest i s.claimed, give_back_newest i s.mapped)

put_one-IsHeld : (i : ℕ) (s : Registry) → IsHeld s → IsHeld (put_one i s)
unfolding put_one detach granule_retire
put_one-IsHeld i s v = grind (arith, indices-set_users, indices-erase)

-- Putting any entries keeps every claim and mapping with its granule.
put_each-IsHeld : (owned : List ℕ) (s : Registry) → IsHeld s → IsHeld (put_each owned s)
unfolding put_each
put_each-IsHeld [] s v = v
put_each-IsHeld (i ∷ is) s v = put_each-IsHeld is (put_one i s) (put_one-IsHeld i s v)

-- Where the claims and the mappings are those of the registered granules, putting any entries
-- keeps them so.
pub hyper_granules_put-IsHeld :
    (owned : List ℕ) (s : Registry) → IsHeld s → IsHeld (hyper_granules_put owned s)
hyper_granules_put-IsHeld owned s v =
    subst IsHeld (sym (hyper_granules_put_lem owned s)) (put_each-IsHeld owned s v)

set_users_again :
    (i n m : ℕ) (gs : List Granule) → users_of i gs ≡ some n → set_users i n (set_users i m gs) ≡ gs
unfolding set_users users_of
set_users_again i n m [] h = ground (arith, h)
set_users_again i n m (g ∷ gs) h = let rest = set_users_again i n m gs in ground (arith, h, rest)

users_of-set_users :
    (i n m : ℕ) (gs : List Granule)
    → users_of i gs ≡ some n
    → users_of i (set_users i m gs) ≡ some m
unfolding set_users users_of
users_of-set_users i n m [] h = ground (arith, h)
users_of-set_users i n m (g ∷ gs) h =
    let rest = users_of-set_users i n m gs in ground (arith, h, rest)

put_again :
    (i n : ℕ) (s : Registry)
    → users_of i s.granules ≡ some n
    → 0 < n
    → n + 1 < 2 ^ 32
    → put_one i (record s { granules = set_users i (increment n) s.granules }) ≡ s
unfolding put_one detach
put_again i n s h pos small =
    let seen = users_of-set_users i n (increment n) s.granules h in
    let same = set_users_again i n (increment n) s.granules h in
    let back : decrement (increment n) ≡ n = omega (arith, small) in
    let more : (n == 0) ≡ false = ground (arith, pos) in rw seen (rw back (rw more (rw same refl)))

-- What follows an acquisition: its granule is put, if there is one.
abbrev pub undo : Acquired → ℕ → Registry → Registry
undo acquired i s = hyper_granules_put (i ∷ []) s
undo _ i s = s

abbrev undo_one : Acquired → ℕ → Registry → Registry
undo_one acquired i s = put_one i s
undo_one _ i s = s

undo_lem : (r : Acquired) (i : ℕ) (s : Registry) → undo r i s ≡ undo_one r i s
unfolding put_each
undo_lem acquired i s = hyper_granules_put_lem (i ∷ []) s
undo_lem out_of_memory i s = refl
undo_lem region_busy i s = refl
undo_lem not_mapped i s = refl
undo_lem not_stored i s = refl

undo_create :
    (x : Answers) (i : ℕ) (s : Registry) → undo_one (create x i s).0 i (create x i s).1 ≡ s
unfolding create put_one detach users_of erase granule_retire
undo_create x i s = grind (arith, give_back_newest i s.claimed, give_back_newest i s.mapped)

-- An acquisition of a granule whose users, if it is known, are not none and fit their counter:
-- one that succeeds is undone exactly by putting its granule, and one that fails has left the
-- registry, the claims and the mappings as they were.
pub get_put :
    (x : Answers) (i : ℕ) (s : Registry)
    → ((n : ℕ) → users_of i s.granules ≡ some n → (0 < n) × (n + 1 < 2 ^ 32))
    → undo (hyper_granule_get x i s).0 i (hyper_granule_get x i s).1 ≡ s
unfolding hyper_granule_get
get_put x i s small = undo_lem (hyper_granule_get x i s).0 i (hyper_granule_get x i s).1 ∙ undone
  where
    undone : undo_one (hyper_granule_get x i s).0 i (hyper_granule_get x i s).1 ≡ s
    undone = elim (Option-cases (users_of i s.granules)) [
      | inl unknown ↦ rw unknown (undo_create x i s)
      | inr (n, known) ↦
          let (pos, fits) = small n known in rw known (put_again i n s known pos fits)
    ]
