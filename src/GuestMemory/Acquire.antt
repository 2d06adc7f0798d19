-- ===== src/GuestMemory/Acquire.antt =====
-- The loop of acquisitions and the puts that undo it.
use hype_r_io_vm.Base.{
  ℕ, ◌+◌, ◌^◌, ◌<◌, ◌≡◌, ◌≢◌, refl, sym, ap, ◌∙◌, subst, none, some, List, [], ◌∷◌, All, Pairs, not,
  if◌then◌else◌, arith, inl, inr, Option-cases,
}
use hype_r_io_vm.Granules
use hype_r_io_vm.Granules.{
  Granule, Registry, Acquired, acquired, out_of_memory, region_busy, not_mapped, not_stored,
  users_of, set_users, erase, give_back, create, hyper_granule_get, increment, decrement, detach,
  granule_retire, hyper_granules_put,
}
use hype_r_io_vm.Granules.Batches.{put_one, put_each, hyper_granules_put_lem}
use hype_r_io_vm.Granules.Held.{undo, get_put}
use hype_r_io_vm.GuestMemory.{go_on, acquire_all}

-- Operations on different granules do not see each other.
users_of-set_users_ne :
    (i j n : ℕ) (gs : List Granule) → i ≢ j → users_of i (set_users j n gs) ≡ users_of i gs
unfolding users_of set_users
users_of-set_users_ne i j n [] h = refl
users_of-set_users_ne i j n (g ∷ gs) h =
    let rest = users_of-set_users_ne i j n gs h in ground (arith, h, rest)

users_of-erase_ne : (i j : ℕ) (gs : List Granule) → i ≢ j → users_of i (erase j gs) ≡ users_of i gs
unfolding users_of erase
users_of-erase_ne i j [] h = refl
users_of-erase_ne i j (g ∷ gs) h = let rest = users_of-erase_ne i j gs h in ground (arith, h, rest)

set_users_swap :
    (i j n m : ℕ) (gs : List Granule)
    → i ≢ j
    → set_users i n (set_users j m gs) ≡ set_users j m (set_users i n gs)
unfolding set_users
set_users_swap i j n m [] h = refl
set_users_swap i j n m (g ∷ gs) h =
    let rest = set_users_swap i j n m gs h in ground (arith, h, rest)

set_users-erase_swap :
    (i j n : ℕ) (gs : List Granule)
    → i ≢ j
    → erase i (set_users j n gs) ≡ set_users j n (erase i gs)
unfolding set_users erase
set_users-erase_swap i j n [] h = refl
set_users-erase_swap i j n (g ∷ gs) h =
    let rest = set_users-erase_swap i j n gs h in ground (arith, h, rest)

give_back_older : (i j : ℕ) (l : List ℕ) → i ≢ j → give_back i (j ∷ l) ≡ j ∷ give_back i l
unfolding give_back
give_back_older i j l h = ground (arith, h)

give_back_newest : (i : ℕ) (js : List ℕ) → give_back i (i ∷ js) ≡ js
unfolding give_back
give_back_newest i js = ground arith

users_of-put_one :
    (i j : ℕ) (s : Registry) → i ≢ j → users_of j (put_one i s).granules ≡ users_of j s.granules
unfolding put_one detach granule_retire
users_of-put_one i j s h = grind (arith, h, users_of-set_users_ne, users_of-erase_ne)

-- What a creation comes to, and what it leaves, apart.
abbrev verdict : Granules.Answers → Acquired
verdict x =
    if not x.allocated
    then out_of_memory
    else if not x.requested
    then region_busy
    else if not x.remapped
    then not_mapped
    else if not x.stored
    then not_stored
    else acquired

made : ℕ → Registry → Registry
made i s = record {
  granules = record { index = i; users = 1 } ∷ s.granules;
  claimed = i ∷ s.claimed;
  mapped = i ∷ s.mapped;
}

abbrev after : Acquired → ℕ → Registry → Registry
after acquired i s = made i s
after _ i s = s

create_lem :
    (x : Granules.Answers) (i : ℕ) (s : Registry)
    → create x i s ≡ (verdict x, after (verdict x) i s)
unfolding create made
create_lem x i s =
    let c = give_back_newest i s.claimed in
    let m = give_back_newest i s.mapped in ground (arith, c, m)

made_swap : (i j : ℕ) (s : Registry) → i ≢ j → made j (put_one i s) ≡ put_one i (made j s)
unfolding put_one detach granule_retire made users_of set_users erase
made_swap i j s h =
    let c = give_back_older i j s.claimed h in
    let m = give_back_older i j s.mapped h in ground (arith, h, c, m)

after_swap :
    (e : Acquired) (i j : ℕ) (s : Registry)
    → i ≢ j
    → after e j (put_one i s) ≡ put_one i (after e j s)
after_swap acquired i j s h = made_swap i j s h
after_swap out_of_memory i j s h = refl
after_swap region_busy i j s h = refl
after_swap not_mapped i j s h = refl
after_swap not_stored i j s h = refl

-- One more user of a granule that is known.
again : ℕ → ℕ → Registry → Registry
again j n s = record s { granules = set_users j (increment n) s.granules }

again_swap : (i j n : ℕ) (s : Registry) → i ≢ j → again j n (put_one i s) ≡ put_one i (again j n s)
unfolding again put_one detach granule_retire
again_swap i j n s h = grind (
  arith,
  h,
  users_of-set_users_ne i j (increment n) s.granules h,
  set_users_swap,
  set_users-erase_swap,
)

get_known :
    (x : Granules.Answers) (j n : ℕ) (s : Registry)
    → users_of j s.granules ≡ some n
    → hyper_granule_get x j s ≡ (acquired, again j n s)
unfolding hyper_granule_get again
get_known x j n s h = rw h refl

get_unknown :
    (x : Granules.Answers) (j : ℕ) (s : Registry)
    → users_of j s.granules ≡ none
    → hyper_granule_get x j s ≡ (verdict x, after (verdict x) j s)
unfolding hyper_granule_get
get_unknown x j s h = rw h (create_lem x j s)

-- An acquisition and the put of another granule can change places.
get_swap :
    (x : Granules.Answers) (i j : ℕ) (s : Registry)
    → i ≢ j
    → hyper_granule_get x j (put_one i s)
      ≡ ((hyper_granule_get x j s).0, put_one i (hyper_granule_get x j s).1)
get_swap x i j s h =
    let seen = users_of-put_one i j s h in
    elim (Option-cases (users_of j s.granules)) [
      | inl unknown ↦
          get_unknown x j (put_one i s) (seen ∙ unknown)
          ∙ ap (λ t. (verdict x, t)) (after_swap (verdict x) i j s h)
          ∙ ap (λ t. (t.0, put_one i t.1)) (sym (get_unknown x j s unknown))
      | inr (n, known) ↦
          get_known x j n (put_one i s) (seen ∙ known)
          ∙ ap (λ t. (acquired, t)) (again_swap i j n s h)
          ∙ ap (λ t. (t.0, put_one i t.1)) (sym (get_known x j n s known))
    ]

go_on_swap :
    (e : Acquired) (i j : ℕ) (s t : Registry) (rest rest' : Acquired × List ℕ × Registry)
    → rest' ≡ (rest.0, rest.1, put_one i rest.2)
    → t ≡ put_one i s
    → go_on e j t rest'
      ≡ ((go_on e j s rest).0, (go_on e j s rest).1, put_one i (go_on e j s rest).2)
go_on_swap acquired i j s t rest rest' h k = ap (λ r. (r.0, j ∷ r.1, r.2)) h
go_on_swap out_of_memory i j s t rest rest' h k = ap (λ r. (out_of_memory, [], r)) k
go_on_swap region_busy i j s t rest rest' h k = ap (λ r. (region_busy, [], r)) k
go_on_swap not_mapped i j s t rest rest' h k = ap (λ r. (not_mapped, [], r)) k
go_on_swap not_stored i j s t rest rest' h k = ap (λ r. (not_stored, [], r)) k

acquire_all_swap :
    (x : ℕ → Granules.Answers) (i : ℕ) (is : List ℕ) (s : Registry)
    → All (λ j. i ≢ j) is
    → let (e, granules, t) = acquire_all x is s in
      acquire_all x is (put_one i s) ≡ (e, granules, put_one i t)
unfolding acquire_all
acquire_all_swap x i [] s h = refl
acquire_all_swap x i (j ∷ js) s (h, hs) =
    let t = (hyper_granule_get (x j) j s).1 in
    ap (λ g. go_on g.0 j g.1 (acquire_all x js g.1)) (get_swap (x j) i j s h)
    ∙ go_on_swap (hyper_granule_get (x j) j s).0 i j t (put_one i t) (acquire_all x js t)
        (acquire_all x js (put_one i t)) (acquire_all_swap x i js t hs) refl

-- Every granule has users, and room for one more in its counter.
abbrev pub HasRoom : Registry → Type 0
HasRoom s = (i n : ℕ) → users_of i s.granules ≡ some n → (0 < n) × (n + 1 < 2 ^ 32)

undone :
    (e : Acquired) (i : ℕ) (s t : Registry) (rest : Acquired × List ℕ × Registry)
    → undo e i t ≡ s
    → (put_one i t ≡ s → put_each rest.1 (put_one i rest.2) ≡ s)
    → put_each (go_on e i t rest).1 (go_on e i t rest).2 ≡ s
unfolding put_each
undone acquired i s t rest h k = k (sym (hyper_granules_put_lem (i ∷ []) t) ∙ h)
undone out_of_memory i s t rest h k = h
undone region_busy i s t rest h k = h
undone not_mapped i s t rest h k = h
undone not_stored i s t rest h k = h

put_each-acquire_all :
    (x : ℕ → Granules.Answers) (is : List ℕ) (s : Registry)
    → Pairs (λ i j. i ≢ j) is
    → HasRoom s
    → put_each (acquire_all x is s).1 (acquire_all x is s).2 ≡ s
unfolding acquire_all put_each
put_each-acquire_all x [] s d r = refl
put_each-acquire_all x (i ∷ is) s (h, hs) r =
    let (e, t) = hyper_granule_get (x i) i s in
    undone e i s t (acquire_all x is t) (get_put (x i) i s (r i)) λ back.
      let same : acquire_all x is s
          ≡ ((acquire_all x is t).0, (acquire_all x is t).1, put_one i (acquire_all x is t).2) =
        sym (ap (acquire_all x is) back) ∙ acquire_all_swap x i is t h in
      subst (λ g. put_each g.1 g.2 ≡ s) same (put_each-acquire_all x is s hs r)

-- Where the indices differ, putting what the loop acquired leaves the registry as it was before the
-- loop, however far the loop came.
pub acquire_all_undone :
    (x : ℕ → Granules.Answers) (is : List ℕ) (s : Registry)
    → Pairs (λ i j. i ≢ j) is
    → HasRoom s
    → hyper_granules_put (acquire_all x is s).1 (acquire_all x is s).2 ≡ s
acquire_all_undone x is s d r =
    hyper_granules_put_lem (acquire_all x is s).1 (acquire_all x is s).2
    ∙ put_each-acquire_all x is s d r
