-- ===== src/Granules/Counted/Entries.antt =====
-- The entries of the registry, under the changes of one of them.
use hype_r_io_vm.Base.{
  ℕ, ◌≡◌, ◌≢◌, refl, subst, none, some, List, [], ◌∷◌, All, Pairs, ◌==◌, if◌then◌else◌, arith, inl,
  inr, Bool-cases,
}
use hype_r_io_vm.Granules.{Granule, users_of, set_users, erase}

-- No two entries have one index.
abbrev pub IsDistinct : List Granule → Type 0
IsDistinct gs = Pairs (λ g k. g.index ≢ k.index) gs

Others : ℕ → List Granule → Type 0
Others i gs = All (λ g. i ≢ g.index) gs

none-Others : (i : ℕ) (gs : List Granule) → users_of i gs ≡ none → Others i gs
unfolding users_of Others
none-Others i [] h = tt
none-Others i (g ∷ gs) h =
    let rest = none-Others i gs in
    elim (Bool-cases (g.index == i)) [
      | inl same ↦ absurd (ground (arith, h, same))
      | inr differ ↦ (λ e. ground (arith, e, differ), rest (ground (arith, h, differ)))
    ]

Others-none : (i : ℕ) (gs : List Granule) → Others i gs → users_of i gs ≡ none
unfolding users_of Others
Others-none i [] h = refl
Others-none i (g ∷ gs) (h, hs) = let rest = Others-none i gs hs in ground (arith, h, rest)

set_users-Others : (i j n : ℕ) (gs : List Granule) → Others i gs → Others i (set_users j n gs)
unfolding set_users Others
set_users-Others i j n [] h = tt
set_users-Others i j n (g ∷ gs) (h, hs) =
    let rest = set_users-Others i j n gs hs in
    elim (Bool-cases (g.index == j)) [ inl e ↦ rw e (h, hs) | inr e ↦ rw e (h, rest) ]

erase-Others : (i j : ℕ) (gs : List Granule) → Others i gs → Others i (erase j gs)
unfolding erase Others
erase-Others i j [] h = tt
erase-Others i j (g ∷ gs) (h, hs) =
    let rest = erase-Others i j gs hs in
    elim (Bool-cases (g.index == j)) [ inl e ↦ rw e hs | inr e ↦ rw e (h, rest) ]

pub set_users-IsDistinct :
    (i n : ℕ) (gs : List Granule) → IsDistinct gs → IsDistinct (set_users i n gs)
unfolding set_users Others
set_users-IsDistinct i n [] h = tt
set_users-IsDistinct i n (g ∷ gs) (h, hs) =
    let rest = set_users-IsDistinct i n gs hs in
    elim (Bool-cases (g.index == i)) [
      | inl e ↦ rw e (h, hs)
      | inr e ↦ rw e (set_users-Others g.index i n gs h, rest)
    ]

pub erase-IsDistinct : (i : ℕ) (gs : List Granule) → IsDistinct gs → IsDistinct (erase i gs)
unfolding erase Others
erase-IsDistinct i [] h = tt
erase-IsDistinct i (g ∷ gs) (h, hs) =
    let rest = erase-IsDistinct i gs hs in
    elim (Bool-cases (g.index == i)) [
      | inl e ↦ rw e hs
      | inr e ↦ rw e (erase-Others g.index i gs h, rest)
    ]

pub users_of-erase :
    (i j : ℕ) (gs : List Granule)
    → IsDistinct gs
    → users_of j (erase i gs) ≡ (if j == i then none else users_of j gs)
unfolding erase users_of Others
users_of-erase i j [] h = ground arith
users_of-erase i j (g ∷ gs) (h, hs) =
    let gone = Others-none g.index gs h in
    let rest = users_of-erase i j gs hs in
    elim (Bool-cases (g.index == j)) [
      | inl here ↦
          let same : g.index ≡ j = ground (arith, here) in
          let gone' = subst (λ k. users_of k gs ≡ none) same gone in
          ground (arith, here, gone', rest)
      | inr there ↦ ground (arith, there, rest)
    ]

pub users_of-set :
    (i j n m : ℕ) (gs : List Granule)
    → users_of i gs ≡ some m
    → users_of j (set_users i n gs) ≡ (if j == i then some n else users_of j gs)
unfolding set_users users_of
users_of-set i j n m [] h = ground (arith, h)
users_of-set i j n m (g ∷ gs) h = let rest = users_of-set i j n m gs in ground (arith, h, rest)

pub cons-IsDistinct :
    (i n : ℕ) (gs : List Granule)
    → IsDistinct gs
    → users_of i gs ≡ none
    → IsDistinct (record { index = i; users = n } ∷ gs)
unfolding Others
cons-IsDistinct i n gs d h = (none-Others i gs h, d)
