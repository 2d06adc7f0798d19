-- ===== src/Granules/Counted.antt =====
-- The users of each granule are its holders, whoever they are.
mod Entries
use hype_r_io_vm.Base.{
  ℕ, ◌+◌, ◌-◌, ◌^◌, ◌≤◌, ◌<◌, ◌≡◌, ◌≢◌, refl, sym, ap, ◌∙◌, subst, Option, none, some, List, [],
  ◌∷◌, All, Pairs, ◌==◌, if◌then◌else◌, arith, inl, inr, Bool-cases, Option-cases,
}
use hype_r_io_vm.Granules.{
  Granule, Registry, Answers, Acquired, acquired, out_of_memory, region_busy, not_mapped,
  not_stored, users_of, set_users, erase, create, hyper_granule_get, increment, decrement, detach,
  granule_retire, hyper_granules_put,
}
use hype_r_io_vm.Granules.Batches.{put_one, put_each, hyper_granules_put_lem}
use hype_r_io_vm.Granules.Counted.Entries.{
  IsDistinct, set_users-IsDistinct, erase-IsDistinct, users_of-erase, users_of-set, cons-IsDistinct,
}

abbrev pub users_for : ℕ → Option ℕ
users_for n = if n == 0 then none else some n

-- How often an index stands in a list.
abbrev pub tally : ℕ → List ℕ → ℕ
tally i [] = 0
tally i (j ∷ js) = if j == i then 1 + tally i js else tally i js

-- Each granule has as many users as it has holders, and is there exactly while it has one.
pub record IsCounted (holders : ℕ → ℕ) (s : Registry) : Type 0 where
  pub distinct : IsDistinct s.granules
  pub counted : (i : ℕ) → users_of i s.granules ≡ users_for (holders i)

abbrev pub one_more : ℕ → (ℕ → ℕ) → ℕ → ℕ
one_more i holders j = if j == i then holders j + 1 else holders j

abbrev pub one_less : ℕ → (ℕ → ℕ) → ℕ → ℕ
one_less i holders j = if j == i then holders j - 1 else holders j

module _ (holders : ℕ → ℕ) (s : Registry) (v : IsCounted holders s) where
  again-IsCounted :
      (i n : ℕ)
      → users_of i s.granules ≡ some n
      → n + 1 < 2 ^ 32
      → IsCounted
          (one_more i holders)
          (record s { granules = set_users i (increment n) s.granules })
  again-IsCounted i n known room = record {
    distinct = set_users-IsDistinct i (increment n) s.granules v.distinct;
    counted = λ j.
        let seen = users_of-set i j (increment n) n s.granules known in
        let before = v.counted j in
        let here = v.counted i in
        let alike = λ (e : j ≡ i). ap holders e in
        ground (arith, seen, before, here, known, room, alike);
  }

  fresh-IsCounted :
      (i : ℕ) (claimed mapped : List ℕ)
      → users_of i s.granules ≡ none
      → IsCounted (one_more i holders) (record {
        granules = record { index = i; users = 1 } ∷ s.granules;
        claimed = claimed;
        mapped = mapped;
      })
  unfolding users_of
  fresh-IsCounted i claimed mapped unknown = record {
    distinct = cons-IsDistinct i 1 s.granules v.distinct unknown;
    counted = λ j.
        let before = v.counted j in
        let here = v.counted i in
        let alike = λ (e : j ≡ i). ap holders e in ground (arith, before, here, unknown, alike);
  }

  put_one-granules :
      (i n : ℕ)
      → users_of i s.granules ≡ some n
      → (put_one i s).granules
        ≡ (if decrement n == 0 then erase i s.granules else set_users i (decrement n) s.granules)
  unfolding put_one detach granule_retire
  put_one-granules i n known = ground (arith, known)

  pub put_one-IsCounted :
      (i : ℕ) → 0 < holders i → holders i < 2 ^ 32 → IsCounted (one_less i holders) (put_one i s)
  put_one-IsCounted i held room =
      let here = v.counted i in
      let known : users_of i s.granules ≡ some (holders i) = ground (arith, here, held) in
      let n = decrement (holders i) in
      let left : n ≡ holders i - 1 = omega (arith, held, room) in
      let same = put_one-granules i (holders i) known in
      elim (Bool-cases (n == 0)) [
        | inl last ↦
            let e : (put_one i s).granules ≡ erase i s.granules = ground (arith, same, last) in
            record {
              distinct = subst IsDistinct (sym e) (erase-IsDistinct i s.granules v.distinct);
              counted = λ j.
                  let seen = users_of-erase i j s.granules v.distinct in
                  let before = v.counted j in
                  let alike = λ (e : j ≡ i). ap holders e in
                  ap (users_of j) e ∙ ground (arith, seen, before, left, last, alike);
            }
        | inr more ↦
            let e : (put_one i s).granules ≡ set_users i n s.granules =
              ground (arith, same, more) in
            record {
              distinct = subst IsDistinct (sym e) (set_users-IsDistinct i n s.granules v.distinct);
              counted = λ j.
                  let seen = users_of-set i j n (holders i) s.granules known in
                  let before = v.counted j in
                  let alike = λ (e : j ≡ i). ap holders e in
                  ap (users_of j) e ∙ ground (arith, seen, before, left, more, alike);
            }
      ]

  -- What an acquisition leaves: one holder more when it succeeds, the same holders when it fails.
  unfoldable pub Got : ℕ → Acquired × Registry → Type 0
  Got i (acquired, t) = IsCounted (one_more i holders) t
  Got i (out_of_memory, t) = IsCounted holders t
  Got i (region_busy, t) = IsCounted holders t
  Got i (not_mapped, t) = IsCounted holders t
  Got i (not_stored, t) = IsCounted holders t

  known-Got :
      (i n : ℕ)
      → users_of i s.granules ≡ some n
      → n + 1 < 2 ^ 32
      → Got i (acquired, record s { granules = set_users i (increment n) s.granules })
  unfolding Got
  known-Got i n known room = again-IsCounted i n known room

  kept-IsCounted :
      (claimed mapped : List ℕ)
      → IsCounted holders (record s { claimed = claimed; mapped = mapped })
  kept-IsCounted claimed mapped = record { distinct = v.distinct; counted = v.counted }

  failed-Got :
      (i : ℕ) (e : Acquired) (claimed mapped : List ℕ)
      → e ≢ acquired
      → Got i (e, record s { claimed = claimed; mapped = mapped })
  unfolding Got
  failed-Got i acquired claimed mapped h = absurd (h refl)
  failed-Got i out_of_memory claimed mapped h = kept-IsCounted claimed mapped
  failed-Got i region_busy claimed mapped h = kept-IsCounted claimed mapped
  failed-Got i not_mapped claimed mapped h = kept-IsCounted claimed mapped
  failed-Got i not_stored claimed mapped h = kept-IsCounted claimed mapped

  fresh-Got :
      (i : ℕ)
      → users_of i s.granules ≡ none
      → Got i (
        acquired,
        record {
          granules = record { index = i; users = 1 } ∷ s.granules;
          claimed = i ∷ s.claimed;
          mapped = i ∷ s.mapped;
        },
      )
  unfolding Got
  fresh-Got i unknown = fresh-IsCounted i (i ∷ s.claimed) (i ∷ s.mapped) unknown

  create-Got : (x : Answers) (i : ℕ) → users_of i s.granules ≡ none → Got i (create x i s)
  unfolding create
  create-Got x i unknown =
      let memory = λ (c m : List ℕ). failed-Got i out_of_memory c m (λ e. cc) in
      let region = λ (c m : List ℕ). failed-Got i region_busy c m (λ e. cc) in
      let remapped = λ (c m : List ℕ). failed-Got i not_mapped c m (λ e. cc) in
      let stored = λ (c m : List ℕ). failed-Got i not_stored c m (λ e. cc) in
      let fresh = fresh-Got i unknown in grind (arith, memory, region, remapped, stored, fresh)

  pub get-Got : (x : Answers) (i : ℕ) → holders i + 1 < 2 ^ 32 → Got i (hyper_granule_get x i s)
  unfolding hyper_granule_get
  get-Got x i room = elim (Option-cases (users_of i s.granules)) [
    | inl unknown ↦ rw unknown (create-Got x i unknown)
    | inr (n, known) ↦
        let here = v.counted i in
        let fits : n + 1 < 2 ^ 32 = ground (arith, here, known, room) in
        rw known (known-Got i n known fits)
  ]

pub IsCounted-ext :
    (f g : ℕ → ℕ) (s : Registry) → ((i : ℕ) → f i ≡ g i) → IsCounted f s → IsCounted g s
IsCounted-ext f g s same v = record {
  distinct = v.distinct;
  counted = λ i. v.counted i ∙ ap users_for (same i);
}

put_each-IsCounted :
    (owned : List ℕ) (holders : ℕ → ℕ) (s : Registry)
    → ((i : ℕ) → (tally i owned ≤ holders i) × (holders i < 2 ^ 32))
    → IsCounted holders s
    → IsCounted (λ i. holders i - tally i owned) (put_each owned s)
unfolding put_each
put_each-IsCounted [] holders s h v =
    IsCounted-ext holders (λ i. holders i - 0) s (λ i. omega arith) v
put_each-IsCounted (j ∷ js) holders s h v =
    let (held, room) = h j in
    let one = put_one-IsCounted holders s v j (ground (arith, held)) room in
    let rest =
      put_each-IsCounted js (one_less j holders) (put_one j s)
        (λ i. let here = h i in ground (arith, here)) one in
    IsCounted-ext (λ i. one_less j holders i - tally i js) (λ i. holders i - tally i (j ∷ js))
      (put_each js (put_one j s)) (λ i. let here = h i in ground (arith, here)) rest

-- Where each granule has as many users as holders, putting entries of a holder takes exactly these
-- off, each as often as it is put, and a granule goes with its last holder.
pub hyper_granules_put-IsCounted :
    (owned : List ℕ) (holders : ℕ → ℕ) (s : Registry)
    → ((i : ℕ) → (tally i owned ≤ holders i) × (holders i < 2 ^ 32))
    → IsCounted holders s
    → IsCounted (λ i. holders i - tally i owned) (hyper_granules_put owned s)
hyper_granules_put-IsCounted owned holders s h v =
    subst (IsCounted (λ i. holders i - tally i owned)) (sym (hyper_granules_put_lem owned s))
      (put_each-IsCounted owned holders s h v)
