-- ===== src/GuestMemory/Compact.antt =====
-- The loop that leaves each index once, against a reference that does not write in place.
use hype_r_io_vm.Base.{
  ℕ, zero, suc, ◌+◌, ◌-◌, ◌≤◌, ◌<◌, ◌≡◌, ◌≢◌, ◌⊎◌, inl, inr, refl, sym, ap, ◌∙◌, subst, Bool, true,
  false, ◌||◌, not, List, [], ◌∷◌, ◌++◌, All, Pairs, length, take, get_or, set, length-set,
  get_or-set_self, get_or-set_ne, ◌==◌, if◌then◌else◌, arith, Bool-cases,
}
use hype_r_io_vm.GuestMemory.{compact}

-- Entry `i` of a list differs from the one before it.
abbrev pub is_new : (ℕ → ℕ) → ℕ → Bool
is_new f i = i == 0 || not (f i == f (i - 1))

-- The entries from `i` on that differ from the one before them.
unfoldable pub uniques : (ℕ → ℕ) → ℕ → ℕ → List ℕ
uniques f i zero = []
uniques f i (suc n) = let rest = uniques f (i + 1) n in if is_new f i then f i ∷ rest else rest

take-set :
    (u : ℕ) (v : ℕ) (a : List ℕ) → u < length a → take (suc u) (set a u v) ≡ take u a ++ v ∷ []
take-set u v [] h = absurd (omega (arith, h))
take-set zero v (x ∷ a) h = refl
take-set (suc u) v (x ∷ a) h = ap (λ l. x ∷ l) (take-set u v a (omega (arith, h)))

append_assoc : (a b c : List ℕ) → (a ++ b) ++ c ≡ a ++ (b ++ c)
append_assoc [] b c = refl
append_assoc (x ∷ a) b c = ap (λ l. x ∷ l) (append_assoc a b c)

append_nil : (a : List ℕ) → a ++ [] ≡ a
append_nil [] = refl
append_nil (x ∷ a) = ap (λ l. x ∷ l) (append_nil a)

-- The entries that are still to be read, with the one before them, are as they were.
abbrev Agrees : (ℕ → ℕ) → ℕ → List ℕ → Type 0
Agrees f i a = (k : ℕ) → i ≤ k + 1 → get_or a k 0 ≡ f k

set-Agrees :
    (f : ℕ → ℕ) (i u : ℕ) (a : List ℕ)
    → u ≤ i
    → i < length a
    → Agrees f i a
    → Agrees f (i + 1) (set a u (get_or a i 0))
set-Agrees f i u a low fits h k later = elim (Bool-cases (k == u)) [
  | inl same ↦
      let at : k ≡ u = ground (arith, same) in
      let here : i ≡ u = omega (arith, at, later, low) in
      subst (λ j. get_or (set a j (get_or a i 0)) k 0 ≡ f k) at
        (get_or-set_self a k (get_or a i 0) 0 (omega (arith, at, here, fits))
          ∙ ap (λ j. get_or a j 0) (here ∙ sym at)
          ∙ h k (omega (arith, later)))
  | inr differ ↦
      let apart : u ≢ k = λ e. ground (arith, e, differ) in
      get_or-set_ne a u k (get_or a i 0) 0 apart ∙ h k (omega (arith, later))
]

compact_step :
    (n i u : ℕ) (f : ℕ → ℕ) (a : List ℕ)
    → Agrees f i a
    → compact (suc n) i u a ≡ (
        if is_new f i
        then compact n (i + 1) (u + 1) (set a u (get_or a i 0))
        else compact n (i + 1) u a)
unfolding compact
compact_step n i u f a h =
    let here = h i (omega arith) in
    let before = h (i - 1) (omega arith) in
    let test : (get_or a i 0 == get_or a (i - 1) 0) ≡ (f i == f (i - 1)) =
      ap (λ v. v == get_or a (i - 1) 0) here ∙ ap (λ v. f i == v) before in
    ap
      (λ b.
        if i == 0 || not b
        then compact n (i + 1) (u + 1) (set a u (get_or a i 0))
        else compact n (i + 1) u a)
      test

-- The entries that the loop leaves at the front.
front : ℕ × List ℕ → List ℕ
front (unique, b) = take unique b

front-zero : (i u : ℕ) (a : List ℕ) → front (compact zero i u a) ≡ take u a
unfolding compact front
front-zero i u a = refl

choose {ℓ} :
    {A : Type ℓ} (b c : Bool) (x y : A) → b ≡ c → (if b then x else y) ≡ (if c then x else y)
choose b c x y e = ap (λ t. if t then x else y) e

compact_lem :
    (n i u : ℕ) (f : ℕ → ℕ) (a : List ℕ)
    → u ≤ i
    → i + n ≤ length a
    → Agrees f i a
    → front (compact n i u a) ≡ take u a ++ uniques f i n
unfolding uniques
compact_lem zero i u f a low fits h = front-zero i u a ∙ sym (append_nil (take u a))
compact_lem (suc n) i u f a low fits h =
    let v = get_or a i 0 in
    let step = ap front (compact_step n i u f a h) in
    let fits' : i < length a = omega (arith, fits) in
    let rest = uniques f (i + 1) n in
    elim (Bool-cases (is_new f i)) [
      | inl new ↦
          let ok : i + 1 + n ≤ length (set a u v) =
            let same = length-set a u v in omega (arith, same, fits) in
          let later =
            compact_lem n (i + 1) (u + 1) f (set a u v) (omega (arith, low)) ok
              (set-Agrees f i u a low fits' h) in
          let one : u + 1 ≡ suc u = omega arith in
          let begin =
            ap (λ k. take k (set a u v)) one ∙ take-set u v a (omega (arith, low, fits')) in
          step
          ∙ ap front (choose (is_new f i) true _ _ new)
          ∙ later
          ∙ ap (λ l. l ++ rest) begin
          ∙ append_assoc (take u a) (v ∷ []) rest
          ∙ ap (λ w. take u a ++ w ∷ rest) (h i (omega arith))
          ∙ ap (λ l. take u a ++ l) (choose true (is_new f i) (f i ∷ rest) rest (sym new))
      | inr old ↦
          step
          ∙ ap front (choose (is_new f i) false _ _ old)
          ∙ compact_lem n (i + 1) u f a (omega (arith, low)) (omega (arith, fits))
              (λ k later. h k (omega (arith, later)))
          ∙ ap (λ l. take u a ++ l) (choose false (is_new f i) (f i ∷ rest) rest (sym old))
    ]

-- The loop that writes in place over its own array leaves at the front of the array exactly the
-- entries that differ from the one before them in the array as it was.
pub compact-uniques :
    (a : List ℕ)
    → let (unique, b) = compact (length a) 0 0 a in
      take unique b ≡ uniques (λ k. get_or a k 0) 0 (length a)
unfolding front
compact-uniques a =
    compact_lem (length a) 0 0 (λ k. get_or a k 0) a (omega arith) (omega arith) (λ k later. refl)

All-weaken : (a b : ℕ) (l : List ℕ) → a ≤ b → All (λ c. b < c) l → All (λ c. a < c) l
All-weaken a b [] h all = tt
All-weaken a b (c ∷ l) h (one, all) = (omega (arith, h, one), All-weaken a b l h all)

new_differs : (f : ℕ → ℕ) (i : ℕ) → 0 < i → is_new f i ≡ true → f i ≢ f (i - 1)
new_differs f i p new = ground (arith, p, new)

old_same : (f : ℕ → ℕ) (i : ℕ) → is_new f i ≡ false → (0 < i) × (f i ≡ f (i - 1))
old_same f i old = ground (arith, old)

before_lem : (f : ℕ → ℕ) (i : ℕ) → 0 < i → f (i - 1) ≤ f (i - 1 + 1) → f (i - 1) ≤ f i
before_lem f i p h =
    let same : i - 1 + 1 ≡ i = omega (arith, p) in subst (λ k. f (i - 1) ≤ f k) same h

-- Past its start, the rest lies above the entry before it and rises.
uniques-rises :
    (f : ℕ → ℕ) (i n : ℕ)
    → ((k : ℕ) → i ≤ k + 1 → k + 1 < i + n → f k ≤ f (k + 1))
    → (0 < i → All (λ c. f (i - 1) < c) (uniques f i n)) × Pairs (λ a b. a < b) (uniques f i n)
unfolding uniques
uniques-rises f i zero h = (λ p. tt, tt)
uniques-rises f i (suc n) h =
    let (above, rises) =
      uniques-rises f (i + 1) n (λ k low high. h k (omega (arith, low)) (omega (arith, high))) in
    let same : i + 1 - 1 ≡ i = omega arith in
    let above' : All (λ c. f i < c) (uniques f (i + 1) n) =
      subst (λ j. All (λ c. f j < c) (uniques f (i + 1) n)) same (above (omega arith)) in
    elim (Bool-cases (is_new f i)) [
      | inl new ↦ rw new (
        λ p. (
          let differ = new_differs f i p new in
              let up = before_lem f i p (h (i - 1) (omega arith) (omega (arith, p))) in
              omega (arith, up, differ),
          All-weaken (f (i - 1)) (f i) (uniques f (i + 1) n)
              (before_lem f i p (h (i - 1) (omega arith) (omega (arith, p)))) above',
        ),
        (above', rises),
      )
      | inr old ↦ rw old (
        λ p.
            All-weaken (f (i - 1)) (f i) (uniques f (i + 1) n)
              (before_lem f i p (h (i - 1) (omega arith) (omega (arith, p)))) above',
        rises,
      )
    ]

-- Where a list rises, what differs from the one before it rises strictly.
pub uniques_distinct :
    (f : ℕ → ℕ) (n : ℕ)
    → ((k : ℕ) → k + 1 < n → f k ≤ f (k + 1))
    → Pairs (λ a b. a < b) (uniques f 0 n)
uniques_distinct f n h = (uniques-rises f 0 n (λ k low high. h k (omega (arith, high)))).1

unfoldable pub has : ℕ → List ℕ → Bool
has v [] = false
has v (a ∷ l) = a == v || has v l

has_head : (v a : ℕ) (l : List ℕ) → a ≡ v → has v (a ∷ l) ≡ true
unfolding has
has_head v a l e = ground (arith, e)

has_tail : (v a : ℕ) (l : List ℕ) → has v l ≡ true → has v (a ∷ l) ≡ true
unfolding has
has_tail v a l h = ground (arith, h)

uniques-has_from :
    (f : ℕ → ℕ) (i n k : ℕ)
    → i ≤ k
    → k < i + n
    → (has (f k) (uniques f i n) ≡ true) ⊎ ((0 < i) × (f k ≡ f (i - 1)))
unfolding uniques
uniques-has_from f i zero k low high = absurd (omega (arith, low, high))
uniques-has_from f i (suc n) k low high =
    let rest = uniques f (i + 1) n in
    let same : i + 1 - 1 ≡ i = omega arith in
    let at_or_in : (f k ≡ f i) ⊎ (has (f k) rest ≡ true) = elim (Bool-cases (k == i)) [
      | inl here ↦ inl (let e : k ≡ i = ground (arith, here) in ap f e)
      | inr past ↦
          elim (uniques-has_from f (i + 1) n k (ground (arith, past, low)) (omega (arith, high))) [
            | inl found ↦ inr found
            | inr (_, e) ↦ inl (e ∙ ap f same)
          ]
    ] in
    elim (Bool-cases (is_new f i)) [
      | inl new ↦ rw new (elim at_or_in [
        | inl e ↦ inl (has_head (f k) (f i) rest (sym e))
        | inr found ↦ inl (has_tail (f k) (f i) rest found)
      ])
      | inr old ↦ rw old (elim at_or_in [
        | inl e ↦ inr ((old_same f i old).0, e ∙ (old_same f i old).1)
        | inr found ↦ inl found
      ])
    ]

-- Every entry is one of those.
pub uniques-has : (f : ℕ → ℕ) (n k : ℕ) → k < n → has (f k) (uniques f 0 n) ≡ true
uniques-has f n k h = elim (uniques-has_from f 0 n k (omega arith) (omega (arith, h))) [
  | inl found ↦ found
  | inr (impossible, _) ↦ absurd (omega (arith, impossible))
]
