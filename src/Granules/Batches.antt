-- ===== src/Granules/Batches.antt =====
-- Retiring in batches is the same as putting one granule after another.
use hype_r_io_vm.Base.{
  ℕ, zero, suc, ◌≤◌, ◌≡◌, refl, sym, ap, ◌∙◌, inl, inr, List, [], ◌∷◌, ◌++◌, length, take, drop,
  if◌then◌else◌, arith, Bool-cases,
}
use hype_r_io_vm.Granules.{
  Registry, detach, detach_all, granule_retire, retire_all, put_batch, put_loop, retire_batch,
  hyper_granules_put,
}

-- The reference: one entry at a time, its granule retired at once when it was the last user.
unfoldable pub put_one : ℕ → Registry → Registry
put_one i s =
    let (last, gs) = detach i s.granules in
    if last then granule_retire i (record s { granules = gs }) else record s { granules = gs }

unfoldable pub put_each : List ℕ → Registry → Registry
put_each [] s = s
put_each (i ∷ is) s = put_each is (put_one i s)

put_batch_step :
    (i : ℕ) (is : List ℕ) (s : Registry) → put_batch (i ∷ is) s ≡ put_batch is (put_one i s)
unfolding put_batch detach_all put_one retire_all granule_retire
put_batch_step i is s = elim (Bool-cases (detach i s.granules).0) [
  | inl last ↦ rw last refl
  | inr shared ↦ rw shared refl
]

put_batch_lem : (is : List ℕ) (s : Registry) → put_batch is s ≡ put_each is s
unfolding put_each put_batch detach_all retire_all
put_batch_lem [] s = refl
put_batch_lem (i ∷ is) s = put_batch_step i is s ∙ put_batch_lem is (put_one i s)

put_each-++ : (is js : List ℕ) (s : Registry) → put_each (is ++ js) s ≡ put_each js (put_each is s)
unfolding put_each
put_each-++ [] js s = refl
put_each-++ (i ∷ is) js s = put_each-++ is js (put_one i s)

take-drop : (n : ℕ) (l : List ℕ) → take n l ++ drop n l ≡ l
take-drop zero l = refl
take-drop (suc n) [] = refl
take-drop (suc n) (x ∷ l) = ap (λ t. x ∷ t) (take-drop n l)

length-drop : (n : ℕ) (x : ℕ) (l : List ℕ) → length (drop (suc n) (x ∷ l)) ≤ length l
length-drop zero x l = omega arith
length-drop (suc n) x [] = omega arith
length-drop (suc n) x (y ∷ l) = let rest = length-drop n y l in omega (arith, rest)

put_loop_lem :
    (fuel : ℕ) (owned : List ℕ) (s : Registry)
    → length owned ≤ fuel
    → put_loop fuel owned s ≡ put_each owned s
unfolding put_loop put_each
put_loop_lem zero [] s h = refl
put_loop_lem zero (i ∷ is) s h = absurd (omega (arith, h))
put_loop_lem (suc fuel) [] s h = refl
put_loop_lem (suc fuel) (i ∷ is) s h =
    let now = take retire_batch (i ∷ is) in
    let later = drop retire_batch (i ∷ is) in
    let shorter = length-drop 31 i is in
    put_loop_lem fuel later (put_batch now s) (omega (arith, shorter, h))
    ∙ ap (put_each later) (put_batch_lem now s)
    ∙ sym (put_each-++ now later s)
    ∙ ap (λ l. put_each l s) (take-drop retire_batch (i ∷ is))

-- The batches of `hyper_granules_put` leave the same registry, claims and mappings as putting
-- its entries one after another, however many there are.
pub hyper_granules_put_lem :
    (owned : List ℕ) (s : Registry) → hyper_granules_put owned s ≡ put_each owned s
unfolding hyper_granules_put
hyper_granules_put_lem owned s = put_loop_lem (length owned) owned s (omega arith)
