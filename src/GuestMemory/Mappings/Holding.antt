-- ===== src/GuestMemory/Mappings/Holding.antt =====
-- What a device holds, before and after a preparation.
use hype_r_io_vm.Base.{
  ℕ, zero, suc, ◌+◌, ◌/◌, ◌^◌, ◌<◌, ◌≡◌, ◌≢◌, refl, sym, ap, ◌∙◌, subst, true, some, List, [], ◌∷◌,
  map, All, Pairs, length, get_or, ◌==◌, arith, inl, inr, Bool-cases,
}
use hype_r_io_vm.Layout.{page_size, granule_size}
use hype_r_io_vm.Granules
use hype_r_io_vm.Granules.{
  Registry, Acquired, acquired, out_of_memory, region_busy, not_mapped, not_stored, users_of,
  hyper_granule_get,
}
use hype_r_io_vm.Granules.Counted.{tally, one_more, IsCounted, IsCounted-ext, Got, get-Got}
use hype_r_io_vm.GuestMemory.{
  Memory, Host, Request, Answers, tabulate, go_on, acquire_all, unique_indices, pfn_at,
}
use hype_r_io_vm.GuestMemory.Compact.{has, uniques, uniques-has}
use hype_r_io_vm.GuestMemory.Prepare.{
  Sorts, words, granted, published, sorted_of, length-map, unique_indices_lem,
}

-- The frames of one granule have its index once the low 9 bits are gone.
abbrev pub frames_per_granule : ℕ
frames_per_granule = 512

length-tabulate : (f : ℕ → ℕ) (i n : ℕ) → length (tabulate f i n) ≡ n
unfolding tabulate
length-tabulate f i zero = refl
length-tabulate f i (suc n) = ap suc (length-tabulate f (i + 1) n)

get_or-tabulate : (f : ℕ → ℕ) (i n k : ℕ) → k < n → get_or (tabulate f i n) k 0 ≡ f (i + k)
unfolding tabulate
get_or-tabulate f i zero k h = absurd (omega (arith, h))
get_or-tabulate f i (suc n) zero h = ap f (omega arith)
get_or-tabulate f i (suc n) (suc k) h =
    let same : i + 1 + k ≡ i + suc k = omega arith in
    get_or-tabulate f (i + 1) n k (omega (arith, h)) ∙ ap f same

get_or-map :
    (g : ℕ → ℕ) (l : List ℕ) (k : ℕ) → k < length l → get_or (map g l) k 0 ≡ g (get_or l k 0)
get_or-map g [] k h = absurd (omega (arith, h))
get_or-map g (a ∷ l) zero h = refl
get_or-map g (a ∷ l) (suc k) h = get_or-map g l k (omega (arith, h))

has-get_or : (l : List ℕ) (k : ℕ) → k < length l → has (get_or l k 0) l ≡ true
unfolding has
has-get_or [] k h = absurd (omega (arith, h))
has-get_or (a ∷ l) zero h = ground arith
has-get_or (a ∷ l) (suc k) h = let rest = has-get_or l k (omega (arith, h)) in ground (arith, rest)

-- An entry of a list stands somewhere in it.
has_at : (v : ℕ) (l : List ℕ) → has v l ≡ true → (k : ℕ) × (k < length l) × (get_or l k 0 ≡ v)
unfolding has
has_at v [] h = absurd (ground (arith, h))
has_at v (a ∷ l) h = elim (Bool-cases (a == v)) [
  | inl here ↦ (0, omega arith, ground (arith, here))
  | inr there ↦
      let (k, fits, same) = has_at v l (ground (arith, h, there)) in
      (suc k, omega (arith, fits), same)
]

-- Every word's granule is among those that are acquired.
unique_indices-has :
    (x : Answers) (sorts : Sorts x.sort) (aliases : List ℕ) (k : ℕ)
    → k < length aliases
    → has (get_or aliases k 0 / granule_size) (unique_indices x aliases) ≡ true
unfolding sorted_of
unique_indices-has x sorts aliases k h =
    let g = λ (a : ℕ). a / granule_size in
    let sorted = sorted_of x aliases in
    let here = ap (λ v. has v (map g aliases)) (get_or-map g aliases k h) in
    let fits : k < length (map g aliases) =
      let size = length-map g aliases in omega (arith, h, size) in
    let inside =
      sorts.same (map g aliases) (g (get_or aliases k 0))
        (sym here ∙ has-get_or (map g aliases) k fits) in
    let (at, low, same) = has_at (g (get_or aliases k 0)) sorted inside in
    let found = uniques-has (λ j. get_or sorted j 0) (length sorted) at low in
    ap (has (g (get_or aliases k 0))) (unique_indices_lem x sorts aliases)
    ∙ subst (λ v. has v (uniques (λ j. get_or sorted j 0) 0 (length sorted)) ≡ true) same found

acquire_all_whole :
    (x : ℕ → Granules.Answers) (is : List ℕ) (s : Registry)
    → (acquire_all x is s).0 ≡ acquired
    → (acquire_all x is s).1 ≡ is
unfolding acquire_all
acquire_all_whole x [] s h = refl
acquire_all_whole x (i ∷ is) s h =
    whole (hyper_granule_get (x i) i s).0 (hyper_granule_get (x i) i s).1
      (acquire_all x is (hyper_granule_get (x i) i s).1)
      (acquire_all_whole x is (hyper_granule_get (x i) i s).1) h
  where
    whole :
        (e : Acquired) (t : Registry) (rest : Acquired × List ℕ × Registry)
        → (rest.0 ≡ acquired → rest.1 ≡ is)
        → (go_on e i t rest).0 ≡ acquired
        → (go_on e i t rest).1 ≡ i ∷ is
    whole acquired t rest same h = ap (λ l. i ∷ l) (same h)
    whole out_of_memory t rest same h = absurd (cc)
    whole region_busy t rest same h = absurd (cc)
    whole not_mapped t rest same h = absurd (cc)
    whole not_stored t rest same h = absurd (cc)

go_on-IsCounted :
    (holders : ℕ → ℕ) (s : Registry) (v : IsCounted holders s) (e : Acquired) (i : ℕ) (t : Registry)
    (rest : Acquired × List ℕ × Registry)
    → Got holders s v i (e, t)
    → (IsCounted (one_more i holders) t
        → IsCounted (λ j. one_more i holders j + tally j rest.1) rest.2)
    → IsCounted (λ j. holders j + tally j (go_on e i t rest).1) (go_on e i t rest).2
unfolding Got
go_on-IsCounted holders s v acquired i t rest got next =
    IsCounted-ext (λ j. one_more i holders j + tally j rest.1)
      (λ j. holders j + tally j (i ∷ rest.1)) rest.2 (λ j. ground arith) (next got)
go_on-IsCounted holders s v out_of_memory i t rest got next =
    IsCounted-ext holders (λ j. holders j + 0) t (λ j. omega arith) got
go_on-IsCounted holders s v region_busy i t rest got next =
    IsCounted-ext holders (λ j. holders j + 0) t (λ j. omega arith) got
go_on-IsCounted holders s v not_mapped i t rest got next =
    IsCounted-ext holders (λ j. holders j + 0) t (λ j. omega arith) got
go_on-IsCounted holders s v not_stored i t rest got next =
    IsCounted-ext holders (λ j. holders j + 0) t (λ j. omega arith) got

room_kept :
    (holders : ℕ → ℕ) (i : ℕ) (is : List ℕ)
    → All (λ j. i ≢ j) is
    → All (λ j. holders j + 1 < 2 ^ 32) is
    → All (λ j. one_more i holders j + 1 < 2 ^ 32) is
room_kept holders i [] apart room = tt
room_kept holders i (j ∷ js) (h, hs) (r, rs) = (ground (arith, h, r), room_kept holders i js hs rs)

pub acquire_all-IsCounted :
    (x : ℕ → Granules.Answers) (is : List ℕ) (holders : ℕ → ℕ) (s : Registry)
    → Pairs (λ i j. i ≢ j) is
    → All (λ i. holders i + 1 < 2 ^ 32) is
    → IsCounted holders s
    → IsCounted (λ j. holders j + tally j (acquire_all x is s).1) (acquire_all x is s).2
unfolding acquire_all
acquire_all-IsCounted x [] holders s apart room v =
    IsCounted-ext holders (λ j. holders j + 0) s (λ j. omega arith) v
acquire_all-IsCounted x (i ∷ is) holders s (h, hs) (r, rs) v =
    let (e, t) = hyper_granule_get (x i) i s in
    go_on-IsCounted holders s v e i t (acquire_all x is t) (get-Got holders s v (x i) i r)
      (acquire_all-IsCounted x is (one_more i holders) t hs (room_kept holders i is h rs))

granule_of : (a : ℕ) → a / page_size / frames_per_granule ≡ a / granule_size
granule_of a = omega arith

-- Each frame of the device lies in a granule that the device holds.
abbrev pub IsCovered : Memory → Type 0
IsCovered m = (k : ℕ) → k < m.pages → has (pfn_at m k / frames_per_granule) m.granules ≡ true

-- A device that has the frames of the words and their granules is covered.
pub frames-IsCovered :
    (x : Answers) (sorts : Sorts x.sort) (p : Request) (m : Memory)
    → m.dynamic ≡ true
    → IsCovered (record m {
      pfns = some (map (λ a. a / page_size) (words x p));
      granules = unique_indices x (words x p);
      pages = p.count;
      guest_base = p.guest_base;
    })
unfolding pfn_at
frames-IsCovered x sorts p m on k fits =
    let l = words x p in
    let size = length-tabulate x.word 0 p.count in
    let inside : k < length l = omega (arith, fits, size) in
    let frame = get_or-map (λ a. a / page_size) l k inside in
    rw on (
      ap (λ f. has (f / frames_per_granule) (unique_indices x l)) frame
      ∙ ap (λ i. has i (unique_indices x l)) (granule_of (get_or l k 0))
      ∙ unique_indices-has x sorts l k inside)

pub published-IsCovered :
    (x : Answers) (sorts : Sorts x.sort) (p : Request) (h : Host)
    → h.memory.dynamic ≡ true
    → (granted x p h).0 ≡ acquired
    → IsCovered (published x p h).memory
published-IsCovered x sorts p h on fine =
    let mine = acquire_all_whole x.granule (unique_indices x (words x p)) h.registry fine in
    subst
      (λ gs. IsCovered (record h.memory {
        pfns = some (map (λ a. a / page_size) (words x p));
        granules = gs;
        pages = p.count;
        guest_base = p.guest_base;
      }))
      (sym mine) (frames-IsCovered x sorts p h.memory on)
