-- ===== src/Service/Prepare/Pages.antt =====
-- The page table that the extent walk builds, against a description without arrays.
use mathlib.Core.List.{append_assoc, append-nil}
use hype_r_io_vm.Base.{
  ℕ, zero, suc, ◌+◌, ◌-◌, ◌*◌, ◌/◌, ◌%◌, ◌≤◌, ◌<◌, ◌≡◌, ◌∙◌, refl, ap, List, [], ◌∷◌, ◌++◌, set,
  replicate, length, length-append, arith, Option, none, some, true, false, Bool-cases,
  Option-cases, inl, inr,
}
use hype_r_io_vm.Layout.{page_size, u64_max, extent_valid}
use hype_r_io_vm.Service.Calls.{Kernel, Trace, Extent, read_extent}
use hype_r_io_vm.Service.Prepare.{fill_pages, collect}

-- The pages of one extent, in order.
abbrev pub extent_pages : ℕ → ℕ → List ℕ
extent_pages zero alias = []
extent_pages (suc n) alias = alias ∷ extent_pages n (alias + page_size)

-- The pages of a list of extents.
abbrev pub pages_of : List Extent → List ℕ
pages_of [] = []
pages_of (x ∷ xs) = extent_pages (x.length / page_size) x.alias ++ pages_of xs

-- The extents cover the grant from `cursor` to `end` in order, with no gap and no overlap, each
-- in whole aligned pages whose addresses do not wrap.
abbrev pub Tiles : ℕ → List Extent → ℕ → Type 0
Tiles cursor [] end = cursor ≡ end
Tiles cursor (x ∷ xs) end =
    (x.offset ≡ cursor)
    × (0 < x.length)
    × (x.length % page_size ≡ 0)
    × (x.alias % page_size ≡ 0)
    × (x.alias + x.length ≤ u64_max)
    × Tiles (cursor + x.length) xs end

-- The extents are what the kernel answers, in turn, to the reads at `i, i + 1, ...` that follow
-- the calls `t`.
abbrev pub Answers : Kernel → Option ℕ → ℕ → Trace → List Extent → Type 0
Answers k route i t [] = Unit
Answers k route i t (x ∷ xs) =
    (k.extent t (read_extent route i) ≡ some x)
    × Answers k route (i + 1) (read_extent route i ∷ t) xs

-- The calls of a walk over `left` extents, from `i` on.
abbrev pub reads : Option ℕ → ℕ → ℕ → Trace → Trace
reads route zero i t = t
reads route (suc left) i t = reads route left (i + 1) (read_extent route i ∷ t)

pub length-extent_pages : (n alias : ℕ) → length (extent_pages n alias) ≡ n
length-extent_pages zero alias = refl
length-extent_pages (suc n) alias = omega (arith, length-extent_pages n (alias + page_size))

-- A write just past a prefix extends the prefix.
set_after :
    (done : List ℕ) (i x v : ℕ) (rest : List ℕ)
    → length done ≡ i
    → set (done ++ x ∷ rest) i v ≡ (done ++ v ∷ []) ++ rest
set_after [] zero x v rest h = refl
set_after [] (suc i) x v rest h = absurd (omega arith)
set_after (d ∷ done) zero x v rest h = absurd (omega arith)
set_after (d ∷ done) (suc i) x v rest h = ap (◌∷◌ d) (set_after done i x v rest (omega arith))

-- The in-place loop appends the pages of its extent to the part already filled.
pub fill_pages_lem :
    (n free m cursor alias at : ℕ) (done : List ℕ)
    → free ≡ n + m
    → length done * page_size ≡ cursor + at
    → fill_pages n cursor alias at (done ++ replicate free 0)
      ≡ (done ++ extent_pages n (alias + at)) ++ replicate m 0
unfolding fill_pages
fill_pages_lem zero free m cursor alias at done e h =
    let same : free ≡ m = omega arith in rw (same, append-nil done)
fill_pages_lem (suc n) zero m cursor alias at done e h = absurd (omega arith)
fill_pages_lem (suc n) (suc free) m cursor alias at done e h =
    let slot : length done ≡ (cursor + at) / page_size = omega arith in
    let longer : length (done ++ (alias + at) ∷ []) ≡ length done + 1 =
      omega (arith, length-append done ((alias + at) ∷ [])) in
    let written =
      set_after done ((cursor + at) / page_size) 0 (alias + at) (replicate free 0) slot in
    let rest =
      fill_pages_lem n free m cursor alias (at + page_size) (done ++ (alias + at) ∷ [])
        (omega arith) (omega (arith, longer)) in
    let shift : alias + (at + page_size) ≡ alias + at + page_size = omega arith in
    let joined = append_assoc done ((alias + at) ∷ []) (extent_pages n (alias + at + page_size)) in
    rw written (rest ∙ rw shift (ap (λ l. l ++ replicate m 0) joined))

fill_extent :
    (n free m cursor alias : ℕ) (done : List ℕ)
    → free ≡ n + m
    → length done * page_size ≡ cursor
    → fill_pages n cursor alias 0 (done ++ replicate free 0)
      ≡ (done ++ extent_pages n alias) ++ replicate m 0
fill_extent n free m cursor alias done e h =
    let start : alias + 0 ≡ alias = omega arith in
    fill_pages_lem n free m cursor alias 0 done e (omega arith)
    ∙ ap (λ a. (done ++ extent_pages n a) ++ replicate m 0) start

-- What a walk over `left` extents that succeeds has read and built: that many answers, which tile
-- the grant from its start cursor, the table of their pages, and no other entry written.
pub record Walked (k : Kernel) (route : Option ℕ) (left i : ℕ) (t : Trace) (cursor total end : ℕ)
    (done pages : List ℕ) : Type 0 where
  pub extents : List Extent
  pub answers : Answers k route i t extents
  pub counted : length extents ≡ left
  pub tiles : Tiles cursor extents end
  pub within : end ≤ total
  pub rest : ℕ
  pub rest_lem : rest * page_size + end ≡ total
  pub built : pages ≡ (done ++ pages_of extents) ++ replicate rest 0

extent_valid-facts :
    (cursor total alias offset len : ℕ)
    → total ≤ u64_max
    → extent_valid cursor total alias offset len ≡ true
    → (offset ≡ cursor)
      × (0 < len)
      × (len % page_size ≡ 0)
      × (alias % page_size ≡ 0)
      × (alias + len ≤ u64_max)
      × (cursor + len ≤ total)
unfolding extent_valid
extent_valid-facts cursor total alias offset len small h = ground arith

module _ (k : Kernel) (route : Option ℕ) (total : ℕ) where
  collect_more :
      (left i cursor : ℕ) (pages : List ℕ) (t : Trace) (x : Extent)
      → k.extent t (read_extent route i) ≡ some x
      → extent_valid cursor total x.alias x.offset x.length ≡ true
      → collect k route total (suc left) i cursor pages t
        ≡ collect k route total left
            (i + 1)
            (cursor + x.length)
            (fill_pages (x.length / page_size) cursor x.alias 0 pages)
            (read_extent route i ∷ t)
  unfolding collect
  collect_more left i cursor pages t x read valid = rw (read, collect) (rw valid refl)

  collect_stops :
      (left i cursor : ℕ) (pages : List ℕ) (t : Trace)
      → (x : Extent) → k.extent t (read_extent route i) ≡ some x
      → extent_valid cursor total x.alias x.offset x.length ≡ false
      → (collect k route total (suc left) i cursor pages t).0 ≡ none
  unfolding collect
  collect_stops left i cursor pages t x read refused = rw (read, collect) (rw refused refl)

  -- A walk that succeeds has read every extent, and made no other call.
  pub collect-reads :
      (left i cursor : ℕ) (pages : List ℕ) (t : Trace) (x : ℕ × List ℕ)
      → (collect k route total left i cursor pages t).0 ≡ some x
      → (collect k route total left i cursor pages t).1 ≡ reads route left i t
  unfolding collect
  collect-reads zero i cursor pages t y h = refl
  collect-reads (suc left) i cursor pages t y h =
      elim (Option-cases (k.extent t (read_extent route i))) [
        | inl failed ↦ ground arith
        | inr (x, read) ↦ elim (Bool-cases (extent_valid cursor total x.alias x.offset x.length)) [
          | inr refused ↦ cc (collect_stops left i cursor pages t x read refused)
          | inl valid ↦
              let more = collect_more left i cursor pages t x read valid in
              rw more (
                collect-reads left (i + 1) (cursor + x.length)
                  (fill_pages (x.length / page_size) cursor x.alias 0 pages)
                  (read_extent route i ∷ t) y (rw (← more) h))
        ]
      ]

  -- The walk, from any point of it.
  pub collect-Walked :
      (left i cursor free : ℕ) (done : List ℕ) (t : Trace) (end : ℕ) (pages : List ℕ)
      → total ≤ u64_max
      → free * page_size + cursor ≡ total
      → length done * page_size ≡ cursor
      → (collect k route total left i cursor (done ++ replicate free 0) t).0 ≡ some (end, pages)
      → Walked k route left i t cursor total end done pages
  unfolding collect
  collect-Walked zero i cursor free done t end pages small hf hd h = record {
    extents = [];
    answers = tt;
    counted = refl;
    tiles = ground arith;
    within = ground arith;
    rest = free;
    rest_lem = ground arith;
    built = ground (arith, append-nil done);
  }
  collect-Walked (suc left) i cursor free done t end pages small hf hd h =
      elim (Option-cases (k.extent t (read_extent route i))) [
        | inl failed ↦ ground arith
        | inr (x, read) ↦ elim (Bool-cases (extent_valid cursor total x.alias x.offset x.length)) [
          | inr refused ↦
              cc (collect_stops left i cursor (done ++ replicate free 0) t x read refused)
          | inl valid ↦
              let facts = extent_valid-facts cursor total x.alias x.offset x.length small valid in
              let n : ℕ = x.length / page_size in
              let m : ℕ = free - n in
              let filled = fill_extent n free m cursor x.alias done (omega arith) (omega arith) in
              let more = collect_more left i cursor (done ++ replicate free 0) t x read valid in
              let measured : length (done ++ extent_pages n x.alias) ≡ length done + n =
                length-append done (extent_pages n x.alias)
                ∙ ap (λ (l : ℕ). length done + l) (length-extent_pages n x.alias) in
              let tail =
                collect-Walked left (i + 1) (cursor + x.length) m (done ++ extent_pages n x.alias)
                  (read_extent route i ∷ t) end pages small (omega arith) (omega (arith, measured))
                  (rw (← filled) (rw (← more) h)) in
              record {
                extents = x ∷ tail.extents;
                answers = (read, tail.answers);
                counted = omega (arith, tail.counted);
                tiles = ground (arith, tail.tiles);
                within = tail.within;
                rest = tail.rest;
                rest_lem = tail.rest_lem;
                built =
                    tail.built
                    ∙ ap (λ l. l ++ replicate tail.rest 0)
                        (append_assoc done (extent_pages n x.alias) (pages_of tail.extents));
              }
        ]
      ]

-- A walk that reaches the end of a grant of whole pages, below 2 ^ 64, has been answered, for
-- each extent of the grant in turn, one that begins where the one before it ended; together they
-- cover the grant from offset zero, and the page table is the list of their pages in order.
pub collect-Tiles :
    (k : Kernel) (route : Option ℕ) (total extents : ℕ) (t : Trace) (pages : List ℕ)
    → total ≤ u64_max
    → total % page_size ≡ 0
    → (collect k route total extents 0 0 (replicate (total / page_size) 0) t).0
      ≡ some (total, pages)
    → (xs : List Extent) × Answers k route 0 t xs
      × (length xs ≡ extents)
      × Tiles 0 xs total
      × (pages ≡ pages_of xs)
collect-Tiles k route total extents t pages small whole h =
    let walked =
      collect-Walked k route total extents 0 0 (total / page_size) [] t total pages small
        (omega arith) (omega arith) h in
    let full : walked.rest ≡ 0 = omega (arith, walked.rest_lem) in
    (
      walked.extents,
      walked.answers,
      walked.counted,
      walked.tiles,
      walked.built ∙ rw full (append-nil (pages_of walked.extents)),
    )

-- A tiling has a page for every 4 KiB of the grant.
pub length-pages_of :
    (xs : List Extent) (cursor end : ℕ)
    → Tiles cursor xs end
    → cursor + length (pages_of xs) * page_size ≡ end
length-pages_of [] cursor end tiles = omega (arith, tiles)
length-pages_of (x ∷ xs) cursor end tiles = omega (
  arith,
  length-append (extent_pages (x.length / page_size) x.alias) (pages_of xs),
  length-extent_pages (x.length / page_size) x.alias,
  length-pages_of xs (cursor + x.length) end tiles.5,
)
