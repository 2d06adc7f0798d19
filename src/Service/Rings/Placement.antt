-- ===== src/Service/Rings/Placement.antt =====
-- Accepted rings lie in the mapped grant, aligned as virtio asks, and no two share a byte.
use mathlib.Core.List.{append_assoc}
use hype_r_io_vm.Base.{
  ℕ, ◌+◌, ◌-◌, ◌*◌, ◌%◌, ◌^◌, ◌≤◌, ◌<◌, ◌≡◌, ◌⊎◌, inl, inr, refl, sym, subst, ◌∙◌, if◌then◌else◌,
  true, false, none, some, List, [], ◌∷◌, ◌++◌, All, All-append, Pairs, Pairs-snoc, arith, length,
  length-append, Bool-cases, Option-cases,
}
use hype_r_io_vm.BlockPolicy.{add64}
use hype_r_io_vm.Service.Calls.{Region}
use hype_r_io_vm.Service.Rings.{
  Queue, Span, Part, ring_parts, queue_address, overlaps, place_parts, place_queues, is_absent,
  bad_size, no_span,
}

-- No byte is in both.
abbrev pub Clear : Span → Span → Type 0
Clear a b = (a.end ≤ b.start) ⊎ (b.end ≤ a.start)

-- The span of a skipped slot, or one inside the mapping.
abbrev pub Inside : ℕ → Region → Span → Type 0
Inside memory region s =
    ((s.start ≡ 0) × (s.end ≡ 0))
    ⊎ ((memory ≤ s.start) × (s.start ≤ s.end) × (s.end ≤ memory + region.length))

abbrev pub Placed : ℕ → Region → List Span → Type 0
Placed memory region spans = All (Inside memory region) spans × Pairs Clear spans

overlaps-Clear : (olds : List Span) (s : Span) → overlaps olds s ≡ false → All (λ o. Clear o s) olds
unfolding overlaps
overlaps-Clear [] s h = tt
overlaps-Clear (old ∷ olds) s h = (ground arith, overlaps-Clear olds s (ground arith))

module _ (memory : ℕ) (region : Region) (fits : memory + region.length < 2 ^ 64) where
  -- An accepted part keeps its offset in the grant.
  queue_address-Inside :
      (p : Part) (start : ℕ)
      → queue_address memory region p ≡ some start
      → (start ≡ memory + (p.address - region.guest_base))
        × (region.guest_base ≤ p.address)
        × (start + p.bytes ≤ memory + region.length)
        × (p.address % p.alignment ≡ 0)
  unfolding queue_address
  queue_address-Inside p start h = ground arith

  abbrev span_of : ℕ → Part → Span
  span_of start p = record { start = start; end = add64 start p.bytes }

  place_parts_step :
      (p : Part) (ps : List Part) (placed : List Span) (start : ℕ)
      → queue_address memory region p ≡ some start
      → place_parts memory region (p ∷ ps) placed ≡ (
          if overlaps placed (span_of start p)
          then none
          else place_parts memory region ps (placed ++ span_of start p ∷ []))
  unfolding place_parts
  place_parts_step p ps placed start e = rw (e, place_parts)

  span-Inside :
      (p : Part) (start : ℕ)
      → queue_address memory region p ≡ some start
      → Inside memory region (span_of start p)
  span-Inside p start e = ground (arith, queue_address-Inside p start e)

  -- What a loop that placed `count` more spans has kept and gained.
  abbrev Grows : List Span → ℕ → List Span → Type 0
  Grows placed count spans = Placed memory region spans × (length spans ≡ length placed + count)

  Grows-same :
      (placed spans : List Span)
      → Placed memory region placed
      → placed ≡ spans
      → Grows placed 0 spans
  Grows-same placed spans v e = subst (Grows placed 0) e (v, omega arith)

  place_parts-Grows :
      (ps : List Part) (placed spans : List Span)
      → Placed memory region placed
      → place_parts memory region ps placed ≡ some spans
      → Grows placed (length ps) spans
  unfolding place_parts
  place_parts-Grows [] placed spans v h = Grows-same placed spans v (cc)
  place_parts-Grows (p ∷ ps) placed spans v h =
      elim (Option-cases (queue_address memory region p)) [
        | inl e ↦ ground arith
        | inr (start, e) ↦
            let s : Span = span_of start p in
            let step = sym (place_parts_step p ps placed start e) ∙ h in
            elim (Bool-cases (overlaps placed s)) [
              | inl clash ↦ ground arith
              | inr clear ↦
                  let v' : Placed memory region (placed ++ s ∷ []) = (
                    All-append (Inside memory region) placed (s ∷ []) v.0
                        (span-Inside p start e, tt),
                    Pairs-snoc Clear placed s v.1 (overlaps-Clear placed s clear),
                  ) in
                  let grown = place_parts-Grows ps (placed ++ s ∷ []) spans v' (rw clear at step) in
                  (grown.0, omega (arith, grown.1, length-append placed (s ∷ [])))
            ]
      ]

  add-Placed :
      (placed : List Span) (s : Span)
      → Placed memory region placed
      → Inside memory region s
      → All (λ o. Clear o s) placed
      → Placed memory region (placed ++ s ∷ [])
  add-Placed placed s v inside clear = (
    All-append (Inside memory region) placed (s ∷ []) v.0 (inside, tt),
    Pairs-snoc Clear placed s v.1 clear,
  )

  -- A skipped slot takes no byte.
  skip-Clear : (placed : List Span) → All (λ o. Clear o no_span) placed
  skip-Clear [] = tt
  skip-Clear (o ∷ os) = (inr (omega arith), skip-Clear os)

  skip_one :
      (placed : List Span)
      → Placed memory region placed
      → Placed memory region (placed ++ no_span ∷ [])
  skip_one placed v = add-Placed placed no_span v (inl (refl, refl)) (skip-Clear placed)

  skip-Placed :
      (placed : List Span)
      → Placed memory region placed
      → Placed memory region (placed ++ no_span ∷ no_span ∷ no_span ∷ [])
  skip-Placed placed v =
      let second = append_assoc placed (no_span ∷ []) (no_span ∷ []) in
      let third = append_assoc placed (no_span ∷ no_span ∷ []) (no_span ∷ []) in
      subst (Placed memory region) third
        (skip_one _ (subst (Placed memory region) second (skip_one _ (skip_one placed v))))

  module _ (required i : ℕ) (q : Queue) (qs : List Queue) (placed : List Span) where
    absent_step :
        is_absent required i q ≡ true
        → place_queues memory region required i (q ∷ qs) placed
          ≡ place_queues memory region required
              (i + 1)
              qs
              (placed ++ no_span ∷ no_span ∷ no_span ∷ [])
    unfolding place_queues
    absent_step a = rw (a, place_queues)

    bad_step :
        is_absent required i q ≡ false
        → bad_size q ≡ true
        → place_queues memory region required i (q ∷ qs) placed ≡ none
    unfolding place_queues
    bad_step a b = rw (a, place_queues) (rw b refl)

    clash_step :
        is_absent required i q ≡ false
        → bad_size q ≡ false
        → place_parts memory region (ring_parts q) placed ≡ none
        → place_queues memory region required i (q ∷ qs) placed ≡ none
    unfolding place_queues
    clash_step a b p = rw (a, place_queues) (rw b (rw p refl))

    placed_step :
        (placed' : List Span)
        → is_absent required i q ≡ false
        → bad_size q ≡ false
        → place_parts memory region (ring_parts q) placed ≡ some placed'
        → place_queues memory region required i (q ∷ qs) placed
          ≡ place_queues memory region required (i + 1) qs placed'
    unfolding place_queues
    placed_step placed' a b p = rw (a, place_queues) (rw b (rw p refl))

  place_queues-Grows :
      (required i : ℕ) (qs : List Queue) (placed spans : List Span)
      → Placed memory region placed
      → place_queues memory region required i qs placed ≡ some spans
      → Grows placed (3 * length qs) spans
  unfolding place_queues
  place_queues-Grows required i [] placed spans v h = Grows-same placed spans v (cc)
  place_queues-Grows required i (q ∷ qs) placed spans v h =
      elim (Bool-cases (is_absent required i q)) [
        | inl a ↦
            let rest =
              place_queues-Grows required (i + 1) qs (placed ++ no_span ∷ no_span ∷ no_span ∷ [])
                spans (skip-Placed placed v) (sym (absent_step required i q qs placed a) ∙ h) in
            (rest.0, omega (arith, rest.1, length-append placed (no_span ∷ no_span ∷ no_span ∷ [])))
        | inr a ↦ elim (Bool-cases (bad_size q)) [
          | inl b ↦ cc (bad_step required i q qs placed a b)
          | inr b ↦ elim (Option-cases (place_parts memory region (ring_parts q) placed)) [
            | inl p ↦ cc (clash_step required i q qs placed a b p)
            | inr (placed', p) ↦
                let grown = place_parts-Grows (ring_parts q) placed placed' v p in
                let rest =
                  place_queues-Grows required (i + 1) qs placed' spans grown.0
                    (sym (placed_step required i q qs placed placed' a b p) ∙ h) in
                (rest.0, omega (arith, rest.1, grown.1))
          ]
        ]
      ]

  -- Where the mapping ends below 2 ^ 64 and the queues are accepted, they give three spans each:
  -- every span is that of an absent queue or lies inside the mapping, and no two share a byte.
  pub place_queues-Placed :
      (required : ℕ) (qs : List Queue) (spans : List Span)
      → place_queues memory region required 0 qs [] ≡ some spans
      → All (Inside memory region) spans × Pairs Clear spans × (length spans ≡ 3 * length qs)
  place_queues-Placed required qs spans h =
      let grown = place_queues-Grows required 0 qs [] spans (tt, tt) h in
      (grown.0.0, grown.0.1, omega (arith, grown.1))
