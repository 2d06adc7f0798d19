-- ===== src/Service/Rings.antt =====
-- The ring validation of `configure_vhost` in service/vhost.c: `queue_address` and the loop
-- over queues and ring parts. Wire fields are the numbers that `le32toh` and `le64toh` give.
pub mod Placement
use hype_r_io_vm.Base.{
  ℕ, suc, ◌+◌, ◌-◌, ◌*◌, ◌%◌, ◌^◌, Bool, true, false, ◌&&◌, ◌||◌, not, Option, none, some, List, [],
  ◌∷◌, ◌++◌, ◌==◌, ltb, leb, nonzero, bit_and, if◌then◌else◌,
}
use hype_r_io_vm.BlockPolicy.{add64}
use hype_r_io_vm.Service.Calls.{Region}

-- `struct hyper_io_queue`
pub record Queue : Type 0 where
  pub size : ℕ
  pub reserved : ℕ
  pub descriptor : ℕ
  pub available : ℕ
  pub used : ℕ

-- The bytes of a ring part in the service's address space: `starts[index]` and `ends[index]`.
pub record Span : Type 0 where
  pub start : ℕ
  pub end : ℕ

-- One of the three parts of a ring, as the guest names it.
pub record Part : Type 0 where
  pub address : ℕ
  pub bytes : ℕ
  pub alignment : ℕ

-- Descriptor table, available ring and used ring.
abbrev pub ring_parts : Queue → List Part
ring_parts q =
    record { address = q.descriptor; bytes = 16 * q.size; alignment = 16 }
    ∷ record { address = q.available; bytes = 6 + 2 * q.size; alignment = 2 }
    ∷ record { address = q.used; bytes = 6 + 8 * q.size; alignment = 4 }
    ∷ []

-- `queue_address`; `gpa - guest_base` and `length - bytes` are reached only where they do not wrap.
unfoldable pub queue_address : ℕ → Region → Part → Option ℕ
queue_address memory region p =
    if ltb p.address region.guest_base
      || nonzero (p.address % p.alignment)
      || ltb region.length p.bytes
      || ltb (region.length - p.bytes) (p.address - region.guest_base)
    then none
    else some (add64 memory (p.address - region.guest_base))

-- The innermost loop, over the spans placed so far.
unfoldable pub overlaps : List Span → Span → Bool
overlaps [] s = false
overlaps (old ∷ olds) s = (ltb s.start old.end && ltb old.start s.end) || overlaps olds s

-- The loop over the parts of a queue; `none` is HYPER_IO_INVALID.
unfoldable pub place_parts : ℕ → Region → List Part → List Span → Option (List Span)
place_parts memory region [] placed = some placed
place_parts memory region (p ∷ ps) placed = elim (queue_address memory region p) [
  | none ↦ none
  | some start ↦
      (let s : Span = record { start = start; end = add64 start p.bytes } in
        let rest = place_parts memory region ps (placed ++ s ∷ []) in
        if overlaps placed s then none else rest)
]

-- A queue slot that the driver leaves unused.
abbrev pub is_absent : ℕ → ℕ → Queue → Bool
is_absent required i q =
    q.size == 0
    && leb required i
    && q.reserved == 0
    && q.descriptor == 0
    && q.available == 0
    && q.used == 0

abbrev pub bad_size : Queue → Bool
bad_size q =
    q.size == 0 || ltb 128 q.size || nonzero (bit_and q.size (q.size - 1)) || nonzero q.reserved

-- `starts` and `ends` are zero where a queue is skipped.
abbrev pub no_span : Span
no_span = record { start = 0; end = 0 }

-- The loop over the queues.
unfoldable pub place_queues : ℕ → Region → ℕ → ℕ → List Queue → List Span → Option (List Span)
place_queues memory region required i [] placed = some placed
place_queues memory region required i (q ∷ qs) placed = elim (is_absent required i q) [
  | true ↦
      place_queues memory region required (i + 1) qs (placed ++ no_span ∷ no_span ∷ no_span ∷ [])
  | false ↦ elim (bad_size q) [
    | true ↦ none
    | false ↦ elim (place_parts memory region (ring_parts q) placed) [
      | none ↦ none
      | some placed' ↦ place_queues memory region required (i + 1) qs placed'
    ]
  ]
]
