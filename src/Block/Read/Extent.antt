-- ===== src/Block/Read/Extent.antt =====
-- Where the bytes of a metadata read go.
use hype_r_io_vm.Base.{
  ℕ, zero, suc, ◌+◌, ◌-◌, ◌≤◌, ◌<◌, ◌≡◌, ◌≢◌, ◌⊎◌, inl, inr, refl, sym, subst, true, false, Option,
  none, some, List, [], ◌∷◌, ltb, arith, Bool-cases, Option-cases,
}
use hype_r_io_vm.BlockPolicy.{read_valid}
use hype_r_io_vm.Service.State.{Status, ok, backend_failure}
use hype_r_io_vm.Wire.{ReadRequest}
use hype_r_io_vm.Block.{PhysicalDisk, BlockOwner, Media}
use hype_r_io_vm.Block.Read.{Reader, Fill, read_loop, block_read, Bounded}

-- The fills lie end to end from `first` to `last`.
abbrev pub Covers : ℕ → List Fill → ℕ → Type 0
Covers first [] last = first ≡ last
Covers first (f ∷ fs) last = (f.offset ≡ first) × Covers (first + f.count) fs last

-- What a read of `q` that began at byte `done` leaves: fills from there on, without a gap, none of
-- them past the end of the request, and all of it where the read succeeds.
abbrev pub Fills : ReadRequest → ℕ → Status × List Fill → Type 0
Fills q done (status, fills) =
    (last : ℕ) × Covers (q.memory_offset + done) fills last
    × (last ≤ q.memory_offset + q.length)
    × ((status ≢ ok) ⊎ (last ≡ q.memory_offset + q.length))

module _ (reader : Reader) (bounded : Bounded reader) (d : PhysicalDisk) (q : ReadRequest) where
  stopped : (done : ℕ) → done ≤ q.length → Fills q done (backend_failure, [])
  stopped done h = (q.memory_offset + done, refl, omega (arith, h), inl (λ e. ground (arith, e)))

  -- What `pread` gave for byte `done` and after.
  abbrev gives : ℕ → Option ℕ
  gives done = reader d.fd (q.length - done) (q.offset + done)

  read_loop_done :
      (fuel done : ℕ) → ltb done q.length ≡ false → read_loop (suc fuel) reader d q done ≡ (ok, [])
  unfolding read_loop
  read_loop_done fuel done e = rw (e, read_loop) refl

  read_loop_failed :
      (fuel done : ℕ)
      → ltb done q.length ≡ true
      → (gives done ≡ none) ⊎ (gives done ≡ some 0)
      → read_loop (suc fuel) reader d q done ≡ (backend_failure, [])
  unfolding read_loop
  read_loop_failed fuel done e (inl f) = rw (e, read_loop) (rw f refl)
  read_loop_failed fuel done e (inr f) = rw (e, read_loop) (rw f refl)

  read_loop_more :
      (fuel done n : ℕ)
      → ltb done q.length ≡ true
      → gives done ≡ some (suc n)
      → let (s, fills) = read_loop fuel reader d q (done + suc n) in
        read_loop (suc fuel) reader d q done
        ≡ (s, record { offset = q.memory_offset + done; count = suc n } ∷ fills)
  unfolding read_loop
  read_loop_more fuel done n e f = rw (e, read_loop) (rw f refl)

  received-Fills :
      (fuel done n : ℕ)
      → ltb done q.length ≡ true
      → reader d.fd (q.length - done) (q.offset + done) ≡ some n
      → done + n ≤ q.length
      → (0 < n → Fills q (done + n) (read_loop fuel reader d q (done + n)))
      → Fills q done (read_loop (suc fuel) reader d q done)
  received-Fills fuel done zero more e fits rest =
      subst (Fills q done) (sym (read_loop_failed fuel done more (inr e)))
        (stopped done (omega (arith, fits)))
  received-Fills fuel done (suc n) more e fits rest =
      let (last, covers, below, all) = rest (omega arith) in
      let fills = (read_loop fuel reader d q (done + suc n)).1 in
      let onward : q.memory_offset + (done + suc n) ≡ q.memory_offset + done + suc n =
        omega arith in
      subst (Fills q done) (sym (read_loop_more fuel done n more e))
        (last, (refl, subst (λ a. Covers a fills last) onward covers), below, all)

  pub read_loop-Fills :
      (fuel done : ℕ)
      → done ≤ q.length
      → q.length ≤ fuel + done
      → Fills q done (read_loop fuel reader d q done)
  unfolding read_loop
  read_loop-Fills zero done h enough =
      (q.memory_offset + done, refl, omega (arith, h), inr (omega (arith, h, enough)))
  read_loop-Fills (suc fuel) done h enough = elim (Bool-cases (ltb done q.length)) [
    | inr rest ↦
        subst (Fills q done) (sym (read_loop_done fuel done rest))
          (q.memory_offset + done, refl, omega (arith, h), inr (ground (arith, h, rest)))
    | inl more ↦ elim (Option-cases (reader d.fd (q.length - done) (q.offset + done))) [
      | inl e ↦
          subst (Fills q done) (sym (read_loop_failed fuel done more (inl e))) (stopped done h)
      | inr (n, e) ↦
          let fits : done + n ≤ q.length =
            omega (arith, h, bounded d.fd (q.length - done) (q.offset + done) n e) in
          received-Fills fuel done n more e fits
            (λ some_read. read_loop-Fills fuel (done + n) fits (omega (arith, enough, some_read)))
    ]
  ]

-- What BLOCK_READ writes: fills end to end from `memory_offset`, none outside the request or the
-- mapped memory, and the whole request where the read succeeds.
abbrev pub Reads : ReadRequest → Option ℕ → Status × List Fill → Type 0
Reads q memory r =
    Fills q 0 r
    × ((r.1 ≡ []) ⊎ ((bytes : ℕ) × (memory ≡ some bytes) × (q.memory_offset + q.length ≤ bytes)))

module _ (reader : Reader) (bounded : Bounded reader) (media : Media) (q : ReadRequest)
    (o : BlockOwner) where
  -- Shut, so that the search sees one fact and not its parts.
  Outcome : Option ℕ → Status × List Fill → Type 0
  Outcome memory r = Reads q memory r

  refuses : (memory : Option ℕ) (status : Status) → status ≢ ok → Outcome memory (status, [])
  unfolding Outcome
  refuses memory status h = ((q.memory_offset, omega arith, omega arith, inl h), inl refl)

  reads :
      (bytes : ℕ) (d : PhysicalDisk)
      → read_valid d.bytes d.logical q.offset q.length bytes q.memory_offset ≡ true
      → Outcome (some bytes) (read_loop q.length reader d q 0)
  unfolding Outcome read_valid
  reads bytes d h = (
    read_loop-Fills reader bounded d q q.length 0 (omega arith) (omega arith),
    inr (bytes, refl, ground (arith, h)),
  )

  block_read-Outcome : (memory : Option ℕ) → Outcome memory (block_read reader media q memory o)
  unfolding block_read
  block_read-Outcome memory = grind (arith, refuses, reads)

  -- Where `pread` gives no more than it is asked for, a metadata read fills the memory end to
  -- end from `memory_offset`, never past the request nor, where it fills anything, past the
  -- mapped memory; a read that succeeds has filled the whole request.
  pub block_read-Reads : (memory : Option ℕ) → Reads q memory (block_read reader media q memory o)
  unfolding Outcome
  block_read-Reads memory = block_read-Outcome memory
