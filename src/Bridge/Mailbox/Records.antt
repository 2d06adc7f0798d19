-- ===== src/Bridge/Mailbox/Records.antt =====
-- What a wait, a read and a write of the mailbox guarantee.
use hype_r_io_vm.Base.{
  ℕ, zero, suc, ◌+◌, ◌*◌, ◌≤◌, ◌<◌, ◌≡◌, ◌≢◌, inl, inr, refl, sym, ◌∙◌, subst, Bool, true, false,
  ◌||◌, List, [], ◌∷◌, ◌==◌, nonzero, bit_and, if◌then◌else◌, arith, Bool-cases,
}
use hype_r_io_vm.Bridge.Eventfds.{mailbox_closed}
use hype_r_io_vm.Bridge.State.{write, read, take, drop, drain, signal, Acts, Route}
use hype_r_io_vm.Bridge.Mailbox.{
  Wait, ready, no_device, closed_pipe, interrupted, asleep, Turn, wait_status, mb_mask, mb_status,
  rx_ready, tx_space, mailbox_error, mb_rx_seq, mb_rx_len, mb_rx_data, mb_rx_consume, mb_tx_data,
  mb_tx_commit, Moved, moved, io_error, Meeting, words_of, read_words, write_words, record_bytes,
  take_record, after_wait, control_read, commit_record, control_write,
}

-- A round after which the loop does not go on.
abbrev pub settles : Turn → ℕ → Bool
settles x wanted =
    x.dead
    || nonzero (bit_and x.status mailbox_closed)
    || nonzero (bit_and x.status wanted)
    || x.signalled

wait_status_step :
    (fuel : ℕ) (turns : ℕ → Turn) (wanted n : ℕ) (t : Acts)
    → settles (turns n) wanted ≡ false
    → wait_status (suc fuel) turns wanted n t
      ≡ wait_status fuel turns wanted
          (n + 1)
          (write mb_mask 0 ∷ write mb_mask (wanted + mailbox_closed) ∷ read mb_status ∷ t)
unfolding wait_status
wait_status_step fuel turns wanted n t h = ground (arith, h)

wait_status-settles :
    (fuel : ℕ) (turns : ℕ → Turn) (wanted n : ℕ) (t : Acts)
    → settles (turns n) wanted ≡ true
    → (wait_status (suc fuel) turns wanted n t).0 ≢ asleep
unfolding wait_status
wait_status-settles fuel turns wanted n t h e = ground (arith, h, e)

-- A wait that is given more rounds than come before one that finds the bridge dead, the mailbox
-- closed, what is wanted, or a signal, has ended within them.
pub wait_status_ends :
    (more fuel : ℕ) (turns : ℕ → Turn) (wanted n : ℕ) (t : Acts)
    → more < fuel
    → settles (turns (n + more)) wanted ≡ true
    → (wait_status fuel turns wanted n t).0 ≢ asleep
wait_status_ends more zero turns wanted n t h s = absurd (omega (arith, h))
wait_status_ends zero (suc fuel) turns wanted n t h s =
    let same : n + 0 ≡ n = omega arith in
    wait_status-settles fuel turns wanted n t (subst (λ k. settles (turns k) wanted ≡ true) same s)
wait_status_ends (suc more) (suc fuel) turns wanted n t h s =
    elim (Bool-cases (settles (turns n) wanted)) [
      | inl now ↦ wait_status-settles fuel turns wanted n t now
      | inr later ↦
          let same : n + suc more ≡ n + 1 + more = omega arith in
          let s' = subst (λ k. settles (turns k) wanted ≡ true) same s in
          let t' = write mb_mask 0 ∷ write mb_mask (wanted + mailbox_closed) ∷ read mb_status ∷ t in
          let rest = wait_status_ends more fuel turns wanted (n + 1) t' (omega (arith, h)) s' in
          subst (λ k. k.0 ≢ asleep) (sym (wait_status_step fuel turns wanted n t later)) rest
    ]

-- The sequences that a trace consumed, newest first, and the mask as it was last written.
abbrev pub consumed : Acts → List ℕ
consumed [] = []
consumed (write a v ∷ t) = if a == mb_rx_consume then v ∷ consumed t else consumed t
consumed (read a ∷ t) = consumed t
consumed (take r ∷ t) = consumed t
consumed (drop r ∷ t) = consumed t
consumed (drain h ∷ t) = consumed t
consumed (signal h ∷ t) = consumed t

abbrev pub mask_of : Acts → ℕ
mask_of [] = 0
mask_of (write a v ∷ t) = if a == mb_mask then v else mask_of t
mask_of (read a ∷ t) = mask_of t
mask_of (take r ∷ t) = mask_of t
mask_of (drop r ∷ t) = mask_of t
mask_of (drain h ∷ t) = mask_of t
mask_of (signal h ∷ t) = mask_of t

-- The commits of a trace.
abbrev pub committed : Acts → ℕ
committed [] = 0
committed (write a v ∷ t) = if a == mb_tx_commit then 1 + committed t else committed t
committed (read a ∷ t) = committed t
committed (take r ∷ t) = committed t
committed (drop r ∷ t) = committed t
committed (drain h ∷ t) = committed t
committed (signal h ∷ t) = committed t

-- Two traces agree on what was consumed and committed, and both leave the mask down.
abbrev pub Same : Acts → Acts → Type 0
Same t s = (consumed t ≡ consumed s) × (committed t ≡ committed s) × (mask_of t ≡ 0)

wait_status-Same :
    (fuel : ℕ) (turns : ℕ → Turn) (wanted n : ℕ) (t : Acts)
    → mask_of t ≡ 0
    → Same (wait_status fuel turns wanted n t).1 t
unfolding wait_status
wait_status-Same zero turns wanted n t h = (refl, refl, h)
wait_status-Same (suc fuel) turns wanted n t h =
    let t' = write mb_mask 0 ∷ write mb_mask (wanted + mailbox_closed) ∷ read mb_status ∷ t in
    let rest = wait_status-Same fuel turns wanted (n + 1) t' refl in ground (arith, rest, h)

read_words-Same : (n i : ℕ) (t : Acts) → mask_of t ≡ 0 → Same (read_words n i t) t
unfolding read_words
read_words-Same zero i t h = (refl, refl, h)
read_words-Same (suc n) i t h = read_words-Same n (i + 1) (read (mb_rx_data + i * 4) ∷ t) h

write_words-Same :
    (word : ℕ → ℕ) (n i : ℕ) (t : Acts) → mask_of t ≡ 0 → Same (write_words word n i t) t
unfolding write_words
write_words-Same word zero i t h = (refl, refl, h)
write_words-Same word (suc n) i t h =
    let next = write (mb_tx_data + i * 4) (word i) ∷ t in
    let one : Same next t = ground (arith, h) in
    let rest = write_words-Same word n (i + 1) next one.2 in
    (rest.0 ∙ one.0, rest.1 ∙ one.1, rest.2)

-- What became of a record that was to be read: it is consumed, by its own sequence, exactly when
-- the call returns its length, which the caller's buffer holds.
abbrev pub IsTaken : Meeting → ℕ → Acts → Moved × Acts → Type 0
IsTaken x capacity t (moved n, s) =
    (n ≡ x.length)
    × (0 < n)
    × (n ≤ record_bytes)
    × (n ≤ capacity)
    × (consumed s ≡ x.sequence ∷ consumed t)
    × (committed s ≡ committed t)
    × (mask_of s ≡ 0)
IsTaken x capacity t (_, s) = Same s t

take_record-IsTaken :
    (x : Meeting) (capacity : ℕ) (t s : Acts)
    → Same s t
    → IsTaken x capacity t (take_record x capacity s)
unfolding take_record
take_record-IsTaken x capacity t s (c, m, down) =
    let t1 = read mb_rx_seq ∷ read mb_rx_len ∷ s in
    let words = read_words-Same (words_of x.length) 0 t1 down in ground (arith, c, m, down, words)

after_wait-IsTaken :
    (x : Meeting) (capacity : ℕ) (t : Acts) (w : Wait × Acts)
    → Same w.1 t
    → IsTaken x capacity t (after_wait w (take_record x capacity))
after_wait-IsTaken x capacity t (ready, s) h = take_record-IsTaken x capacity t s h
after_wait-IsTaken x capacity t (no_device, s) h = h
after_wait-IsTaken x capacity t (closed_pipe, s) h = h
after_wait-IsTaken x capacity t (interrupted, s) h = h
after_wait-IsTaken x capacity t (asleep, s) h = h

control_read-IsTaken :
    (x : Meeting) (capacity : ℕ) (r : Route)
    → mask_of r.acts ≡ 0
    → IsTaken x capacity r.acts (control_read x capacity r)
unfolding control_read
control_read-IsTaken x capacity r h =
    let waited = wait_status-Same x.fuel x.turns rx_ready 0 r.acts h in
    let rest =
      after_wait-IsTaken x capacity r.acts (wait_status x.fuel x.turns rx_ready 0 r.acts) waited in
    ground (arith, rest, h)

-- What became of a record that was to be written: one commit when the call returns its length or
-- reports that the mailbox refused it, and none otherwise.
abbrev pub IsSent : ℕ → Acts → Moved × Acts → Type 0
IsSent length t (moved n, s) =
    (n ≡ length)
    × (0 < n)
    × (n ≤ record_bytes)
    × (committed s ≡ committed t + 1)
    × (consumed s ≡ consumed t)
    × (mask_of s ≡ 0)
IsSent length t (io_error, s) =
    (committed s ≡ committed t + 1) × (consumed s ≡ consumed t) × (mask_of s ≡ 0)
IsSent length t (_, s) = Same s t

commit_record-IsSent :
    (x : Meeting) (length : ℕ) (t s : Acts)
    → 0 < length
    → length ≤ record_bytes
    → Same s t
    → IsSent length t (commit_record x length s)
unfolding commit_record
commit_record-IsSent x length t s pos small (c, m, down) =
    let t1 = write mb_status mailbox_error ∷ s in
    let words = write_words-Same x.word (words_of length) 0 t1 down in
    ground (arith, pos, small, c, m, down, words)

after_wait-IsSent :
    (x : Meeting) (length : ℕ) (t : Acts) (w : Wait × Acts)
    → 0 < length
    → length ≤ record_bytes
    → Same w.1 t
    → IsSent length t (after_wait w (commit_record x length))
after_wait-IsSent x length t (ready, s) pos small h = commit_record-IsSent x length t s pos small h
after_wait-IsSent x length t (no_device, s) pos small h = h
after_wait-IsSent x length t (closed_pipe, s) pos small h = h
after_wait-IsSent x length t (interrupted, s) pos small h = h
after_wait-IsSent x length t (asleep, s) pos small h = h

control_write-IsSent :
    (x : Meeting) (length : ℕ) (r : Route)
    → mask_of r.acts ≡ 0
    → IsSent length r.acts (control_write x length r)
unfolding control_write
control_write-IsSent x length r h =
    let waited = wait_status-Same x.fuel x.turns tx_space 0 r.acts h in
    let rest = after_wait-IsSent x length r.acts (wait_status x.fuel x.turns tx_space 0 r.acts) in
    ground (arith, rest, waited, h)

-- Where the mask is down, a read consumes one record, by its own sequence, when it returns that
-- record's length, which is not zero and fits the buffer, and nothing otherwise; a write commits
-- one record when it returns the length or an I/O error, and none otherwise; both return with
-- the mask down again.
pub mailbox_exact :
    (x : Meeting) (n : ℕ) (r : Route)
    → mask_of r.acts ≡ 0
    → IsTaken x n r.acts (control_read x n r) × IsSent n r.acts (control_write x n r)
mailbox_exact x n r h = (control_read-IsTaken x n r h, control_write-IsSent x n r h)
