-- ===== src/Bridge/Mailbox/Accesses.antt =====
-- A read and a write of the mailbox touch nothing but its registers.
use hype_r_io_vm.Base.{ℕ, zero, suc, ◌+◌, ◌*◌, ◌∷◌, arith}
use hype_r_io_vm.Bridge.Eventfds.{mailbox_closed}
use hype_r_io_vm.Bridge.State.{read, write, Acts, Route}
use hype_r_io_vm.Bridge.Mailbox.{
  Wait, ready, no_device, closed_pipe, interrupted, asleep, Turn, wait_status, mb_mask, mb_status,
  mb_rx_seq, mb_rx_len, mb_rx_data, mb_rx_consume, mb_tx_data, mb_tx_len, mb_tx_commit,
  mailbox_error, rx_ready, tx_space, Moved, Meeting, words_of, read_words, write_words, take_record,
  after_wait, control_read, commit_record, control_write,
}

-- What every access of a register keeps, a read and a write of the mailbox keep.
module _ (P : Acts → Type 0) (by_read : (a : ℕ) (t : Acts) → P t → P (read a ∷ t))
    (by_write : (a n : ℕ) (t : Acts) → P t → P (write a n ∷ t)) where
  wait_status-accesses :
      (fuel : ℕ) (turns : ℕ → Turn) (wanted n : ℕ) (t : Acts)
      → P t
      → P (wait_status fuel turns wanted n t).1
  unfolding wait_status
  wait_status-accesses zero turns wanted n t h = h
  wait_status-accesses (suc fuel) turns wanted n t h =
      let sampled = by_read mb_status t h in
      let armed = by_write mb_mask (wanted + mailbox_closed) (read mb_status ∷ t) sampled in
      let down =
        by_write mb_mask 0 (write mb_mask (wanted + mailbox_closed) ∷ read mb_status ∷ t) armed in
      let rest =
        wait_status-accesses fuel turns wanted (n + 1)
          (write mb_mask 0 ∷ write mb_mask (wanted + mailbox_closed) ∷ read mb_status ∷ t) down in
      grind (arith, h, sampled, down, rest)

  read_words-accesses : (n i : ℕ) (t : Acts) → P t → P (read_words n i t)
  unfolding read_words
  read_words-accesses zero i t h = h
  read_words-accesses (suc n) i t h =
      read_words-accesses n (i + 1) (read (mb_rx_data + i * 4) ∷ t)
        (by_read (mb_rx_data + i * 4) t h)

  write_words-accesses : (word : ℕ → ℕ) (n i : ℕ) (t : Acts) → P t → P (write_words word n i t)
  unfolding write_words
  write_words-accesses word zero i t h = h
  write_words-accesses word (suc n) i t h =
      write_words-accesses word n (i + 1) (write (mb_tx_data + i * 4) (word i) ∷ t)
        (by_write (mb_tx_data + i * 4) (word i) t h)

  take_record-accesses :
      (x : Meeting) (capacity : ℕ) (t : Acts) → P t → P (take_record x capacity t).1
  unfolding take_record
  take_record-accesses x capacity t h =
      let t1 = read mb_rx_seq ∷ read mb_rx_len ∷ t in
      let p1 : P t1 = by_read mb_rx_seq (read mb_rx_len ∷ t) (by_read mb_rx_len t h) in
      let p2 = read_words-accesses (words_of x.length) 0 t1 p1 in
      let p3 = by_write mb_rx_consume x.sequence (read_words (words_of x.length) 0 t1) p2 in
      grind (arith, p1, p2, p3)

  commit_record-accesses :
      (x : Meeting) (length : ℕ) (t : Acts) → P t → P (commit_record x length t).1
  unfolding commit_record
  commit_record-accesses x length t h =
      let t0 = write mb_status mailbox_error ∷ t in
      let t1 = write_words x.word (words_of length) 0 t0 in
      let p1 : P t1 =
        write_words-accesses x.word (words_of length) 0 t0 (by_write mb_status mailbox_error t h) in
      let p2 =
        by_read mb_status (write mb_tx_commit 1 ∷ write mb_tx_len length ∷ t1) (
          by_write mb_tx_commit 1 (write mb_tx_len length ∷ t1)
            (by_write mb_tx_len length t1 p1)) in
      grind (arith, p2)

  after_wait-accesses :
      (w : Wait × Acts) (next : Acts → Moved × Acts)
      → P w.1
      → ((t : Acts) → P t → P (next t).1)
      → P (after_wait w next).1
  after_wait-accesses (ready, t) next h go = go t h
  after_wait-accesses (no_device, t) next h go = h
  after_wait-accesses (closed_pipe, t) next h go = h
  after_wait-accesses (interrupted, t) next h go = h
  after_wait-accesses (asleep, t) next h go = h

  pub control_read-accesses :
      (x : Meeting) (n : ℕ) (r : Route) → P r.acts → P (control_read x n r).1
  unfolding control_read
  control_read-accesses x n r h =
      let w = wait_status x.fuel x.turns rx_ready 0 r.acts in
      let rest =
        after_wait-accesses w (take_record x n)
          (wait_status-accesses x.fuel x.turns rx_ready 0 r.acts h) (take_record-accesses x n) in
      grind (arith, h, rest)

  pub control_write-accesses :
      (x : Meeting) (n : ℕ) (r : Route) → P r.acts → P (control_write x n r).1
  unfolding control_write
  control_write-accesses x n r h =
      let w = wait_status x.fuel x.turns tx_space 0 r.acts in
      let rest =
        after_wait-accesses w (commit_record x n)
          (wait_status-accesses x.fuel x.turns tx_space 0 r.acts h) (commit_record-accesses x n) in
      grind (arith, h, rest)
