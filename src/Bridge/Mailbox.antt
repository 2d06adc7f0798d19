-- ===== src/Bridge/Mailbox.antt =====
-- The control mailbox: `wait_status`, `control_read` and `control_write`. Each call of the last two
-- runs under `control_lock`.
pub mod Records
pub mod Accesses
pub mod Waiting
use hype_r_io_vm.Base.{
  ℕ, zero, suc, ◌+◌, ◌-◌, ◌*◌, ◌/◌, Bool, true, false, ◌||◌, not, List, [], ◌∷◌, ◌==◌, ltb, leb,
  nonzero, bit_and, if◌then◌else◌,
}
use hype_r_io_vm.Bridge.Eventfds.{mailbox_closed}
use hype_r_io_vm.Bridge.State.{Act, write, read, Acts, Bridge, Route}

-- RX_READY, TX_SPACE and ERROR.
abbrev pub rx_ready : ℕ
rx_ready = 1

abbrev pub tx_space : ℕ
tx_space = 2

abbrev pub mailbox_error : ℕ
mailbox_error = 8

-- MB_STATUS, MB_MASK, MB_RX_LEN, MB_RX_SEQ, MB_RX_CONSUME, MB_TX_LEN, MB_TX_COMMIT, MB_RX_DATA and
-- MB_TX_DATA.
abbrev pub mb_status : ℕ
mb_status = 0x08

abbrev pub mb_mask : ℕ
mb_mask = 0x0c

abbrev pub mb_rx_len : ℕ
mb_rx_len = 0x10

abbrev pub mb_rx_seq : ℕ
mb_rx_seq = 0x18

abbrev pub mb_rx_consume : ℕ
mb_rx_consume = 0x20

abbrev pub mb_tx_len : ℕ
mb_tx_len = 0x28

abbrev pub mb_tx_commit : ℕ
mb_tx_commit = 0x2c

abbrev pub mb_rx_data : ℕ
mb_rx_data = 0x100

abbrev pub mb_tx_data : ℕ
mb_tx_data = 0x200

-- 0 and the negative error numbers of a wait; `asleep` is a wait that goes on after the rounds
-- that are given.
pub data Wait : Type 0 where
  ready no_device closed_pipe interrupted asleep : Wait

-- What one round of `wait_status` meets: `dead`, the status, and whether the sleep ended by a
-- signal rather than by its condition.
pub record Turn : Type 0 where
  pub dead : Bool
  pub status : ℕ
  pub signalled : Bool

-- The loop from round `n` on, for `fuel` rounds; `wanted | CLOSED` is a sum, since `wanted` is 1
-- or 2.
unfoldable pub wait_status : ℕ → (ℕ → Turn) → ℕ → ℕ → Acts → Wait × Acts
wait_status zero turns wanted n t = (asleep, t)
wait_status (suc fuel) turns wanted n t =
    let t1 = read mb_status ∷ t in
    let t2 = write mb_mask 0 ∷ write mb_mask (wanted + mailbox_closed) ∷ t1 in
    let rest = wait_status fuel turns wanted (n + 1) t2 in
    if (turns n).dead
    then (no_device, t)
    else if nonzero (bit_and (turns n).status mailbox_closed)
    then (closed_pipe, t1)
    else if nonzero (bit_and (turns n).status wanted)
    then (ready, t1)
    else if (turns n).signalled
    then (interrupted, t2)
    else rest

-- The result of a read or a write: the bytes moved, or an error number.
pub data Moved : Type 0 where
  moved : ℕ → Moved
  not_waited : Wait → Moved
  invalid restarted broken_record too_small bad_address io_error : Moved

-- What one call meets: whether the lock was taken, the rounds of its wait, the registers' values
-- and the copy to or from the caller.
pub record Meeting : Type 0 where
  pub locked : Bool
  pub fuel : ℕ
  pub turns : ℕ → Turn
  pub length : ℕ
  pub sequence : ℕ
  pub word : ℕ → ℕ
  pub copied : Bool
  pub status : ℕ

-- `DIV_ROUND_UP(length, 4)`
abbrev pub words_of : ℕ → ℕ
words_of length = (length + 3) / 4

-- The loop that reads the words from `i` on.
unfoldable pub read_words : ℕ → ℕ → Acts → Acts
read_words zero i t = t
read_words (suc n) i t = read_words n (i + 1) (read (mb_rx_data + i * 4) ∷ t)

unfoldable pub write_words : (ℕ → ℕ) → ℕ → ℕ → Acts → Acts
write_words word zero i t = t
write_words word (suc n) i t = write_words word n (i + 1) (write (mb_tx_data + i * 4) (word i) ∷ t)

-- The bytes of `u32 bytes[64]`.
abbrev pub record_bytes : ℕ
record_bytes = 256

-- The part of `control_read` after its wait.
unfoldable pub take_record : Meeting → ℕ → Acts → Moved × Acts
take_record x capacity t =
    let t1 = read mb_rx_seq ∷ read mb_rx_len ∷ t in
    let t2 = read_words (words_of x.length) 0 t1 in
    if x.length == 0 || ltb record_bytes x.length
    then (broken_record, t1)
    else if ltb capacity x.length
    then (too_small, t1)
    else if not x.copied
    then (bad_address, t2)
    else (moved x.length, write mb_rx_consume x.sequence ∷ t2)

-- `goto out` with what the wait came to, or on.
abbrev pub after_wait : Wait × Acts → (Acts → Moved × Acts) → Moved × Acts
after_wait (ready, t) next = next t
after_wait (no_device, t) next = (not_waited no_device, t)
after_wait (closed_pipe, t) next = (not_waited closed_pipe, t)
after_wait (interrupted, t) next = (not_waited interrupted, t)
after_wait (asleep, t) next = (not_waited asleep, t)

unfoldable pub control_read : Meeting → ℕ → Route → Moved × Acts
control_read x capacity r =
    if not r.bridge.mailbox
    then (invalid, r.acts)
    else if not x.locked
    then (restarted, r.acts)
    else after_wait (wait_status x.fuel x.turns rx_ready 0 r.acts) (take_record x capacity)

-- The part of `control_write` after its wait; `ERROR | CLOSED` are the bits of two flags.
unfoldable pub commit_record : Meeting → ℕ → Acts → Moved × Acts
commit_record x length t =
    let t1 = write_words x.word (words_of length) 0 (write mb_status mailbox_error ∷ t) in
    let t2 = read mb_status ∷ write mb_tx_commit 1 ∷ write mb_tx_len length ∷ t1 in
    if nonzero (bit_and x.status mailbox_error) || nonzero (bit_and x.status mailbox_closed)
    then (io_error, t2)
    else (moved length, t2)

unfoldable pub control_write : Meeting → ℕ → Route → Moved × Acts
control_write x length r =
    if not r.bridge.mailbox || length == 0 || ltb record_bytes length
    then (invalid, r.acts)
    else if not x.copied
    then (bad_address, r.acts)
    else if not x.locked
    then (restarted, r.acts)
    else after_wait (wait_status x.fuel x.turns tx_space 0 r.acts) (commit_record x length)
