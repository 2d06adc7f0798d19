-- ===== src/Bridge/Mailbox/Waiting.antt =====
-- `wait_status` beside `bridge_irq` and `bridge_remove`: one reader or writer, which holds
-- `control_lock`, and the interrupts and the removal that may come between any two of its accesses.
-- `wait_event_interruptible` puts the thread on the wait queue before it looks at its condition, so
-- that a wake between the look and the sleep makes it look again: a sleep is one step, and a wake of
-- a sleeper sends it back to its look. The generation is 64 bits wide and is not taken modulo 2^64:
-- one wait would have to outlast that many interrupts.
use hype_r_io_vm.Base.{ℕ, ◌+◌, ◌≤◌, ◌≡◌, ◌⊎◌, Bool, true, false, ◌||◌, nonzero, bit_and}
use hype_r_io_vm.Bridge.Eventfds.{mailbox_closed, hyper_io_wait_ready}

-- Where the waiter stands: before its first look at the status, past it, past the sample of the
-- generation, past the write of the mask, in the sleep, or out of the loop.
pub data Point : Type 0 where
  looking looked : Point
  sampled armed sleeping : ℕ → Point
  returned : Point

-- The status and the mask of the mailbox, `irq_generation`, `dead`, and the waiter.
pub record Mailbox : Type 0 where
  pub status : ℕ
  pub mask : ℕ
  pub generation : ℕ
  pub dead : Bool
  pub point : Point

-- A wake makes a sleeper evaluate its condition again.
abbrev pub woken : Point → Point
woken (sleeping g) = armed g
woken looking = looking
woken looked = looked
woken (sampled g) = sampled g
woken (armed g) = armed g
woken returned = returned

-- The mailbox's branch of `bridge_irq`.
unfoldable pub mailbox_irq : Mailbox → Mailbox
mailbox_irq m = record m { mask = 0; generation = m.generation + 1; point = woken m.point }

-- The start of `bridge_remove`; it touches the mask only once the waiter has left `control_lock`.
unfoldable pub mark_dead : Mailbox → Mailbox
mark_dead m = record m { dead = true; point = woken m.point }

-- The condition of the sleep.
unfoldable pub wakes : ℕ → ℕ → Mailbox → Bool
wakes wanted g m = m.dead || hyper_io_wait_ready m.status wanted g m.generation

-- The first checks of a round.
abbrev pub leaves : ℕ → Mailbox → Bool
leaves wanted m =
    m.dead || nonzero (bit_and m.status mailbox_closed) || nonzero (bit_and m.status wanted)

pub data Step (wanted : ℕ) (m : Mailbox) : Mailbox → Type 0 where
  hardware : (status : ℕ) → Step wanted m (record m { status = status })
  interrupt : Step wanted m (mailbox_irq m)
  remove : Step wanted m (mark_dead m)
  leave : m.point ≡ looking → leaves wanted m ≡ true → Step wanted m (record m { point = returned })
  look : m.point ≡ looking → leaves wanted m ≡ false → Step wanted m (record m { point = looked })
  sample : m.point ≡ looked → Step wanted m (record m { point = sampled m.generation })
  arm :
      {g : ℕ}
      → m.point ≡ sampled g
      → Step wanted m (record m { mask = wanted + mailbox_closed; point = armed g })
  sleep :
      {g : ℕ}
      → m.point ≡ armed g
      → wakes wanted g m ≡ false
      → Step wanted m (record m { point = sleeping g })
  again :
      {g : ℕ}
      → m.point ≡ armed g
      → wakes wanted g m ≡ true
      → Step wanted m (record m { mask = 0; point = looking })
  signalled : {g : ℕ} → m.point ≡ armed g → Step wanted m (record m { mask = 0; point = returned })

-- A wait that begins with the mask down, whatever the mailbox holds and however many interrupts
-- came before it.
pub data Reach (wanted : ℕ) : Mailbox → Type 0 where
  start :
      (status generation : ℕ) (dead : Bool)
      → Reach wanted (record {
        status = status;
        mask = 0;
        generation = generation;
        dead = dead;
        point = looking;
      })
  later : {m n : Mailbox} → Reach wanted m → Step wanted m n → Reach wanted n

-- The source is armed for what the waiter wants, or an interrupt came since its sample.
abbrev pub IsArmed : ℕ → ℕ → Mailbox → Type 0
IsArmed wanted g m =
    ((m.mask ≡ wanted + mailbox_closed) × (g ≡ m.generation)) ⊎ (g + 1 ≤ m.generation)

abbrev pub Awaits : ℕ → Mailbox → Point → Type 0
Awaits wanted m looking = m.mask ≡ 0
Awaits wanted m looked = m.mask ≡ 0
Awaits wanted m (sampled g) = (m.mask ≡ 0) × (g ≤ m.generation)
Awaits wanted m (armed g) = IsArmed wanted g m
Awaits wanted m (sleeping g) =
    (m.mask ≡ wanted + mailbox_closed) × (g ≡ m.generation) × (m.dead ≡ false)
Awaits wanted m returned = m.mask ≡ 0
