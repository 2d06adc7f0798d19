-- ===== src/Bridge/State.antt =====
-- `struct bridge`, what it holds of the kernel, and `unbind`.
use hype_r_io_vm.Base.{ℕ, Bool, false, Option, none, some, List, [], ◌∷◌, replicate, if◌then◌else◌}
use hype_r_io_vm.Service.State.{io_queues}

-- What must be given back: an eventfd context or file, an entry of a wait queue, an enabled IRQ.
pub data Resource : Type 0 where
  kick_context call_file call_context wait_entry : ℕ → Resource
  irq_line : Resource

-- The accesses to the device's registers, at their offset, and the calls of the kernel.
pub data Act : Type 0 where
  write : ℕ → ℕ → Act
  read : ℕ → Act
  take drop : Resource → Act
  drain signal : ℕ → Act

-- The acts so far, newest first.
abbrev pub Acts : Type 0
Acts = List Act

-- `kick[i]` and `call[i]`: the context of the one, and the file, context, wait queue and epoch of
-- the other.
pub record Slot : Type 0 where
  pub kick : Option ℕ
  pub file : Option ℕ
  pub event : Option ℕ
  pub queue : Option ℕ
  pub epoch : ℕ

abbrev pub no_slot : Slot
no_slot = record { kick = none; file = none; event = none; queue = none; epoch = 0 }

pub record Bridge : Type 0 where
  pub references : ℕ
  pub dead : Bool
  pub opened : Bool
  pub mailbox : Bool
  pub network : Bool
  pub slots : List Slot
  pub bound : Bool
  pub irq_enabled : Bool

-- The bridge, and the acts made for it.
pub record Route : Type 0 where
  pub bridge : Bridge
  pub acts : Acts

-- What `bridge_probe` leaves in a bridge.
unfoldable pub probed : Bool → Bool → Bridge
probed mailbox network = record {
  references = 1;
  dead = false;
  opened = false;
  mailbox = mailbox;
  network = network;
  slots = replicate io_queues no_slot;
  bound = false;
  irq_enabled = false;
}

abbrev pub drop_some : (ℕ → Resource) → Option ℕ → Acts → Acts
drop_some r none t = t
drop_some r (some h) t = drop (r h) ∷ t

-- The body of the loop of `unbind`; the epoch stays as it is.
unfoldable pub release_slot : Slot → Acts → Slot × Acts
release_slot s t = (
  record no_slot { epoch = s.epoch },
  drop_some kick_context s.kick (
      drop_some call_file s.file (drop_some call_context s.event (drop_some wait_entry s.queue t))),
)

unfoldable pub release_slots : List Slot → Acts → List Slot × Acts
release_slots [] t = ([], t)
release_slots (s ∷ ss) t =
    let (s', t') = release_slot s t in let (ss', t'') = release_slots ss t' in (s' ∷ ss', t'')

unfoldable pub unbind : Route → Route
unbind r =
    let b = r.bridge in
    let t = if b.irq_enabled then drop irq_line ∷ r.acts else r.acts in
    let (slots, t') = release_slots b.slots t in
    record { bridge = record b { slots = slots; bound = false; irq_enabled = false }; acts = t' }
