-- ===== src/Bridge/Notification/Account.antt =====
-- The account of a notification route: what it took of the kernel and has not given back.
use hype_r_io_vm.Base.{
  ℕ, ◌+◌, ◌≡◌, refl, Bool, true, false, Option, none, some, is_some, List, [], ◌∷◌, All,
  if◌then◌else◌, arith,
}
use hype_r_io_vm.Bridge.Eventfds.{Fd, minus_one, negative, number, Eventfds}
use hype_r_io_vm.Bridge.State.{
  Resource, kick_context, call_file, call_context, wait_entry, irq_line, write, read, take, drop,
  drain, signal, Acts, Slot, Route, release_slot, release_slots, unbind,
}
use hype_r_io_vm.Bridge.Notification.{
  Answers, poll_slot, call_slot, bind_slot, bind_slots, finish, install,
}

-- A queue that holds nothing, and one that holds all four of its references.
abbrev pub IsEmpty : Slot → Type 0
IsEmpty s = (s.kick ≡ none) × (s.file ≡ none) × (s.event ≡ none) × (s.queue ≡ none)

abbrev pub IsFull : Slot → Type 0
IsFull s =
    (is_some s.kick ≡ true)
    × (is_some s.file ≡ true)
    × (is_some s.event ≡ true)
    × (is_some s.queue ≡ true)

-- What a trace took and gave back, and what a bridge holds, each resource at its weight: that the
-- sums agree at every weight says that the resources agree, with their number.
module _ (w : Resource → ℕ) where
  abbrev pub taken : Acts → ℕ
  taken [] = 0
  taken (take r ∷ t) = w r + taken t
  taken (drop r ∷ t) = taken t
  taken (write a v ∷ t) = taken t
  taken (read a ∷ t) = taken t
  taken (drain h ∷ t) = taken t
  taken (signal h ∷ t) = taken t

  abbrev pub dropped : Acts → ℕ
  dropped [] = 0
  dropped (drop r ∷ t) = w r + dropped t
  dropped (take r ∷ t) = dropped t
  dropped (write a v ∷ t) = dropped t
  dropped (read a ∷ t) = dropped t
  dropped (drain h ∷ t) = dropped t
  dropped (signal h ∷ t) = dropped t

  abbrev pub held_by : (ℕ → Resource) → Option ℕ → ℕ
  held_by r none = 0
  held_by r (some h) = w (r h)

  abbrev pub slot_holds : Slot → ℕ
  slot_holds s =
      held_by kick_context s.kick
      + held_by call_file s.file
      + held_by call_context s.event
      + held_by wait_entry s.queue

  abbrev pub slots_hold : List Slot → ℕ
  slots_hold [] = 0
  slots_hold (s ∷ ss) = slot_holds s + slots_hold ss

  abbrev pub irq_holds : Bool → ℕ
  irq_holds enabled = if enabled then w irq_line else 0

  -- The trace and the queues agree, `extra` more being held elsewhere.
  abbrev pub Balances : ℕ → List Slot → Acts → Type 0
  Balances extra ss t = taken t ≡ dropped t + slots_hold ss + extra

  release_slot-dropped :
      (s : Slot) (t : Acts)
      → let (s', t') = release_slot s t in
        (dropped t' ≡ dropped t + slot_holds s) × (taken t' ≡ taken t) × (slot_holds s' ≡ 0)
  unfolding release_slot
  release_slot-dropped s t = ground arith

  release_slots-dropped :
      (ss : List Slot) (t : Acts)
      → let (ss', t') = release_slots ss t in
        (dropped t' ≡ dropped t + slots_hold ss) × (taken t' ≡ taken t) × (slots_hold ss' ≡ 0)
  unfolding release_slots
  release_slots-dropped [] t = omega arith
  release_slots-dropped (s ∷ ss) t =
      let one = release_slot-dropped s t in
      let rest = release_slots-dropped ss (release_slot s t).1 in omega (arith, one, rest)

  bind_slot-taken :
      (x : Answers) (epoch i : ℕ) (p : Fd × Fd) (s : Slot) (t : Acts)
      → IsEmpty s
      → let (result, s', t') = bind_slot x epoch i p s t in
        (taken t' ≡ taken t + slot_holds s') × (dropped t' ≡ dropped t)
  unfolding bind_slot call_slot poll_slot
  bind_slot-taken x epoch i (minus_one, call) s t e = ground arith
  bind_slot-taken x epoch i (negative, call) s t e = ground arith
  bind_slot-taken x epoch i (number k, call) s t e = ground arith

  pub slots_hold_none : (ss : List Slot) → All IsEmpty ss → slots_hold ss ≡ 0
  slots_hold_none [] e = refl
  slots_hold_none (s ∷ ss) (e, es) = let rest = slots_hold_none ss es in ground (arith, e, rest)

  bind_slots-taken :
      (x : Answers) (epoch i : ℕ) (ps : List (Fd × Fd)) (ss : List Slot) (t : Acts)
      → All IsEmpty ss
      → let (result, ss', t') = bind_slots x epoch i ps ss t in
        (taken t' ≡ taken t + slots_hold ss') × (dropped t' ≡ dropped t)
  unfolding bind_slots
  bind_slots-taken x epoch i [] ss t e =
      let none_held = slots_hold_none ss e in omega (arith, none_held)
  bind_slots-taken x epoch i (p ∷ ps) [] t e = omega arith
  bind_slots-taken x epoch i (p ∷ ps) (s ∷ ss) t (e, es) =
      let one = bind_slot-taken x epoch i p s t e in
      let rest = bind_slots-taken x epoch (i + 1) ps ss (bind_slot x epoch i p s t).2 es in
      let others = slots_hold_none ss es in ground (arith, one, rest, others)

  -- The references that a route holds are those that it took and has not given back.
  abbrev pub IsBalanced : Route → Type 0
  IsBalanced r =
      taken r.acts ≡ dropped r.acts + slots_hold r.bridge.slots + irq_holds r.bridge.irq_enabled

  pub unbind-IsBalanced : (r : Route) → IsBalanced r → IsBalanced (unbind r)
  unfolding unbind
  unbind-IsBalanced r h =
      let t = if r.bridge.irq_enabled then drop irq_line ∷ r.acts else r.acts in
      let freed = release_slots-dropped r.bridge.slots t in ground (arith, h, freed)

  pub install-IsBalanced :
      (x : Answers) (f : Eventfds) (r : Route)
      → All IsEmpty r.bridge.slots
      → r.bridge.irq_enabled ≡ false
      → IsBalanced r
      → IsBalanced (install x f r).2
  unfolding install finish
  install-IsBalanced x f r e off h =
      let b = r.bridge in
      let bound = bind_slots-taken x f.epoch 0 f.fds b.slots r.acts e in
      let none_held = slots_hold_none b.slots e in
      let (result, slots, t) = bind_slots x f.epoch 0 f.fds b.slots r.acts in
      let undone =
        unbind-IsBalanced (record { bridge = record b { slots = slots }; acts = t })
          (ground (arith, h, bound, off, none_held)) in
      ground (arith, h, bound, off, none_held, undone)
