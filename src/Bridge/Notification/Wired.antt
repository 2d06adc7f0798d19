-- ===== src/Bridge/Notification/Wired.antt =====
-- The invariant of a notification route, kept by every command.
use hype_r_io_vm.Base.{
  ℕ, suc, ◌+◌, ◌≡◌, ◌≢◌, ◌⊎◌, inl, inr, refl, sym, ap, ◌∙◌, subst, true, false, List, [], ◌∷◌, All,
  length, if◌then◌else◌, arith,
}
use hype_r_io_vm.Service.State.{io_queues}
use hype_r_io_vm.Bridge.Eventfds.{Fd, minus_one, negative, number, Eventfds}
use hype_r_io_vm.Bridge.State.{
  Resource, irq_line, write, read, take, drop, drain, signal, Acts, Slot, Bridge, Route,
  release_slot, release_slots, unbind,
}
use hype_r_io_vm.Bridge.Notification.{
  Outcome, done, not_a_command, no_device, busy, bad_address, invalid, no_access, bad_eventfd,
  Answers, Admission, Command, admit, extent, quiescent, unbinds, bind, other, Output, Response,
  admit_route, extent_route, quiescent_route, poll_slot, call_slot, bind_slot, bind_slots, finish,
  install, bind_route, command_route, notification_ioctl,
}
use hype_r_io_vm.Bridge.Notification.Account.{
  IsEmpty, IsFull, taken, dropped, IsBalanced, unbind-IsBalanced, install-IsBalanced,
}

abbrev pub IsWhole : Slot → Type 0
IsWhole s = IsEmpty s ⊎ IsFull s

-- Between two commands: the account balances, the IRQ is enabled exactly while the route is bound,
-- an unbound route holds nothing, and a bound one has each queue complete or absent.
pub record IsWired (r : Route) : Type 0 where
  pub size : length r.bridge.slots ≡ io_queues
  pub balanced : (w : Resource → ℕ) → IsBalanced w r
  pub irq : r.bridge.irq_enabled ≡ r.bridge.bound
  pub unbound : r.bridge.bound ≡ false → All IsEmpty r.bridge.slots
  pub whole : All IsWhole r.bridge.slots
  pub control : r.bridge.mailbox ≡ true → r.bridge.bound ≡ false

release_slots_lem :
    (ss : List Slot) (t : Acts)
    → All IsEmpty (release_slots ss t).0 × (length (release_slots ss t).0 ≡ length ss)
unfolding release_slots release_slot
release_slots_lem [] t = (tt, refl)
release_slots_lem (s ∷ ss) t =
    let (empty, same) = release_slots_lem ss (release_slot s t).1 in
    (((refl, refl, refl, refl), empty), ap suc same)

IsEmpty-IsWhole : (ss : List Slot) → All IsEmpty ss → All IsWhole ss
IsEmpty-IsWhole [] e = tt
IsEmpty-IsWhole (s ∷ ss) (e, es) = (inl e, IsEmpty-IsWhole ss es)

pub unbind-IsWired :
    (r : Route)
    → length r.bridge.slots ≡ io_queues
    → ((w : Resource → ℕ) → IsBalanced w (unbind r))
    → IsWired (unbind r)
unfolding unbind
unbind-IsWired r size balanced =
    let t = if r.bridge.irq_enabled then drop irq_line ∷ r.acts else r.acts in
    let (empty, same) = release_slots_lem r.bridge.slots t in
    record {
      size = same ∙ size;
      balanced = balanced;
      irq = refl;
      unbound = λ _. empty;
      whole = IsEmpty-IsWhole (release_slots r.bridge.slots t).0 empty;
      control = λ _. refl;
    }

bind_slot-IsFull :
    (x : Answers) (epoch i : ℕ) (p : Fd × Fd) (s : Slot) (t : Acts)
    → IsEmpty s
    → (bind_slot x epoch i p s t).0 ≡ done
    → IsWhole (bind_slot x epoch i p s t).1
unfolding bind_slot call_slot poll_slot
bind_slot-IsFull x epoch i (minus_one, call) s t e h = inl e
bind_slot-IsFull x epoch i (negative, call) s t e h = inr (ground (arith, h))
bind_slot-IsFull x epoch i (number k, call) s t e h = inr (ground (arith, h))

bind_slots-length :
    (x : Answers) (epoch i : ℕ) (ps : List (Fd × Fd)) (ss : List Slot) (t : Acts)
    → length (bind_slots x epoch i ps ss t).1 ≡ length ss
unfolding bind_slots
bind_slots-length x epoch i [] ss t = refl
bind_slots-length x epoch i (p ∷ ps) [] t = refl
bind_slots-length x epoch i (p ∷ ps) (s ∷ ss) t =
    let rest = bind_slots-length x epoch (i + 1) ps ss (bind_slot x epoch i p s t).2 in
    ground (arith, rest)

bind_slots_step :
    (x : Answers) (epoch i : ℕ) (p : Fd × Fd) (ps : List (Fd × Fd)) (s : Slot) (ss : List Slot)
    (t : Acts)
    → (bind_slots x epoch i (p ∷ ps) (s ∷ ss) t).0 ≡ done
    → let (result, s', t') = bind_slot x epoch i p s t in
      let (r, ss', t'') = bind_slots x epoch (i + 1) ps ss t' in
      (result ≡ done) × (r ≡ done) × ((bind_slots x epoch i (p ∷ ps) (s ∷ ss) t).1 ≡ s' ∷ ss')
unfolding bind_slots
bind_slots_step x epoch i p ps s ss t h = ground (arith, h)

bind_slots-IsWhole :
    (x : Answers) (epoch i : ℕ) (ps : List (Fd × Fd)) (ss : List Slot) (t : Acts)
    → All IsEmpty ss
    → (bind_slots x epoch i ps ss t).0 ≡ done
    → All IsWhole (bind_slots x epoch i ps ss t).1
unfolding bind_slots
bind_slots-IsWhole x epoch i [] ss t e h = IsEmpty-IsWhole ss e
bind_slots-IsWhole x epoch i (p ∷ ps) [] t e h = tt
bind_slots-IsWhole x epoch i (p ∷ ps) (s ∷ ss) t (e, es) h =
    let (one, rest, same) = bind_slots_step x epoch i p ps s ss t h in
    let t' = (bind_slot x epoch i p s t).2 in
    subst (All IsWhole) (sym same)
      (bind_slot-IsFull x epoch i p s t e one, bind_slots-IsWhole x epoch (i + 1) ps ss t' es rest)

finish_cases :
    (o : Outcome) (b : Bridge) (slots : List Slot) (t : Acts)
    → ((o ≡ done)
        × ((finish o b slots t).2 ≡ record {
          bridge = record b { slots = slots; bound = true; irq_enabled = true };
          acts = take irq_line ∷ t;
        }))
      ⊎ ((o ≢ done)
          × ((finish o b slots t).2
              ≡ unbind (record { bridge = record b { slots = slots }; acts = t })))
unfolding finish
finish_cases done b slots t = inl (refl, refl)
finish_cases not_a_command b slots t = inr (λ e. cc, refl)
finish_cases no_device b slots t = inr (λ e. cc, refl)
finish_cases busy b slots t = inr (λ e. cc, refl)
finish_cases bad_address b slots t = inr (λ e. cc, refl)
finish_cases invalid b slots t = inr (λ e. cc, refl)
finish_cases no_access b slots t = inr (λ e. cc, refl)
finish_cases bad_eventfd b slots t = inr (λ e. cc, refl)

module _ (x : Answers) (f : Eventfds) (r : Route) (v : IsWired r) where
  install-IsWired : r.bridge.mailbox ≡ false → r.bridge.bound ≡ false → IsWired (install x f r).2
  unfolding install
  install-IsWired route free =
      let b = r.bridge in
      let (result, slots, t) = bind_slots x f.epoch 0 f.fds b.slots r.acts in
      let size = bind_slots-length x f.epoch 0 f.fds b.slots r.acts ∙ v.size in
      let balanced = λ (w : Resource → ℕ).
        install-IsBalanced w x f r (v.unbound free) (v.irq ∙ free) (v.balanced w) in
      elim (finish_cases result b slots t) [
        | inl (fine, e) ↦ subst IsWired (sym e) (record {
          size = size;
          balanced = λ w. subst (IsBalanced w) e (balanced w);
          irq = refl;
          unbound = λ h. ground (arith, h);
          whole = bind_slots-IsWhole x f.epoch 0 f.fds b.slots r.acts (v.unbound free) fine;
          control = λ h. ground (arith, h, route);
        })
        | inr (_, e) ↦ subst IsWired (sym e) (
            unbind-IsWired (record { bridge = record b { slots = slots }; acts = t }) size
              (λ w. subst (IsBalanced w) e (balanced w)))
      ]

module _ (r : Route) (v : IsWired r) where
  -- Shut, so that the search sees one fact and not its fields.
  Kept : Response → Type 0
  Kept x = IsWired x.2

  -- Acts that take and give back nothing.
  pub Quiet : Acts → Type 0
  Quiet t = (w : Resource → ℕ) → (taken w t ≡ taken w r.acts) × (dropped w t ≡ dropped w r.acts)

  pub Quiet-refl : Quiet r.acts
  unfolding Quiet
  Quiet-refl w = (refl, refl)

  pub Quiet-read : (a : ℕ) (t : Acts) → Quiet t → Quiet (read a ∷ t)
  unfolding Quiet
  Quiet-read a t q w = q w

  pub Quiet-write : (a n : ℕ) (t : Acts) → Quiet t → Quiet (write a n ∷ t)
  unfolding Quiet
  Quiet-write a n t q w = q w

  pub Quiet-drain : (h : ℕ) (t : Acts) → Quiet t → Quiet (drain h ∷ t)
  unfolding Quiet
  Quiet-drain h t q w = q w

  pub Quiet-signal : (h : ℕ) (t : Acts) → Quiet t → Quiet (signal h ∷ t)
  unfolding Quiet
  Quiet-signal h t q w = q w

  pub Quiet-IsWired : (t : Acts) → Quiet t → IsWired (record r { acts = t })
  unfolding Quiet
  Quiet-IsWired t q = record {
    size = v.size;
    balanced = λ w. let same = q w in let before = v.balanced w in omega (arith, same, before);
    irq = v.irq;
    unbound = v.unbound;
    whole = v.whole;
    control = v.control;
  }

  stays : (o : Outcome) (out : Output) → Kept (o, out, r)
  unfolding Kept
  stays o out = v

  touches : (o : Outcome) (out : Output) (t : Acts) → Quiet t → Kept (o, out, record r { acts = t })
  unfolding Kept
  touches o out t q = Quiet-IsWired t q

  unbinds_lem : (o : Outcome) (out : Output) → Kept (o, out, unbind r)
  unfolding Kept
  unbinds_lem o out = unbind-IsWired r v.size (λ w. unbind-IsBalanced w r (v.balanced w))

  installs :
      (x : Answers) (f : Eventfds) (t : Acts)
      → r.bridge.mailbox ≡ false
      → r.bridge.bound ≡ false
      → Quiet t
      → Kept (install x f (record r { acts = t }))
  unfolding Kept
  installs x f t route free q =
      install-IsWired x f (record r { acts = t }) (Quiet-IsWired t q) route free

  admit-Kept : (x : Answers) (g : Admission) → Kept (admit_route x g r)
  unfolding admit_route
  admit-Kept x g = grind (arith, stays, touches, Quiet-refl, Quiet-read, Quiet-write)

  extent-Kept : (x : Answers) (index : ℕ) → Kept (extent_route x index r)
  unfolding extent_route
  extent-Kept x index = grind (arith, stays, touches, Quiet-refl, Quiet-read, Quiet-write)

  quiescent-Kept : (x : Answers) (token : ℕ) → Kept (quiescent_route x token r)
  unfolding quiescent_route
  quiescent-Kept x token = grind (arith, stays, touches, Quiet-refl, Quiet-read, Quiet-write)

  bind-Kept : (x : Answers) (f : Eventfds) → r.bridge.mailbox ≡ false → Kept (bind_route x f r)
  unfolding bind_route
  bind-Kept x f route = grind (arith, stays, touches, installs, Quiet-refl, Quiet-read, Quiet-write)

  command-Kept : (x : Answers) (c : Command) → r.bridge.mailbox ≡ false → Kept (command_route x c r)
  unfolding command_route
  command-Kept x (admit g) route = admit-Kept x g
  command-Kept x (extent index) route = extent-Kept x index
  command-Kept x (quiescent token) route = quiescent-Kept x token
  command-Kept x unbinds route = unbinds_lem _ _
  command-Kept x (bind f) route = bind-Kept x f route
  command-Kept x other route = stays _ _

  notification-Kept : (x : Answers) (c : Command) → Kept (notification_ioctl x c r)
  unfolding notification_ioctl
  notification-Kept x c = grind (arith, stays, command-Kept x c)

  -- No command, whatever it asks and whatever fails, breaks the invariant of a notification
  -- route: what it holds is what it took and has not given back, the IRQ is enabled exactly
  -- while the route is bound, an unbound route holds nothing and each queue of a bound one is
  -- complete or absent.
  pub notification_ioctl-IsWired :
      (x : Answers) (c : Command) → IsWired (notification_ioctl x c r).2
  unfolding Kept
  notification_ioctl-IsWired x c = notification-Kept x c
