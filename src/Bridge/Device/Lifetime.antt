-- ===== src/Bridge/Device/Lifetime.antt =====
-- Every step of a bridge's life keeps the invariant.
use hype_r_io_vm.Base.{
  ℕ, zero, suc, ◌+◌, ◌-◌, ◌==◌, ◌≡◌, ◌≢◌, ◌⊎◌, inl, inr, refl, sym, ap, ◌∙◌, subst, Bool, true,
  false, not, All, arith, Bool-cases, replicate,
}
use hype_r_io_vm.Service.State.{io_queues}
use hype_r_io_vm.Bridge.State.{no_slot, Bridge, Route, probed}
use hype_r_io_vm.Bridge.Notification.{Answers, Command, notification_ioctl}
use hype_r_io_vm.Bridge.Notification.Account.{IsEmpty}
use hype_r_io_vm.Bridge.Notification.Wired.{IsWhole, IsWired, notification_ioctl-IsWired}
use hype_r_io_vm.Bridge.Mailbox.{control_read, control_write}
use hype_r_io_vm.Bridge.Device.{
  bridge_irq, call_wakeup, wakeups, bridge_open, silence, release_route, clear_opened, mark_dead,
  put_reference, no_file, open_file, quiet_file, System, kref_put, with_route, loaded, Step, opens,
  refuses, commands, reads, writes, interrupts, releases, closes, puts_file, deregisters, drains,
  Reach, start, later,
}
use hype_r_io_vm.Bridge.Device.Frame.{
  SameFrame, notification_ioctl-SameFrame, notification_ioctl_dead,
}
use hype_r_io_vm.Bridge.Device.Holders.{
  count, file_count, is_held, is_open_file, IsAlive, reheld-IsWired, irq-IsWired, wakeup-IsWired,
  wakeup-SameFrame, silence-IsWired, silence-bound, reads-IsWired, writes-IsWired, irq-SameFrame,
  silence-SameFrame, bridge_open_lem, bridge_open_busy, is_held_lem, held-freed,
}

-- A step that changes nothing but the route, and in it nothing of who holds the bridge.
inside-IsAlive :
    (s : System) (r : Route)
    → IsAlive s
    → IsWired r
    → SameFrame r.bridge s.route.bridge
    → (r.bridge.bound ≡ true → s.route.bridge.bound ≡ true)
      ⊎ ((s.registered ≡ true) × (s.file ≡ open_file))
    → IsAlive (with_route r s)
inside-IsAlive s r v w (references, opened, dead, kind) b = record {
  wired = w;
  counted = references ∙ v.counted;
  admitted = opened ∙ v.admitted;
  dead = dead ∙ v.dead;
  handled = v.handled;
  driven = v.driven;
  bound = λ h. elim b [ inl before ↦ v.bound (before h) | inr (on, file) ↦ v.driven on ];
  idle = λ i h. elim b [
    | inl before ↦ dead ∙ v.idle i (before h)
    | inr (on, file) ↦ ground (arith, i, file)
  ];
  freed = v.freed ∙ ap (λ n. n == 0) (sym references);
}

commands-IsAlive :
    (s : System) (x : Answers) (c : Command)
    → IsAlive s
    → s.file ≡ open_file
    → IsAlive (with_route (notification_ioctl x c s.route).2 s)
commands-IsAlive s x c v file = elim (Bool-cases s.registered) [
  | inl on ↦
      inside-IsAlive s (notification_ioctl x c s.route).2 v
        (notification_ioctl-IsWired s.route v.wired x c) (notification_ioctl-SameFrame s.route x c)
        (inr (on, file))
  | inr off ↦
      let gone : s.route.bridge.dead ≡ true = v.dead ∙ ap not off in
      subst (λ r. IsAlive (with_route r s)) (sym (notification_ioctl_dead s.route x c gone)) v
]

opens-IsAlive :
    (s : System)
    → IsAlive s
    → s.registered ≡ true
    → (bridge_open s.route).0 ≡ true
    → IsAlive (record s { route = (bridge_open s.route).1; file = open_file })
opens-IsAlive s v on h =
    let (shut, same) = bridge_open_lem s.route h in
    let b = s.route.bridge in
    let driver = v.driven on in
    let none_held : file_count s.file ≡ 0 = is_held_lem s.file ∙ ap count (sym v.admitted ∙ shut) in
    let counted = v.counted in
    let freed =
      held-freed s v (let held = ap count driver in λ z. omega (arith, z, counted, held)) in
    subst (λ r. IsAlive (record s { route = r; file = open_file })) (sym same)
      (record {
        wired = reheld-IsWired s.route (b.references + 1) true b.dead v.wired;
        counted = omega (arith, counted, none_held);
        admitted = refl;
        dead = v.dead;
        handled = v.handled;
        driven = v.driven;
        bound = v.bound;
        idle = λ i k. absurd (ground (arith, i));
        freed = ground (arith, freed);
      })

drains-IsAlive :
    (s : System)
    → IsAlive s
    → s.registered ≡ false
    → s.driver ≡ true
    → IsAlive
        (record s { route = silence s.route; driver = false; handler = false; puts = s.puts + 1 })
drains-IsAlive s v off driver =
    let (references, opened, dead, kind) = silence-SameFrame s.route in
    let free = silence-bound s.route v.wired in
    let counted = v.counted in
    let held = ap count driver in
    record {
      wired = silence-IsWired s.route v.wired;
      counted = omega (arith, references, counted, held);
      admitted = opened ∙ v.admitted;
      dead = dead ∙ v.dead;
      handled = refl;
      driven = λ on. ground (arith, on, off);
      bound = λ h. ground (arith, h, free);
      idle = λ i h. ground (arith, h, free);
      freed = v.freed ∙ ap (λ n. n == 0) (sym references);
    }

release_route_dead : (r : Route) → r.bridge.dead ≡ true → release_route r ≡ r
unfolding release_route
release_route_dead r gone = ground (arith, gone)

release_route_live : (r : Route) → r.bridge.dead ≡ false → release_route r ≡ silence r
unfolding release_route
release_route_live r live = ground (arith, live)

releases-IsAlive :
    (s : System)
    → IsAlive s
    → s.file ≡ open_file
    → IsAlive (record s { route = release_route s.route; file = quiet_file })
releases-IsAlive s v file =
    let counted = v.counted in
    let (references, opened, dead, kind) = silence-SameFrame s.route in
    let free = silence-bound s.route v.wired in
    let here = ap file_count file in
    let held = v.admitted ∙ ap is_held file in
    let After = λ (r : Route). IsAlive (record s { route = r; file = quiet_file }) in
    elim (Bool-cases s.route.bridge.dead) [
      | inl gone ↦ subst After (sym (release_route_dead s.route gone)) (record {
        wired = v.wired;
        counted = omega (arith, counted, here);
        admitted = held;
        dead = v.dead;
        handled = v.handled;
        driven = v.driven;
        bound = v.bound;
        idle = λ i h. gone;
        freed = v.freed;
      })
      | inr live ↦ subst After (sym (release_route_live s.route live)) (record {
        wired = silence-IsWired s.route v.wired;
        counted = omega (arith, counted, references, here);
        admitted = opened ∙ held;
        dead = dead ∙ v.dead;
        handled = v.handled;
        driven = v.driven;
        bound = λ h. ground (arith, h, free);
        idle = λ i h. ground (arith, h, free);
        freed = v.freed ∙ ap (λ n. n == 0) (sym references);
      })
    ]

closes-IsAlive :
    (s : System)
    → IsAlive s
    → s.file ≡ quiet_file
    → IsAlive (record s { route = clear_opened s.route; file = no_file; puts = s.puts + 1 })
unfolding clear_opened
closes-IsAlive s v file =
    let counted = v.counted in
    let here = ap file_count file in
    let b = s.route.bridge in
    record {
      wired = reheld-IsWired s.route b.references false b.dead v.wired;
      counted = omega (arith, counted, here);
      admitted = refl;
      dead = v.dead;
      handled = v.handled;
      driven = v.driven;
      bound = v.bound;
      idle = λ i h. v.idle (ap is_open_file file) h;
      freed = v.freed;
    }

puts-IsAlive :
    (s : System) → IsAlive s → s.puts ≢ 0 → IsAlive (kref_put (record s { puts = s.puts - 1 }))
unfolding kref_put put_reference
puts-IsAlive s v due =
    let counted = v.counted in
    let b = s.route.bridge in
    let freed = held-freed s v (λ z. due (omega (arith, z, counted))) in
    record {
      wired = reheld-IsWired s.route (b.references - 1) b.opened b.dead v.wired;
      counted = ground (arith, counted, due);
      admitted = v.admitted;
      dead = v.dead;
      handled = v.handled;
      driven = v.driven;
      bound = v.bound;
      idle = v.idle;
      freed = ground (arith, freed);
    }

deregisters-IsAlive :
    (s : System) → IsAlive s → IsAlive (record s { route = mark_dead s.route; registered = false })
unfolding mark_dead
deregisters-IsAlive s v =
    let b = s.route.bridge in
    record {
      wired = reheld-IsWired s.route b.references b.opened true v.wired;
      counted = v.counted;
      admitted = v.admitted;
      dead = refl;
      handled = v.handled;
      driven = λ on. ground (arith, on);
      bound = v.bound;
      idle = λ i h. refl;
      freed = v.freed;
    }

same_frame : (b : Bridge) → SameFrame b b
same_frame b = (refl, refl, refl, refl)

pub Step-IsAlive : {s t : System} → Step s t → IsAlive s → IsAlive t
Step-IsAlive {s} (opens on h) v = opens-IsAlive s v on h
Step-IsAlive {s} (refuses on h) v =
    subst (λ r. IsAlive (with_route r s)) (sym (bridge_open_busy s.route h)) v
Step-IsAlive {s} (commands x c file) v = commands-IsAlive s x c v file
Step-IsAlive {s} (reads x n file) v =
    inside-IsAlive s (record s.route { acts = (control_read x n s.route).1 }) v
      (reads-IsWired s.route v.wired x n) (same_frame s.route.bridge) (inl λ h. h)
Step-IsAlive {s} (writes x n file) v =
    inside-IsAlive s (record s.route { acts = (control_write x n s.route).1 }) v
      (writes-IsWired s.route v.wired x n) (same_frame s.route.bridge) (inl λ h. h)
Step-IsAlive {s} (interrupts pending handler may) v =
    let (frame, bound) = irq-SameFrame s.route pending in
    inside-IsAlive s (bridge_irq pending s.route) v (irq-IsWired s.route v.wired pending) frame
      (inl λ h. sym bound ∙ h)
Step-IsAlive {s} (wakeups x i input slot queue event at waits told) v =
    let (frame, bound) = wakeup-SameFrame x i input event slot.epoch s.route in
    inside-IsAlive s (call_wakeup x i input event slot.epoch s.route) v
      (wakeup-IsWired s.route v.wired x i input event slot.epoch) frame (inl λ h. sym bound ∙ h)
Step-IsAlive {s} (releases file) v = releases-IsAlive s v file
Step-IsAlive {s} (closes file) v = closes-IsAlive s v file
Step-IsAlive {s} (puts_file due) v = puts-IsAlive s v due
Step-IsAlive {s} (deregisters on) v = deregisters-IsAlive s v
Step-IsAlive {s} (drains off driver) v = drains-IsAlive s v off driver

All-replicate {ℓ κ} : {A : Type ℓ} (P : A → Type κ) (n : ℕ) (a : A) → P a → All P (replicate n a)
All-replicate P zero a h = tt
All-replicate P (suc n) a h = (h, All-replicate P n a h)

loaded-IsAlive : (mailbox network : Bool) → IsAlive (loaded mailbox network)
unfolding probed
loaded-IsAlive mailbox network = record {
  wired = record {
    size = refl;
    balanced = λ w. refl;
    irq = refl;
    unbound = λ h. All-replicate IsEmpty io_queues no_slot (refl, refl, refl, refl);
    whole = All-replicate IsWhole io_queues no_slot (inl (refl, refl, refl, refl));
    control = λ h. refl;
  };
  counted = refl;
  admitted = refl;
  dead = refl;
  handled = refl;
  driven = λ h. refl;
  bound = λ h. refl;
  idle = λ i h. ground (arith, h);
  freed = refl;
}

-- Whatever was called, interrupted, closed or removed since the probe, and in whatever order, the
-- invariant holds.
pub Reach-IsAlive : {mailbox network : Bool} {s : System} → Reach mailbox network s → IsAlive s
Reach-IsAlive {mailbox} {network} start = loaded-IsAlive mailbox network
Reach-IsAlive (later r step) = Step-IsAlive step (Reach-IsAlive r)
