-- ===== src/Bridge/Device/Freed.antt =====
-- A bridge is freed once, by the last who holds it, with nothing left taken.
use hype_r_io_vm.Base.{
  ℕ, zero, suc, ◌+◌, ◌-◌, ◌==◌, ◌≡◌, ◌≢◌, ◌⊎◌, inl, inr, refl, sym, ap, ◌∙◌, Bool, true, false,
  none, some, List, [], ◌∷◌, All, arith, Bool-cases, get_elem?,
}
use hype_r_io_vm.Bridge.State.{Resource, Slot, Route}
use hype_r_io_vm.Bridge.Notification.Account.{IsEmpty, taken, dropped, slots_hold, slots_hold_none}
use hype_r_io_vm.Bridge.Notification.Wired.{IsWired}
use hype_r_io_vm.Bridge.Device.{
  wakeups, silence, release_route, clear_opened, mark_dead, put_reference, File, no_file, open_file,
  quiet_file, System, kref_put, Step, opens, refuses, commands, reads, writes, interrupts, releases,
  closes, puts_file, deregisters, drains, Reach,
}
use hype_r_io_vm.Bridge.Device.Holders.{count, file_count, IsAlive, held-freed}
use hype_r_io_vm.Bridge.Device.Lifetime.{Step-IsAlive, Reach-IsAlive}

get_elem?-IsEmpty :
    (ss : List Slot) (i : ℕ) (s : Slot) → get_elem? ss i ≡ some s → All IsEmpty ss → s.queue ≡ none
get_elem?-IsEmpty [] i s h e = absurd (ground (arith, h))
get_elem?-IsEmpty (r ∷ ss) zero s h (e, es) = let queue = e.3 in ground (arith, h, queue)
get_elem?-IsEmpty (r ∷ ss) (suc i) s h (e, es) = get_elem?-IsEmpty ss i s h es

-- A step is made by one who holds the bridge.
Step-held : {s t : System} → IsAlive s → Step s t → s.route.bridge.references ≢ 0
Step-held {s} v step = λ z.
    let counted = v.counted in
    let bare : (count s.driver ≡ 0) × (file_count s.file ≡ 0) × (s.puts ≡ 0) =
      omega (arith, counted, z) in
    unmoved step bare
  where
    unmoved :
        {t : System} → Step s t → (count s.driver ≡ 0) × (file_count s.file ≡ 0) × (s.puts ≡ 0) → ⊥
    unmoved (opens on h) (d, f, p) = omega (arith, d, ap count (v.driven on))
    unmoved (refuses on h) (d, f, p) = omega (arith, d, ap count (v.driven on))
    unmoved (commands x c file) (d, f, p) = omega (arith, f, ap file_count file)
    unmoved (reads x n file) (d, f, p) = omega (arith, f, ap file_count file)
    unmoved (writes x n file) (d, f, p) = omega (arith, f, ap file_count file)
    unmoved (interrupts pending handler may) (d, f, p) =
        omega (arith, d, ap count (sym v.handled ∙ handler))
    unmoved (wakeups x i input slot queue event at waits told) (d, f, p) =
        let bound = v.bound in
        let free : s.route.bridge.bound ≡ false = ground (arith, bound, d) in
        let empty = get_elem?-IsEmpty s.route.bridge.slots i slot at (v.wired.unbound free) in
        absurd (ground (arith, empty, waits))
    unmoved (releases file) (d, f, p) = omega (arith, f, ap file_count file)
    unmoved (closes file) (d, f, p) = omega (arith, f, ap file_count file)
    unmoved (puts_file due) (d, f, p) = due p
    unmoved (deregisters on) (d, f, p) = omega (arith, d, ap count (v.driven on))
    unmoved (drains off driver) (d, f, p) = omega (arith, d, ap count driver)

-- No call, interrupt, release or removal touches a bridge that is freed, in any order of them; in
-- particular it is freed once.
pub Step-freed :
    {mailbox network : Bool} {s t : System} → Reach mailbox network s → Step s t → s.freed ≡ false
Step-freed {mailbox} {network} {s} r step =
    let v = Reach-IsAlive r in held-freed s v (Step-held v step)

slots_hold_empty :
    (w : Resource → ℕ) (r : Route)
    → IsWired r
    → r.bridge.bound ≡ false
    → slots_hold w r.bridge.slots ≡ 0
slots_hold_empty w r v free = slots_hold_none w r.bridge.slots (v.unbound free)

-- When a bridge is freed, every reference, wait queue entry and enabled IRQ that was taken for it
-- has been given back.
pub freed-taken :
    {mailbox network : Bool} {s : System}
    → Reach mailbox network s
    → s.freed ≡ true
    → (w : Resource → ℕ) → taken w s.route.acts ≡ dropped w s.route.acts
freed-taken {mailbox} {network} {s} r gone w =
    let v = Reach-IsAlive r in
    let counted = v.counted in
    let fate = v.freed in
    let none_held : s.route.bridge.references ≡ 0 = ground (arith, fate, gone) in
    let bare : count s.driver ≡ 0 = omega (arith, counted, none_held) in
    let bound = v.bound in
    let free : s.route.bridge.bound ≡ false = ground (arith, bound, bare) in
    let off = v.wired.irq in
    let empty = slots_hold_empty w s.route v.wired free in
    let balanced = v.wired.balanced w in ground (arith, balanced, empty, off, free)

-- Steps, one after another.
pub data Run : System → System → Type 0 where
  stop : {s : System} → Run s s
  go : {s t u : System} → Step s t → Run t u → Run s u

-- There are steps that free the bridge.
abbrev pub CanEnd : System → Type 0
CanEnd s = (t : System) × Run s t × (t.freed ≡ true)

Step-CanEnd : {s t : System} → Step s t → CanEnd t → CanEnd s
Step-CanEnd step (u, run, gone) = (u, go step run, gone)

puts-CanEnd :
    (n : ℕ) (s : System) → IsAlive s → s.puts ≡ n → s.driver ≡ false → s.file ≡ no_file → CanEnd s
unfolding kref_put put_reference
puts-CanEnd zero s v p d f =
    let counted = v.counted in
    let fate = v.freed in
    let bare = ap count d in
    let alone = ap file_count f in
    let none_held : s.route.bridge.references ≡ 0 = omega (arith, counted, p, bare, alone) in
    (s, stop, fate ∙ ap (λ k. k == 0) none_held)
puts-CanEnd (suc n) s v p d f =
    let t = kref_put (record s { puts = s.puts - 1 }) in
    let step : Step s t = puts_file (λ z. omega (arith, z, p)) in
    Step-CanEnd step (puts-CanEnd n t (Step-IsAlive step v) (omega (arith, p)) d f)

file-CanEnd : (f : File) (s : System) → IsAlive s → s.driver ≡ false → s.file ≡ f → CanEnd s
file-CanEnd no_file s v d f = puts-CanEnd s.puts s v refl d f
file-CanEnd quiet_file s v d f =
    let t = record s { route = clear_opened s.route; file = no_file; puts = s.puts + 1 } in
    let step : Step s t = closes f in
    Step-CanEnd step (puts-CanEnd (s.puts + 1) t (Step-IsAlive step v) refl d refl)
file-CanEnd open_file s v d f =
    let t = record s { route = release_route s.route; file = quiet_file } in
    let step : Step s t = releases f in
    let w = Step-IsAlive step v in
    let t' = record t { route = clear_opened t.route; file = no_file; puts = t.puts + 1 } in
    let step' : Step t t' = closes refl in
    Step-CanEnd step
      (Step-CanEnd step' (puts-CanEnd (s.puts + 1) t' (Step-IsAlive step' w) refl d refl))

driver-CanEnd : (s : System) → IsAlive s → s.registered ≡ false → CanEnd s
driver-CanEnd s v off = elim (Bool-cases s.driver) [
  | inl d ↦
      let t = record s {
        route = silence s.route;
        driver = false;
        handler = false;
        puts = s.puts + 1;
      } in
      let step : Step s t = drains off d in
      Step-CanEnd step (file-CanEnd s.file t (Step-IsAlive step v) refl refl)
  | inr d ↦ file-CanEnd s.file s v d refl
]

-- From every state that the calls can lead to, the removal and the release of the file still lead to
-- the bridge being freed: no order of calls leaks it.
pub Reach-CanEnd : {mailbox network : Bool} {s : System} → Reach mailbox network s → CanEnd s
Reach-CanEnd {mailbox} {network} {s} r = elim (Bool-cases s.registered) [
  | inl on ↦
      let t = record s { route = mark_dead s.route; registered = false } in
      let step : Step s t = deregisters on in
      Step-CanEnd step (driver-CanEnd t (Step-IsAlive step (Reach-IsAlive r)) refl)
  | inr off ↦ driver-CanEnd s (Reach-IsAlive r) off
]

-- Whatever was called, interrupted, woken, closed or removed since the probe, and in whatever
-- order: either the bridge is not freed, and there are steps that free it; or it is freed, no
-- step can touch it any more, and every reference, wait queue entry and enabled IRQ taken for it
-- has been given back, as often as it was taken.
pub bridge_lifetime :
    {mailbox network : Bool} {s : System}
    → Reach mailbox network s
    → ((s.freed ≡ false) × CanEnd s)
      ⊎ ((s.freed ≡ true)
          × ((t : System) → ¬ Step s t)
          × ((w : Resource → ℕ) → taken w s.route.acts ≡ dropped w s.route.acts))
bridge_lifetime {mailbox} {network} {s} r = elim (Bool-cases s.freed) [
  | inl gone ↦ inr (
    gone,
    (λ t step. let live = Step-freed r step in ground (arith, gone, live)),
    freed-taken r gone,
  )
  | inr live ↦ inl (live, Reach-CanEnd r)
]
