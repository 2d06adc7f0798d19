-- ===== src/Examples/Routes.antt =====
-- A route that is opened, bound, removed and released, and a mailbox that is waited on and read.
use hype_r_io_vm.Base.{
  ℕ, ◌+◌, ◌≡◌, ◌≢◌, ◌⊎◌, refl, true, false, some, [], ◌∷◌, arith, ◌==◌, if◌then◌else◌,
}
use hype_r_io_vm.Bridge.Eventfds.{minus_one, number, Eventfds}
use hype_r_io_vm.Bridge.State.{Resource, Route, probed}
use hype_r_io_vm.Bridge.Notification.{Answers, bind, notification_ioctl}
use hype_r_io_vm.Bridge.Notification.Account.{taken, dropped}
use hype_r_io_vm.Bridge.Notification.Wired.{IsWired, notification_ioctl-IsWired}
use hype_r_io_vm.Bridge.Mailbox.{Turn, Meeting, asleep, wait_status, control_read, control_write}
use hype_r_io_vm.Bridge.Mailbox.Records.{IsTaken, IsSent, wait_status_ends, mailbox_exact}
use hype_r_io_vm.Bridge.Mailbox.Waiting
use hype_r_io_vm.Bridge.Mailbox.Waiting.{Mailbox, looking, looked, sampled, sleeping}
use hype_r_io_vm.Bridge.Device
use hype_r_io_vm.Bridge.Device.{
  bridge_open, release_route, silence, clear_opened, mark_dead, put_reference, open_file,
  quiet_file, no_file, System, kref_put, with_route, loaded, opens, commands, releases, closes,
  puts_file, deregisters, drains,
}
use hype_r_io_vm.Bridge.Device.Lifetime.{Reach-IsAlive}
use hype_r_io_vm.Bridge.Device.Freed.{CanEnd, bridge_lifetime}

-- Every lookup gives a number of its own, and the registers hold the epoch 7 and no error.
abbrev answers : Answers
answers = record {
  copied_in = true;
  copied_out = true;
  register = λ t offset. if offset == 8 then 7 else 0;
  kick = λ i. some (i + 10);
  file = λ i. some (i + 20);
  event = λ i. some (i + 30);
  queue = λ i. some (i + 40);
  ready = λ i. true;
  count = λ i. i;
}

-- A network route, which has two queues.
abbrev fds : Eventfds
fds = record {
  epoch = 7;
  reserved = 0;
  fds =
      (number 3, number 4)
      ∷ (number 5, number 6)
      ∷ (minus_one, minus_one)
      ∷ (minus_one, minus_one)
      ∷ (minus_one, minus_one)
      ∷ (minus_one, minus_one)
      ∷ [];
}

abbrev opened : System
opened = record (loaded false true) {
  route = (bridge_open (loaded false true).route).1;
  file = open_file;
}

abbrev wired : System
wired = with_route (notification_ioctl answers (bind fds) opened.route).2 opened

abbrev removed : System
removed = record wired { route = mark_dead wired.route; registered = false }

abbrev quiet : System
quiet = record removed { route = release_route removed.route; file = quiet_file }

abbrev closed : System
closed = record quiet { route = clear_opened quiet.route; file = no_file; puts = quiet.puts + 1 }

abbrev drained : System
drained = record closed {
  route = silence closed.route;
  driver = false;
  handler = false;
  puts = closed.puts + 1;
}

abbrev put_once : System
put_once = kref_put (record drained { puts = 1 })

abbrev gone : System
gone = kref_put (record put_once { puts = 0 })

opened-Reach : Device.Reach false true opened
unfolding bridge_open probed
opened-Reach = Device.later Device.start (opens refl refl)

gone-Reach : Device.Reach false true gone
unfolding kref_put
gone-Reach =
    Device.later
      (Device.later
        (Device.later
          (Device.later
            (Device.later
              (Device.later (Device.later opened-Reach (commands answers (bind fds) refl))
                (deregisters refl))
              (releases refl))
            (closes refl))
          (drains refl refl))
        (puts_file (λ e. omega (arith, e))))
      (puts_file (λ e. omega (arith, e)))

bridge_lifetime_example :
    ((gone.freed ≡ false) × CanEnd gone)
    ⊎ ((gone.freed ≡ true)
        × ((t : System) → ¬ Device.Step gone t)
        × ((w : Resource → ℕ) → taken w gone.route.acts ≡ dropped w gone.route.acts))
bridge_lifetime_example = bridge_lifetime gone-Reach

notification_ioctl-IsWired_example : IsWired (notification_ioctl answers (bind fds) opened.route).2
notification_ioctl-IsWired_example =
    notification_ioctl-IsWired opened.route (Reach-IsAlive opened-Reach).wired answers (bind fds)

-- The mailbox is empty at first and has a record in the third round.
abbrev turns : ℕ → Turn
turns n = record { dead = false; status = if n == 2 then 1 else 0; signalled = false }

wait_status_ends_example : (wait_status 4 turns 1 0 []).0 ≢ asleep
wait_status_ends_example = wait_status_ends 2 4 turns 1 0 [] (omega arith) refl

abbrev meeting : Meeting
meeting = record {
  locked = true;
  fuel = 4;
  turns = turns;
  length = 40;
  sequence = 9;
  word = λ i. i;
  copied = true;
  status = 0;
}

abbrev mailbox_route : Route
mailbox_route = record { bridge = probed true false; acts = [] }

mailbox_exact_example :
    IsTaken meeting 256 mailbox_route.acts (control_read meeting 256 mailbox_route)
    × IsSent 256 mailbox_route.acts (control_write meeting 256 mailbox_route)
mailbox_exact_example = mailbox_exact meeting 256 mailbox_route refl

abbrev asleep_at : Mailbox
asleep_at = record { status = 0; mask = 5; generation = 3; dead = false; point = sleeping 3 }
