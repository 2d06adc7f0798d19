-- ===== src/Session/Order.antt =====
-- What `hyper_io_session_admit` keeps of the order of bindings and epochs.
use hype_r_io_vm.Base.{ℕ, ◌-◌, ◌^◌, ◌≤◌, ◌<◌, ◌≡◌, ◌≢◌, ◌⊎◌, Bool, true, false, arith}
use hype_r_io_vm.Session.{Session, Admission, refused, same, rebound, admit, epoch_of}

-- A binding and an epoch that are not zero, an epoch below 2 ^ 32, and one of the two devices.
pub record IsUsable (binding epoch device : ℕ) : Type 0 where
  pub bound : 0 < binding
  pub started : 0 < epoch
  pub fits : epoch < 2 ^ 32
  pub device_known : device ≤ 1

-- Why a usable admission is refused: another binding without a HELLO to an idle service, or not
-- above the session's; or the session's binding with an epoch below the device's.
abbrev pub IsLate : Session → ℕ → ℕ → Bool → Bool → ℕ → Type 0
IsLate s binding epoch hello idle device =
    ((s.binding ≢ binding) × ((hello ≡ false) ⊎ (idle ≡ false)))
    ⊎ (binding < s.binding)
    ⊎ ((s.binding ≡ binding) × (epoch < epoch_of s device))

-- What each result of an admission means, the session it leaves included.
abbrev pub Admits : Session → ℕ → ℕ → Bool → Bool → ℕ → Admission → Session → Type 0
Admits s binding epoch hello idle device refused t =
    (t ≡ s) × ((¬ IsUsable binding epoch device) ⊎ IsLate s binding epoch hello idle device)
Admits s binding epoch hello idle device same t =
    (t ≡ s) × IsUsable binding epoch device × (s.binding ≡ binding) × (epoch_of s device ≤ epoch)
Admits s binding epoch hello idle device rebound t =
    IsUsable binding epoch device
    × (s.binding < binding)
    × (hello ≡ true)
    × (idle ≡ true)
    × (t.binding ≡ binding)
    × (t.retired ≡ false)
    × (epoch_of t device ≡ epoch)
    × (epoch_of t (1 - device) ≡ 0)

-- An admission is refused, and leaves the session, where the binding or the epoch is zero, the
-- epoch is 2 ^ 32 or more or the device is neither of the two, or where `IsLate` says so:
-- another binding without a HELLO to an idle service, a lower binding, or the session's binding
-- with an epoch below the device's. Otherwise it keeps a session that has the binding, or
-- rebinds to a higher one: a session that is not retired, with the epoch for the device and
-- epoch zero for the other.
pub admit-Admits :
    (s : Session) (binding epoch : ℕ) (hello idle : Bool) (device : ℕ)
    → let (a, t) = admit s binding epoch hello idle device in
      Admits s binding epoch hello idle device a t
unfolding admit
admit-Admits s binding epoch hello idle device = ground arith
