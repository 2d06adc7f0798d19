-- ===== src/Session.antt =====
-- The client session of include/hyper_io_session.h: one binding per client, one epoch per device,
-- and the flag that RELEASE_MEMORY sets.
pub mod Order
use hype_r_io_vm.Base.{
  ℕ, ◌-◌, ◌^◌, Bool, true, false, ◌&&◌, ◌||◌, not, ltb, leb, ◌==◌, if◌then◌else◌,
}

-- `struct hyper_io_session`: `epoch[0]` is the storage device's, `epoch[1]` the network device's.
pub record Session : Type 0 where
  pub binding : ℕ  -- uint64_t
  pub epoch_disk : ℕ  -- uint64_t
  pub epoch_net : ℕ  -- uint64_t
  pub retired : Bool

-- `struct hyper_io_session session = {0}`
unfoldable pub fresh : Session
fresh = record { binding = 0; epoch_disk = 0; epoch_net = 0; retired = false }

abbrev pub uint32_max : ℕ
uint32_max = 2 ^ 32 - 1

-- The two elements of `epoch[2]`; the code indexes it by `device`, 0 or 1.
abbrev pub epoch_of : Session → ℕ → ℕ
epoch_of s device = if device == 0 then s.epoch_disk else s.epoch_net

abbrev pub set_epoch : Session → ℕ → ℕ → Session
set_epoch s device e =
    if device == 0 then record s { epoch_disk = e } else record s { epoch_net = e }

-- The results -1, 0 and 1 of `hyper_io_session_admit`.
pub data Admission : Type 0 where
  refused same rebound : Admission

unfoldable pub admit : Session → ℕ → ℕ → Bool → Bool → ℕ → Admission × Session
admit s binding epoch hello idle device =
    if binding == 0 || epoch == 0 || ltb uint32_max epoch || ltb 1 device
    then (refused, s)
    else if not (s.binding == binding)
    then (if not hello || not idle || leb binding s.binding then (refused, s) else (
      rebound,
      set_epoch (record { binding = binding; epoch_disk = 0; epoch_net = 0; retired = false })
          device epoch,
    ))
    else if ltb epoch (epoch_of s device)
    then (refused, s)
    else (same, s)

unfoldable pub preparable : Session → Bool
preparable s = not (s.binding == 0) && not s.retired

unfoldable pub retire : Session → Session
retire s = record s { retired = true }
