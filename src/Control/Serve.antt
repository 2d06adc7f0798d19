-- ===== src/Control/Serve.antt =====
-- `serve` of service/hyper-io-service.c: the control loop of one client. A round of the loop is
-- one read, the admission of its message, a replayed or a fresh reply, and one write. The retries
-- after EINTR are folded into the outcome of the call, and the diagnostics are left out.
pub mod Steps
pub mod Replay
pub mod Safety
pub mod Order
use hype_r_io_vm.Base.{
  ℕ, zero, suc, ◌+◌, ◌*◌, ◌^◌, Bool, true, false, ◌&&◌, ◌||◌, not, Option, none, some, List, [],
  ◌∷◌, ◌==◌, ltb, leb, nonzero, is_some, on_option, length, if◌then◌else◌,
}
use hype_r_io_vm.Session.{
  Session, Admission, refused, same, rebound, admit, set_epoch, fresh, uint32_max,
}
use hype_r_io_vm.Service.State.{World, Backend, Status, invalid, has_target, idle}
use hype_r_io_vm.Control.Op
use hype_r_io_vm.Control.Dispatch.{Body, plain, reply_size, Outside, State, Response, dispatch}
use hype_r_io_vm.Wire.{Header, header_of}

-- HYPER_IO_MAGIC, HYPER_IO_VERSION and HYPER_IO_REPLY.
abbrev pub io_magic : ℕ
io_magic = 827279688

abbrev pub io_version : ℕ
io_version = 3

abbrev pub reply_flag : ℕ
reply_flag = 1

-- `struct hyper_io_network_reply`, with the header of its request.
pub record Reply : Type 0 where
  pub header : Header
  pub status : Status
  pub body : Body

-- The local variables of `serve` with the backend: `remembered` is `previous` and
-- `previous_reply`, or none when `previous_size` is zero.
pub record Server : Type 0 where
  pub session : Session
  pub state : State
  pub last_transaction : ℕ
  pub remembered : Option (List ℕ × Reply)

-- `memcmp`, with the sizes.
unfoldable pub same_bytes : List ℕ → List ℕ → Bool
same_bytes [] [] = true
same_bytes [] (y ∷ ys) = false
same_bytes (x ∷ xs) [] = false
same_bytes (x ∷ xs) (y ∷ ys) = x == y && same_bytes xs ys

unfoldable pub primary : Backend → ℕ
primary b = if b.owner || has_target b then 0 else 1

-- The device whose epoch the request carries.
unfoldable pub device_of : Backend → ℕ → ℕ
device_of b operation =
    if operation == Op.prepare_memory || operation == Op.release_memory
    then primary b
    else if leb Op.network_hello operation && leb operation Op.network_stop_queue
    then 1
    else 0

-- The operation that may rebind the session.
unfoldable pub hello_of : Backend → ℕ
hello_of b =
    if b.owner then Op.block_hello else if nonzero (primary b) then Op.network_hello else Op.hello

-- The tests on a header that end the service.
unfoldable pub well_formed : Header → ℕ → Bool
well_formed h size =
    leb 40 size
    && h.magic == io_magic
    && h.version == io_version
    && h.length == size
    && h.flags == 0
    && nonzero h.binding
    && nonzero h.transaction
    && nonzero h.epoch
    && leb h.epoch uint32_max

unfoldable pub admit_message : Server → List ℕ → Admission × Session
admit_message v m =
    let h = header_of m in
    let b = v.state.world.backend in
    admit v.session h.binding h.epoch (h.operation == hello_of b && length m == 40)
      (if b.managed then idle b else v.session.binding == 0) (device_of b h.operation)

-- An admission that rebinds forgets the transactions of the binding before it.
abbrev pub adopt : Server → Admission × Session → Server
adopt v (rebound, session) = record v { session = session; last_transaction = 0; remembered = none }
adopt v (same, session) = record v { session = session }
adopt v (refused, session) = record v { session = session }

abbrev pub is_admitted : Admission → Bool
is_admitted refused = false
is_admitted same = true
is_admitted rebound = true

-- The reply to an exact repetition of the last message.
unfoldable pub replayed : Server → ℕ → List ℕ → Option Reply
replayed v transaction m = on_option v.remembered none λ (previous, reply).
    if transaction == v.last_transaction && same_bytes previous m then some reply else none

abbrev pub reply_to : Header → Status → Body → Reply
reply_to h status body = record {
  header = record h { length = reply_size body; flags = reply_flag };
  status = status;
  body = body;
}

-- A request that is not replayed.
unfoldable pub answer_fresh : Outside → Bool → List ℕ → Server → Reply × Server
answer_fresh x admitted m v =
    let h = header_of m in
    let device = device_of v.state.world.backend h.operation in
    let ((status, body, state), session) = dispatch x h.operation m v.session v.state in
    let reply = reply_to h status body in
    if admitted && ltb v.last_transaction h.transaction
    then (
      reply,
      record {
        session = set_epoch session device h.epoch;
        state = state;
        last_transaction = h.transaction;
        remembered = some (m, reply);
      },
    )
    else (reply_to h invalid plain, v)

-- The reply, once the message is admitted or refused.
unfoldable pub settle : Outside → Server → List ℕ → Admission × Session → Reply × Server
settle x v m a =
    let w = adopt v a in
    let fresh_answer = answer_fresh x (is_admitted a.0) m w in
    let old = if is_admitted a.0 then replayed w (header_of m).transaction m else none in
    on_option old fresh_answer λ reply. (reply, w)

unfoldable pub respond : Outside → Server → List ℕ → Reply × Server
respond x v m = settle x v m (admit_message v m)

-- What `read` and `write` come to: a message or a whole write, the end of the channel or a
-- signal, an error or a short write.
pub data Outcome : Type 0 where
  done ended broken : Outcome

pub record Round : Type 0 where
  pub outside : Outside
  pub received : Outcome
  pub message : List ℕ
  pub sent : Outcome

-- Whether the loop goes on, or the value that `serve` returns.
pub data Next : Type 0 where
  continue finished failed : Next

unfoldable pub round : Round → Server → Next × Server
round r v =
    let (reply, v') = respond r.outside v r.message in
    elim r.received [
      | ended ↦ (finished, v)
      | broken ↦ (failed, v)
      | done ↦
          if well_formed (header_of r.message) (length r.message)
          then (elim r.sent [ done ↦ continue | ended ↦ finished | broken ↦ failed ], v')
          else (failed, v)
    ]

-- The loop's own test: another round, or the value returned.
abbrev pub go_on : Next → Server → Next × Server → Next × Server
go_on continue v rest = rest
go_on finished v rest = (finished, v)
go_on failed v rest = (failed, v)

unfoldable pub serve : List Round → Server → Next × Server
unfolding round
serve [] v = (continue, v)
serve (r ∷ rs) v = let (next, v') = round r v in let rest = serve rs v' in go_on next v' rest

-- The locals of `serve` at its start.
abbrev pub started : State → Server
started s = record { session = fresh; state = s; last_transaction = 0; remembered = none }
