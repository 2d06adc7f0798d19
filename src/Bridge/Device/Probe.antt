-- ===== src/Bridge/Device/Probe.antt =====
-- `bridge_probe`, with the device tree and the kernel's answers as its input.
use hype_r_io_vm.Base.{
  ℕ, ◌+◌, ◌≡◌, ◌⊎◌, Bool, true, false, ◌&&◌, ◌||◌, not, Option, none, some, List, [], ◌∷◌, ◌==◌,
  ltb, leb, on_option, if◌then◌else◌, arith,
}
use hype_r_io_vm.Bridge.State.{Bridge, probed}

-- The device and what the kernel answers: the memory resource's size, whether it is mapped, the
-- first two registers, the IRQ, the properties of the node, and whether the name is allocated and the
-- device registered. `client` and `is_network` are none when the property cannot be read.
pub record Node : Type 0 where
  pub mailbox : Bool
  pub allocated : Bool
  pub size : Option ℕ
  pub mapped : Bool
  pub identity : ℕ
  pub version : ℕ
  pub irq : Bool
  pub requested : Bool
  pub has_client : Bool
  pub client : Option ℕ
  pub has_kind : Bool
  pub is_network : Option Bool
  pub named : Bool
  pub published : Bool

pub data Event : Type 0 where
  allocate free_bridge request_irq free_irq name_device register : Event

pub data Probe : Type 0 where
  probe_done no_memory wrong_resource unmapped wrong_device no_irq irq_refused wrong_node
        unregistered :
      Probe

abbrev pub Probed : Type 0
Probed = Probe × Option Bridge × List Event

-- The labels `fail` and `free_irq`.
abbrev pub fail : Probe → List Event → Probed
fail e t = (e, none, free_bridge ∷ t)

abbrev pub fail_irq : Probe → List Event → Probed
fail_irq e t = fail e (free_irq ∷ t)

-- From the name on; `network` is the field that the properties set.
unfoldable pub publish : Node → Bool → List Event → Probed
publish x network t =
    if not x.named
    then fail_irq no_memory t
    else if not x.published
    then fail_irq unregistered (name_device ∷ t)
    else (probe_done, some (probed x.mailbox network), register ∷ name_device ∷ t)

-- The block that reads `hyper,client-id` and `hyper,device-kind`.
unfoldable pub read_node : Node → List Event → Probed
read_node x t =
    let kind_ok = not x.mailbox && on_option x.is_network false (λ n. n) in
    if not x.has_client
    then publish x false t
    else if on_option x.client true (λ c. leb 128 c)
    then fail_irq wrong_node t
    else if x.has_kind
    then if kind_ok then publish x true t else fail_irq wrong_node t
    else publish x false t

abbrev pub magic : Bool → ℕ
magic mailbox = if mailbox then 0x48594d42 else 0x48594e42

unfoldable pub bridge_probe : Node → Probed
bridge_probe x =
    let t = allocate ∷ [] in
    if not x.allocated
    then (no_memory, none, [])
    else if on_option x.size true (λ n. ltb n 4096)
    then fail wrong_resource t
    else if not x.mapped
    then fail unmapped t
    else if (x.mailbox || not x.has_client)
        && (not (x.identity == magic x.mailbox) || not (x.version == 1))
    then fail wrong_device t
    else if not x.irq
    then fail no_irq t
    else if not x.requested
    then fail irq_refused t
    else read_node x (request_irq ∷ t)

abbrev is_event : Event → Event → Bool
is_event allocate allocate = true
is_event free_bridge free_bridge = true
is_event request_irq request_irq = true
is_event free_irq free_irq = true
is_event name_device name_device = true
is_event register register = true
is_event _ _ = false

abbrev pub times : Event → List Event → ℕ
times e [] = 0
times e (d ∷ t) = if is_event e d then 1 + times e t else times e t

-- After a probe: it left a bridge exactly when it is registered, with its handler and its memory, and
-- then of a kind that the node allows; or it freed what it allocated, as the last thing, and the
-- handler that it requested.
abbrev pub IsSettled : Node → Probed → Type 0
IsSettled x (e, some b, t) =
    (e ≡ probe_done)
    × ((b ≡ probed x.mailbox false)
        ⊎ ((b ≡ probed x.mailbox true) × (x.mailbox ≡ false) × (x.has_client ≡ true)))
    × (times register t ≡ 1)
    × (times request_irq t ≡ 1)
    × (times free_irq t ≡ 0)
    × (times allocate t ≡ 1)
    × (times free_bridge t ≡ 0)
IsSettled x (e, none, t) =
    (times register t ≡ 0)
    × (times request_irq t ≡ times free_irq t)
    × (times allocate t ≡ times free_bridge t)
    × ((t ≡ []) ⊎ ((u : List Event) × (t ≡ free_bridge ∷ u)))

-- Whatever the node holds and whatever fails.
pub bridge_probe-IsSettled : (x : Node) → IsSettled x (bridge_probe x)
unfolding bridge_probe read_node publish
bridge_probe-IsSettled x = ground arith
