-- ===== src/Service/Tap.antt =====
-- `open_tap`, `create_tap` and `probe_network` of service/network.c.
use hype_r_io_vm.Base.{
  ℕ, Bool, false, Option, none, some, List, [], ◌∷◌, nonzero, on_option, if◌then◌else◌,
}
use hype_r_io_vm.Service.Calls.{
  Kernel, Call, chain, open_device, net_tun, tun_attach, tun_header_size, tun_little_endian,
  tun_offload, tun_send_buffer, interface_index, control_socket, set_queue_length, bridge_add,
  interface_flags, interface_up, close_descriptor, close_some,
}
use hype_r_io_vm.Service.State.{Backend, World}

-- `sizeof(struct virtio_net_hdr_v1)`
abbrev pub vnet_header_size : ℕ
vnet_header_size = 12

-- TUNSETSNDBUF is sent for a finite budget alone.
abbrev pub send_buffer_calls : Option ℕ → ℕ → List Call
send_buffer_calls tap bytes = if nonzero bytes then tun_send_buffer tap bytes ∷ [] else []

abbrev pub tap_calls : Option ℕ → ℕ → List Call
tap_calls tap bytes =
    tun_attach tap
    ∷ tun_header_size tap vnet_header_size
    ∷ tun_little_endian tap 1
    ∷ tun_offload tap 0
    ∷ send_buffer_calls tap bytes

unfoldable pub open_tap : Kernel → World → Bool × World
open_tap k w =
    let b = w.backend in
    let opened = open_device net_tun in
    let t1 = opened ∷ w.trace in
    on_option (k.number w.trace opened)
      (false, record { backend = record b { tap = none }; trace = t1 })
      λ fd.
        let (done, t2) = chain k (tap_calls (some fd) b.net_resources.tx_buffer_bytes) t1 in
        (done, record { backend = record b { tap = some fd }; trace = t2 })

unfoldable pub probe_network : Kernel → World → Bool × World
probe_network k w =
    let (done, w') = open_tap k w in
    let b = w'.backend in
    (done, record { backend = record b { tap = none }; trace = close_some b.tap w'.trace })

-- The ioctls on the control socket: the queue length goes first, before any packet can arrive.
abbrev pub link_calls : ℕ → Backend → ℕ → List Call
link_calls socket b index =
    set_queue_length socket b.net_resources.rx_backlog_packets
    ∷ bridge_add socket b.bridge index
    ∷ interface_flags socket
    ∷ interface_up socket
    ∷ []

unfoldable pub link_tap : Kernel → World → Bool × World
link_tap k w =
    let t1 = interface_index ∷ w.trace in
    on_option (k.number w.trace interface_index) (false, record w { trace = t1 })
      λ index.
        let t2 = control_socket ∷ t1 in
        on_option (k.number t1 control_socket) (false, record w { trace = t2 })
          λ socket.
            let (done, t3) = chain k (link_calls socket w.backend index) t2 in
            (done, record w { trace = close_descriptor socket ∷ t3 })

unfoldable pub create_tap : Kernel → World → Bool × World
create_tap k w = let (opened, w1) = open_tap k w in if opened then link_tap k w1 else (false, w1)
