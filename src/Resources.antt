-- ===== src/Resources.antt =====
-- The resource limits: include/hyper_network.h, whose numbers arrive as text, and
-- include/hyper_scsi_resources.h. A text is the list of its bytes before the terminating zero.
pub mod Number
pub mod Mac
use hype_r_io_vm.Base.{
  ℕ, ◌+◌, ◌-◌, ◌*◌, ◌/◌, ◌%◌, ◌^◌, Bool, ◌&&◌, ◌||◌, Option, none, some, List, [], ◌∷◌, ◌==◌, ltb,
  leb, nonzero, on_option, not, length, get_or, bit_and, zero, suc, drop, if◌then◌else◌,
}
use hype_r_io_vm.Service.State.{NetworkResources}

abbrev pub int_max : ℕ
int_max = 2 ^ 31 - 1

-- The loop of `hyper_network_resource_number`; '0' is 48 and '9' is 57.
unfoldable pub digits : ℕ → List ℕ → Option ℕ
digits result [] = some result
digits result (c ∷ text) =
    let digit = c - 48 in
    let rest = digits ((result * 10 + digit) % 2 ^ 32) text in
    if ltb c 48 || ltb 57 c
    then none
    else if ltb ((int_max - digit) / 10) result
    then none
    else rest

unfoldable pub hyper_network_resource_number : List ℕ → Option ℕ
hyper_network_resource_number [] = none
hyper_network_resource_number (c ∷ text) = digits 0 (c ∷ text)

-- HYPER_NET_RX_BACKLOG_MAX and HYPER_NET_TX_BUFFER_MIN.
abbrev pub rx_backlog_max : ℕ
rx_backlog_max = 65536

abbrev pub tx_buffer_min : ℕ
tx_buffer_min = 65536

unfoldable pub hyper_network_resources_parse : List ℕ → List ℕ → Option NetworkResources
hyper_network_resources_parse rx tx = on_option (hyper_network_resource_number rx) none λ packets.
    on_option (hyper_network_resource_number tx) none λ bytes.
      if packets == 0 || ltb rx_backlog_max packets || (nonzero bytes && ltb bytes tx_buffer_min)
      then none
      else some (record { rx_backlog_packets = packets; tx_buffer_bytes = bytes })

-- HYPER_SCSI_REQUEST_QUEUES is 4.
unfoldable pub hyper_scsi_resources_valid : ℕ → ℕ → Bool
hyper_scsi_resources_valid queues sg = leb 1 queues && leb queues 4 && leb 2 sg && leb sg 2048

-- One hexadecimal digit; 'a' is 97 and 'f' is 102.
unfoldable pub hex_digit : ℕ → Option ℕ
hex_digit c =
    if leb 48 c && leb c 57
    then some (c - 48)
    else if leb 97 c && leb c 102
    then some (c - 97 + 10)
    else none

-- The loop over `left` bytes of an address; ':' is 58.
unfoldable pub mac_bytes : ℕ → List ℕ → Option (List ℕ)
mac_bytes zero text = some []
mac_bytes (suc left) text =
    let rest = mac_bytes left (drop 3 text) in
    on_option (hex_digit (get_or text 0 0)) none λ high.
      on_option (hex_digit (get_or text 1 0)) none λ low.
        if nonzero left && not (get_or text 2 0 == 58)
        then none
        else on_option rest none λ bytes. some ((high * 16 + low) ∷ bytes)

-- Only locally administered unicast addresses are taken.
unfoldable pub hyper_mac_parse : List ℕ → Option (List ℕ)
hyper_mac_parse text =
    if not (length text == 17)
    then none
    else on_option (mac_bytes 6 text) none
        λ mac. if bit_and (get_or mac 0 0) 3 == 2 then some mac else none
