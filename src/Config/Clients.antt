-- ===== src/Config/Clients.antt =====
-- `hyper_clients_read`
pub mod Inventory
use hype_r_io_vm.Base.{
  ℕ, zero, suc, ◌+◌, Bool, true, false, ◌&&◌, ◌||◌, not, Option, none, some, is_some, on_option,
  List, [], ◌∷◌, ◌++◌, length, ◌==◌, leb, if◌then◌else◌,
}
use hype_r_io_vm.BlockPolicy.{block_clients}
use hype_r_io_vm.Resources.{
  hyper_network_resources_parse, hyper_scsi_resources_valid, hyper_mac_parse,
}
use hype_r_io_vm.Service.State.{NetworkResources}
use hype_r_io_vm.Config.{Text, same, is_digit, is_lower, all_digits, has_newline}

-- `struct hyper_client`
pub record Client : Type 0 where
  pub id : ℕ
  pub request_queues : ℕ
  pub sg_prealloc : ℕ
  pub net_resources : NetworkResources
  pub network : Text
  pub mac : Text

pub data Version : Type 0 where
  v3 v4 v5 : Version

-- The file and the C library. `fields` is the list of the conversions that `sscanf` made with the
-- format of a version, as many as it returned.
pub record Input : Type 0 where
  pub opened : Bool
  pub lines : List Text
  pub failed : Bool
  pub fields : Version → Text → List Text
  pub strtoul : Text → ℕ

-- "hyper.clients.v5\n", "hyper.clients.v4\n" and "hyper.clients.v3\n"
abbrev pub header : ℕ → Text
header digit =
    104 ∷ 121 ∷ 112 ∷ 101 ∷ 114 ∷ 46 ∷ 99 ∷ 108 ∷ 105 ∷ 101 ∷ 110 ∷ 116 ∷ 115 ∷ 46 ∷ 118 ∷ digit
    ∷ 10 ∷ []

unfoldable pub version_of : Text → Option Version
version_of line =
    if same line (header 53)
    then some v5
    else if same line (header 52)
    then some v4
    else if same line (header 51)
    then some v3
    else none

-- The loop of `network_name`; '-' is 45.
unfoldable pub name_rest : Text → Bool
name_rest [] = true
name_rest (c ∷ name) = (is_lower c || is_digit c || c == 45) && name_rest name

unfoldable pub network_name : Text → Bool
network_name [] = false
network_name (c ∷ name) = is_lower c && name_rest (c ∷ name)

-- "-"
abbrev pub dash : Text
dash = 45 ∷ []

-- HYPER_SCSI_REQUEST_QUEUES, HYPER_SCSI_SG_PREALLOC and HYPER_NET_RX_BACKLOG_PACKETS.
abbrev pub default_resources : NetworkResources
default_resources = record { rx_backlog_packets = 1000; tx_buffer_bytes = 0 }

-- The checks of one line that do not look at the clients before it.
unfoldable pub check_client : ℕ → Text → Client → Option Client
check_client number id c =
    let networked = not (same c.network dash) in
    let result : Client = record c { id = number } in
    if not (all_digits id) || leb block_clients number
    then none
    else if networked
        && (number == 0 || not (network_name c.network) || not (is_some (hyper_mac_parse c.mac)))
    then none
    else if not networked && not (same c.mac dash)
    then none
    else some result

abbrev pub plain : Text → Text → Client
plain network mac = record {
  id = 0;
  request_queues = 4;
  sg_prealloc = 128;
  net_resources = default_resources;
  network = network;
  mac = mac;
}

-- The SCSI resources of versions 4 and 5.
unfoldable pub check_scsi : Input → Text → Text → Client → Option Client
check_scsi x queues sg c =
    let q = x.strtoul queues in
    let s = x.strtoul sg in
    if not (all_digits queues) || not (all_digits sg) || not (hyper_scsi_resources_valid q s)
    then none
    else some (record c { request_queues = q; sg_prealloc = s })

-- One line, by the fields that it has.
unfoldable pub parse_fields : Input → Version → List Text → Option Client
parse_fields x v3 (id ∷ network ∷ mac ∷ []) = check_client (x.strtoul id) id (plain network mac)
parse_fields x v4 (id ∷ network ∷ mac ∷ queues ∷ sg ∷ []) =
    on_option (check_scsi x queues sg (plain network mac)) none (check_client (x.strtoul id) id)
parse_fields x v5 (id ∷ network ∷ mac ∷ queues ∷ sg ∷ rx ∷ tx ∷ []) =
    on_option (hyper_network_resources_parse rx tx) none λ r.
      on_option (check_scsi x queues sg (record (plain network mac) { net_resources = r })) none
        (check_client (x.strtoul id) id)
parse_fields x _ _ = none

-- The loop over the clients before a new one.
unfoldable pub clashes : Client → List Client → Bool
clashes c [] = false
clashes c (d ∷ l) = d.id == c.id || (not (same c.network dash) && same d.mac c.mac) || clashes c l

-- The loop over the lines, with the clients so far and the number of owners.
unfoldable pub read_clients : Input → Version → List Text → List Client → ℕ → Option (List Client)
read_clients x v [] clients owner = if x.failed || not (owner == 1) then none else some clients
read_clients x v (line ∷ lines) clients owner =
    if length clients == block_clients || not (has_newline line)
    then none
    else on_option (parse_fields x v (x.fields v line)) none λ c.
      let rest =
        read_clients x v lines (clients ++ c ∷ []) (if c.id == 0 then owner + 1 else owner) in
      if clashes c clients then none else rest

unfoldable pub read_file : Input → List Text → Option (List Client)
read_file x [] = none
read_file x (line ∷ lines) = on_option (version_of line) none λ v. read_clients x v lines [] 0

unfoldable pub hyper_clients_read : Input → Option (List Client)
hyper_clients_read x = if x.opened then read_file x x.lines else none
