-- ===== src/Config/Networks.antt =====
-- `hyper_networks_read` and `network_bridge` of service/network-config.c, and the program of
-- service/hyper-networks.c, which makes the bridges.
pub mod Inventory
pub mod Links
use hype_r_io_vm.Base.{
  ℕ, zero, suc, ◌+◌, Bool, true, false, ◌&&◌, ◌||◌, not, Option, none, some, on_option, List, [],
  ◌∷◌, ◌++◌, length, ◌==◌, if◌then◌else◌,
}
use hype_r_io_vm.Config.{Text, same, is_digit, is_lower, is_upper, has_newline}

-- `struct hyper_network`
pub record Network : Type 0 where
  pub name : Text
  pub bridge : Text
  pub uplink : Text

-- HYPER_MAX_NETWORKS
abbrev pub max_networks : ℕ
max_networks = 8

-- The file and the conversions that `sscanf` made.
pub record Input : Type 0 where
  pub opened : Bool
  pub lines : List Text
  pub failed : Bool
  pub fields : Text → List Text

-- "hyper.networks.v1\n"
abbrev pub header : Text
header =
    104 ∷ 121 ∷ 112 ∷ 101 ∷ 114 ∷ 46 ∷ 110 ∷ 101 ∷ 116 ∷ 119 ∷ 111 ∷ 114 ∷ 107 ∷ 115 ∷ 46 ∷ 118 ∷ 49
    ∷ 10 ∷ []

-- The loop of `name_valid`; '-' is 45 and '_' is 95.
unfoldable pub valid_rest : Bool → Text → Bool
valid_rest interface [] = true
valid_rest interface (c ∷ name) =
    (is_lower c || is_digit c || c == 45 || (interface && (is_upper c || c == 95)))
    && valid_rest interface name

unfoldable pub name_valid : Bool → Text → Bool
name_valid interface [] = false
name_valid interface (c ∷ name) = (interface || is_lower c) && valid_rest interface (c ∷ name)

unfoldable pub parse_fields : List Text → Option Network
parse_fields (name ∷ bridge ∷ uplink ∷ []) =
    if name_valid false name
      && name_valid true bridge
      && name_valid true uplink
      && not (same bridge uplink)
    then some (record { name = name; bridge = bridge; uplink = uplink })
    else none
parse_fields _ = none

-- The loop over the networks before a new one.
unfoldable pub clashes : Network → List Network → Bool
clashes n [] = false
clashes n (m ∷ l) =
    same n.name m.name
    || same n.bridge m.bridge
    || same n.uplink m.uplink
    || same n.bridge m.uplink
    || same n.uplink m.bridge
    || clashes n l

unfoldable pub read_networks : Input → List Text → List Network → Option (List Network)
read_networks x [] networks = if x.failed then none else some networks
read_networks x (line ∷ lines) networks =
    if length networks == max_networks || not (has_newline line)
    then none
    else on_option (parse_fields (x.fields line)) none λ n.
      let rest = read_networks x lines (networks ++ n ∷ []) in
      if clashes n networks then none else rest

unfoldable pub read_file : Input → List Text → Option (List Network)
read_file x [] = none
read_file x (line ∷ lines) = if same line header then read_networks x lines [] else none

unfoldable pub hyper_networks_read : Input → Option (List Network)
hyper_networks_read x = if x.opened then read_file x x.lines else none

unfoldable pub find_bridge : Text → List Network → Option Text
find_bridge name [] = none
find_bridge name (n ∷ l) = if same name n.name then some n.bridge else find_bridge name l

unfoldable pub network_bridge : Input → Text → Option Text
network_bridge x name = on_option (hyper_networks_read x) none (find_bridge name)

-- The calls of `main` that change a link, and of what name.
pub data Change : Type 0 where
  add_bridge : Text → Change
  add_interface : Text → Text → Change
  set_up : Text → Change

-- What the host answers: whether the socket opens, whether an interface exists before the changes,
-- its MTU, and whether a change succeeds after those that are made.
pub record Host : Type 0 where
  pub socket : Bool
  pub exists : Text → Bool
  pub mtu : Text → Option ℕ
  pub accepts : List Change → Change → Bool

-- The first loop.
unfoldable pub uplinks_ready : Host → List Network → Bool
uplinks_ready h [] = true
uplinks_ready h (n ∷ l) =
    h.exists n.uplink
    && not (h.exists n.bridge)
    && on_option (h.mtu n.uplink) false (λ m. m == 1500)
    && uplinks_ready h l

-- Changes in turn up to the first that fails; the log is newest first.
unfoldable pub change_all : Host → List Change → List Change → Bool × List Change
change_all h [] log = (true, log)
change_all h (c ∷ cs) log =
    let rest = change_all h cs (c ∷ log) in if h.accepts log c then rest else (false, log)

-- The changes of the second loop's body.
abbrev pub changes_of : Network → List Change
changes_of n =
    add_bridge n.bridge ∷ add_interface n.bridge n.uplink ∷ set_up n.uplink ∷ set_up n.bridge ∷ []

-- The second loop.
unfoldable pub make_bridges : Host → List Network → List Change → Bool × List Change
make_bridges h [] log = (true, log)
make_bridges h (n ∷ l) log =
    let (fine, log') = change_all h (changes_of n) log in
    let rest = make_bridges h l log' in if fine then rest else (false, log')

-- `main` of hyper-networks.c after its argument check: whether it returns 0, and what it changed.
unfoldable pub set_up_networks : Host → Input → Bool × List Change
set_up_networks h x =
    on_option (hyper_networks_read x) (false, [])
      λ networks.
        if not h.socket || not (uplinks_ready h networks)
        then (false, [])
        else make_bridges h networks []
