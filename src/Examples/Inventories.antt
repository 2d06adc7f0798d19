-- ===== src/Examples/Inventories.antt =====
-- Two small inventories.
use hype_r_io_vm.Base.{ℕ, ◌≡◌, ◌⊎◌, refl, true, false, some, List, [], ◌∷◌, take, get_or}
use hype_r_io_vm.Config.{Text, same, all_digits, has_newline}
use hype_r_io_vm.Config.Clients
use hype_r_io_vm.Config.Clients.{
  Client, v3, version_of, plain, hyper_clients_read, read_file, read_clients, parse_fields,
  check_client, clashes,
}
use hype_r_io_vm.Config.Clients.Inventory
use hype_r_io_vm.Config.Clients.Inventory.{owners, hyper_clients_read-IsInventory}
use hype_r_io_vm.Config.Networks
use hype_r_io_vm.Config.Networks.{Network, Host, set_up_networks}
use hype_r_io_vm.Config.Networks.Links.{Prepared, all_changes, set_up_networks_lem}
use hype_r_io_vm.GuestMemory.{compact}
use hype_r_io_vm.GuestMemory.Compact.{uniques, compact-uniques}

-- "0 - -\n"
abbrev owner_line : Text
owner_line = 48 ∷ 32 ∷ 45 ∷ 32 ∷ 45 ∷ 10 ∷ []

abbrev clients_file : Clients.Input
clients_file = record {
  opened = true;
  lines = Clients.header 51 ∷ owner_line ∷ [];
  failed = false;
  fields = λ v line. (48 ∷ []) ∷ (45 ∷ []) ∷ (45 ∷ []) ∷ [];
  strtoul = λ text. 0;
}

clients_read : hyper_clients_read clients_file ≡ some (plain (45 ∷ []) (45 ∷ []) ∷ [])
unfolding hyper_clients_read read_file read_clients parse_fields check_client clashes version_of
    same all_digits has_newline
clients_read = refl

hyper_clients_read-IsInventory_example :
    Clients.Inventory.IsInventory (plain (45 ∷ []) (45 ∷ []) ∷ [])
    × (owners (plain (45 ∷ []) (45 ∷ []) ∷ []) ≡ 1)
hyper_clients_read-IsInventory_example =
    hyper_clients_read-IsInventory clients_file (plain (45 ∷ []) (45 ∷ []) ∷ []) clients_read

-- "lan br0 eth0\n"
abbrev networks_file : Networks.Input
networks_file = record {
  opened = true;
  lines =
      Networks.header
      ∷ (108 ∷ 97 ∷ 110 ∷ 32 ∷ 98 ∷ 114 ∷ 48 ∷ 32 ∷ 101 ∷ 116 ∷ 104 ∷ 48 ∷ 10 ∷ [])
      ∷ [];
  failed = false;
  fields = λ line. (108 ∷ 97 ∷ 110 ∷ []) ∷ (98 ∷ 114 ∷ 48 ∷ []) ∷ (101 ∷ 116 ∷ 104 ∷ 48 ∷ []) ∷ [];
}

-- A host with the one interface eth0.
abbrev host : Host
host = record {
  socket = true;
  exists = λ name. same name (101 ∷ 116 ∷ 104 ∷ 48 ∷ []);
  mtu = λ name. some 1500;
  accepts = λ log c. true;
}

set_up_networks_lem_example :
    (set_up_networks host networks_file ≡ (false, []))
    ⊎ ((l : List Network) × Prepared host networks_file l
        × (((set_up_networks host networks_file).0 ≡ false)
            ⊎ ((set_up_networks host networks_file).1 ≡ all_changes l [])))
set_up_networks_lem_example = set_up_networks_lem host networks_file

abbrev sorted : List ℕ
sorted = 4 ∷ 4 ∷ 6 ∷ 6 ∷ 6 ∷ 9 ∷ []

compact-uniques_example :
    take (compact 6 0 0 sorted).0 (compact 6 0 0 sorted).1 ≡ uniques (λ k. get_or sorted k 0) 0 6
compact-uniques_example = compact-uniques sorted
