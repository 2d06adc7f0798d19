-- ===== src/Config/Clients/Inventory.antt =====
-- What an inventory that is accepted guarantees to the supervisor and to the services.
use hype_r_io_vm.Base.{
  ℕ, ◌+◌, ◌≤◌, ◌<◌, ◌≡◌, ◌≢◌, ◌⊎◌, inl, inr, refl, sym, ap, ◌∙◌, subst, true, false, ◌||◌, not,
  none, some, is_some, on_option, List, [], ◌∷◌, ◌++◌, All, Pairs, All-append, Pairs-snoc,
  length-append, length, ◌==◌, if◌then◌else◌, arith, Option-cases,
}
use hype_r_io_vm.BlockPolicy.{block_clients}
use hype_r_io_vm.Resources.{
  hyper_network_resources_parse, hyper_scsi_resources_valid, hyper_mac_parse,
}
use hype_r_io_vm.Config.{Text, same}
use hype_r_io_vm.Config.Clients.{
  Client, Version, v3, v4, v5, Input, version_of, network_name, dash, check_client, plain,
  check_scsi, parse_fields, clashes, read_clients, read_file, hyper_clients_read,
}

-- A client with an id below 128 and SCSI resources within their limits; the owner, client 0, has no
-- network, and one with a network has a valid name of it and a MAC address.
abbrev pub IsClient : Client → Type 0
IsClient c =
    (c.id < block_clients)
    × (hyper_scsi_resources_valid c.request_queues c.sg_prealloc ≡ true)
    × ((same c.network dash ≡ true)
        ⊎ ((c.id ≢ 0) × (network_name c.network ≡ true) × (is_some (hyper_mac_parse c.mac) ≡ true)))

-- An earlier client and a later one have different ids, and the later one's network its own address.
abbrev pub IsApart : Client → Client → Type 0
IsApart d c = (d.id ≢ c.id) × ((same c.network dash ≡ true) ⊎ (same d.mac c.mac ≡ false))

abbrev pub owners : List Client → ℕ
owners [] = 0
owners (c ∷ l) = if c.id == 0 then 1 + owners l else owners l

abbrev pub IsInventory : List Client → Type 0
IsInventory l = All IsClient l × Pairs IsApart l × (length l ≤ block_clients)

check_client_lem :
    (number : ℕ) (id : Text) (c d : Client)
    → hyper_scsi_resources_valid c.request_queues c.sg_prealloc ≡ true
    → check_client number id c ≡ some d
    → IsClient d
unfolding check_client
check_client_lem number id c d valid h = ground (arith, valid, h)

check_scsi_lem :
    (x : Input) (queues sg : Text) (c d : Client)
    → check_scsi x queues sg c ≡ some d
    → hyper_scsi_resources_valid d.request_queues d.sg_prealloc ≡ true
unfolding check_scsi
check_scsi_lem x queues sg c d h = ground (arith, h)

default_valid :
    (network mac : Text)
    → hyper_scsi_resources_valid (plain network mac).request_queues (plain network mac).sg_prealloc
      ≡ true
unfolding hyper_scsi_resources_valid
default_valid network mac = refl

scsi_client :
    (x : Input) (id queues sg : Text) (b c : Client)
    → on_option (check_scsi x queues sg b) none (check_client (x.strtoul id) id) ≡ some c
    → IsClient c
scsi_client x id queues sg b c h = elim (Option-cases (check_scsi x queues sg b)) [
  | inl wrong ↦ absurd (ground (arith, wrong, h))
  | inr (d, fine) ↦
      check_client_lem (x.strtoul id) id d c (check_scsi_lem x queues sg b d fine)
        (ground (arith, fine, h))
]

parse_fields_lem :
    (x : Input) (v : Version) (fields : List Text) (c : Client)
    → parse_fields x v fields ≡ some c
    → IsClient c
unfolding parse_fields
parse_fields_lem x v3 (id ∷ network ∷ mac ∷ []) c h =
    check_client_lem (x.strtoul id) id (plain network mac) c (default_valid network mac) h
parse_fields_lem x v4 (id ∷ network ∷ mac ∷ queues ∷ sg ∷ []) c h =
    scsi_client x id queues sg (plain network mac) c h
parse_fields_lem x v5 (id ∷ network ∷ mac ∷ queues ∷ sg ∷ rx ∷ tx ∷ []) c h =
    elim (Option-cases (hyper_network_resources_parse rx tx)) [
      | inl wrong ↦ absurd (ground (arith, wrong, h))
      | inr (r, fine) ↦
          scsi_client x id queues sg (record (plain network mac) { net_resources = r }) c
            (ground (arith, fine, h))
    ]
parse_fields_lem x v3 _ c h = absurd (ground (arith, h))
parse_fields_lem x v4 _ c h = absurd (ground (arith, h))
parse_fields_lem x v5 _ c h = absurd (ground (arith, h))

clashes_lem : (c : Client) (l : List Client) → clashes c l ≡ false → All (λ d. IsApart d c) l
unfolding clashes
clashes_lem c [] h = tt
clashes_lem c (d ∷ l) h =
    let rest = clashes_lem c l in (ground (arith, h), rest (ground (arith, h)))

owners-append :
    (l : List Client) (c : Client)
    → owners (l ++ c ∷ []) ≡ (if c.id == 0 then owners l + 1 else owners l)
owners-append [] c = ground arith
owners-append (d ∷ l) c = let rest = owners-append l c in ground (arith, rest)

end_lem :
    (x : Input) (clients : List Client) (owner : ℕ) (l : List Client)
    → (if x.failed || not (owner == 1) then none else some clients) ≡ some l
    → (clients ≡ l) × (owner ≡ 1)
end_lem x clients owner l h = ground (arith, h)

step_lem :
    (x : Input) (v : Version) (line : Text) (lines : List Text) (clients : List Client) (owner : ℕ)
    (l : List Client) (c : Client)
    → parse_fields x v (x.fields v line) ≡ some c
    → read_clients x v (line ∷ lines) clients owner ≡ some l
    → (length clients ≢ block_clients)
      × (clashes c clients ≡ false)
      × (read_clients x v lines (clients ++ c ∷ []) (if c.id == 0 then owner + 1 else owner)
          ≡ some l)
unfolding read_clients
step_lem x v line lines clients owner l c fine h = ground (arith, fine, h)

read_clients-IsInventory :
    (x : Input) (v : Version) (lines : List Text) (clients : List Client) (owner : ℕ)
    (l : List Client)
    → IsInventory clients
    → owner ≡ owners clients
    → read_clients x v lines clients owner ≡ some l
    → IsInventory l × (owners l ≡ 1)
unfolding read_clients
read_clients-IsInventory x v [] clients owner l i o h =
    let (same_list, one) = end_lem x clients owner l h in
    (subst IsInventory same_list i, ap owners (sym same_list) ∙ sym o ∙ one)
read_clients-IsInventory x v (line ∷ lines) clients owner l (each, apart, few) o h =
    elim (Option-cases (parse_fields x v (x.fields v line))) [
      | inl wrong ↦ absurd (ground (arith, wrong, h))
      | inr (c, fine) ↦
          let next = if c.id == 0 then owner + 1 else owner in
          let (room, free, rest) = step_lem x v line lines clients owner l c fine h in
          let size = length-append clients (c ∷ []) in
          let counted = owners-append clients c in
          read_clients-IsInventory x v lines (clients ++ c ∷ []) next l
            (
              All-append IsClient clients (c ∷ []) each
                  (parse_fields_lem x v (x.fields v line) c fine, tt),
              Pairs-snoc IsApart clients c apart (clashes_lem c clients free),
              omega (arith, size, few, room),
            )
            (ground (arith, counted, o)) rest
    ]

file_lem :
    (x : Input) (lines : List Text) (l : List Client)
    → read_file x lines ≡ some l
    → IsInventory l × (owners l ≡ 1)
unfolding read_file
file_lem x [] l h = absurd (ground (arith, h))
file_lem x (line ∷ lines) l h = elim (Option-cases (version_of line)) [
  | inl wrong ↦ absurd (ground (arith, wrong, h))
  | inr (v, known) ↦
      read_clients-IsInventory x v lines [] 0 l (tt, tt, omega arith) refl
        (ground (arith, known, h))
]

-- An inventory that is accepted has exactly one owner, at most 128 clients with different ids
-- below 128, SCSI resources within their limits, and for every network a valid name, a client
-- that is not the owner, and an address that is valid and that no earlier client has.
pub hyper_clients_read-IsInventory :
    (x : Input) (l : List Client) → hyper_clients_read x ≡ some l → IsInventory l × (owners l ≡ 1)
unfolding hyper_clients_read
hyper_clients_read-IsInventory x l h = file_lem x x.lines l (ground (arith, h))
