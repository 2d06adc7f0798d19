-- ===== src/Config/Networks/Inventory.antt =====
-- What an inventory of networks that is accepted guarantees.
use hype_r_io_vm.Base.{
  ◌≤◌, ◌≡◌, ◌≢◌, subst, true, false, some, List, [], ◌∷◌, ◌++◌, All, Pairs, All-append, Pairs-snoc,
  length-append, length, arith, Option-cases, inl, inr,
}
use hype_r_io_vm.Config.{Text, same}
use hype_r_io_vm.Config.Networks.{
  Network, max_networks, Input, name_valid, parse_fields, clashes, read_networks, read_file,
  hyper_networks_read,
}

-- A network of a valid name, between two interfaces of valid and different names.
abbrev pub IsNetwork : Network → Type 0
IsNetwork n =
    (name_valid false n.name ≡ true)
    × (name_valid true n.bridge ≡ true)
    × (name_valid true n.uplink ≡ true)
    × (same n.bridge n.uplink ≡ false)

-- Two networks share neither their name nor any interface.
abbrev pub IsApart : Network → Network → Type 0
IsApart m n =
    (same n.name m.name ≡ false)
    × (same n.bridge m.bridge ≡ false)
    × (same n.uplink m.uplink ≡ false)
    × (same n.bridge m.uplink ≡ false)
    × (same n.uplink m.bridge ≡ false)

abbrev pub IsInventory : List Network → Type 0
IsInventory l = All IsNetwork l × Pairs IsApart l × (length l ≤ max_networks)

parse_fields_lem : (fields : List Text) (n : Network) → parse_fields fields ≡ some n → IsNetwork n
unfolding parse_fields
parse_fields_lem (name ∷ bridge ∷ uplink ∷ []) n h = ground (arith, h)
parse_fields_lem _ n h = absurd (ground (arith, h))

clashes_lem : (n : Network) (l : List Network) → clashes n l ≡ false → All (λ m. IsApart m n) l
unfolding clashes
clashes_lem n [] h = tt
clashes_lem n (m ∷ l) h =
    let rest = clashes_lem n l in (ground (arith, h), rest (ground (arith, h)))

step_lem :
    (x : Input) (line : Text) (lines : List Text) (networks l : List Network) (n : Network)
    → parse_fields (x.fields line) ≡ some n
    → read_networks x (line ∷ lines) networks ≡ some l
    → (length networks ≢ max_networks)
      × (clashes n networks ≡ false)
      × (read_networks x lines (networks ++ n ∷ []) ≡ some l)
unfolding read_networks
step_lem x line lines networks l n fine h = ground (arith, fine, h)

read_networks-IsInventory :
    (x : Input) (lines : List Text) (networks l : List Network)
    → IsInventory networks
    → read_networks x lines networks ≡ some l
    → IsInventory l
unfolding read_networks
read_networks-IsInventory x [] networks l i h =
    let same_list : networks ≡ l = ground (arith, h) in subst IsInventory same_list i
read_networks-IsInventory x (line ∷ lines) networks l (each, apart, few) h =
    elim (Option-cases (parse_fields (x.fields line))) [
      | inl wrong ↦ absurd (ground (arith, wrong, h))
      | inr (n, fine) ↦
          let (room, free, rest) = step_lem x line lines networks l n fine h in
          let size = length-append networks (n ∷ []) in
          read_networks-IsInventory x lines (networks ++ n ∷ []) l
            (
              All-append IsNetwork networks (n ∷ []) each
                  (parse_fields_lem (x.fields line) n fine, tt),
              Pairs-snoc IsApart networks n apart (clashes_lem n networks free),
              omega (arith, size, few, room),
            )
            rest
    ]

file_lem :
    (x : Input) (lines : List Text) (l : List Network) → read_file x lines ≡ some l → IsInventory l
unfolding read_file
file_lem x [] l h = absurd (ground (arith, h))
file_lem x (line ∷ lines) l h =
    read_networks-IsInventory x lines [] l (tt, tt, omega arith) (ground (arith, h))

-- An inventory that is accepted has at most 8 networks, of valid names, no two of which share their
-- name or an interface.
pub hyper_networks_read-IsInventory :
    (x : Input) (l : List Network) → hyper_networks_read x ≡ some l → IsInventory l
unfolding hyper_networks_read
hyper_networks_read-IsInventory x l h = file_lem x x.lines l (ground (arith, h))
