-- ===== src/Config/Networks/Links.antt =====
-- What the program that makes the bridges changes, and when.
use hype_r_io_vm.Base.{
  ◌≡◌, refl, sym, ap, ◌∙◌, subst, Bool, true, false, none, some, List, [], ◌∷◌, All, arith,
  Bool-cases, Option-cases, inl, inr, ◌⊎◌,
}
use hype_r_io_vm.Config.Networks.{
  Network, Input, hyper_networks_read, Change, add_bridge, add_interface, set_up, Host,
  uplinks_ready, change_all, changes_of, make_bridges, set_up_networks,
}
use hype_r_io_vm.Config.Networks.Inventory.{IsInventory, hyper_networks_read-IsInventory}

-- The changes of all networks, newest first, before those of a log.
abbrev pub all_changes : List Network → List Change → List Change
all_changes [] log = log
all_changes (n ∷ l) log = all_changes l (
    set_up n.bridge ∷ set_up n.uplink ∷ add_interface n.bridge n.uplink ∷ add_bridge n.bridge ∷ log)

change_all_lem :
    (h : Host) (n : Network) (log : List Change)
    → (change_all h (changes_of n) log).0 ≡ true
    → (change_all h (changes_of n) log).1
      ≡ set_up n.bridge
        ∷ set_up n.uplink
        ∷ add_interface n.bridge n.uplink
        ∷ add_bridge n.bridge
        ∷ log
unfolding change_all
change_all_lem h n log e = ground (arith, e)

make_bridges_lem :
    (h : Host) (l : List Network) (log : List Change)
    → (make_bridges h l log).0 ≡ true
    → (make_bridges h l log).1 ≡ all_changes l log
unfolding make_bridges
make_bridges_lem h [] log e = refl
make_bridges_lem h (n ∷ l) log e = elim (Bool-cases (change_all h (changes_of n) log).0) [
  | inl fine ↦
      let log' = (change_all h (changes_of n) log).1 in
      let one = change_all_lem h n log fine in
      let rest = make_bridges_lem h l log' (ground (arith, e, fine)) in
      ground (arith, fine, rest) ∙ ap (all_changes l) one
  | inr failed ↦ absurd (ground (arith, e, failed))
]

abbrev pub IsReady : Host → Network → Type 0
IsReady h n =
    (h.exists n.uplink ≡ true) × (h.exists n.bridge ≡ false) × (h.mtu n.uplink ≡ some 1500)

uplinks_ready_lem : (h : Host) (l : List Network) → uplinks_ready h l ≡ true → All (IsReady h) l
unfolding uplinks_ready
uplinks_ready_lem h [] e = tt
uplinks_ready_lem h (n ∷ l) e =
    let rest = uplinks_ready_lem h l in
    elim (Option-cases (h.mtu n.uplink)) [
      | inl unknown ↦ absurd (ground (arith, e, unknown))
      | inr (m, known) ↦
          let exact : m ≡ 1500 = ground (arith, e, known) in
          ((ground (arith, e), ground (arith, e), known ∙ ap some exact), rest (ground (arith, e)))
    ]

-- An inventory that is accepted, with what that guarantees, and whose links are ready.
abbrev pub Prepared : Host → Input → List Network → Type 0
Prepared h x l = (hyper_networks_read x ≡ some l) × IsInventory l × All (IsReady h) l

set_up_lem :
    (h : Host) (x : Input) (l : List Network)
    → hyper_networks_read x ≡ some l
    → (set_up_networks h x ≡ (false, []))
      ⊎ ((uplinks_ready h l ≡ true) × (set_up_networks h x ≡ make_bridges h l []))
unfolding set_up_networks
set_up_lem h x l known = ground (arith, known)

set_up_none :
    (h : Host) (x : Input) → hyper_networks_read x ≡ none → set_up_networks h x ≡ (false, [])
unfolding set_up_networks
set_up_none h x unknown = ground (arith, unknown)

make_bridges_cases :
    (h : Host) (l : List Network)
    → ((make_bridges h l []).0 ≡ false) ⊎ ((make_bridges h l []).1 ≡ all_changes l [])
make_bridges_cases h l = elim (Bool-cases (make_bridges h l []).0) [
  | inl fine ↦ inr (make_bridges_lem h l [] fine)
  | inr failed ↦ inl failed
]

-- Either no link is changed and the program fails; or the whole inventory is accepted, with at
-- most 8 networks of valid names that share neither a name nor an interface, every uplink exists
-- with an MTU of 1500 and no bridge exists; and then the program fails, or every bridge was
-- made, given its uplink, and both were brought up, in the order of the inventory.
pub set_up_networks_lem :
    (h : Host) (x : Input)
    → (set_up_networks h x ≡ (false, []))
      ⊎ ((l : List Network) × Prepared h x l
          × (((set_up_networks h x).0 ≡ false) ⊎ ((set_up_networks h x).1 ≡ all_changes l [])))
set_up_networks_lem h x = elim (Option-cases (hyper_networks_read x)) [
  | inl unknown ↦ inl (set_up_none h x unknown)
  | inr (l, known) ↦ elim (set_up_lem h x l known) [
    | inl e ↦ inl e
    | inr (ready, e) ↦
        let done_or_failed =
          subst (λ (r : Bool × List Change). (r.0 ≡ false) ⊎ (r.1 ≡ all_changes l [])) (sym e)
            (make_bridges_cases h l) in
        inr (
          l,
          (known, hyper_networks_read-IsInventory x l known, uplinks_ready_lem h l ready),
          done_or_failed,
        )
  ]
]
