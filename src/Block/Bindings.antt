-- ===== src/Block/Bindings.antt =====
-- The bindings that `bind_range` admits: valid on their disks, immutable, and never in conflict.
use hype_r_io_vm.Base.{
  ℕ, zero, suc, ◌-◌, ◌<◌, ◌≡◌, ◌≢◌, ◌⊎◌, inl, inr, refl, ap, sym, subst, ◌∙◌, true, false, none,
  some, List, [], ◌∷◌, get_elem?, get_or, get_or-set_self, get_or-set_ne, set, length, length-set,
  drop, arith, Option-cases, ℕ_discrete,
}
use hype_r_io_vm.BlockPolicy.{BlockRange, block_clients, range_valid, ranges_conflict}
use hype_r_io_vm.BlockPolicy.Ranges.{Fits, range_valid-Fits}
use hype_r_io_vm.BlockTarget.{Host, Log}
use hype_r_io_vm.Service.State.{Status, ok}
use hype_r_io_vm.Block.{
  PhysicalDisk, BlockOwner, BindRequest, Media, no_range, binding, range_of, any_conflict,
  publish_range, bind_range,
}

-- The binding of client `i` is unset, or fits the disk that it names.
abbrev pub Bound : BlockOwner → ℕ → Type 0
Bound o i =
    ((binding o i).disk ≡ 0)
    ⊎ ((d : PhysicalDisk) × (get_elem? o.disks ((binding o i).disk - 1) ≡ some d)
        × Fits d.bytes d.logical d.read_only (binding o i))

pub record IsValid (o : BlockOwner) : Type 0 where
  pub slots : length o.bindings ≡ block_clients
  pub bound : (i : ℕ) → Bound o i
  pub apart : (i j : ℕ) → i ≢ j → ranges_conflict (binding o i) (binding o j) ≡ false
  pub owner_unbound : (binding o 0).disk ≡ 0

any_conflict_none :
    (bs : List BlockRange) (r : BlockRange) (i : ℕ)
    → any_conflict bs r ≡ false
    → ranges_conflict (get_or bs i no_range) r ≡ false
unfolding any_conflict ranges_conflict
any_conflict_none [] r i h = refl
any_conflict_none (b ∷ bs) r zero h = ground arith
any_conflict_none (b ∷ bs) r (suc i) h = any_conflict_none bs r i (ground arith)

unbound_no_conflict : (a b : BlockRange) → a.disk ≡ 0 → ranges_conflict a b ≡ false
unfolding ranges_conflict
unbound_no_conflict a b h = ground arith

conflict_comm : (a b : BlockRange) → ranges_conflict a b ≡ ranges_conflict b a
unfolding ranges_conflict
conflict_comm a b = ground arith

-- `drop 1` is the loop's start at client 1.
any_conflict_all :
    (bs : List BlockRange) (r : BlockRange) (i : ℕ)
    → (get_or bs 0 no_range).disk ≡ 0
    → any_conflict (drop 1 bs) r ≡ false
    → ranges_conflict (get_or bs i no_range) r ≡ false
any_conflict_all [] r i z h = unbound_no_conflict no_range r refl
any_conflict_all (b ∷ bs) r zero z h = unbound_no_conflict b r z
any_conflict_all (b ∷ bs) r (suc i) z h = any_conflict_none bs r i h

-- What has been tested when a new range is written into the table.
pub record Admitted (q : BindRequest) (o : BlockOwner) (d : PhysicalDisk) : Type 0 where
  pub client_pos : 0 < q.client
  pub client_low : q.client < block_clients
  pub disk_found : get_elem? o.disks (q.disk - 1) ≡ some d
  pub valid : range_valid d.bytes d.logical d.read_only (range_of q) ≡ true
  pub unbound : (binding o q.client).disk ≡ 0
  pub clear : any_conflict (drop 1 o.bindings) (range_of q) ≡ false

-- The owner is left as it was, or has one new entry; then the status is `ok`.
abbrev pub Binds : BindRequest → BlockOwner → Status → BlockOwner → Type 0
Binds q o s o' =
    (o' ≡ o)
    ⊎ ((d : PhysicalDisk) × Admitted q o d
        × (s ≡ ok)
        × (o' ≡ record o { bindings = set o.bindings q.client (range_of q) }))

module _ (host : Host) (media : Media) (q : BindRequest) (o : BlockOwner) (log : Log) where
  bind_range_tests :
      (d : PhysicalDisk)
      → get_elem? o.disks (q.disk - 1) ≡ some d
      → let x = bind_range host media q o log in
        (x.1 ≡ o)
        ⊎ ((0 < q.client)
            × (q.client < block_clients)
            × (range_valid d.bytes d.logical d.read_only (range_of q) ≡ true)
            × ((binding o q.client).disk ≡ 0)
            × (any_conflict (drop 1 o.bindings) (range_of q) ≡ false)
            × (x.0 ≡ ok)
            × (x.1 ≡ record o { bindings = set o.bindings q.client (range_of q) }))
  unfolding bind_range publish_range
  bind_range_tests d e = ground arith

  no_disk : get_elem? o.disks (q.disk - 1) ≡ none → (bind_range host media q o log).1 ≡ o
  unfolding bind_range
  no_disk e = ground arith

  pub bind_range-Binds : let x = bind_range host media q o log in Binds q o x.0 x.1
  bind_range-Binds = elim (Option-cases (get_elem? o.disks (q.disk - 1))) [
    | inl e ↦ inl (no_disk e)
    | inr (d, e) ↦ elim (bind_range_tests d e) [
      | inl same ↦ inl same
      | inr (p, l, v, u, c, s, t) ↦ inr (
        d,
        record {
          client_pos = p;
          client_low = l;
          disk_found = e;
          valid = v;
          unbound = u;
          clear = c;
        },
        s,
        t,
      )
    ]
  ]

-- An installed range keeps the table valid.
module _ (q : BindRequest) (o : BlockOwner) (d : PhysicalDisk) (v : IsValid o)
    (a : Admitted q o d) where
  abbrev after : BlockOwner
  after = record o { bindings = set o.bindings q.client (range_of q) }

  at_client : binding after q.client ≡ range_of q
  at_client = get_or-set_self o.bindings q.client (range_of q) no_range (omega (arith, v.slots))

  elsewhere : (i : ℕ) → q.client ≢ i → binding after i ≡ binding o i
  elsewhere i ne = get_or-set_ne o.bindings q.client i (range_of q) no_range ne

  clear_of : (i : ℕ) → ranges_conflict (binding o i) (range_of q) ≡ false
  clear_of i = any_conflict_all o.bindings (range_of q) i v.owner_unbound a.clear

  install-Bound : (i : ℕ) → Bound after i
  install-Bound i = elim (ℕ_discrete q.client i) [
    | yes e ↦
        let here : binding after i ≡ range_of q =
          subst (λ j. binding after j ≡ range_of q) e at_client in
        rw here (
          inr
            (d, a.disk_found, range_valid-Fits d.bytes d.logical d.read_only (range_of q) a.valid))
    | no ne ↦ rw (elsewhere i ne) (v.bound i)
  ]

  install-apart : (i j : ℕ) → i ≢ j → ranges_conflict (binding after i) (binding after j) ≡ false
  install-apart i j ne = elim (ℕ_discrete q.client i) [
    | yes e ↦
        let here : binding after i ≡ range_of q =
          subst (λ x. binding after x ≡ range_of q) e at_client in
        let there : binding after j ≡ binding o j = elsewhere j (λ f. ne (sym e ∙ f)) in
        rw (here, there) (conflict_comm (range_of q) (binding o j) ∙ clear_of j)
    | no other ↦ elim (ℕ_discrete q.client j) [
      | yes e ↦
          let here : binding after j ≡ range_of q =
            subst (λ x. binding after x ≡ range_of q) e at_client in
          rw (elsewhere i other, here) (clear_of i)
      | no third ↦ rw (elsewhere i other, elsewhere j third) (v.apart i j ne)
    ]
  ]

  install-IsValid : IsValid after
  install-IsValid = record {
    slots = length-set o.bindings q.client (range_of q) ∙ v.slots;
    bound = install-Bound;
    apart = install-apart;
    owner_unbound = ap (λ b. b.disk) (elsewhere 0 (omega (arith, a.client_pos))) ∙ v.owner_unbound;
  }

-- `bind_range` keeps a valid table valid, whatever it is asked and whatever the kernel answers.
pub bind_range-IsValid :
    (host : Host) (media : Media) (q : BindRequest) (o : BlockOwner) (log : Log)
    → IsValid o
    → IsValid (bind_range host media q o log).1
bind_range-IsValid host media q o log v = elim (bind_range-Binds host media q o log) [
  | inl same ↦ subst IsValid (sym same) v
  | inr (d, a, _, e) ↦ subst IsValid (sym e) (install-IsValid q o d v a)
]

-- In a valid table a binding once set stays what it is, whoever asks for whatever.
pub bind_range_immutable :
    (host : Host) (media : Media) (q : BindRequest) (o : BlockOwner) (log : Log) (i : ℕ)
    → IsValid o
    → (binding o i).disk ≢ 0
    → binding (bind_range host media q o log).1 i ≡ binding o i
bind_range_immutable host media q o log i v set_already =
    elim (bind_range-Binds host media q o log) [
      | inl same ↦ ap (λ x. binding x i) same
      | inr (d, a, _, e) ↦
          ap (λ x. binding x i) e
          ∙ elsewhere q o d v a i
              (λ same. set_already (ap (λ j. (binding o j).disk) (sym same) ∙ a.unbound))
    ]

pub bind_range_disks :
    (host : Host) (media : Media) (q : BindRequest) (o : BlockOwner) (log : Log)
    → (bind_range host media q o log).1.disks ≡ o.disks
bind_range_disks host media q o log = elim (bind_range-Binds host media q o log) [
  | inl same ↦ ap (λ x. x.disks) same
  | inr (d, a, _, e) ↦ ap (λ x. x.disks) e
]
