-- ===== src/Block/Refresh.antt =====
-- A refreshed inventory leaves the table of bindings valid.
use hype_r_io_vm.Base.{ℕ, ◌-◌, ◌≤◌, ◌∙◌, inl, inr, Option, List, length, get_elem?-some_lt}
use hype_r_io_vm.BlockPolicy.{block_disks}
use hype_r_io_vm.Block.{BlockOwner, Entry, binding, discover_disks}
use hype_r_io_vm.Block.Bindings.{IsValid}
use hype_r_io_vm.Block.Discovery.{discover_disks_stable}

-- An enumeration, complete, cut short or not begun, of an inventory within its limit keeps a
-- valid table of bindings valid.
pub discover_disks-IsValid :
    (es : Option (List Entry)) (o : BlockOwner) (closed : List ℕ)
    → length o.disks ≤ block_disks
    → IsValid o
    → IsValid (record o {
      disks = (discover_disks es (record { disks = o.disks; closed = closed })).1.disks;
    })
discover_disks-IsValid es o closed small v = record {
  slots = v.slots;
  bound = λ i. elim (v.bound i) [
    | inl unset ↦ inl unset
    | inr (d, found, fits) ↦ inr (
      d,
      discover_disks_stable es (record { disks = o.disks; closed = closed })
            ((binding o i).disk - 1) small (get_elem?-some_lt o.disks _ d found)
          ∙ found,
      fits,
    )
  ];
  apart = v.apart;
  owner_unbound = v.owner_unbound;
}
