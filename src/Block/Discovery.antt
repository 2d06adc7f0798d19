-- ===== src/Block/Discovery.antt =====
-- `discover_disks` only ever appends, and loses no descriptor.
use mathlib.Core.List.{append_assoc, append-nil}
use hype_r_io_vm.Base.{
  ℕ, ◌≤◌, ◌<◌, ◌≡◌, ◌≢◌, ◌⊎◌, inl, inr, refl, ap, sym, ◌∙◌, Option, none, some, List, [], ◌∷◌, ◌++◌,
  length, length-append, get_elem?, get_elem?-append, arith, Bool-cases,
}
use hype_r_io_vm.BlockPolicy.{block_disks}
use hype_r_io_vm.Block.{
  PhysicalDisk, Geometry, Opening, opened, pending, broken, Entry, Inventory, find_device, disk_of,
  admit_disk, examine, passed_over, examine_entries, discover_disks,
}

-- The disks known before keep their places, and so their identifiers.
abbrev pub Extends : List PhysicalDisk → List PhysicalDisk → Type 0
Extends before now = (added : List PhysicalDisk) × (now ≡ before ++ added)

Extends-same : (ds es : List PhysicalDisk) → es ≡ ds → Extends ds es
Extends-same ds es e = ([], e ∙ sym (append-nil ds))

Extends-trans : (a b c : List PhysicalDisk) → Extends a b → Extends b c → Extends a c
Extends-trans a b c (x, e) (y, f) = (x ++ y, f ∙ ap (λ l. l ++ y) e ∙ append_assoc a x y)

-- What one name does to the inventory: nothing, or one measured disk more and then its descriptor
-- is kept, or a descriptor closed again.
abbrev pub Examines : Opening → Inventory → Inventory → Type 0
Examines (opened fd) v v' =
    ((v'.disks ≡ v.disks) × (v'.closed ≡ fd ∷ v.closed))
    ⊎ ((g : Geometry) × (v'.disks ≡ v.disks ++ disk_of fd g ∷ [])
        × (v'.closed ≡ v.closed)
        × (length v.disks ≢ block_disks)
        × (find_device v.disks g.device ≡ none))
Examines pending v v' = v' ≡ v
Examines broken v v' = v' ≡ v

examine-some :
    (fd : ℕ) (g : Geometry) (v : Inventory)
    → let v' = (examine (opened fd) (some g) v).1 in
      ((v'.disks ≡ v.disks) × (v'.closed ≡ fd ∷ v.closed))
      ⊎ ((v'.disks ≡ v.disks ++ disk_of fd g ∷ [])
          × (v'.closed ≡ v.closed)
          × (length v.disks ≢ block_disks)
          × (find_device v.disks g.device ≡ none))
unfolding examine admit_disk
examine-some fd g v = ground arith

pub examine-Examines :
    (o : Opening) (g : Option Geometry) (v : Inventory) → Examines o v (examine o g v).1
unfolding examine
examine-Examines pending g v = refl
examine-Examines broken g v = refl
examine-Examines (opened fd) none v = inl (refl, refl)
examine-Examines (opened fd) (some g) v = elim (examine-some fd g v) [
  | inl same ↦ inl same
  | inr (d, c, l, f) ↦ inr (g, d, c, l, f)
]

examine-Extends :
    (o : Opening) (g : Option Geometry) (v : Inventory) → Extends v.disks (examine o g v).1.disks
examine-Extends pending g v = Extends-same _ _ (ap (λ x. x.disks) (examine-Examines pending g v))
examine-Extends broken g v = Extends-same _ _ (ap (λ x. x.disks) (examine-Examines broken g v))
examine-Extends (opened fd) g v = elim (examine-Examines (opened fd) g v) [
  | inl (same, _) ↦ Extends-same _ _ same
  | inr (found, e, _, _, _) ↦ (disk_of fd found ∷ [], e)
]

abbrev Small : Inventory → Type 0
Small v = length v.disks ≤ block_disks

examine-Small :
    (o : Opening) (g : Option Geometry) (v : Inventory) → Small v → Small (examine o g v).1
examine-Small pending g v s = rw (examine-Examines pending g v) s
examine-Small broken g v s = rw (examine-Examines broken g v) s
examine-Small (opened fd) g v s = elim (examine-Examines (opened fd) g v) [
  | inl (same, _) ↦ rw same s
  | inr (found, e, _, room, _) ↦ rw e (omega (arith, length-append v.disks (disk_of fd found ∷ [])))
]

-- The loop keeps every disk in its place, so an identifier issued before still names the
-- same disk, and never holds more than `block_disks`.
examine_entries-Extends :
    (es : List Entry) (v : Inventory)
    → length v.disks ≤ block_disks
    → Extends v.disks (examine_entries es v).1.disks
      × (length (examine_entries es v).1.disks ≤ block_disks)
unfolding examine_entries
examine_entries-Extends [] v s = (Extends-same _ _ refl, s)
examine_entries-Extends (e ∷ es) v s = elim (Bool-cases (passed_over e)) [
  | inl skip ↦ rw skip (examine_entries-Extends es v s)
  | inr look ↦
      let v' = (examine e.opening e.geometry v).1 in
      let grown = examine-Extends e.opening e.geometry v in
      let small = examine-Small e.opening e.geometry v s in
      let rest = examine_entries-Extends es v' small in
      elim (Bool-cases (examine e.opening e.geometry v).0) [
        | inl fine ↦ rw look (rw fine (Extends-trans _ _ _ grown rest.0, rest.1))
        | inr stop ↦ rw look (rw stop (grown, small))
      ]
]

-- The same of an enumeration, also where the names cannot be read.
pub discover_disks-Extends :
    (es : Option (List Entry)) (v : Inventory)
    → length v.disks ≤ block_disks
    → Extends v.disks (discover_disks es v).1.disks
      × (length (discover_disks es v).1.disks ≤ block_disks)
unfolding discover_disks
discover_disks-Extends none v s = (Extends-same _ _ refl, s)
discover_disks-Extends (some es) v s = examine_entries-Extends es v s

-- An enumeration, complete, cut short or not begun, of an inventory within its limit keeps every
-- known disk under its identifier.
pub discover_disks_stable :
    (es : Option (List Entry)) (v : Inventory) (i : ℕ)
    → length v.disks ≤ block_disks
    → i < length v.disks
    → get_elem? (discover_disks es v).1.disks i ≡ get_elem? v.disks i
discover_disks_stable es v i s h =
    let (added, e) = (discover_disks-Extends es v s).0 in rw e (get_elem?-append v.disks added i h)
