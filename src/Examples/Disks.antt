-- ===== src/Examples/Disks.antt =====
-- Two clients bound to one disk, an enumeration, a metadata read, and a publication.
use hype_r_io_vm.Base.{
  ℕ, ◌+◌, ◌*◌, ◌≤◌, ◌≡◌, ◌<◌, refl, true, false, some, if◌then◌else◌, Option, List, [], ◌∷◌,
  get_elem?, arith,
}
use hype_r_io_vm.BlockPolicy.{BlockRange, range_valid, ranges_conflict}
use hype_r_io_vm.BlockPolicy.Ranges.{Fits, range_valid-Fits}
use hype_r_io_vm.BlockTarget.{
  Host, link_lun, dm_remove, unlink_node, remove_directory, clear_nexus, run_all, run_each,
  run_steps, mapper_create, target_create, publish_target, block_target_publish, table_of,
}
use hype_r_io_vm.BlockTarget.Rollback.{
  Removes, is_removable, objects_of, everything, nothing, block_target_publish_objects,
}
use hype_r_io_vm.BlockTarget.Publication.{block_target_publish_published}
use hype_r_io_vm.BlockTarget.Linear.{table_of-Fits}
use hype_r_io_vm.Block.{
  BlockOwner, BindRequest, Entry, opened, binding, bind_range, publish_range, disk_current,
  any_conflict, discover_disks,
}
use hype_r_io_vm.Block.Bindings.{IsValid, bind_range-IsValid, bind_range_immutable}
use hype_r_io_vm.Block.Exclusion.{Sized, bind_all, bind_all-IsValid, shared_read_only}
use hype_r_io_vm.Block.Discovery.{discover_disks_stable}
use hype_r_io_vm.Block.Refresh.{discover_disks-IsValid}
use hype_r_io_vm.Block.Read.{Bounded, block_read}
use hype_r_io_vm.Block.Read.Extent.{Reads, block_read-Reads}
use hype_r_io_vm.Wire.{ReadRequest}
use hype_r_io_vm.Examples.{disk, owner, owner-IsValid, media, outside}

-- The read-only range of sectors 8 to 23, for either client.
abbrev request : ℕ → BindRequest
request client = record { client = client; flags = 1; disk = 1; first_lba = 8; sectors = 16 }

abbrev able : Host
able = λ log c. true

-- A host on which the symlink fails, and which refuses to remove what is absent or in use.
abbrev linkless : Host
linkless log (link_lun c) = false
linkless log (dm_remove c) = is_removable (dm_remove c) (objects_of 1 log)
linkless log (unlink_node c) = is_removable (unlink_node c) (objects_of 1 log)
linkless log (remove_directory c d) = is_removable (remove_directory c d) (objects_of 1 log)
linkless log (clear_nexus c) = is_removable (clear_nexus c) (objects_of 1 log)
linkless log c = true

abbrev shared : BlockOwner
unfolding bind_all
shared = (bind_all able ((media, request 1) ∷ (media, request 2) ∷ []) owner []).0

bind_range-IsValid_example : IsValid (bind_range able media (request 1) owner []).1
bind_range-IsValid_example = bind_range-IsValid able media (request 1) owner [] owner-IsValid

shared-IsValid : IsValid shared
unfolding bind_all
shared-IsValid =
    bind_all-IsValid able ((media, request 1) ∷ (media, request 2) ∷ []) owner [] owner-IsValid

binding_one : binding shared 1 ≡ record { disk = 1; first = 8; count = 16; read_only = 1 }
unfolding bind_all bind_range publish_range disk_current any_conflict range_valid ranges_conflict
    block_target_publish mapper_create publish_target target_create run_all run_each run_steps
binding_one = refl

binding_two : binding shared 2 ≡ record { disk = 1; first = 8; count = 16; read_only = 1 }
unfolding bind_all bind_range publish_range disk_current any_conflict range_valid ranges_conflict
    block_target_publish mapper_create publish_target target_create run_all run_each run_steps
binding_two = refl

shared-Sized : Sized shared
unfolding bind_all bind_range publish_range disk_current any_conflict range_valid ranges_conflict
    block_target_publish mapper_create publish_target target_create run_all run_each run_steps
shared-Sized = (omega arith, tt)

bind_range_immutable_example :
    binding (bind_range able media (request 1) shared []).1 2 ≡ binding shared 2
bind_range_immutable_example =
    bind_range_immutable able media (request 1) shared [] 2 shared-IsValid
      (rw binding_two (omega arith))

shared_read_only_example : (0 < (binding shared 1).read_only) × (0 < (binding shared 2).read_only)
shared_read_only_example =
    shared_read_only shared 1 2 10 shared-IsValid shared-Sized (omega arith)
      (rw binding_one (omega arith)) (rw binding_one (rw binding_two refl))
      (rw binding_one (rw binding_two (omega arith, omega arith, omega arith, omega arith)))

removes : Removes linkless 1
removes log c mine present = grind arith

abbrev range : BlockRange
range = record { disk = 1; first = 8; count = 16; read_only = 1 }

block_target_publish_objects_example :
    let (done, log) = block_target_publish linkless 1 2048 512 range [] in
    objects_of 1 log ≡ (if done then everything else nothing)
block_target_publish_objects_example =
    block_target_publish_objects linkless 1 removes 2048 512 range [] refl

block_target_publish_published_example :
    let (done, log) = block_target_publish linkless 1 2048 512 range [] in
    (objects_of 1 log).published ≡ done
block_target_publish_published_example =
    block_target_publish_published linkless 1 2048 512 range [] refl

fits : Fits 1048576 512 0 range
unfolding range_valid
fits = range_valid-Fits 1048576 512 0 range refl

table_of-Fits_example :
    let t = table_of 2048 512 range in
    (t.offset * 512 ≡ 4096) × (t.length * 512 ≡ 8192) × (t.offset * 512 + t.length * 512 ≤ 1048576)
table_of-Fits_example = table_of-Fits 2048 1048576 512 0 range fits (omega arith)

-- A second disk appears.
abbrev entries : Option (List Entry)
entries = some (
    record {
      hidden = false;
      partition = false;
      backed = true;
      opening = opened 13;
      geometry = some (record {
        device = 2064;
        bytes = 4096;
        sequence = 4;
        logical = 512;
        physical = 512;
        read_only = 0;
      });
    }
    ∷ [])

discover_disks_stable_example :
    get_elem? (discover_disks entries (record { disks = owner.disks; closed = [] })).1.disks 0
    ≡ some disk
discover_disks_stable_example =
    discover_disks_stable entries (record { disks = owner.disks; closed = [] }) 0 (omega arith)
      (omega arith)

discover_disks-IsValid_example : IsValid (record owner {
  disks = (discover_disks entries (record { disks = owner.disks; closed = [] })).1.disks;
})
discover_disks-IsValid_example = discover_disks-IsValid entries owner [] (omega arith) owner-IsValid

bounded : Bounded outside.reader
bounded fd count offset n e = ground (arith, e)

abbrev read_request : ReadRequest
read_request = record { disk = 1; offset = 512; length = 1024; memory_offset = 4096 }

block_read-Reads_example :
    Reads read_request
      (some 65536)
      (block_read outside.reader media read_request (some 65536) owner)
block_read-Reads_example =
    block_read-Reads outside.reader bounded media read_request owner (some 65536)
