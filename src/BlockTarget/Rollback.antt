-- ===== src/BlockTarget/Rollback.antt =====
-- What a publication leaves in the kernel: everything, or after its rollback nothing.
use hype_r_io_vm.Base.{
  ℕ, ◌≡◌, Bool, true, false, [], ◌∷◌, ◌==◌, ◌&&◌, not, leb, arith, if◌then◌else◌,
}
use hype_r_io_vm.BlockPolicy.{BlockRange}
use hype_r_io_vm.BlockTarget.{
  core, target, group, lun, TargetCall, make_shared, open_control, close_control, dm_create,
  dm_load, dm_resume, dm_remove, make_node, unlink_node, make_directory, remove_directory,
  write_control, write_enable, write_nexus, clear_nexus, link_lun, Log, Host, run_all, run_each,
  mapper_create, target_steps, run_steps, undo_calls, target_create, publish_target,
  block_target_publish, mapper_dir, iblock_dir, vhost_dir,
}

-- The objects of one client that its calls create and remove.
pub record Objects : Type 0 where
  pub mapper : Bool
  pub node : Bool
  pub core_dir : Bool
  pub target_dir : Bool
  pub group_dir : Bool
  pub lun_dir : Bool
  pub nexus : Bool
  pub published : Bool

abbrev pub nothing : Objects
nothing = record {
  mapper = false;
  node = false;
  core_dir = false;
  target_dir = false;
  group_dir = false;
  lun_dir = false;
  nexus = false;
  published = false;
}

abbrev pub mapped : Objects
mapped = record nothing { mapper = true; node = true }

abbrev pub everything : Objects
everything = record {
  mapper = true;
  node = true;
  core_dir = true;
  target_dir = true;
  group_dir = true;
  lun_dir = true;
  nexus = true;
  published = true;
}

-- The client whose objects a call makes or removes.
abbrev pub concerns : ℕ → TargetCall → Bool
concerns client (make_shared d) = false
concerns client open_control = false
concerns client close_control = false
concerns client (dm_create c) = c == client
concerns client (dm_load c t) = c == client
concerns client (dm_resume c r) = c == client
concerns client (dm_remove c) = c == client
concerns client (make_node c) = c == client
concerns client (unlink_node c) = c == client
concerns client (make_directory c d) = c == client
concerns client (remove_directory c d) = c == client
concerns client (write_control c r) = c == client
concerns client (write_enable c) = c == client
concerns client (write_nexus c) = c == client
concerns client (clear_nexus c) = c == client
concerns client (link_lun c) = c == client

-- What an accepted call does to the objects of its client.
abbrev pub effect : TargetCall → Objects → Objects
effect (dm_create c) o = record o { mapper = true }
effect (dm_remove c) o = record o { mapper = false }
effect (make_node c) o = record o { node = true }
effect (unlink_node c) o = record o { node = false }
effect (make_directory c core) o = record o { core_dir = true }
effect (make_directory c target) o = record o { target_dir = true }
effect (make_directory c group) o = record o { group_dir = true }
effect (make_directory c lun) o = record o { lun_dir = true }
effect (remove_directory c core) o = record o { core_dir = false }
effect (remove_directory c target) o = record o { target_dir = false }
effect (remove_directory c group) o = record o { group_dir = false }
effect (remove_directory c lun) o = record o { lun_dir = false }
effect (write_nexus c) o = record o { nexus = true }
effect (clear_nexus c) o = record o { nexus = false }
effect (link_lun c) o = record o { published = true }
effect _ o = o

-- The objects of a client after the calls of a log, of which those refused do nothing.
abbrev pub objects_of : ℕ → Log → Objects
objects_of client [] = nothing
objects_of client ((c, false) ∷ log) = objects_of client log
objects_of client ((c, true) ∷ log) =
    if concerns client c then effect c (objects_of client log) else objects_of client log

-- What can be removed: a device node that is there, a mapper device that no block object uses, a
-- directory that is there, holds nothing and is not linked to, and a nexus whose LUN is not
-- linked.
abbrev pub is_removable : TargetCall → Objects → Bool
is_removable (dm_remove c) o = o.mapper && not o.core_dir
is_removable (unlink_node c) o = o.node
is_removable (remove_directory c core) o = o.core_dir && not o.published
is_removable (remove_directory c target) o = o.target_dir && not o.group_dir
is_removable (remove_directory c group) o = o.group_dir && not o.lun_dir && not o.nexus
is_removable (remove_directory c lun) o = o.lun_dir && not o.published
is_removable (clear_nexus c) o = o.nexus && not o.published
is_removable _ o = false

-- The kernel removes of a client's objects what is there and not in use; it may refuse any other
-- removal, and any call that makes something.
abbrev pub Removes : Host → ℕ → Type 0
Removes host client =
    (log : Log) (c : TargetCall)
    → concerns client c ≡ true
    → is_removable c (objects_of client log) ≡ true
    → host log c ≡ true

module _ (host : Host) (client : ℕ) (removes : Removes host client) where
  same : (client == client) ≡ true
  same = ground arith

  mapper_create_lem :
      (device logical : ℕ) (r : BlockRange) (log : Log)
      → objects_of client log ≡ nothing
      → let (done, log') = mapper_create host client device logical r log in
        objects_of client log' ≡ (if done then mapped else nothing)
  unfolding mapper_create run_all
  mapper_create_lem device logical r log h = grind (arith, removes, same)

  create_done :
      (read_only : ℕ) (log : Log)
      → objects_of client log ≡ mapped
      → let (done, made', log') = run_steps host (target_steps client read_only) 0 log in
        done ≡ true → objects_of client log' ≡ everything
  unfolding run_steps
  create_done read_only log h = grind (arith, same)

  -- What `made` promises of the objects.
  abbrev built : ℕ → Objects
  built made = record mapped {
    core_dir = leb 1 made;
    target_dir = leb 2 made;
    group_dir = leb 3 made;
    lun_dir = leb 4 made;
    nexus = leb 5 made;
  }

  create_failed :
      (read_only : ℕ) (log : Log)
      → objects_of client log ≡ mapped
      → let (done, made', log') = run_steps host (target_steps client read_only) 0 log in
        done ≡ false → objects_of client log' ≡ built made'
  unfolding run_steps
  create_failed read_only log h = grind (arith, same)

  undone :
      (made : ℕ) (log : Log)
      → objects_of client log ≡ built made
      → objects_of client (run_each host (undo_calls client made) log) ≡ mapped
  unfolding run_each
  undone made log h = grind (arith, removes, same)

  target_create_lem :
      (read_only : ℕ) (log : Log)
      → objects_of client log ≡ mapped
      → let (done, log') = target_create host client read_only log in
        objects_of client log' ≡ (if done then everything else mapped)
  unfolding target_create
  target_create_lem read_only log h =
      grind (arith, create_done read_only log h, create_failed read_only log h, undone)

  publish_target_lem :
      (read_only : ℕ) (log : Log)
      → objects_of client log ≡ mapped
      → let (done, log') = publish_target host client read_only log in
        objects_of client log' ≡ (if done then everything else nothing)
  unfolding publish_target
  publish_target_lem read_only log h =
      grind (arith, target_create_lem read_only log h, removes, same)

  prepared :
      (log : Log)
      → objects_of client log ≡ nothing
      → objects_of client
          (run_all host
            (make_shared mapper_dir
              ∷ make_shared iblock_dir
              ∷ make_shared vhost_dir
              ∷ open_control
              ∷ [])
            log).1
        ≡ nothing
  unfolding run_all
  prepared log h = grind (arith, same)

  -- Where the client has no objects, and the kernel removes of them what is there and not in
  -- use, a publication that succeeds has made every object of the client, the symlink that
  -- publishes it included; one that fails leaves none of them.
  pub block_target_publish_objects :
      (device logical : ℕ) (r : BlockRange) (log : Log)
      → objects_of client log ≡ nothing
      → let (done, log') = block_target_publish host client device logical r log in
        objects_of client log' ≡ (if done then everything else nothing)
  unfolding block_target_publish
  block_target_publish_objects device logical r log h =
      grind
        (arith, prepared log h, mapper_create_lem device logical r, publish_target_lem r.read_only)
