-- ===== src/BlockTarget.antt =====
-- service/block-target.c: a client's range becomes a dm-linear device and a LIO target, which one
-- symlink publishes. Paths are constructors, since every path is a fixed text around the client's
-- number; the log lines are left out.
pub mod Rollback
pub mod Linear
pub mod Publication
use hype_r_io_vm.Base.{
  ℕ, suc, ◌+◌, ◌*◌, ◌/◌, ◌%◌, ◌^◌, Bool, true, false, ◌&&◌, not, List, [], ◌∷◌, leb, nonzero,
  if◌then◌else◌,
}
use hype_r_io_vm.BlockPolicy.{BlockRange}

-- The directories that all clients share, and the objects of one client.
pub data Shared : Type 0 where
  mapper_dir iblock_dir vhost_dir : Shared

pub data Directory : Type 0 where
  core target group lun : Directory

-- `uint64_t` numbers of a table line: start sector, length and offset in 512-byte units.
pub record Table : Type 0 where
  pub length : ℕ
  pub device : ℕ
  pub offset : ℕ
  pub read_only : ℕ

pub data TargetCall : Type 0 where
  make_shared : Shared → TargetCall  -- mkdir, where EEXIST counts as success
  open_control : TargetCall
  close_control : TargetCall
  dm_create : ℕ → TargetCall
  dm_load : ℕ → Table → TargetCall
  dm_resume : ℕ → ℕ → TargetCall  -- DM_DEV_SUSPEND without its flag, with the read-only flag
  dm_remove : ℕ → TargetCall
  make_node : ℕ → TargetCall
  unlink_node : ℕ → TargetCall
  make_directory : ℕ → Directory → TargetCall
  remove_directory : ℕ → Directory → TargetCall
  write_control : ℕ → ℕ → TargetCall
  write_enable : ℕ → TargetCall
  write_nexus : ℕ → TargetCall
  clear_nexus : ℕ → TargetCall
  link_lun : ℕ → TargetCall

-- The calls made so far and whether each was accepted, newest first.
abbrev pub Log : Type 0
Log = List (TargetCall × Bool)

-- The kernel's answer to a call, given all calls before it.
abbrev pub Host : Type 0
Host = Log → TargetCall → Bool

-- One call.
abbrev pub issue : Host → TargetCall → Log → Log
issue host c log = (c, host log c) ∷ log

-- `a || b || c`: up to the first call that fails.
unfoldable pub run_all : Host → List TargetCall → Log → Bool × Log
run_all host [] log = (true, log)
run_all host (c ∷ cs) log = elim (host log c) [
  | true ↦ run_all host cs ((c, true) ∷ log)
  | false ↦ (false, (c, false) ∷ log)
]

-- The rollback: every call is made, whatever becomes of the one before.
unfoldable pub run_each : Host → List TargetCall → Log → Log
run_each host [] log = log
run_each host (c ∷ cs) log = run_each host cs (issue host c log)

abbrev pub mul64 : ℕ → ℕ → ℕ
mul64 a b = a * b % 2 ^ 64

-- The linear target that `mapper_create` fills in.
unfoldable pub table_of : ℕ → ℕ → BlockRange → Table
table_of device logical r = record {
  length = mul64 r.count (logical / 512);
  device = device;
  offset = mul64 r.first (logical / 512);
  read_only = r.read_only;
}

unfoldable pub mapper_create : Host → ℕ → ℕ → ℕ → BlockRange → Log → Bool × Log
mapper_create host client device logical r log =
    let log1 = issue host (dm_create client) log in
    let (done, log2) =
      run_all host
        (dm_load client (table_of device logical r)
          ∷ dm_resume client r.read_only
          ∷ make_node client
          ∷ [])
        log1 in
    if not (host log (dm_create client))
    then (false, log1)
    else if done
    then (true, log2)
    else (false, issue host (dm_remove client) log2)

-- The steps of `target_create`, each with the value of `made` once it has succeeded.
abbrev pub target_steps : ℕ → ℕ → List (TargetCall × ℕ)
target_steps client read_only =
    (make_directory client core, 1)
    ∷ (write_control client read_only, 1)
    ∷ (write_enable client, 1)
    ∷ (make_directory client target, 2)
    ∷ (make_directory client group, 3)
    ∷ (make_directory client lun, 4)
    ∷ (write_nexus client, 5)
    ∷ (link_lun client, 5)
    ∷ []

-- The steps up to the first that fails, with the last value of `made`.
unfoldable pub run_steps : Host → List (TargetCall × ℕ) → ℕ → Log → Bool × ℕ × Log
run_steps host [] made log = (true, made, log)
run_steps host ((c, made') ∷ steps) made log = elim (host log c) [
  | true ↦ run_steps host steps made' ((c, true) ∷ log)
  | false ↦ (false, made, (c, false) ∷ log)
]

-- The label `failed`: what `made` says exists is removed, the newest first.
abbrev pub when : Bool → TargetCall → List TargetCall → List TargetCall
when test c cs = if test then c ∷ cs else cs

abbrev pub undo_calls : ℕ → ℕ → List TargetCall
undo_calls client made = when (leb 5 made) (clear_nexus client) (
    when (leb 4 made) (remove_directory client lun) (
      when (leb 3 made) (remove_directory client group) (
        when (leb 2 made) (remove_directory client target)
          (when (leb 1 made) (remove_directory client core) []))))

unfoldable pub target_create : Host → ℕ → ℕ → Log → Bool × Log
target_create host client read_only log =
    let (done, made, log') = run_steps host (target_steps client read_only) 0 log in
    if done then (true, log') else (false, run_each host (undo_calls client made) log')

-- The end of `block_target_publish`, once the mapper device exists.
unfoldable pub publish_target : Host → ℕ → ℕ → Log → Bool × Log
publish_target host client read_only log =
    let (done, log1) = target_create host client read_only log in
    let log2 = issue host (dm_remove client) log1 in
    if done
    then (true, log1)
    else if host log1 (dm_remove client)
    then (false, issue host (unlink_node client) log2)
    else (false, log2)

unfoldable pub block_target_publish : Host → ℕ → ℕ → ℕ → BlockRange → Log → Bool × Log
block_target_publish host client device logical r log =
    let (ready, log1) =
      run_all host
        (make_shared mapper_dir
          ∷ make_shared iblock_dir
          ∷ make_shared vhost_dir
          ∷ open_control
          ∷ [])
        log in
    let (mapped, log2) = mapper_create host client device logical r log1 in
    let (published, log3) = publish_target host client r.read_only log2 in
    if not ready
    then (false, log1)
    else if mapped
    then (published, issue host close_control log3)
    else (false, issue host close_control log2)
