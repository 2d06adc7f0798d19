-- ===== src/BlockTarget/Publication.antt =====
-- When a client's symlink is there, whatever the kernel answers; and what its table maps.
use hype_r_io_vm.Base.{ℕ, ◌≡◌, Bool, true, false, [], ◌∷◌, ◌==◌, arith}
use hype_r_io_vm.BlockPolicy.{BlockRange}
use hype_r_io_vm.BlockTarget.{
  Host, Log, make_shared, open_control, mapper_dir, iblock_dir, vhost_dir, run_all, run_each,
  run_steps, mapper_create, target_steps, undo_calls, target_create, publish_target,
  block_target_publish,
}
use hype_r_io_vm.BlockTarget.Rollback.{objects_of}

abbrev is_published : ℕ → Log → Bool
is_published client log = (objects_of client log).published

module _ (host : Host) (client : ℕ) where
  same : (client == client) ≡ true
  same = ground arith

  mapper_create_published :
      (device logical : ℕ) (r : BlockRange) (log : Log)
      → is_published client log ≡ false
      → is_published client (mapper_create host client device logical r log).1 ≡ false
  unfolding mapper_create run_all
  mapper_create_published device logical r log h = grind (arith, same)

  run_steps_published :
      (read_only : ℕ) (log : Log)
      → is_published client log ≡ false
      → let (done, made, log') = run_steps host (target_steps client read_only) 0 log in
        is_published client log' ≡ done
  unfolding run_steps
  run_steps_published read_only log h = grind (arith, same)

  run_each_published :
      (made : ℕ) (log : Log)
      → is_published client log ≡ false
      → is_published client (run_each host (undo_calls client made) log) ≡ false
  unfolding run_each
  run_each_published made log h = grind (arith, same)

  target_create_published :
      (read_only : ℕ) (log : Log)
      → is_published client log ≡ false
      → let (done, log') = target_create host client read_only log in
        is_published client log' ≡ done
  unfolding target_create
  target_create_published read_only log h =
      grind (arith, same, run_steps_published read_only log h, run_each_published)

  publish_target_published :
      (read_only : ℕ) (log : Log)
      → is_published client log ≡ false
      → let (done, log') = publish_target host client read_only log in
        is_published client log' ≡ done
  unfolding publish_target
  publish_target_published read_only log h =
      grind (arith, same, target_create_published read_only log h)

  prepared_published :
      (log : Log)
      → is_published client log ≡ false
      → is_published client
          (run_all host
            (make_shared mapper_dir
              ∷ make_shared iblock_dir
              ∷ make_shared vhost_dir
              ∷ open_control
              ∷ [])
            log).1
        ≡ false
  unfolding run_all
  prepared_published log h = grind (arith, same)

  -- Where the client's symlink is not there, it is made exactly by a publication that reports
  -- success, whatever the kernel answers to each call and to each call of the rollback.
  pub block_target_publish_published :
      (device logical : ℕ) (r : BlockRange) (log : Log)
      → is_published client log ≡ false
      → let (done, log') = block_target_publish host client device logical r log in
        is_published client log' ≡ done
  unfolding block_target_publish
  block_target_publish_published device logical r log h = grind (
    arith,
    same,
    prepared_published log h,
    mapper_create_published device logical r,
    publish_target_published r.read_only,
  )
