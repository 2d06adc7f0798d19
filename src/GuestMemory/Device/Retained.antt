-- ===== src/GuestMemory/Device/Retained.antt =====
-- A device retains each page of its region once, and a probe that fails none.
use hype_r_io_vm.Base.{
  ℕ, zero, suc, ◌+◌, ◌/◌, ◌≡◌, refl, ap, subst, Bool, true, false, none, some, List, [], ◌∷◌,
  if◌then◌else◌, arith,
}
use hype_r_io_vm.GuestMemory.{
  Memory, Host, Outcome, done, invalid, resource_size, hyper_memory_unprepare,
}
use hype_r_io_vm.Layout.{page_size}
use hype_r_io_vm.GuestMemory.Device.{
  Node, Event, get_page, put_page, free_memory, blank, put_pages, hyper_memory_destroy, retain,
  Probed, fail, register_device, after_retain, probe_region, probe_dynamic, hyper_memory_probe,
}

-- Each frame at its weight: that the sums agree at every weight says that the frames agree, with
-- their number.
module _ (w : ℕ → ℕ) where
  abbrev pub got : List Event → ℕ
  got [] = 0
  got (get_page f ∷ t) = w f + got t
  got (put_page f ∷ t) = got t
  got (free_memory ∷ t) = got t

  abbrev pub put : List Event → ℕ
  put [] = 0
  put (put_page f ∷ t) = w f + put t
  put (get_page f ∷ t) = put t
  put (free_memory ∷ t) = put t

  -- The frames of `n` pages from page `i` on.
  abbrev pub frames : ℕ → ℕ → ℕ → ℕ
  frames first i zero = 0
  frames first i (suc n) = w (first + i) + frames first (i + 1) n

  abbrev pub retains : Memory → ℕ
  retains m = if m.dynamic then 0 else frames m.first_pfn 0 m.pages

  frames_snoc : (first i n : ℕ) → frames first i (suc n) ≡ frames first i n + w (first + (i + n))
  frames_snoc first i zero =
      let same : i + 0 ≡ i = omega arith in let e = ap (λ k. w (first + k)) same in omega (arith, e)
  frames_snoc first i (suc n) =
      let rest = frames_snoc first (i + 1) n in
      let same : i + 1 + n ≡ i + suc n = omega arith in
      let e = ap (λ k. w (first + k)) same in omega (arith, rest, e)

  put_pages-frames :
      (first i n : ℕ) (t : List Event)
      → (put (put_pages first i n t) ≡ put t + frames first i n)
        × (got (put_pages first i n t) ≡ got t)
  unfolding put_pages
  put_pages-frames first i zero t = (omega arith, refl)
  put_pages-frames first i (suc n) t =
      let rest = put_pages-frames first (i + 1) n (put_page (first + i) ∷ t) in ground (arith, rest)

  retain-frames :
      (x : Node) (first i n : ℕ) (t : List Event)
      → got t ≡ put t + frames first 0 i
      → let (fine, pages, u) = retain x first i n t in got u ≡ put u + frames first 0 pages
  unfolding retain
  retain-frames x first i zero t h = h
  retain-frames x first i (suc n) t h =
      let more = frames_snoc first 0 i in
      let one : suc i ≡ i + 1 = omega arith in
      let next = subst (λ k. frames first 0 k ≡ frames first 0 i + w (first + (0 + i))) one more in
      let zero_add : 0 + i ≡ i = omega arith in
      let here = ap (λ k. w (first + k)) zero_add in
      let rest =
        retain-frames x first (i + 1) n (get_page (first + i) ∷ t) (omega (arith, h, next, here)) in
      ground (arith, h, rest)

  -- What a probe leaves: a device that retains what was got and not put, or nothing that was not put.
  pub Settles : Probed → Type 0
  Settles (e, some m, t) = got t ≡ put t + retains m
  Settles (e, none, t) = got t ≡ put t

  fail-Settles :
      (e : Outcome) (m : Memory) (t : List Event) → got t ≡ put t + retains m → Settles (fail e m t)
  unfolding fail Settles
  fail-Settles e m t h =
      let back = put_pages-frames m.first_pfn 0 m.pages t in ground (arith, h, back)

  done-Settles :
      (m : Memory) (t : List Event)
      → got t ≡ put t + retains m
      → Settles (done, some (record m { live = true }), t)
  unfolding Settles
  done-Settles m t h = h

  none-Settles : (e : Outcome) → Settles (e, none, [])
  unfolding Settles
  none-Settles e = refl

  register-Settles :
      (x : Node) (m : Memory) (t : List Event)
      → got t ≡ put t + retains m
      → Settles (register_device x m t)
  unfolding register_device
  register-Settles x m t h =
      let failed = λ (e : Outcome). fail-Settles e m t h in
      let kept = done-Settles m t h in grind (arith, failed, kept)

  after_retain-Settles :
      (x : Node) (m : Memory) (r : Bool × ℕ × List Event)
      → m.dynamic ≡ false
      → got r.2 ≡ put r.2 + frames m.first_pfn 0 r.1
      → Settles (after_retain x m r)
  unfolding after_retain
  after_retain-Settles x m (true, pages, t) static h =
      register-Settles x (record m { pages = pages }) t (rw static h)
  after_retain-Settles x m (false, pages, t) static h =
      fail-Settles invalid (record m { pages = pages }) t (rw static h)

  region-Settles : (x : Node) (start last : ℕ) → Settles (probe_region x start last)
  unfolding probe_region
  region-Settles x start last =
      let total = resource_size start last / page_size in
      let first = start / page_size in
      let bare = λ (e : Outcome). none-Settles e in
      let failed = λ (b : ℕ). fail-Settles invalid (record blank { guest_base = b }) [] refl in
      let retained = λ (b : ℕ).
        after_retain-Settles x (record blank { first_pfn = first; guest_base = b })
          (retain x first 0 total []) refl (retain-frames x first 0 total [] refl) in
      grind (arith, bare, failed, retained)

  dynamic-Settles : (x : Node) → Settles (probe_dynamic x)
  unfolding probe_dynamic
  dynamic-Settles x =
      let bare = λ (e : Outcome). none-Settles e in
      let failed = λ (b e : ℕ).
        fail-Settles invalid (record blank { dynamic = true; start = b; stop = e }) [] refl in
      let kept = λ (b e : ℕ).
        register-Settles x (record blank { dynamic = true; start = b; stop = e }) [] refl in
      grind (arith, bare, failed, kept)

  -- Whatever the node holds and wherever the probe fails.
  pub hyper_memory_probe-Settles : (x : Node) → Settles (hyper_memory_probe x)
  unfolding hyper_memory_probe
  hyper_memory_probe-Settles x =
      let bare = λ (e : Outcome). none-Settles e in
      let region = λ (start last : ℕ). region-Settles x start last in
      let dynamic = dynamic-Settles x in grind (arith, bare, region, dynamic)

  -- A device that is destroyed puts what it retained.
  pub hyper_memory_destroy-put :
      (h : Host) (t : List Event)
      → got t ≡ put t + retains h.memory
      → got (hyper_memory_destroy h t).1 ≡ put (hyper_memory_destroy h t).1
  unfolding hyper_memory_destroy hyper_memory_unprepare
  hyper_memory_destroy-put h t e =
      let m = h.memory in
      let back = put_pages-frames m.first_pfn 0 m.pages t in ground (arith, e, back)
