-- ===== src/GuestMemory/Device.antt =====
-- `hyper_memory_probe` and `hyper_memory_destroy`: the pages that a reserved region retains. The
-- device tree and Linux are the probe's input.
pub mod Retained
use hype_r_io_vm.Base.{
  ℕ, zero, suc, ◌+◌, ◌-◌, ◌/◌, ◌%◌, Bool, true, false, ◌&&◌, ◌||◌, not, Option, none, some, is_some,
  on_option, List, [], ◌∷◌, ◌==◌, ltb, leb, nonzero, if◌then◌else◌,
}
use hype_r_io_vm.Layout.{u64_max, page_size}
use hype_r_io_vm.GuestMemory.{
  Memory, Host, Outcome, done, invalid, no_memory, resource_size, hyper_memory_unprepare,
}

-- The node's properties, and what Linux answers. `window` is the first address and the last of the
-- aperture, or of the region; `guest_base` and `client` are none when the property cannot be read;
-- `usable` is a frame that is valid, reserved, not compound, and whose page could be got.
pub record Node : Type 0 where
  pub dynamic : Bool
  pub has_region : Bool
  pub no_map : Bool
  pub reusable : Bool
  pub window : Option (ℕ × ℕ)
  pub has_guest_base : Bool
  pub guest_base : Option ℕ
  pub has_client : Bool
  pub client : Option ℕ
  pub allocated : Bool
  pub named : Bool
  pub published : Bool
  pub usable : ℕ → Bool

-- A page's reference got and put, and the device freed.
pub data Event : Type 0 where
  get_page put_page : ℕ → Event
  free_memory : Event

abbrev pub blank : Memory
blank = record {
  references = 1;
  first_pfn = 0;
  pages = 0;
  live = false;
  dynamic = false;
  opened = false;
  vmas = 0;
  start = 0;
  stop = 0;
  pfns = none;
  granules = [];
  guest_base = 0;
}

-- The loop of `hyper_memory_destroy` from page `i` on.
unfoldable pub put_pages : ℕ → ℕ → ℕ → List Event → List Event
put_pages first i zero t = t
put_pages first i (suc n) t = put_pages first (i + 1) n (put_page (first + i) ∷ t)

unfoldable pub hyper_memory_destroy : Host → List Event → Host × List Event
hyper_memory_destroy h t =
    let h' = hyper_memory_unprepare h in
    let m = h'.memory in
    (h', free_memory ∷ (if m.dynamic then t else put_pages m.first_pfn 0 m.pages t))

-- The loop that retains the pages from page `i` on: whether it came to its end, and `pages`.
unfoldable pub retain : Node → ℕ → ℕ → ℕ → List Event → Bool × ℕ × List Event
retain x first i zero t = (true, i, t)
retain x first i (suc n) t =
    let rest = retain x first (i + 1) n (get_page (first + i) ∷ t) in
    if x.usable (first + i) then rest else (false, i, t)

abbrev pub Probed : Type 0
Probed = Outcome × Option Memory × List Event

-- The label `fail`; the device holds no granules yet, so that the registry stays as it is.
unfoldable pub fail : Outcome → Memory → List Event → Probed
fail e m t = (e, none, free_memory ∷ (if m.dynamic then t else put_pages m.first_pfn 0 m.pages t))

-- The label `register_device`.
unfoldable pub register_device : Node → Memory → List Event → Probed
register_device x m t =
    if x.has_client && on_option x.client true (λ c. leb 128 c)
    then fail invalid m t
    else if not x.named
    then fail no_memory m t
    else if not x.published
    then fail invalid m t
    else (done, some (record m { live = true }), t)

-- The result of the loop.
unfoldable pub after_retain : Node → Memory → Bool × ℕ × List Event → Probed
after_retain x m (true, pages, t) = register_device x (record m { pages = pages }) t
after_retain x m (false, pages, t) = fail invalid (record m { pages = pages }) t

-- A reserved region, from its first address and its last. No 64-bit address is above ULONG_MAX.
unfoldable pub probe_region : Node → ℕ → ℕ → Probed
probe_region x start last =
    let bytes = resource_size start last in
    let base = if x.has_guest_base then x.guest_base else some start in
    let total = bytes / page_size in
    let first = start / page_size in
    if bytes == 0 || nonzero (start % page_size) || nonzero (bytes % page_size)
    then (invalid, none, [])
    else if ltb (u64_max - first) total
    then (invalid, none, [])
    else if not x.allocated
    then (no_memory, none, [])
    else on_option base (fail invalid blank []) λ b.
      let m : Memory = record blank { first_pfn = first; guest_base = b } in
      if nonzero (b % page_size) || ltb (u64_max - bytes) b
      then fail invalid (record blank { guest_base = b }) []
      else after_retain x m (retain x first 0 total [])

unfoldable pub probe_dynamic : Node → Probed
probe_dynamic x =
    let m : Memory = record blank { dynamic = true } in
    if not x.allocated
    then (no_memory, none, [])
    else on_option x.window (fail invalid m []) λ w.
      let m' : Memory = record m { start = w.0; stop = w.1 } in
      if resource_size w.0 w.1 == 0 then fail invalid m' [] else register_device x m' []

unfoldable pub hyper_memory_probe : Node → Probed
hyper_memory_probe x =
    if x.dynamic
    then probe_dynamic x
    else if not x.has_region || x.no_map || x.reusable
    then (invalid, none, [])
    else on_option x.window (invalid, none, []) λ w. probe_region x w.0 w.1
