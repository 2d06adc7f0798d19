-- ===== src/Layout.antt =====
-- The extent and aperture tests of include/hyper_io_layout.h, over 64-bit words.
use hype_r_io_vm.Base.{ℕ, ◌-◌, ◌*◌, ◌%◌, ◌^◌, Bool, ◌&&◌, not, leb, ◌==◌}

abbrev pub u64_max : ℕ
u64_max = 2 ^ 64 - 1

abbrev pub page_size : ℕ
page_size = 4096

-- `SZ_2M`
abbrev pub granule_size : ℕ
granule_size = 2 * 1024 * 1024

-- `hyper_io_extent_valid`. The two subtractions are reached only where they do not wrap:
-- `length` and `alias` are words, and `cursor <= total` was tested.
unfoldable pub extent_valid : ℕ → ℕ → ℕ → ℕ → ℕ → Bool
extent_valid cursor total alias offset length =
    leb cursor total
    && offset == cursor
    && not (length == 0)
    && length % page_size == 0
    && alias % page_size == 0
    && leb alias (u64_max - length)
    && leb length (total - cursor)

-- `hyper_io_page_aperture`; `alias & ~mask` clears the low 21 bits.
unfoldable pub page_aperture : ℕ → ℕ → ℕ → Bool
page_aperture alias start end =
    alias % page_size == 0 && leb start base && leb base end && leb mask (end - base)
  where
    mask : ℕ
    mask = granule_size - 1

    base : ℕ
    base = alias - alias % granule_size
