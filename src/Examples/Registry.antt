-- ===== src/Examples/Registry.antt =====
-- A shared granule acquired and put, a batch, and a number of a command line.
use hype_r_io_vm.Base.{
  ℕ, ◌+◌, ◌^◌, ◌≤◌, ◌<◌, ◌≡◌, ◌≢◌, ◌⊎◌, ◌↔◌, refl, true, some, List, [], ◌∷◌, All, arith,
}
use hype_r_io_vm.Service.State.{NetworkResources}
use hype_r_io_vm.Granules.{Registry, Answers, users_of, hyper_granule_get, hyper_granules_put}
use hype_r_io_vm.Granules.Batches.{put_each, hyper_granules_put_lem}
use hype_r_io_vm.Granules.Held.{
  IsHeld, undo, get_put, hyper_granule_get-IsHeld, hyper_granules_put-IsHeld,
}
use hype_r_io_vm.Resources.{
  int_max, rx_backlog_max, tx_buffer_min, digits, hyper_network_resource_number,
  hyper_network_resources_parse, hyper_mac_parse,
}
use hype_r_io_vm.Resources.Mac.{mac_text, hyper_mac_parse_text}
use hype_r_io_vm.Resources.Number.{
  IsDigit, value, hyper_network_resource_number_lem, hyper_network_resources_parse_lem,
}

-- Granule 5 with two users and granule 7 with one.
abbrev registry : Registry
registry = record {
  granules = record { index = 5; users = 2 } ∷ record { index = 7; users = 1 } ∷ [];
  claimed = 5 ∷ 7 ∷ [];
  mapped = 5 ∷ 7 ∷ [];
}

abbrev answers : Answers
answers = record { allocated = true; requested = true; remapped = true; stored = true }

few : (n : ℕ) → users_of 5 (registry.granules) ≡ some n → (0 < n) × (n + 1 < 2 ^ 32)
unfolding users_of
few n h = ground (arith, h)

get_put_example :
    undo (hyper_granule_get answers 5 registry).0 5 (hyper_granule_get answers 5 registry).1
    ≡ registry
get_put_example = get_put answers 5 registry few

hyper_granules_put_lem_example :
    hyper_granules_put (7 ∷ 5 ∷ []) registry ≡ put_each (7 ∷ 5 ∷ []) registry
hyper_granules_put_lem_example = hyper_granules_put_lem (7 ∷ 5 ∷ []) registry

held : IsHeld registry
held = record { claimed = refl; mapped = refl }

hyper_granule_get-IsHeld_example : IsHeld (hyper_granule_get answers 6 registry).1
hyper_granule_get-IsHeld_example = hyper_granule_get-IsHeld answers 6 registry held

hyper_granules_put-IsHeld_example : IsHeld (hyper_granules_put (7 ∷ 5 ∷ []) registry)
hyper_granules_put-IsHeld_example = hyper_granules_put-IsHeld (7 ∷ 5 ∷ []) registry held

abbrev forty_two : List ℕ
forty_two = 52 ∷ 50 ∷ []

hyper_network_resource_number_lem_example :
    (hyper_network_resource_number forty_two ≡ some 42)
    ↔ ((forty_two ≢ []) × All IsDigit forty_two × (42 ≡ value 0 forty_two) × (42 ≤ int_max))
hyper_network_resource_number_lem_example = hyper_network_resource_number_lem forty_two 42

-- The address 02:00:00:00:00:1f.
abbrev address : List ℕ
address = 2 ∷ 0 ∷ 0 ∷ 0 ∷ 0 ∷ 31 ∷ []

hyper_mac_parse_text_example : hyper_mac_parse (mac_text address) ≡ some address
hyper_mac_parse_text_example = hyper_mac_parse_text address refl (ground arith) refl

-- The texts "512" and "0".
abbrev backlog_text : List ℕ
backlog_text = 53 ∷ 49 ∷ 50 ∷ []

abbrev unlimited_text : List ℕ
unlimited_text = 48 ∷ []

parsed :
    hyper_network_resources_parse backlog_text unlimited_text
    ≡ some (record { rx_backlog_packets = 512; tx_buffer_bytes = 0 })
unfolding hyper_network_resources_parse hyper_network_resource_number digits
parsed = refl

hyper_network_resources_parse_lem_example :
    let r : NetworkResources = record { rx_backlog_packets = 512; tx_buffer_bytes = 0 } in
    (r.rx_backlog_packets ≡ value 0 backlog_text)
    × (0 < r.rx_backlog_packets)
    × (r.rx_backlog_packets ≤ rx_backlog_max)
    × (r.tx_buffer_bytes ≡ value 0 unlimited_text)
    × (r.tx_buffer_bytes ≤ int_max)
    × ((r.tx_buffer_bytes ≡ 0) ⊎ (tx_buffer_min ≤ r.tx_buffer_bytes))
hyper_network_resources_parse_lem_example =
    hyper_network_resources_parse_lem backlog_text unlimited_text
      (record { rx_backlog_packets = 512; tx_buffer_bytes = 0 }) parsed
