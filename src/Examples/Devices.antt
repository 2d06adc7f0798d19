-- ===== src/Examples/Devices.antt =====
-- Queues placed, and both devices of a client activated.
use hype_r_io_vm.Base.{ℕ, ◌≡◌, ◌+◌, refl, some, List, [], ◌∷◌, All, Pairs, length, arith}
use hype_r_io_vm.Service.Calls.{Region}
use hype_r_io_vm.Service.Rings.{Queue, Span, queue_address, overlaps, place_parts, place_queues}
use hype_r_io_vm.Service.Rings.Placement.{Inside, Clear, place_queues-Placed}
use hype_r_io_vm.Service.Activate.{ActivateRequest, version_1}

abbrev queue : ℕ → Queue
queue base = record {
  size = 8;
  reserved = 0;
  descriptor = base;
  available = base + 128;
  used = base + 160;
}

abbrev absent : Queue
absent = record { size = 0; reserved = 0; descriptor = 0; available = 0; used = 0 }

abbrev region : Region
region = record { guest_base = 0; length = 65536 }

abbrev spans : List Span
spans =
    record { start = 1048576; end = 1048704 }
    ∷ record { start = 1048704; end = 1048726 }
    ∷ record { start = 1048736; end = 1048806 }
    ∷ record { start = 1052672; end = 1052800 }
    ∷ record { start = 1052800; end = 1052822 }
    ∷ record { start = 1052832; end = 1052902 }
    ∷ []

placed : place_queues 1048576 region 2 0 (queue 0 ∷ queue 4096 ∷ []) [] ≡ some spans
unfolding place_queues place_parts queue_address overlaps
placed = refl

place_queues-Placed_example :
    All (Inside 1048576 region) spans × Pairs Clear spans × (length spans ≡ 6)
place_queues-Placed_example =
    place_queues-Placed 1048576 region (omega arith) 2 (queue 0 ∷ queue 4096 ∷ []) spans placed

abbrev disk_request : ActivateRequest
disk_request = record {
  epoch = 1;
  features = version_1;
  queues = queue 0 ∷ queue 4096 ∷ queue 8192 ∷ absent ∷ absent ∷ absent ∷ [];
}

abbrev network_request : ActivateRequest
network_request = record { epoch = 1; features = version_1; queues = queue 0 ∷ queue 4096 ∷ [] }
