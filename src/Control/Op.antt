-- ===== src/Control/Op.antt =====
-- The operations of a request, `enum hyper_io_operation` of include/hyper_io.h.
use hype_r_io_vm.Base.{ℕ}

abbrev pub hello : ℕ
hello = 1

abbrev pub activate : ℕ
activate = 2

abbrev pub reset : ℕ
reset = 3

abbrev pub stop_queue : ℕ
stop_queue = 4

abbrev pub prepare_memory : ℕ
prepare_memory = 5

abbrev pub release_memory : ℕ
release_memory = 6

abbrev pub network_hello : ℕ
network_hello = 7

abbrev pub network_activate : ℕ
network_activate = 8

abbrev pub network_reset : ℕ
network_reset = 9

abbrev pub network_stop_queue : ℕ
network_stop_queue = 10

abbrev pub block_hello : ℕ
block_hello = 11

abbrev pub block_enum : ℕ
block_enum = 12

abbrev pub block_read : ℕ
block_read = 13

abbrev pub block_bind : ℕ
block_bind = 14
