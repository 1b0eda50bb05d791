-- ===== src/Fields/Tests.antt =====
-- A mask of 70 bits.
use queue_dpdk.Prelude.{◌≡◌, refl}
use queue_dpdk.Fields.{mask_range}

third : mask_range 70 2 ≡ 6
unfolding mask_range
third = refl
