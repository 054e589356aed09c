-- ===== src/Adc/Sample.antt =====
-- apps/adc.c: what the value of a stored sample is.
use roip.Prelude.{ℕ, ◌*◌, ◌/◌, ◌≤◌, ◌<◌, ◌≡◌, arith}
use roip.Prelude.Int.{sub_ℕ, signed16, ◌≤ℤ◌}
use roip.Adc.{to_sample}

-- The conversion does not overflow an `int16_t`: the stored pattern, read as a signed number, is
-- exactly the 12-bit reading in the register's upper bits less the mid-scale 32768.
pub to_sample-signed16 : (u : ℕ) → u < 65536 → signed16 (to_sample u) ≡ sub_ℕ (u / 16 * 16) 32768
to_sample-signed16 u h = ground arith

-- Samples keep the order of the readings.
pub to_sample_mono :
    (u v : ℕ) → u ≤ v → v < 65536 → signed16 (to_sample u) ≤ℤ signed16 (to_sample v)
to_sample_mono u v h k = ground (arith, to_sample-signed16 u, to_sample-signed16 v)
