-- ===== src/Adc/Tests.antt =====
-- The sampler on concrete readings.
use roip.Prelude.{ℕ, ◌≡◌, refl, true, List, [], ◌∷◌, map, arith, replicate, u8}
use roip.Adc.{Adc, x1, x2, block, run}
use roip.Adc.Blocks.{IsValid, convert, block_delivered}

abbrev silence : List ℕ
silence = replicate 640 0

abbrev idle : Adc
idle = record {
  samples1 = silence;
  samples2 = silence;
  block_fill = x1;
  block_result = x2;
  n_samples = 0;
  n_conv_finished = 0;
  send_samples = true;
  arg_callback = 7;
}

abbrev almost : Adc
almost = record idle { n_samples = 639; n_conv_finished = 255 }

x1-ne-x2 : x1 ≡ x2 → ⊥
x1-ne-x2 e = cc

idle-IsValid : IsValid idle
idle-IsValid = record {
  length1 = refl;
  length2 = refl;
  apart = x1-ne-x2;
  in_block = omega arith;
  flag_byte = omega arith;
}

almost-IsValid : IsValid almost
almost-IsValid = record {
  length1 = refl;
  length2 = refl;
  apart = x1-ne-x2;
  in_block = omega arith;
  flag_byte = omega arith;
}

-- Full scale, mid scale and zero.
samples_of_readings : map convert (0xFFFF ∷ 0x8003 ∷ 0 ∷ []) ≡ 0x7FF0 ∷ 0 ∷ 0x8000 ∷ []
samples_of_readings = refl

block_delivered_example :
    let b = (run (replicate 640 0x12345) idle).0 in
    (block b b.block_result ≡ map convert (replicate 640 0x12345))
    × (b.block_fill ≡ x2)
    × (b.block_result ≡ x1)
    × (b.n_samples ≡ 0)
    × (b.n_conv_finished ≡ u8 1)
block_delivered_example = block_delivered (replicate 640 0x12345) idle-IsValid refl refl
