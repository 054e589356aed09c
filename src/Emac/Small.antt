-- ===== src/Emac/Small.antt =====
-- lwip/src/arch/lpc17xx_40xx_emac.c: a controller, buffers and a driver without any.
use native.Mathlib.Nat.{mod-lt}
use roip.Prelude.{
  ℕ, ◌+◌, ◌-◌, ◌*◌, ◌%◌, ◌<◌, ◌≡◌, refl, List, [], ◌∷◌, arith, Option, none, some, replicate, ◌==◌,
  if◌then◌else◌,
}
use roip.Emac.Rx.Queue.{Holds}
use roip.Emac.{Pbuf, Desc, Stat, Enet, Chip, Laws}

abbrev pub chip : Chip
chip = record {
  rctrl = λ n. n;
  tctrl = λ n last. if last then n + 4096 else n;
  rinfo_error = λ s. s == 1;
  rinfo_size = λ s. s % 2048;
  free_desc_num = λ p q n. n - 1 - (p + n - q) % n;
  inc_tx_produce_index = λ i. (i + 1) % 4;
}

pub one_is_free : (p q n : ℕ) → p < n → q < n → (n - 1 - (p + n - q) % n) + (p + n - q) % n + 1 ≡ n
one_is_free p q n h k = let small = mod-lt (p + n - q) {m = n} (omega arith) in omega (arith, small)

abbrev pub chip_laws : Laws chip
chip_laws = record { free_desc_num_lem = one_is_free; inc_tx_produce_index_lem = λ i h. refl }

abbrev pub buffer : ℕ → Pbuf
buffer n = record { id = n; payload = n * 2048; len = 1536; tot_len = 1536; clen = 1 }

abbrev pub no_desc : Desc
no_desc = record { control = 0; packet = 0 }

abbrev pub stat : ℕ → Stat
stat n = record { status_info = n; status_hash_crc = 0 }

-- The driver with no buffer at all, and with two buffers that wait from the descriptor 1 on.
abbrev pub blank : Enet
blank = record {
  prxs = replicate 4 (stat 0);
  prxd = replicate 4 no_desc;
  ptxs = replicate 4 0;
  ptxd = replicate 4 no_desc;
  rxb = replicate 4 none;
  rx_fill_desc_index = 0;
  rx_free_descs = 4;
  txb = replicate 4 none;
  lpc_last_tx_idx = 0;
}

abbrev pub two_left : List (Option Pbuf)
two_left = some (buffer 3) ∷ some (buffer 4) ∷ none ∷ []

abbrev pub desc_of : ℕ → Desc
desc_of n = record { control = 1536; packet = n * 2048 }

abbrev pub waiting : ℕ → Enet
waiting s = record blank {
  prxs = stat 0 ∷ stat s ∷ stat 0 ∷ stat 0 ∷ [];
  prxd = no_desc ∷ desc_of 1 ∷ desc_of 2 ∷ no_desc ∷ [];
  rxb = none ∷ some (buffer 1) ∷ some (buffer 2) ∷ none ∷ [];
  rx_fill_desc_index = 3;
  rx_free_descs = 2;
}

pub waiting-Holds : (s : ℕ) → Holds chip 1 (buffer 1 ∷ buffer 2 ∷ []) (waiting s)
waiting-Holds s = record {
  start = omega arith;
  wide_b = refl;
  wide_d = refl;
  wide_s = refl;
  free = refl;
  fill = refl;
  held = refl;
  stale = no_desc ∷ no_desc ∷ [];
  described = refl;
}
