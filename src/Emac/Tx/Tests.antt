-- ===== src/Emac/Tx/Tests.antt =====
-- The transmit ring of the Ethernet driver on a concrete controller.
use roip.Prelude.{
  ℕ, ◌+◌, ◌*◌, ◌≡◌, refl, Bool, true, false, List, [], ◌∷◌, arith, Option, none, some, replicate,
  if◌then◌else◌, ok,
}
use roip.Emac.{Desc, Enet, pbuf_free}
use roip.Emac.Tx.{Seg, low_level_output, tx_reclaim}
use roip.Emac.Tx.Pending.{Pending}
use roip.Emac.Tx.Output.{long_chain_waits}
use roip.Emac.Tx.Traffic.{Traffic, quiet, send, reclaim, traffic_is_fifo}
use roip.Emac.Tx.Reclaim
use roip.Emac.Tx.Reclaim.{tx_reclaim-Pending, frame_reclaimed}
use roip.Emac.Tx.Leak.{Frame, send_frames, four_frames_kept}
use roip.Emac.Small.{chip, chip_laws, no_desc, blank}

-- An empty ring, and one in which two frames wait.
abbrev seg : ℕ → Seg
seg n = record { payload = 0x10000000 + n * 2048; len = n }

abbrev none_pending : Enet
none_pending = record blank { lpc_last_tx_idx = 3 }

none-Pending : Pending 3 [] [] none_pending
none-Pending = record {
  start = omega arith;
  last = refl;
  wide_b = refl;
  wide_d = refl;
  level = refl;
  room = 4;
  fits = refl;
  held = refl;
  stale = replicate 4 no_desc;
  described = refl;
}

abbrev two_pending : Enet
two_pending = record blank { txb = some 8 ∷ none ∷ none ∷ some 7 ∷ []; lpc_last_tx_idx = 3 }

two-Pending : Pending 3 (some 7 ∷ some 8 ∷ []) (no_desc ∷ no_desc ∷ []) two_pending
two-Pending = record {
  start = omega arith;
  last = refl;
  wide_b = refl;
  wide_d = refl;
  level = refl;
  room = 2;
  fits = refl;
  held = refl;
  stale = no_desc ∷ no_desc ∷ [];
  described = refl;
}

abbrev tx_desc : ℕ → Bool → Desc
tx_desc n last = record { control = if last then n + 4096 else n; packet = 0x10000000 + n * 2048 }

long_chain_waits_example :
    low_level_output chip 2
      (2 ∷ 3 ∷ [])
      (record { id = 9; segs = seg 1 ∷ seg 2 ∷ seg 3 ∷ seg 4 ∷ [] })
      none_pending
    ≡ ok none
unfolding low_level_output
long_chain_waits_example =
    long_chain_waits chip chip_laws 2 (2 ∷ 3 ∷ [])
      (record { id = 9; segs = seg 1 ∷ seg 2 ∷ seg 3 ∷ seg 4 ∷ [] }) none_pending (omega arith)
      (omega arith, (omega arith, tt)) refl (omega arith)

abbrev frame : ℕ → ℕ → Frame
frame n cidx = record { id = n; seg = seg n; polls = cidx ∷ [] }

abbrev four_frames : List Frame
four_frames = frame 5 3 ∷ frame 6 0 ∷ frame 7 1 ∷ frame 8 2 ∷ []

four_frames_kept_example :
    (e' : Enet) × (idx : ℕ) × (send_frames chip 3 four_frames none_pending ≡ ok (some (e', idx)))
    × Pending 3
        (some 5 ∷ some 6 ∷ some 7 ∷ some 8 ∷ [])
        (tx_desc 5 true ∷ tx_desc 6 true ∷ tx_desc 7 true ∷ tx_desc 8 true ∷ [])
        e'
    × (tx_reclaim idx e' ≡ ok (e', []))
unfolding send_frames
four_frames_kept_example =
    four_frames_kept chip chip_laws 3 four_frames none_pending none-Pending refl
      (refl, refl, (refl, refl, (refl, refl, (refl, refl, tt))))

-- A chain of two buffers is sent and reclaimed, and a frame is sent.
abbrev after_traffic : Enet
after_traffic = record blank {
  ptxd = tx_desc 2 true ∷ tx_desc 5 true ∷ no_desc ∷ tx_desc 1 false ∷ [];
  txb = none ∷ some 5 ∷ none ∷ none ∷ [];
  lpc_last_tx_idx = 1;
}

some_traffic :
    Traffic chip 3 0 none_pending (none ∷ some 9 ∷ some 5 ∷ []) (pbuf_free 9 ∷ []) after_traffic
unfolding low_level_output tx_reclaim
some_traffic =
    send _ (some 5 ∷ []) 9 (3 ∷ []) (seg 1 ∷ seg 2 ∷ []) _ _ (omega arith) refl refl refl (
      reclaim _ [] 2 (pbuf_free 9 ∷ []) (omega arith) (omega arith) refl
        (send _ [] 5 (1 ∷ []) (seg 5 ∷ []) _ _ (omega arith) refl refl refl quiet))

traffic_is_fifo_example :
    (i' : ℕ) × (es' : List (Option ℕ)) × (ds' : List Desc) × Pending i' es' ds' after_traffic
    × (Reclaim.frees (none ∷ some 9 ∷ some 5 ∷ []) ≡ pbuf_free 9 ∷ Reclaim.frees es')
traffic_is_fifo_example =
    traffic_is_fifo chip chip_laws 3 0 none_pending after_traffic [] []
      (none ∷ some 9 ∷ some 5 ∷ []) (pbuf_free 9 ∷ []) none-Pending refl some_traffic
