-- ===== src/Emac/Rx/Tests.antt =====
-- The receive ring of the Ethernet driver on a concrete controller.
use roip.Prelude.{
  ℕ, ◌≡◌, refl, Bool, true, false, List, [], ◌∷◌, ◌++◌, arith, bag, none, some, replicate, ok,
  fault, null_pointer,
}
use roip.Emac.{
  Pbuf, Stat, Enet, init_rx_descriptors, rx_disable, reset_rx_logic, clear_rx_overrun, rx_enable,
  inc_rx_consume,
}
use roip.Emac.Rx.{RxRegs, low_level_input, hand_on, enetif_input}
use roip.Emac.Rx.Queue.{Holds}
use roip.Emac.Rx.Input.{frame_unbuffered, frame_received}
use roip.Emac.Rx.Restart.{frees, overrun_restarts, frame_unexpected}
use roip.Emac.Rx.Run.{Polls, rest, frames, poll, buffers_conserved}
use roip.Emac.Rx.Accounts.{buffers}
use roip.Emac.Small.{chip, buffer, no_desc, stat, desc_of, waiting, waiting-Holds, blank, two_left}

abbrev cleared : Stat
cleared = record { status_info = 0xFFFFFFFF; status_hash_crc = 0xFFFFFFFF }

abbrev dry : Enet
dry = record blank { rx_fill_desc_index = 2 }

dry-Holds : Holds chip 2 [] dry
dry-Holds = record {
  start = omega arith;
  wide_b = refl;
  wide_d = refl;
  wide_s = refl;
  free = refl;
  fill = refl;
  held = refl;
  stale = replicate 4 no_desc;
  described = refl;
}

abbrev regs : Bool → ℕ → RxRegs
regs overrun consume = record { overrun = overrun; consume = consume; empty = false }

frame_unbuffered_example :
    (e' : Enet) × (low_level_input chip (regs false 1) (none ∷ two_left) (waiting 68)
      ≡ ok (none, two_left, e', inc_rx_consume ∷ []))
    × Holds chip 2 (buffer 2 ∷ record (buffer 1) { len = 64 } ∷ []) e'
frame_unbuffered_example =
    frame_unbuffered chip 1 (buffer 1) (buffer 2 ∷ []) (waiting 68) (waiting-Holds 68)
      (regs false 1) refl refl refl (stat 68) refl (none ∷ two_left) refl refl (refl, (refl, tt))

frame_received_example :
    (e' : Enet) × (low_level_input chip (regs false 1) two_left (waiting 68)
      ≡ ok (some (record (buffer 1) { len = 64; tot_len = 64 }), [], e', inc_rx_consume ∷ []))
    × Holds chip 2 (buffer 2 ∷ buffer 3 ∷ buffer 4 ∷ []) e'
frame_received_example =
    frame_received chip 1 (buffer 1) (buffer 2 ∷ []) (waiting 68) (waiting-Holds 68) (regs false 1)
      refl refl refl (stat 68) refl two_left (buffer 3) (buffer 4 ∷ []) refl refl (refl, (refl, tt))

overrun_restarts_example :
    (a b : List Pbuf) × (buffer 1 ∷ buffer 2 ∷ [] ≡ a ++ b)
    × (e' : Enet) × (low_level_input chip (regs true 1) two_left (waiting 0)
        ≡ ok (
          none,
          [],
          e',
          rx_disable ∷ reset_rx_logic ∷ clear_rx_overrun ∷ frees (b ++ a)
              ++ (init_rx_descriptors ∷ [])
              ++ (rx_enable ∷ []),
        ))
    × Holds chip 0 (buffer 3 ∷ buffer 4 ∷ []) e'
overrun_restarts_example =
    overrun_restarts chip 1 (buffer 1 ∷ buffer 2 ∷ []) (waiting 0) (waiting-Holds 0) (regs true 1)
      two_left refl (refl, (refl, tt))

frame_unexpected_example : low_level_input chip (regs false 2) two_left dry ≡ fault null_pointer
frame_unexpected_example =
    frame_unexpected chip 2 dry dry-Holds (regs false 2) two_left refl refl refl

-- A frame, for which a buffer waits, and an overrun.
abbrev received : Enet
received = record (waiting 68) {
  prxs = stat 0 ∷ stat 68 ∷ stat 0 ∷ cleared ∷ [];
  prxd = no_desc ∷ desc_of 1 ∷ desc_of 2 ∷ desc_of 3 ∷ [];
  rxb = none ∷ none ∷ some (buffer 2) ∷ some (buffer 3) ∷ [];
  rx_fill_desc_index = 0;
  rx_free_descs = 2;
}

abbrev restarted : Enet
restarted = record received { rxb = replicate 4 none; rx_fill_desc_index = 0; rx_free_descs = 4 }

-- A frame of another type than IP or ARP, and an overrun.
two_calls :
    Polls chip 1 (some (buffer 3) ∷ none ∷ []) (waiting 0) [] (1 ∷ 2 ∷ 3 ∷ []) 0 [] restarted
unfolding enetif_input low_level_input hand_on
two_calls = frames (waiting 68).prxs refl (
    poll (regs false 1) (λ p. 0) true [] received _ refl refl
      (poll (regs true 2) (λ p. 0) true [] restarted _ refl refl rest))

buffers_conserved_example :
    (ps : List Pbuf) × Holds chip 0 ps restarted
    × (bag (1 ∷ 2 ∷ 3 ∷ []) ≡ bag (buffers restarted.rxb ++ [] ++ [] ++ (1 ∷ 2 ∷ 3 ∷ [])))
buffers_conserved_example =
    buffers_conserved chip 1 0 (buffer 1 ∷ buffer 2 ∷ []) (some (buffer 3) ∷ none ∷ []) []
      (waiting 0) restarted [] (1 ∷ 2 ∷ 3 ∷ []) (waiting-Holds 0) (refl, tt) two_calls
