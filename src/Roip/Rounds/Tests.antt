-- ===== src/Roip/Rounds/Tests.antt =====
-- A round of the main loop in which a frame comes in, a server answers and a frame goes out.
use roip.Prelude.{◌+◌, ◌++◌, refl, codes, false, [], ◌∷◌, arith, some, none, replicate}
use roip.Spudp.{handle_control, control_send}
use roip.Parser.Radio.{radio_comm}
use roip.Emac.{Enet, pbuf_free, netif_input, inc_rx_consume}
use roip.Emac.Rx.{low_level_input, enetif_input, hand_on}
use roip.Emac.Tx.{low_level_output, tx_reclaim}
use roip.Emac.Tx.Pending.{Pending}
use roip.Emac.Small.{chip, buffer, no_desc, stat, desc_of, waiting}
use roip.Roip.Small.{codec, quiet, link, radio, sampler, requested, round}
use roip.Roip.{Stack, Main, Round, link_actions, reset_actions, voice_step, main_round}
use roip.Roip.Callbacks.{control, output, returned}
use roip.Roip.Rounds.{Rounds, before, frames, turn}
use roip.Roip.Sound.{Sound}

abbrev start : Main codec
start = record {
  apps = record { spudp = link; http = requested 0; enet = waiting 0 };
  radio = radio;
  adc = sampler 0;
  voice = quiet;
  heap = some (buffer 3) ∷ [];
}

-- The driver once the frame has been taken out, once one has been queued, and once that is reclaimed.
abbrev received : Enet
received = record (waiting 68) {
  prxs =
      stat 0
      ∷ stat 68
      ∷ stat 0
      ∷ record { status_info = 0xFFFFFFFF; status_hash_crc = 0xFFFFFFFF }
      ∷ [];
  prxd = no_desc ∷ desc_of 1 ∷ desc_of 2 ∷ desc_of 3 ∷ [];
  rxb = none ∷ none ∷ some (buffer 2) ∷ some (buffer 3) ∷ [];
  rx_fill_desc_index = 0;
  rx_free_descs = 2;
}

abbrev sent : Enet
sent = record received {
  ptxd = record { control = 100 + 4096; packet = 0x10000000 } ∷ no_desc ∷ no_desc ∷ no_desc ∷ [];
  txb = some 9 ∷ none ∷ none ∷ none ∷ [];
}

abbrev reclaimed : Enet
reclaimed = record sent { txb = replicate 4 none; lpc_last_tx_idx = 1 }

abbrev stack : Stack codec
stack = record {
  input = λ calls a. (record a { spudp = (handle_control 2000 8000 a.spudp).0; enet = sent }, []);
  timeouts = λ a. (a, []);
}

abbrev busy_round : Round codec
busy_round = record round {
  regs = record { overrun = false; consume = 1; empty = false };
  ethertype = λ p. 0x0800;
  tx_consume = 1;
}

abbrev after : Main codec
after = record start {
  apps = record {
    spudp = record link { st = 130; tm_ctlpacket_received = 8000 };
    http = requested 0;
    enet = reclaimed;
  };
  heap = [];
}

one_round : Rounds codec chip 1 0 0 start 2 1 0 after
unfolding main_round enetif_input low_level_input hand_on low_level_output tx_reclaim radio_comm
    control_send handle_control voice_step link_actions reset_actions
one_round = frames (waiting 68).prxs refl (
    turn stack busy_round [] received
      (inc_rx_consume ∷ netif_input (record (buffer 1) { len = 64; tot_len = 64 }) ∷ []) 1 1
      reclaimed (pbuf_free 9 ∷ []) 0 after _ refl refl
      (control 2000 8000 (
        output 9 (0 ∷ []) (record { payload = 0x10000000; len = 100 } ∷ []) sent 1 _ (omega arith)
          refl refl refl returned))
      (omega arith) (omega arith) refl refl returned refl refl before)

-- A frame waits, the other server answers, and the terminal says that it has done what it was asked for.
abbrev hearing : Stack codec
hearing = record {
  input = λ calls a. (record a { spudp = (handle_control 2000 8000 a.spudp).0 }, []);
  timeouts = λ a. (a, []);
}

abbrev frame_waits : Main codec
frame_waits = record start { apps = record start.apps { enet = waiting 68 } }

abbrev talking_round : Round codec
talking_round = record busy_round { tx_consume = 0; received = codes "OK" ++ (13 ∷ 10 ∷ []) }
