-- ===== src/Roip/Booted/Tests.antt =====
-- The start-up on concrete settings.
use roip.Prelude.{
  ℕ, ◌-◌, true, false, List, [], ◌∷◌, ◌++◌, length, ◌==◌, some, none, replicate, take,
}
use roip.Serial.Interface.{RingBuffer}
use roip.Emac.Tx.Pending.{Pending}
use roip.Parser.Modem.{Reply}
use roip.Roip.Boot.{Power, Booted}
use roip.Roip.Small.{codec, quiet, link, sampler, requested}
use roip.Roip.Sound.{Sound}

abbrev queue : RingBuffer
queue = record {
  Ring = List ℕ;
  init = λ n. [];
  get_free = λ q. 256 - length q;
  get_count = λ q. length q;
  is_empty = λ q. length q == 0;
  flush = λ q. [];
  insert_mult = λ q bs. (length bs, q ++ bs);
  pop_mult = λ q n. (take n q, []);
  tx_handler = λ n q. (take n q, []);
  rx_handler = λ bs q. q ++ bs;
}

-- 192.168.0.10, .1, 255.255.255.0 and the servers 192.168.0.7 and 10.0.0.1; a station address.
abbrev stored : List ℕ
stored =
    192
    ∷ 168
    ∷ 0
    ∷ 10
    ∷ 192
    ∷ 168
    ∷ 0
    ∷ 1
    ∷ 255
    ∷ 255
    ∷ 255
    ∷ 0
    ∷ 192
    ∷ 168
    ∷ 0
    ∷ 7
    ∷ 10
    ∷ 0
    ∷ 0
    ∷ 1
    ∷ 2
    ∷ 0
    ∷ 0
    ∷ 0
    ∷ 0
    ∷ 1
    ∷ replicate 230 0

abbrev okay : Reply
okay = record { rx = 79 ∷ 75 ∷ 13 ∷ 10 ∷ []; room = true }

abbrev power : Power codec queue
power = record {
  clock = 96000000;
  flash = stored;
  phy_ok = true;
  heap = some (record { id = 1; payload = 4096; len = 1536; tot_len = 1536; clen = 1 }) ∷ none ∷ [];
  netif = record {
    hwaddr = replicate 6 0;
    hwaddr_len = 0;
    mtu = 0;
    flags = 0;
    name = [];
    attached = false;
  };
  enet = record {
    prxs = replicate 4 (record { status_info = 0; status_hash_crc = 0 });
    prxd = replicate 4 (record { control = 0; packet = 0 });
    ptxs = replicate 4 0;
    ptxd = replicate 4 (record { control = 0; packet = 0 });
    rxb = replicate 4 none;
    rx_fill_desc_index = 0;
    rx_free_descs = 0;
    txb = replicate 4 none;
    lpc_last_tx_idx = 0;
  };
  systick = record { saved_period = 0; systick_timems = 0 };
  ticks = 6;
  adc = sampler 0;
  spudp = link;
  http = requested 0;
  voice = quiet;
  pcb_given = true;
  bind_data_ok = true;
  bind_control_ok = true;
  t_sent = 3;
  t_received = 3;
  replies = okay ∷ okay ∷ okay ∷ okay ∷ okay ∷ [];
  garbage = replicate 256 170;
}
