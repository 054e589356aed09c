-- ===== src/Roip/Small.antt =====
-- roip.c: a codec, a terminal, a connection, a sampler and what a round finds.
use roip.Prelude.{
  ℕ, ◌+◌, ◌-◌, ◌%◌, ◌<◌, ◌≡◌, refl, true, false, List, [], ◌∷◌, ◌++◌, arith, length-take, replicate,
  take, length,
}
use roip.Net.{Answers}
use roip.Adc.{Adc, x1, x2}
use roip.Adc.Blocks.{IsValid}
use roip.Spudp.{Spudp}
use roip.Parser.{active_wait}
use roip.Parser.Radio.{Radio}
use roip.Httpd.{Http, disconnected}
use roip.Emac.{Chip}
use roip.Voice.{Codec, Laws, Voice}
use roip.Roip.{Stack, Round}

-- A codec that keeps the first sample of each frame.
abbrev pub codec : Codec
codec = record {
  State = List ℕ;
  encode_int = λ s samples. (1, s ++ take 1 samples);
  insert_terminator = λ s. s ++ (127 ∷ []);
  bits_nbytes = λ s. length s;
  bits_write = λ s bound. take bound s;
  bits_reset = λ s. [];
}

pub codec_laws : Laws codec
codec_laws = record { bits_write-bits_nbytes = λ s bound. omega (arith, length-take bound s) }

abbrev pub quiet : Voice codec
quiet = record { state = []; error = 0 }

abbrev pub answers : Answers
answers = record { pbuf_given = true; send_ok = true }

abbrev pub link : Spudp
link = record {
  data_open = true;
  st = 129;
  server1 = 1000;
  server2 = 2000;
  tm_ctlpacket_sent = 7000;
  tm_ctlpacket_received = 7000;
}

-- "12", "7" and "3".
abbrev pub radio : Radio
radio = record {
  ser = active_wait;
  ssi = 49 ∷ 50 ∷ replicate 30 0;
  ssi2 = 51 ∷ replicate 31 0;
  gssi = 55 ∷ replicate 31 0;
  nbytes = 0;
  buf = replicate 256 0;
}

abbrev pub sampler : ℕ → Adc
sampler flag = record {
  samples1 = replicate 640 0;
  samples2 = replicate 640 0;
  block_fill = x1;
  block_result = x2;
  n_samples = 0;
  n_conv_finished = flag;
  send_samples = false;
  arg_callback = 0;
}

abbrev pub requested : ℕ → Http
requested time = record { st = disconnected; flash_buff = replicate 256 0; sysreset_req = time }

pub x1-ne-x2 : x1 ≡ x2 → ⊥
x1-ne-x2 e = cc

pub sampler-IsValid : (flag : ℕ) → flag < 256 → IsValid (sampler flag)
sampler-IsValid flag h = record {
  length1 = refl;
  length2 = refl;
  apart = x1-ne-x2;
  in_block = omega arith;
  flag_byte = h;
}

abbrev pub silent_chip : Chip
silent_chip = record {
  rctrl = λ n. n;
  tctrl = λ n last. n;
  rinfo_error = λ s. false;
  rinfo_size = λ s. s;
  free_desc_num = λ p q n. n - 1 - (p + n - q) % n;
  inc_tx_produce_index = λ i. (i + 1) % 4;
}

abbrev pub stack : Stack codec
stack = record { input = λ calls apps. (apps, []); timeouts = λ apps. (apps, []) }

abbrev pub round : Round codec
round = record {
  regs = record { overrun = false; consume = 1; empty = true };
  ethertype = λ p. 0;
  input_ok = true;
  tx_consume = 2;
  phy = record {
    link_changed = false;
    link_connected = true;
    link_speed100 = true;
    link_full_duplex = true;
  };
  received = [];
  line_answers = answers;
  control_answers = answers;
  voice_answers = answers;
  t1 = 9000;
  t2 = 9000;
  t3 = 9001;
  during = (5 ∷ []) ∷ [];
  now = 9002;
}
