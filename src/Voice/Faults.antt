-- ===== src/Voice/Faults.antt =====
-- apps/speex_udp.c: blocks for which the codec has more bytes than `enc` holds.
use roip.Prelude.{
  ℕ, suc, ◌+◌, ◌*◌, ◌≤◌, ◌<◌, ◌≡◌, refl, true, false, ◌⊎◌, List, arith, ltb, length, memcpy-fault,
  lt→ltb, fault, out_of_bounds, uninitialised,
}
use roip.Net.{Answers}
use roip.Spudp.{Spudp, connected_to}
use roip.Voice.{Codec, Voice, write_bits, send_packet, spudp_send}
use roip.Voice.Header.{header, IsText, fill_header-header}
use roip.Voice.Encoding.{frames, encode_loop-frames, coded_bits}
use roip.Voice.Packet.{connect_server-connected}

beyond : (n : ℕ) → 256 ≤ n → ltb n 256 ≡ false
beyond n h = ground arith

module _ (codec : Codec) (a b c id gid id2 : List ℕ) (x : IsText a id) (y : IsText b gid)
    (z : IsText c id2) (few : length a + length b + length c < 253) (ans : Answers)
    (samples : List ℕ) (k : ℕ) (len : length samples ≡ 160 * k) (short : 160 * k < 4294967296)
    (d : Spudp) (open_pcb : d.data_open ≡ true) (v : Voice codec) where
  -- For 256 bytes or more nothing is written to `enc`, and the number of bytes, which was never set, is
  -- used for the packet.
  pub long_block :
      (s : ℕ)
      → (s ≡ 1) ⊎ (s ≡ 2)
      → d.st ≡ connected_to s
      → 256 ≤ codec.bits_nbytes (coded_bits codec (frames k samples) v)
      → spudp_send codec ans id gid id2 samples (160 * k) d v ≡ fault uninitialised
  unfolding spudp_send write_bits send_packet
  long_block s one_of to long =
      let (enc, r, w, first) = fill_header-header a b c few id gid id2 x y z in
      let looped =
        encode_loop-frames codec (suc (160 * k)) k samples (160 * k) 0 v (omega arith)
          (omega (arith, len)) short (omega arith) in
      let far = beyond (codec.bits_nbytes (coded_bits codec (frames k samples) v)) long in
      let to_server = connect_server-connected d s one_of to in
      rw (r, open_pcb, looped, far, to_server) refl

  -- For fewer bytes than 256 that do not fit behind the header, they are written past the end of `enc`,
  -- whose whole size is given to the codec as the bound.
  pub block_overruns :
      codec.bits_nbytes (coded_bits codec (frames k samples) v) < 256
      → 256
        < length (header a b c)
          + length (codec.bits_write (coded_bits codec (frames k samples) v) 256)
      → spudp_send codec ans id gid id2 samples (160 * k) d v ≡ fault out_of_bounds
  unfolding spudp_send write_bits
  block_overruns fits long =
      let (enc, r, w, first) = fill_header-header a b c few id gid id2 x y z in
      let looped =
        encode_loop-frames codec (suc (160 * k)) k samples (160 * k) 0 v (omega arith)
          (omega (arith, len)) short (omega arith) in
      let coded = codec.bits_write (coded_bits codec (frames k samples) v) 256 in
      let near = lt→ltb (codec.bits_nbytes (coded_bits codec (frames k samples) v)) 256 fits in
      let faulted = memcpy-fault enc (length (header a b c)) coded (omega (arith, w)) in
      rw (r, open_pcb, looped, near, faulted) refl
