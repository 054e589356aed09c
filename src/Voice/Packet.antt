-- ===== src/Voice/Packet.antt =====
-- apps/speex_udp.c: the packets that `spudp_send` sends.
use roip.Prelude.{
  ℕ, suc, ◌+◌, ◌*◌, ◌≤◌, ◌<◌, ◌≡◌, refl, ap, ◌∙◌, true, false, Bool-cases, inl, inr, ◌⊎◌, List, [],
  ◌∷◌, ◌++◌, append-nil, arith, some, ltb, leb, lt→ltb, if◌then◌else◌, length, length-append, take,
  write_at, length-write_at, memcpy-ok, ok,
}
use roip.Net.{
  Answers, NetCall, data_pcb, udp_connect, udp_send, udp_disconnect, pbuf_alloc, pbuf_free,
}
use roip.Spudp.{Spudp, connected_to, is_connected}
use roip.Voice.{
  Codec, Laws, Voice, write_bits, connect_server, copy_packet, send_packet, spudp_send,
}
use roip.Voice.Encoding.{frames, encode_all, coded_bits, encode_loop-frames}
use roip.Voice.Header.{header, IsText, length-header, fill_header-header, take-write_at}

-- The server's address.
abbrev pub server_address : ℕ → Spudp → ℕ
server_address s d = if ltb s 2 then d.server1 else d.server2

pub connect_server-connected :
    (d : Spudp) (s : ℕ)
    → (s ≡ 1) ⊎ (s ≡ 2)
    → d.st ≡ connected_to s
    → connect_server d ≡ some (udp_connect data_pcb (server_address s d) 5198 ∷ [])
unfolding connect_server
connect_server-connected d s (inl one) h = rw (h, one) refl
connect_server-connected d s (inr two) h = rw (h, two) refl

-- The tail of the function, once the bytes of the packet are `packet`.
send_packet-ok :
    (ans : Answers) (len : ℕ) (enc : List ℕ) (m n : ℕ) (connects : List NetCall) (packet : List ℕ)
    → ans.pbuf_given ≡ true
    → copy_packet (m + n) enc ≡ ok packet
    → n + m ≡ length packet
    → send_packet ans len enc m (some n) connects
      ≡ ok (
        if ans.send_ok then len else 0,
        connects
            ++ (pbuf_alloc (length packet) ∷ udp_send data_pcb packet ∷ pbuf_free ∷ [])
            ++ (if ans.send_ok then udp_disconnect data_pcb ∷ [] else []),
      )
unfolding send_packet
send_packet-ok ans len enc m n connects packet given u w = elim (Bool-cases ans.send_ok) [
  | inl y ↦ rw (given, u, w, y) (cc)
  | inr z ↦ rw (given, u, w, z) (simp append-nil)
]

reached : (m n : ℕ) → m ≤ n → leb m n ≡ true
reached m n h = ground arith

unconnected : (d : Spudp) → is_connected d.st ≡ false → connect_server d ≡ some []
unfolding connect_server
unconnected d off = rw off refl

module _ (codec : Codec) (laws : Laws codec) where
  write_bits-ok :
      (s : codec.State) (done enc : List ℕ)
      → length enc ≡ 256
      → take (length done) enc ≡ done
      → length done + codec.bits_nbytes s < 256
      → (enc' : List ℕ) × (write_bits codec s (length done) enc
          ≡ ok (enc', some (length (codec.bits_write s 256))))
        × (copy_packet (length done + length (codec.bits_write s 256)) enc'
            ≡ ok (done ++ codec.bits_write s 256))
  unfolding write_bits copy_packet
  write_bits-ok s done enc w first fits =
      let coded = codec.bits_write s 256 in
      let short = laws.bits_write-bits_nbytes s 256 in
      let room : length done + length coded ≤ length enc = omega (arith, w) in
      let wide : length done + length coded ≤ length (write_at enc (length done) coded) =
        omega (arith, room, length-write_at enc (length done) coded) in
      (
        write_at enc (length done) coded,
        rw (lt→ltb (codec.bits_nbytes s) 256 (omega arith), memcpy-ok enc (length done) coded room)
            refl,
        rw (reached (length done + length coded) (length (write_at enc (length done) coded)) wide)
            (ap ok (take-write_at enc (length done) coded room ∙ ap (λ r. r ++ coded) first)),
      )

  module _ (a b c id gid id2 : List ℕ) (x : IsText a id) (y : IsText b gid) (z : IsText c id2)
      (ans : Answers) (given : ans.pbuf_given ≡ true) (samples : List ℕ) (k : ℕ)
      (len : length samples ≡ 160 * k) (short : 160 * k < 4294967296) (d : Spudp)
      (open_pcb : d.data_open ≡ true) (v : Voice codec)
      (fits : length (header a b c) + codec.bits_nbytes (coded_bits codec (frames k samples) v)
        < 256) where
    abbrev packet : List ℕ
    packet = header a b c ++ codec.bits_write (coded_bits codec (frames k samples) v) 256

    abbrev reset : Voice codec
    reset = record (encode_all codec (frames k samples) v) {
      state = codec.bits_reset (coded_bits codec (frames k samples) v);
    }

    -- The end of the call, once the packet is made.
    spudp_send-packet :
        (connects : List NetCall)
        → connect_server d ≡ some connects
        → spudp_send codec ans id gid id2 samples (160 * k) d v
          ≡ ok (
            if ans.send_ok then 160 * k else 0,
            reset,
            connects
                ++ (pbuf_alloc (length packet) ∷ udp_send data_pcb packet ∷ pbuf_free ∷ [])
                ++ (if ans.send_ok then udp_disconnect data_pcb ∷ [] else []),
          )
    unfolding spudp_send
    spudp_send-packet connects q =
        let few : length a + length b + length c < 253 = omega (arith, length-header a b c) in
        let (enc, r, w, first) = fill_header-header a b c few id gid id2 x y z in
        let looped =
          encode_loop-frames codec (suc (160 * k)) k samples (160 * k) 0 v (omega arith)
            (omega (arith, len)) short (omega arith) in
        let (enc', t, u) =
          write_bits-ok (coded_bits codec (frames k samples) v) (header a b c) enc w first fits in
        let sent =
          send_packet-ok ans (160 * k) enc' (length (header a b c))
            (length (codec.bits_write (coded_bits codec (frames k samples) v) 256)) connects packet
            given u
            (omega (
              arith,
              length-append (header a b c)
                  (codec.bits_write (coded_bits codec (frames k samples) v) 256),
            )) in
        rw (r, open_pcb, looped, t, q, sent) refl

    -- A block of whole frames of 160 samples, with texts that are read to their ends, and for which the
    -- codec has few enough bytes, is encoded frame by frame and sent to the connected server in one
    -- packet, the header and then the codec's bytes; the codec is reset and the number of samples
    -- is returned.
    pub block_sent :
        (s : ℕ)
        → (s ≡ 1) ⊎ (s ≡ 2)
        → d.st ≡ connected_to s
        → ans.send_ok ≡ true
        → spudp_send codec ans id gid id2 samples (160 * k) d v
          ≡ ok (
            160 * k,
            reset,
            udp_connect data_pcb (server_address s d) 5198
                ∷ pbuf_alloc (length packet)
                ∷ udp_send data_pcb packet
                ∷ pbuf_free
                ∷ udp_disconnect data_pcb
                ∷ [],
          )
    block_sent s one_of to sent =
        spudp_send-packet (udp_connect data_pcb (server_address s d) 5198 ∷ [])
          (connect_server-connected d s one_of to)
        ∙ rw sent refl

    -- While no server has answered, such a block is encoded and sent as well, on a control block that
    -- is not connected to any address, and the number of samples is returned.
    pub block_sent_unconnected :
        is_connected d.st ≡ false
        → ans.send_ok ≡ true
        → spudp_send codec ans id gid id2 samples (160 * k) d v
          ≡ ok (
            160 * k,
            reset,
            pbuf_alloc (length packet)
                ∷ udp_send data_pcb packet
                ∷ pbuf_free
                ∷ udp_disconnect data_pcb
                ∷ [],
          )
    block_sent_unconnected off sent = spudp_send-packet [] (unconnected d off) ∙ rw sent refl

    -- When lwIP does not send the packet to the connected server, 0 is returned, and the control block
    -- stays connected.
    pub block_refused :
        (s : ℕ)
        → (s ≡ 1) ⊎ (s ≡ 2)
        → d.st ≡ connected_to s
        → ans.send_ok ≡ false
        → spudp_send codec ans id gid id2 samples (160 * k) d v
          ≡ ok (
            0,
            reset,
            udp_connect data_pcb (server_address s d) 5198
                ∷ pbuf_alloc (length packet)
                ∷ udp_send data_pcb packet
                ∷ pbuf_free
                ∷ [],
          )
    block_refused s one_of to failed =
        spudp_send-packet (udp_connect data_pcb (server_address s d) 5198 ∷ [])
          (connect_server-connected d s one_of to)
        ∙ rw failed refl
