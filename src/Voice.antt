-- ===== src/Voice.antt =====
-- apps/speex_udp.c: `spudp_send`, which encodes a block of samples and sends it to the server behind a
-- header with the two identities and the group.
--
-- The Speex codec is the parameter `Codec`, on a state of its own: the encoder and the bits. Bytes of
-- `enc` that have no value yet are kept as 0; no packet contains them.
pub mod Header
pub mod Encoding
pub mod Packet
pub mod Fields
pub mod Faults
mod Tests
use roip.Prelude.{
  ℕ, zero, suc, ◌+◌, ◌-◌, ◌≤◌, Bool, true, false, Option, none, some, List, [], ◌∷◌, ◌++◌, u8, u32,
  ltb, leb, ◌==◌, if◌then◌else◌, length, take, drop, slice, replicate, memcpy, strlen, Result, ok,
  fault, out_of_bounds, uninitialised, null_pointer, no_fuel, of_option, ◌>>=◌,
}
use roip.Net.{
  Answers, NetCall, data_pcb, udp_connect, udp_send, udp_disconnect, pbuf_alloc, pbuf_free,
}
use roip.Spudp.{Spudp, is_connected, server, server_1, server_2}

-- BLOCK_LENGTH
abbrev pub block_length : ℕ
block_length = 160

-- speex_encode_int, speex_bits_insert_terminator, speex_bits_nbytes, speex_bits_write and
-- speex_bits_reset. `bits_write` returns the bytes that it writes, as many as its bound at most.
pub record Codec : Type 1 where
  pub State : Type 0
  pub encode_int : State → List ℕ → ℕ × State
  pub insert_terminator : State → State
  pub bits_nbytes : State → ℕ
  pub bits_write : State → ℕ → List ℕ
  pub bits_reset : State → State

-- No more bytes are written than speex_bits_nbytes tells.
pub record Laws (codec : Codec) : Type 0 where
  pub bits_write-bits_nbytes :
      (s : codec.State) (bound : ℕ) → length (codec.bits_write s bound) ≤ codec.bits_nbytes s

-- `memcpy(&enc[c], bs, n); c += n`, from `enc` and `c`.
abbrev pub put : List ℕ → List ℕ × ℕ → Result (List ℕ × ℕ)
put bs (enc, c) = memcpy enc c bs >>= λ enc'. ok (enc', u8 (c + length bs))

-- The pieces one after the other.
unfoldable pub put_all : List (List ℕ) → List ℕ × ℕ → Result (List ℕ × ℕ)
put_all [] s = ok s
put_all (bs ∷ pieces) s = put bs s >>= put_all pieces

-- The header in `enc`, the index behind it, and `all_len`.
unfoldable pub fill_header : List ℕ → List ℕ → List ℕ → Result (List ℕ × ℕ × ℕ)
unfolding strlen put_all
fill_header id gid id2 = do
  n ← strlen id
  m ← strlen gid
  k ← strlen id2
  let all_len = u8 (u8 n + u8 m + u8 k + 3)
  (enc, c) ←
      put_all
        ((all_len ∷ [])
          ∷ take (u8 n) id
          ∷ (44 ∷ [])
          ∷ take (u8 m) gid
          ∷ (44 ∷ [])
          ∷ take (u8 k) id2
          ∷ [])
        (replicate 256 0, 0)
  ok (enc, c, all_len)

-- The calls of `udp_connect`; `none` where the function returns for want of a server.
unfoldable pub connect_server : Spudp → Option (List NetCall)
connect_server d =
    if is_connected d.st
    then if server d.st == server_1
      then some (udp_connect data_pcb d.server1 5198 ∷ [])
      else if server d.st == server_2
      then some (udp_connect data_pcb d.server2 5198 ∷ [])
      else none
    else some []

-- `memcpy(pb->payload, enc, n)`
unfoldable pub copy_packet : ℕ → List ℕ → Result (List ℕ)
copy_packet n enc = if leb n (length enc) then ok (take n enc) else fault out_of_bounds

-- The tail of the function: `nbytes` has no value if the bytes were not written.
unfoldable pub send_packet :
    Answers → ℕ → List ℕ → ℕ → Option ℕ → List NetCall → Result (ℕ × List NetCall)
unfolding copy_packet
send_packet ans len enc all_len nbytes connects = do
  n ← of_option nbytes uninitialised
  if ans.pbuf_given
      then (do
        packet ← copy_packet (all_len + n) enc
        let calls =
            connects ++ (pbuf_alloc (n + all_len) ∷ udp_send data_pcb packet ∷ pbuf_free ∷ [])
        if ans.send_ok then ok (len, calls ++ (udp_disconnect data_pcb ∷ [])) else ok (0, calls))
      else fault null_pointer

module _ (codec : Codec) where
  -- The codec's state, with the counter `error`, a static uint32_t.
  pub record Voice : Type 0 where
    pub state : codec.State
    pub error : ℕ

  abbrev pub encode_frame : List ℕ → Voice → Voice
  encode_frame samples v =
      let (ret, s) = codec.encode_int v.state samples in
      record { state = s; error = if ret == 0 then u32 (v.error + 1) else v.error }

  -- The loop over the samples, from `i` on, for a number of rounds.
  unfoldable pub encode_loop : ℕ → List ℕ → ℕ → ℕ → Voice → Result Voice
  encode_loop zero samples len i v = fault no_fuel
  encode_loop (suc fuel) samples len i v = elim (ltb i len) [
    | false ↦ ok v
    | true ↦ elim (leb (i + block_length) (length samples)) [
      | false ↦ fault out_of_bounds
      | true ↦
          encode_loop fuel samples len (u32 (i + block_length))
            (encode_frame (slice i block_length samples) v)
    ]
  ]

  -- What speex_bits_write leaves in `enc`, and `nbytes`.
  unfoldable pub write_bits : codec.State → ℕ → List ℕ → Result (List ℕ × Option ℕ)
  write_bits s c enc =
      if ltb (codec.bits_nbytes s) 256
      then (do
        let coded = codec.bits_write s 256
        enc' ← memcpy enc c coded
        ok (enc', some (length coded)))
      else ok (enc, none)

  -- `spudp_send`: the number returned, the codec, and the calls into lwIP.
  unfoldable pub spudp_send :
      Answers
      → List ℕ
      → List ℕ
      → List ℕ
      → List ℕ
      → ℕ
      → Spudp
      → Voice
      → Result (ℕ × Voice × List NetCall)
  unfolding fill_header encode_loop write_bits connect_server send_packet
  spudp_send ans id gid id2 samples len d v = do
    (enc, c, all_len) ← fill_header id gid id2
    if d.data_open
        then (do
          v1 ← encode_loop (suc len) samples len 0 v
          let s = codec.insert_terminator v1.state
          (enc', nbytes) ← write_bits s c enc
          let v2 = record v1 { state = codec.bits_reset s }
          elim (connect_server d) [
            | none ↦ ok (0, v2, [])
            | some connects ↦
                send_packet ans len enc' all_len nbytes connects >>= λ r. ok (r.0, v2, r.1)
          ])
        else ok (0, v, [])
