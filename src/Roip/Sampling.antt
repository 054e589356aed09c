-- ===== src/Roip/Sampling.antt =====
-- roip.c: what becomes of the blocks that are sampled.
use roip.Prelude.{
  ℕ, suc, ◌+◌, ◌<◌, ◌≤◌, ◌≡◌, refl, sym, ap, ◌∙◌, inl, inr, ◌⊎◌, true, false, List, [], ◌∷◌, ◌++◌,
  map, arith, ◌==◌, length, Fault, Result-cases, ok, fault, ok-injective,
}
use roip.Net.{
  Answers, NetCall, data_pcb, udp_connect, udp_send, udp_disconnect, pbuf_alloc, pbuf_free,
}
use roip.Adc.{Adc, block, block_size, run}
use roip.Adc.Reading.{concat, read_through, read_through-block}
use roip.Adc.Blocks.{IsValid, convert, block_delivered, run-IsValid}
use roip.Spudp.{Spudp, connected_to}
use roip.Parser.Radio.{Radio}
use roip.Voice.{Codec, Laws, Voice, spudp_send}
use roip.Voice.Header.{header, IsText}
use roip.Voice.Encoding.{frames, encode_all, coded_bits}
use roip.Voice.Packet.{server_address, block_sent}
use roip.Roip.{voice_step}

length-map {ℓ κ} :
    {A : Type ℓ} {B : Type κ} (f : A → B) (xs : List A) → length (map f xs) ≡ length xs
length-map f [] = refl
length-map f (x ∷ xs) = ap suc (length-map f xs)

module _ (codec : Codec) where
  pub voice_step-sent :
      (ans : Answers) (during : List (List ℕ)) (r : Radio) (d : Spudp) (a : Adc)
      (v v' : Voice codec) (n : ℕ) (calls : List NetCall)
      → (a.n_conv_finished == 0) ≡ false
      → spudp_send codec ans r.ssi r.gssi r.ssi2 (read_through a.block_result 0 during a) 640 d v
        ≡ ok (n, v', calls)
      → voice_step codec ans during r d a v
        ≡ ok (record (run (concat during) a).0 { n_conv_finished = 0 }, v', calls)
  unfolding voice_step
  voice_step-sent ans during r d a v v' n calls flag sent = rw (flag, sent) refl

  pub voice_step-idle :
      (ans : Answers) (during : List (List ℕ)) (r : Radio) (d : Spudp) (a : Adc) (v : Voice codec)
      → a.n_conv_finished ≡ 0
      → voice_step codec ans during r d a v ≡ ok (a, v, [])
  unfolding voice_step
  voice_step-idle ans during r d a v flag = rw flag refl

  voice_step-fault :
      (ans : Answers) (during : List (List ℕ)) (r : Radio) (d : Spudp) (a : Adc) (v : Voice codec)
      (x : Fault)
      → (a.n_conv_finished == 0) ≡ false
      → spudp_send codec ans r.ssi r.gssi r.ssi2 (read_through a.block_result 0 during a) 640 d v
        ≡ fault x
      → voice_step codec ans during r d a v ≡ fault x
  unfolding voice_step
  voice_step-fault ans during r d a v x flag faulted = rw (flag, faulted) refl

  -- Whatever is sent, the sampler goes on meanwhile, and then the flag is cleared.
  pub voice_step-after :
      (ans : Answers) (during : List (List ℕ)) (r : Radio) (d : Spudp) (a a' : Adc)
      (v v' : Voice codec) (calls : List NetCall)
      → (a.n_conv_finished == 0) ≡ false
      → voice_step codec ans during r d a v ≡ ok (a', v', calls)
      → a' ≡ record (run (concat during) a).0 { n_conv_finished = 0 }
  voice_step-after ans during r d a a' v v' calls flag went =
      elim (Result-cases (
        spudp_send codec ans r.ssi r.gssi r.ssi2 (read_through a.block_result 0 during a) 640 d
          v)) [
            | inl ((n, v1, cs), q) ↦
                let done = voice_step-sent ans during r d a v v1 n cs flag q in
                ap (λ (t : Adc × Voice codec × List NetCall). t.0) (ok-injective (sym went ∙ done))
            | inr (x, q) ↦
                let faulted = voice_step-fault ans during r d a v x flag q in
                let clash : fault x ≡ ok (a', v', calls) = sym faulted ∙ went in absurd (cc)
          ]

  -- A block that is full before the flag of the block that is being sent is cleared is never sent: it
  -- is there, but the flag is cleared with the other's, and the next round finds nothing to send.
  pub late_block_lost :
      (ans ans' : Answers) (during during' : List (List ℕ)) (r : Radio) (d : Spudp) (a a' : Adc)
      (v v' : Voice codec) (calls : List NetCall)
      → IsValid a
      → a.n_samples ≡ 0
      → (a.n_conv_finished == 0) ≡ false
      → length (concat during) ≡ block_size
      → voice_step codec ans during r d a v ≡ ok (a', v', calls)
      → (block a' a'.block_result ≡ map convert (concat during))
        × (voice_step codec ans' during' r d a' v' ≡ ok (a', v', []))
  late_block_lost ans ans' during during' r d a a' v v' calls valid begun flag full went =
      let (stored, p, q, n, f) = block_delivered (concat during) valid begun full in
      let after = voice_step-after ans during r d a a' v v' calls flag went in
      (
        ap (λ (b : Adc). block b b.block_result) after ∙ stored,
        voice_step-idle ans' during' r d a' v' (ap (λ (b : Adc). b.n_conv_finished) after),
      )

module _ (codec : Codec) (laws : Laws codec) (x y z : List ℕ) (r : Radio) (tx : IsText x r.ssi)
    (ty : IsText y r.gssi) (tz : IsText z r.ssi2) (ans : Answers) (given : ans.pbuf_given ≡ true)
    (sent : ans.send_ok ≡ true) (d : Spudp) (open_pcb : d.data_open ≡ true) (s : ℕ)
    (one_of : (s ≡ 1) ⊎ (s ≡ 2)) (to : d.st ≡ connected_to s) where
  -- The samples of a whole block, which come in from a block's start on with the flag cleared, are sent
  -- in the next round: in one packet to the connected server, behind the two identities and the group
  -- that the terminal gave, in the codec's four frames, and then the flag is cleared. It does not matter
  -- when samples come in while the block is read and sent, if they are at most another whole block. The
  -- data control block must be open and the connected server known, lwIP must give a buffer and send it,
  -- the texts must end within their arrays, and the packet must stay below 256 bytes.
  pub sampled_block_sent :
      (drs : List ℕ) (during : List (List ℕ)) (a : Adc) (v : Voice codec)
      → IsValid a
      → a.n_samples ≡ 0
      → a.n_conv_finished ≡ 0
      → length drs ≡ block_size
      → length (concat during) ≤ block_size
      → length (header x y z) + codec.bits_nbytes (coded_bits codec (frames 4 (map convert drs)) v)
        < 256
      → let b = (run drs a).0 in
        let fs = frames 4 (map convert drs) in
        let packet = header x y z ++ codec.bits_write (coded_bits codec fs v) 256 in
        voice_step codec ans during r d b v
        ≡ ok (
          record (run (concat during) b).0 { n_conv_finished = 0 },
          record (encode_all codec fs v) { state = codec.bits_reset (coded_bits codec fs v) },
          udp_connect data_pcb (server_address s d) 5198
              ∷ pbuf_alloc (length packet)
              ∷ udp_send data_pcb packet
              ∷ pbuf_free
              ∷ udp_disconnect data_pcb
              ∷ [],
        )
  sampled_block_sent drs during a v valid begun clear whole later fits =
      let (stored, p, q, n, flag) = block_delivered drs valid begun whole in
      voice_step-sent codec ans during r d (run drs a).0 v _ 640 _ (ground (arith, flag, clear)) (
        ap (λ xs. spudp_send codec ans r.ssi r.gssi r.ssi2 xs 640 d v)
          (read_through-block during (run drs a).0 (run-IsValid drs valid) (omega (arith, n, later))
            ∙ stored)
        ∙ block_sent codec laws x y z r.ssi r.gssi r.ssi2 tx ty tz ans given (map convert drs) 4
            (length-map convert drs ∙ whole) (omega arith) d open_pcb v fits s one_of to sent)
