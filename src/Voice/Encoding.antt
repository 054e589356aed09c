-- ===== src/Voice/Encoding.antt =====
-- apps/speex_udp.c: the loop of `spudp_send` over the samples.
use roip.Prelude.{
  ℕ, zero, suc, ◌+◌, ◌*◌, ◌≤◌, ◌<◌, ◌≡◌, refl, ap, ◌∙◌, true, false, List, [], ◌∷◌, arith, u32, ltb,
  leb, length, take, drop, drop-drop, slice, ok,
}
use roip.Voice.{Codec, Voice, encode_frame, encode_loop}

-- The first `k` frames of the samples.
abbrev pub frames : ℕ → List ℕ → List (List ℕ)
frames zero samples = []
frames (suc k) samples = take 160 samples ∷ frames k (drop 160 samples)

module _ (codec : Codec) where
  abbrev pub encode_all : List (List ℕ) → Voice codec → Voice codec
  encode_all [] v = v
  encode_all (f ∷ fs) v = encode_all fs (encode_frame codec f v)

  -- The bytes that the codec has for a block.
  abbrev pub coded_bits : List (List ℕ) → Voice codec → codec.State
  coded_bits fs v = codec.insert_terminator (encode_all fs v).state

  round_more :
      (fuel : ℕ) (samples : List ℕ) (len i : ℕ) (v : Voice codec)
      → ltb i len ≡ true
      → leb (i + 160) (length samples) ≡ true
      → encode_loop codec (suc fuel) samples len i v
        ≡ encode_loop codec fuel samples len
            (u32 (i + 160))
            (encode_frame codec (slice i 160 samples) v)
  unfolding encode_loop
  round_more fuel samples len i v h k = rw (h, encode_loop) (rw (k, encode_loop) refl)

  round_done :
      (fuel : ℕ) (samples : List ℕ) (len i : ℕ) (v : Voice codec)
      → ltb i len ≡ false
      → encode_loop codec (suc fuel) samples len i v ≡ ok v
  unfolding encode_loop
  round_done fuel samples len i v h = rw (h, encode_loop) refl

  -- With more rounds than there are frames left, and an array that holds them all, the loop encodes the
  -- frames one after the other, each once, and ends.
  pub encode_loop-frames :
      (fuel k : ℕ) (samples : List ℕ) (len i : ℕ) (v : Voice codec)
      → i + 160 * k ≡ len
      → len ≤ length samples
      → len < 4294967296
      → k < fuel
      → encode_loop codec fuel samples len i v ≡ ok (encode_all (frames k (drop i samples)) v)
  encode_loop-frames zero k samples len i v w b s f = absurd (omega arith)
  encode_loop-frames (suc fuel) zero samples len i v w b s f =
      round_done fuel samples len i v (ground arith)
  encode_loop-frames (suc fuel) (suc k) samples len i v w b s f =
      let on : u32 (i + 160) ≡ i + 160 = omega arith in
      round_more fuel samples len i v (ground arith) (ground arith)
      ∙ rw on (
          encode_loop-frames fuel k samples len (i + 160)
            (encode_frame codec (slice i 160 samples) v) (omega arith) b s (omega arith)
          ∙ ap (λ xs. ok (encode_all (frames k xs) (encode_frame codec (slice i 160 samples) v)))
              (drop-drop i 160 samples))
