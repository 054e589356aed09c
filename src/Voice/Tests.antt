-- ===== src/Voice/Tests.antt =====
-- The voice packets with a small codec that keeps the first sample of each frame.
use roip.Prelude.{
  ℕ, ◌≤◌, ◌≡◌, refl, Bool, true, List, [], ◌∷◌, ◌++◌, arith, some, length, length-take, replicate,
  take, strlen, ok, fault, out_of_bounds,
}
use roip.Net.{Answers}
use roip.Spudp.{Spudp}
use roip.Voice.{fill_header, Codec, Laws, Voice, encode_loop, spudp_send}
use roip.Voice.Encoding.{encode_loop-frames}
use roip.Voice.Faults.{block_overruns}
use roip.Voice.Fields.{read_packet, fields_read_back}

abbrev codec : Codec
codec = record {
  State = List ℕ;
  encode_int = λ s samples. (1, s ++ take 1 samples);
  insert_terminator = λ s. s ++ (127 ∷ []);
  bits_nbytes = λ s. length s;
  bits_write = λ s bound. take bound s;
  bits_reset = λ s. [];
}

few_written : (s : List ℕ) (bound : ℕ) → length (take bound s) ≤ length s
few_written s bound = omega (arith, length-take bound s)

codec_laws : Laws codec
codec_laws = record { bits_write-bits_nbytes = few_written }

abbrev answers : Bool → Answers
answers sent = record { pbuf_given = true; send_ok = sent }

-- "12", "7" and "3", each with what follows in its array.
abbrev ssi : List ℕ
ssi = 49 ∷ 50 ∷ 0 ∷ 9 ∷ []

abbrev gssi : List ℕ
gssi = 55 ∷ 0 ∷ []

abbrev ssi2 : List ℕ
ssi2 = 51 ∷ 0 ∷ []

abbrev samples : List ℕ
samples = 5 ∷ replicate 159 0 ++ (6 ∷ replicate 159 0)

abbrev link : ℕ → Spudp
link st = record {
  data_open = true;
  st = st;
  server1 = 1000;
  server2 = 2000;
  tm_ctlpacket_sent = 0;
  tm_ctlpacket_received = 0;
}

abbrev quiet : List ℕ → Voice codec
quiet s = record { state = s; error = 0 }

abbrev voice_packet : List ℕ
voice_packet = 7 ∷ 49 ∷ 50 ∷ 44 ∷ 55 ∷ 44 ∷ 51 ∷ 5 ∷ 6 ∷ 127 ∷ []

fields_read_back_example :
    (enc : List ℕ) × (n : ℕ) × (fill_header ssi gssi ssi2 ≡ ok (enc, n, n))
    × (read_packet (take n enc ++ (5 ∷ 6 ∷ [])) ≡ some (49 ∷ 50 ∷ [], 55 ∷ [], 51 ∷ [], 5 ∷ 6 ∷ []))
unfolding strlen
fields_read_back_example =
    fields_read_back (49 ∷ 50 ∷ []) (55 ∷ []) (51 ∷ []) ssi gssi ssi2 (5 ∷ 6 ∷ [])
      (record { ends = refl; starts = refl }) (record { ends = refl; starts = refl })
      (record { ends = refl; starts = refl }) (omega arith) (refl, (refl, tt)) (refl, tt)

block_overruns_example :
    spudp_send codec (answers true) ssi gssi ssi2 samples 320 (link 129) (quiet (replicate 250 1))
    ≡ fault out_of_bounds
unfolding strlen
block_overruns_example =
    block_overruns codec (49 ∷ 50 ∷ []) (55 ∷ []) (51 ∷ []) ssi gssi ssi2
      (record { ends = refl; starts = refl }) (record { ends = refl; starts = refl })
      (record { ends = refl; starts = refl }) (omega arith) (answers true) samples 2 refl
      (omega arith) (link 129) refl (quiet (replicate 250 1)) (omega arith) (omega arith)

-- The second of two frames, and the end.
encode_loop-frames_example :
    encode_loop codec 2 samples 320 160 (quiet (5 ∷ [])) ≡ ok (quiet (5 ∷ 6 ∷ []))
encode_loop-frames_example =
    encode_loop-frames codec 2 1 samples 320 160 (quiet (5 ∷ [])) refl (omega arith) (omega arith)
      (omega arith)
