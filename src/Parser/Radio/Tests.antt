-- ===== src/Parser/Radio/Tests.antt =====
-- `radio_comm` on the messages that parser.c quotes.
use Prim.Native.String.{String}
use roip.Prelude.{
  ℕ, ◌≡◌, refl, true, some, List, [], ◌∷◌, ◌++◌, arith, replicate, slice, codes, ok, fault,
  assertion,
}
use roip.Hardware.{adc_ch2}
use roip.Net.{Answers}
use roip.Adc
use roip.Spudp.{Spudp}
use roip.Spudp.Link.{exchange}
use roip.Parser.{active_wait, active_ptt}
use roip.Parser.Value.{get_value}
use roip.Parser.Value.Fields.{render, get_value-field}
use roip.Parser.Radio.{Radio, radio_comm}
use roip.Parser.Radio.Lines.{idle, with_line}
use roip.Parser.Radio.Pieces.{in_turn, pieces_joined, full_buffer}
use roip.Parser.Radio.Messages.{ctxg, cticn, pressed_line}
use roip.Parser.Radio.Faults.{long_line}

abbrev comma : String → List ℕ × ℕ
comma s = (codes s, 44)

-- What stands behind `+CTXG:0` in the quoted message, with its line break.
abbrev ptt_fields : List (List ℕ × ℕ)
ptt_fields =
    comma "" ∷ comma "3" ∷ comma "0" ∷ comma "0" ∷ comma "0" ∷ (codes "255", 13) ∷ ([], 10) ∷ []

-- What stands behind `+CTICN:0`.
abbrev call_fields : List (List ℕ × ℕ)
call_fields =
    comma ""
    ∷ comma "0"
    ∷ comma "0"
    ∷ comma "0"
    ∷ comma "255"
    ∷ comma "1"
    ∷ comma "1"
    ∷ comma "0"
    ∷ comma "1"
    ∷ comma "1"
    ∷ comma "1"
    ∷ comma "216216300000300"
    ∷ (codes "3", 13)
    ∷ ([], 10)
    ∷ []

-- The fields do spell the quoted messages.
quoted_ptt :
    ctxg b'0' (render ptt_fields) ++ (0 ∷ []) ≡ codes "+CTXG:0,3,0,0,0,255" ++ (13 ∷ 10 ∷ 0 ∷ [])
quoted_ptt = refl

quoted_call :
    cticn b'0' (render call_fields)
    ≡ codes "+CTICN:0,0,0,0,255,1,1,0,1,1,1,216216300000300,3" ++ (13 ∷ 10 ∷ [])
quoted_call = refl

abbrev good : Answers
good = record { pbuf_given = true; send_ok = true }

abbrev link : Spudp
link = record {
  data_open = true;
  st = 1;
  server1 = 11;
  server2 = 22;
  tm_ctlpacket_sent = 0;
  tm_ctlpacket_received = 0;
}

abbrev radio : Radio
radio = record {
  ser = active_wait;
  ssi = replicate 32 0;
  ssi2 = replicate 32 0;
  gssi = replicate 32 0;
  nbytes = 0;
  buf = replicate 256 0;
}

get_value-field_example :
    (get_value (render ptt_fields ++ (77 ∷ [])) 14 6 ≡ ok (some 9, some 3))
    × (slice 9 3 (render ptt_fields ++ (77 ∷ [])) ≡ codes "255")
get_value-field_example =
    get_value-field ptt_fields (77 ∷ []) 5 (ground arith) refl (omega arith) (omega arith)

-- "O", "K" and a carriage return, and a line feed.
abbrev pieces : List (List ℕ)
pieces = codes "O" ∷ (75 ∷ 13 ∷ []) ∷ []

pieces_joined_example :
    in_turn good link pieces (10 ∷ []) (idle radio)
    ≡ radio_comm good (codes "OK" ++ (13 ∷ 10 ∷ [])) link (idle radio)
pieces_joined_example =
    pieces_joined good link pieces (10 ∷ []) (idle radio) refl
      (
        record { front = []; last = 79; parts = refl; open_end = refl },
        (record { front = 75 ∷ []; last = 13; parts = refl; open_end = refl }, tt),
      )
      (omega arith)

abbrev release : List ℕ
release = codes ",0" ++ (13 ∷ 10 ∷ [])

pressed_line_example :
    radio_comm good (ctxg b'0' (render ptt_fields)) link (idle radio)
    ≡ ok (
      record (idle (with_line (ctxg b'0' (render ptt_fields)) radio)) {
        ser = active_ptt;
        ssi2 = codes "255" ++ replicate 29 0;
      },
      Adc.start adc_ch2,
      exchange 11 (ctxg b'0' (render ptt_fields)),
    )
pressed_line_example =
    pressed_line good link radio refl refl refl b'0' ptt_fields (ground arith) refl (omega arith)
      (record { ends = refl; short = omega arith }) (ground arith)

-- Two hundred and fifty-six times "A", in two rounds.
full_buffer_example :
    in_turn good link (replicate 200 65 ∷ replicate 56 65 ∷ []) (13 ∷ 10 ∷ []) (idle radio)
    ≡ fault assertion
full_buffer_example =
    full_buffer good link (replicate 200 65 ∷ replicate 56 65 ∷ []) (13 ∷ 10 ∷ []) (idle radio) refl
      (
        record { front = replicate 199 65; last = 65; parts = refl; open_end = refl },
        (record { front = replicate 55 65; last = 65; parts = refl; open_end = refl }, tt),
      )
      refl

abbrev wide : List ℕ
wide = replicate 255 65 ++ (10 ∷ [])

long_line_example : radio_comm good wide link (idle radio) ≡ fault assertion
long_line_example = long_line good wide link radio refl refl refl

abbrev short_call : List (List ℕ × ℕ)
short_call = comma "" ∷ (codes "0", 13) ∷ ([], 10) ∷ []

-- A speaker's number of 32 digits.
abbrev wide_fields : List (List ℕ × ℕ)
wide_fields =
    comma ""
    ∷ comma "3"
    ∷ comma "0"
    ∷ comma "0"
    ∷ comma "0"
    ∷ (replicate 32 b'7', 13)
    ∷ ([], 10)
    ∷ []
