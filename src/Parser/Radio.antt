-- ===== src/Parser/Radio.antt =====
-- apps/parser.c: `radio_comm`, which collects a line from the terminal and follows the calls that it
-- reports.
--
-- The bytes that wait in the receive buffer are an argument; `serial_read` takes as many of them as
-- it is asked for. The C local `len` has no value until `get_value` sets it, and keeps its value
-- from one message of the line to the next.
pub mod Lines
pub mod Messages
pub mod Faults
pub mod Arrays
pub mod Pieces
mod Tests
use roip.Prelude.{
  ℕ, zero, suc, ◌+◌, ◌-◌, ◌≡◌, Bool, true, false, ◌&&◌, ◌||◌, Option, none, some, List, [], ◌∷◌,
  ◌++◌, u8, u32, sub32, ltb, leb, ◌==◌, if◌then◌else◌, length, drop, take, slice, replicate,
  write_at, memcpy, read, strncmp_eq, codes, c_str, Result, ok, fault, Fault, out_of_bounds,
  uninitialised, null_pointer, no_fuel, ◌>>=◌, ◌>>◌, assert, assertion,
}
use roip.Hardware.{HwCall, adc_ch2}
use roip.Net.{Answers, NetCall}
use roip.Adc
use roip.Spudp
use roip.Spudp.{Spudp}
use roip.Parser.{
  SerialState, active_wait, active_incoming_call, active_call_established, active_ptt,
}
use roip.Parser.Value.{get_value}

-- The message texts that `radio_comm` compares with.
abbrev pub get_ssi : List ℕ
get_ssi = c_str "+CTICN:0,0,0,0,255,1,1,0,1,1,1,216216300000300,3"

abbrev pub call_est : List ℕ
call_est = c_str "+CTCC:0,1,1,0,0,1,1,3"

abbrev pub ptt_pressed : List ℕ
ptt_pressed = c_str "+CTXG:0,3,0,0,0,255"

abbrev pub ptt_released : List ℕ
ptt_released = c_str "+CDTXC:0,0"

abbrev pub call_end : List ℕ
call_end = c_str "+CTCR:0,13"

-- The global call state, and the locals and static locals of `radio_comm`.
pub record Radio : Type 0 where
  pub ser : SerialState
  pub ssi : List ℕ  -- char[32]
  pub ssi2 : List ℕ
  pub gssi : List ℕ
  pub nbytes : ℕ  -- static uint32_t
  pub buf : List ℕ  -- static char[256]

pub data Message : Type 0 where
  line_break incoming established pressed released ended other : Message

-- Which branch of the `else if` chain is taken at the pointer `&buf[c]`, whose array is `at`.
pub classify : List ℕ → Result Message
unfolding strncmp_eq
classify at = do
  b ← read at 0
  if b == 13 || b == 10
      then ok line_break
      else (strncmp_eq at get_ssi 7 >>= λ is_incoming. elim is_incoming [
        | true ↦ ok incoming
        | false ↦ strncmp_eq at call_est 6 >>= λ is_established. elim is_established [
          | true ↦ ok established
          | false ↦ strncmp_eq at ptt_pressed 6 >>= λ is_pressed. elim is_pressed [
            | true ↦ ok pressed
            | false ↦ strncmp_eq at ptt_released 7 >>= λ is_released. elim is_released [
              | true ↦ ok released
              | false ↦ strncmp_eq at call_end 6 >>= λ is_ended. elim is_ended [
                | true ↦ ok ended
                | false ↦ ok other
              ]
            ]
          ]
        ]
      ])

-- `memcpy(dst, s, len); dst[len] = 0`, where `s` points into the array `at`.
pub copy_value : List ℕ → Option ℕ → Option ℕ → List ℕ → Result (List ℕ)
copy_value at s none dst = fault uninitialised
copy_value at none (some len) dst = fault null_pointer
copy_value at (some s) (some len) dst =
    if leb (s + len) (length at)
    then (memcpy dst 0 (slice s len at) >>= λ filled. memcpy filled len (0 ∷ []))
    else fault out_of_bounds

-- `*out_len` is set, or keeps its value.
abbrev pub set_len : Option ℕ → Option ℕ → Option ℕ
set_len none old = old
set_len (some n) old = some n

-- The variables that the loop changes: `c`, `len`, the state, and the calls made.
pub record Scan : Type 0 where
  pub c : ℕ
  pub len : Option ℕ
  pub radio : Radio
  pub hw : List HwCall

-- The body of one branch; `n` is `nbytes`.
pub act : Message → ℕ → Scan → Result Scan
act line_break n s = ok (record s { c = u32 (s.c + 1) })
act incoming n s = do
  let c = u32 (s.c + 8)
  let at = drop c s.radio.buf
  (p, l) ← get_value at (sub32 n c) 5
  ssi ← copy_value at p (set_len l s.len) s.radio.ssi
  (q, m) ← get_value at (sub32 n c) 12
  gssi ← copy_value at q (set_len m (set_len l s.len)) s.radio.gssi
  ok (record s {
    c = c;
    len = set_len m (set_len l s.len);
    radio = record s.radio { ssi = ssi; gssi = gssi; ser = active_incoming_call };
  })
act established n s =
    ok (record s { c = u32 (s.c + 7); radio = record s.radio { ser = active_call_established } })
act pressed n s = do
  let c = u32 (s.c + 7)
  let at = drop c s.radio.buf
  (p, l) ← get_value at (sub32 n c) 6
  ssi2 ← copy_value at p (set_len l s.len) s.radio.ssi2
  ok (record s {
    c = c;
    len = set_len l s.len;
    radio = record s.radio { ssi2 = ssi2; ser = active_ptt };
    hw = s.hw ++ Adc.start adc_ch2;
  })
act released n s = ok (record s {
  c = u32 (s.c + 8);
  radio = record s.radio {
    ssi2 = write_at s.radio.ssi2 0 (replicate 32 0);
    ser = active_call_established;
  };
  hw = s.hw ++ Adc.stop adc_ch2;
})
act ended n s = ok (record s {
  c = u32 (s.c + 7);
  radio = record s.radio {
    ssi = write_at s.radio.ssi 0 (replicate 32 0);
    gssi = write_at s.radio.gssi 0 (replicate 32 0);
    ser = active_wait;
  };
})
act other n s = ok (record s { c = u32 (s.c + 1) })

-- `while(c < nbytes)`. The position grows in each round, so `nbytes` rounds are enough.
pub scan : ℕ → ℕ → Scan → Result Scan
scan zero n s = fault no_fuel
scan (suc fuel) n s = elim (ltb s.c n) [
  | true ↦ classify (drop s.c s.radio.buf) >>= λ m. act m n s >>= λ s'. scan fuel n s'
  | false ↦ ok s
]

-- What `serial_read(&buf[nbytes], 256 - nbytes)` adds to the line, `rx` being the bytes that wait.
abbrev pub receive : List ℕ → Radio → Result Radio
receive rx r =
    assert (ltb 0 (256 - r.nbytes))
    >> (let got = take (256 - r.nbytes) rx in
        memcpy r.buf r.nbytes got >>= λ buf.
        ok (record r { buf = buf; nbytes = r.nbytes + length got }))

-- The last byte of the line so far, if there is one.
abbrev pub ends_line : Radio → Result Bool
ends_line r = if r.nbytes == 0 then ok false else read r.buf (r.nbytes - 1) >>= λ b. ok (b == 10)

-- `radio_comm`; the result of sending the line to the server is not looked at.
unfoldable pub radio_comm :
    Answers → List ℕ → Spudp → Radio → Result (Radio × List HwCall × List NetCall)
radio_comm ans rx d r = do
  r' ← receive rx r
  line ← ends_line r'
  elim line [
    | true ↦ Spudp.string_send ans (take r'.nbytes r'.buf) d >>= λ sent.
        scan (suc r'.nbytes) r'.nbytes (record { c = 0; len = none; radio = r'; hw = [] }) >>= λ s.
        ok (record s.radio { nbytes = 0 }, s.hw, sent.1)
    | false ↦ ok (r', [], [])
  ]
