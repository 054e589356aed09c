-- ===== src/Parser.antt =====
-- apps/parser.h and apps/parser.c: the dialogue with the radio terminal over the serial line.
-- Value.antt finds a field of a message, Radio.antt reads the terminal's messages, and Modem.antt
-- sets the terminal up.
pub mod Value
pub mod Radio
pub mod Modem
use roip.Prelude.{ℕ, Bool, ltb, List}

-- `enum serial_state`
pub data SerialState : Type 0 where
  noinit cmd1_sent cmd2_sent cmd3_sent cmd4_sent cmd5_sent : SerialState
  active_wait active_incoming_call active_call_established active_ptt error_state : SerialState

-- The number that C gives to the state.
abbrev pub ordinal : SerialState → ℕ
ordinal noinit = 0
ordinal cmd1_sent = 1
ordinal cmd2_sent = 2
ordinal cmd3_sent = 3
ordinal cmd4_sent = 4
ordinal cmd5_sent = 5
ordinal active_wait = 6
ordinal active_incoming_call = 7
ordinal active_call_established = 8
ordinal active_ptt = 9
ordinal error_state = 10

-- `ser < ACTIVE_WAIT`
abbrev pub is_starting : SerialState → Bool
is_starting s = ltb (ordinal s) (ordinal active_wait)
