-- ===== src/Parser/Modem.antt =====
-- apps/parser.c: `radio_comm_init`, which sends the terminal its five settings, each after the
-- terminal has answered OK to the one before.
pub mod Handshake
pub mod Oks
mod Tests
use roip.Prelude.{
  ℕ, zero, suc, ◌+◌, ◌-◌, Bool, true, false, List, [], ◌∷◌, ◌++◌, sub32, ltb, ◌==◌, if◌then◌else◌,
  length, drop, take, write_at, memcpy, strncmp_eq, codes, c_str, Result, ok, fault, out_of_bounds,
  ◌>>=◌, ◌>>◌, assert, assertion,
}
use roip.Parser.{
  SerialState, noinit, cmd1_sent, cmd2_sent, cmd3_sent, cmd4_sent, cmd5_sent, active_wait,
  is_starting,
}

-- `str1` to `str5` without their NUL: `strlen` of them is sent.
abbrev line : List ℕ → List ℕ
line s = s ++ (13 ∷ 10 ∷ [])

abbrev pub str1 : List ℕ
str1 = line (codes "AT+CTSDS=12,0,0,0,0")

abbrev pub str2 : List ℕ
str2 = line (codes "AT+CTSP=1,3,130")

abbrev pub str3 : List ℕ
str3 = line (codes "AT+CTSP=1,1,11")

abbrev pub str4 : List ℕ
str4 = line (codes "AT+CTSP=2,0,0")

abbrev pub str5 : List ℕ
str5 = line (codes "AT+CTSP=2,2,20")

-- The literal "OK\r\n".
abbrev pub ok_text : List ℕ
ok_text = line (codes "OK") ++ (0 ∷ [])

-- What a round finds: the bytes that wait, and whether the transmit buffer has room for a command.
pub record Reply : Type 0 where
  pub rx : List ℕ
  pub room : Bool

-- `ser`, the local buffer, and the commands handed to `serial_send` so far, each with whether it took
-- the command: it takes none of it when there is no room and returns 0, which the code does not look at.
-- `nbytes` is 0 between two rounds.
pub record Modem : Type 0 where
  pub ser : SerialState
  pub serial_buffer : List ℕ  -- char[256]
  pub handed : List (List ℕ × Bool)

-- `memcpy(serial_buffer, s, strlen(s)); serial_send(serial_buffer, strlen(s)); ser = next`
abbrev pub send_command : List ℕ → SerialState → Bool → Modem → Modem
send_command s next room m = record m {
  ser = next;
  serial_buffer = write_at m.serial_buffer 0 s;
  handed = m.handed ++ ((s, room) ∷ []);
}

-- The `switch` on an OK.
abbrev pub next_command : SerialState → Bool → Modem → Modem
next_command cmd1_sent room m = send_command str2 cmd2_sent room m
next_command cmd2_sent room m = send_command str3 cmd3_sent room m
next_command cmd3_sent room m = send_command str4 cmd4_sent room m
next_command cmd4_sent room m = send_command str5 cmd5_sent room m
next_command cmd5_sent room m = record m { ser = active_wait }
next_command s room m = m

-- The body of the `while` behind the read of the bytes `got`. `&serial_buffer[nbytes-4]` points before
-- the array when fewer than four bytes have come in.
pub answer : List ℕ → Bool → Modem → Result Modem
answer got room m =
    let nbytes = length got in
    let m' = record m { serial_buffer = write_at m.serial_buffer 0 got } in
    elim (ltb 0 nbytes) [
      | true ↦ elim (ltb nbytes 4) [
        | true ↦ fault out_of_bounds
        | false ↦ strncmp_eq (drop (nbytes - 4) m'.serial_buffer) ok_text 4 >>= λ is_ok.
            ok (if is_ok then next_command m'.ser room m' else send_command str1 cmd1_sent room m')
      ]
      | false ↦ ok m'
    ]

-- One round: `serial_read` takes at most 256 of the bytes that wait.
pub round : Reply → Modem → Result Modem
unfolding answer
round r m = answer (take 256 r.rx) r.room m

-- The `while`, over what its rounds find. It ends when the terminal is set up.
unfoldable pub rounds : List Reply → Modem → Result Modem
unfolding round
rounds [] m = ok m
rounds (r ∷ rs) m = elim (is_starting m.ser) [
  | true ↦ round r m >>= λ m'. rounds rs m'
  | false ↦ ok m
]

-- `radio_comm_init`, from its uninitialised buffer. The first `while` repeats `serial_send` until it
-- has taken the whole command.
abbrev pub begin : List ℕ → Modem
begin garbage = record {
  ser = cmd1_sent;
  serial_buffer = write_at garbage 0 str1;
  handed = (str1, true) ∷ [];
}
