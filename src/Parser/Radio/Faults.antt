-- ===== src/Parser/Radio/Faults.antt =====
-- apps/parser.c: the inputs on which `radio_comm` fails an assertion, reads an indeterminate length
-- or writes past an array.
use roip.Prelude.{
  ℕ, suc, ◌-◌, ◌≤◌, ◌<◌, ◌≡◌, refl, true, some, List, ◌++◌, arith, length, get_elem?, drop,
  take-append_length, sub32, ok, fault, Fault, assertion, uninitialised, out_of_bounds, ◌>>=◌,
}
use roip.Net.{Answers}
use roip.Spudp.{Spudp, string_send}
use roip.Spudp.Spec.{IsState}
use roip.Parser.Value.Fields.{
  AreFields, render, offset, offset_le, get_value-field, get_value-missing,
}
use roip.Parser.Radio.{
  Radio, Message, incoming, pressed, classify, copy_value, Scan, act, scan, radio_comm,
}
use roip.Parser.Radio.Lines.{
  IsLine, idle, start, line_pos, radio_comm-line, receive-line, ends_line-line, copy_value-too_long,
}
use roip.Parser.Radio.Messages.{cticn, ctxg}

string_send-too_long :
    (ans : Answers) (buf : List ℕ) (d : Spudp)
    → length buf ≡ 256
    → string_send ans buf d ≡ fault assertion
unfolding string_send
string_send-too_long ans buf d e = rw e

-- A line of exactly 256 bytes fails the assertion of `spudp_string_send`.
pub long_line :
    (ans : Answers) (rx : List ℕ) (d : Spudp) (r : Radio)
    → length r.buf ≡ 256
    → length rx ≡ 256
    → get_elem? rx (length rx - 1) ≡ some 10
    → radio_comm ans rx d (idle r) ≡ fault assertion
unfolding radio_comm
long_line ans rx d r w l e = rw (
  receive-line rx r w (omega arith),
  ends_line-line rx r (omega arith) e,
  take-append_length rx (drop (length rx) r.buf),
  string_send-too_long ans rx d l,
)

scan-fault :
    (fuel n : ℕ) (s : Scan) (m : Message) {e : Fault}
    → s.c < n
    → classify (drop s.c s.radio.buf) ≡ ok m
    → act m n s ≡ fault e
    → scan (suc fuel) n s ≡ fault e
unfolding scan
scan-fault fuel n s m h k a = ground arith

module _ (ans : Answers) (d : Spudp) (r : Radio) (v : IsState d.st) (g : ans.pbuf_given ≡ true)
    (w : length r.buf ≡ 256) where
  -- A `+CTICN:` message with fewer than five fields behind the skipped byte makes the code copy as
  -- many bytes as an indeterminate `len` says.
  pub incoming_truncated :
      (x : ℕ) (fs : List (List ℕ × ℕ))
      → AreFields fs
      → length fs ≤ 4
      → IsLine (cticn x (render fs))
      → radio_comm ans (cticn x (render fs)) d (idle r) ≡ fault uninitialised
  unfolding classify act copy_value
  incoming_truncated x fs a few l =
      let q = render fs in
      let rx = cticn x q in
      let junk = drop (length rx) r.buf in
      let (p, missing) = get_value-missing fs junk 4 a few (omega arith) in
      let left : sub32 (length rx) 8 ≡ length q = omega (arith, l.short) in
      rw (
        radio_comm-line ans d r v g w rx l,
        scan-fault (length rx) (length rx) (start rx r) incoming {e = uninitialised} (line_pos rx l)
            refl (rw (act, left, missing)),
      )

  -- A `+CTXG:` message whose sixth field does not fit the 32 bytes of `ssi2` with its NUL makes the
  -- code write past that array.
  pub pressed_too_long :
      (x : ℕ) (fs : List (List ℕ × ℕ)) {f : List ℕ} {sep : ℕ}
      → AreFields fs
      → get_elem? fs 5 ≡ some (f, sep)
      → length r.ssi2 ≤ length f
      → IsLine (ctxg x (render fs))
      → radio_comm ans (ctxg x (render fs)) d (idle r) ≡ fault out_of_bounds
  unfolding classify act
  pressed_too_long x fs {f} a e long l =
      let q = render fs in
      let rx = ctxg x q in
      let junk = drop (length rx) r.buf in
      let found =
        get_value-field fs junk 5 a e (omega arith) (omega (arith, l.short, offset_le fs 5 e)) in
      let left : sub32 (length rx) 7 ≡ length q = omega (arith, l.short) in
      rw (
        radio_comm-line ans d r v g w rx l,
        scan-fault (length rx) (length rx) (start rx r) pressed {e = out_of_bounds} (line_pos rx l)
            refl
            (rw (
              act,
              left,
              found.0,
              ◌>>=◌,
              copy_value-too_long (q ++ junk) r.ssi2 (offset fs 5) f found.1 long,
            )),
      )
