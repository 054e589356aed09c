-- ===== src/Parser/Radio/Messages.antt =====
-- apps/parser.c: what each message of the terminal does to the call state.
use roip.Prelude.{
  ℕ, ◌+◌, ◌≤◌, ◌<◌, ◌≡◌, refl, true, some, List, [], ◌∷◌, ◌++◌, arith, length, length-append,
  get_elem?, drop, write_at, replicate, codes, sub32, ok, ◌>>=◌,
}
use roip.Hardware.{HwCall, adc_ch2}
use roip.Net.{Answers}
use roip.Adc
use roip.Spudp.{Spudp}
use roip.Spudp.Spec.{IsState}
use roip.Parser.{active_wait, active_incoming_call, active_call_established, active_ptt}
use roip.Parser.Value.Fields.{AreFields, render, offset, offset_le, get_value-field}
use roip.Parser.Radio.{
  Radio, incoming, established, pressed, released, ended, classify, act, radio_comm,
}
use roip.Parser.Radio.Lines.{
  IsQuiet, IsLine, idle, with_line, start, report, message-line, copy_value-field,
}

-- A field of at most 31 bytes as a C string in an array that held `old`.
abbrev pub stored : List ℕ → List ℕ → List ℕ
stored f old = f ++ (0 ∷ drop (length f + 1) old)

abbrev zeros : List ℕ → List ℕ
zeros old = write_at old 0 (replicate 32 0)

-- The messages that carry no field that is read.
pub data Plain : Type 0 where
  call_established ptt_released call_ended : Plain

abbrev pub tag : Plain → List ℕ
tag call_established = codes "+CTCC:"
tag ptt_released = codes "+CDTXC:"
tag call_ended = codes "+CTCR:"

-- What such a message does to the call state, and the calls that it makes.
abbrev pub effect : Plain → Radio → Radio
effect call_established r = record r { ser = active_call_established }
effect ptt_released r = record r { ser = active_call_established; ssi2 = zeros r.ssi2 }
effect call_ended r = record r { ser = active_wait; ssi = zeros r.ssi; gssi = zeros r.gssi }

abbrev pub sampling : Plain → List HwCall
sampling ptt_released = Adc.stop adc_ch2
sampling _ = []

-- A message's text: its tag, one byte that is skipped, and the rest.
abbrev pub text : Plain → ℕ → List ℕ → List ℕ
text k x q = tag k ++ (x ∷ q)

abbrev pub ctxg : ℕ → List ℕ → List ℕ
ctxg x q = codes "+CTXG:" ++ (x ∷ q)

abbrev pub cticn : ℕ → List ℕ → List ℕ
cticn x q = codes "+CTICN:" ++ (x ∷ q)

module _ (ans : Answers) (d : Spudp) (r : Radio) (v : IsState d.st) (g : ans.pbuf_given ≡ true)
    (w : length r.buf ≡ 256) where
  -- A line with one message that carries no field: `+CTCC:` makes the call established, `+CDTXC:`
  -- makes it established, forgets the speaker and stops the sampler, and `+CTCR:` waits for the next
  -- call and forgets the caller and the group. The line goes to the server as it is. The rest of the
  -- line must not hold another message.
  pub plain_line :
      (k : Plain) (x : ℕ) (q : List ℕ)
      → IsLine (text k x q)
      → IsQuiet q
      → radio_comm ans (text k x q) d (idle r)
        ≡ ok (
          effect k (idle (with_line (text k x q) r)),
          sampling k,
          report ans d r v g w (text k x q),
        )
  unfolding classify act
  plain_line call_established x q l quiet =
      let rx = text call_established x q in
      message-line ans d r v g w rx q (drop (length rx) r.buf) established
        (record (start rx r) { c = 7; radio = effect call_established (start rx r).radio }) l refl
        refl quiet refl (omega arith) (omega arith)
  plain_line ptt_released x q l quiet =
      let rx = text ptt_released x q in
      message-line ans d r v g w rx q (drop (length rx) r.buf) released
        (record (start rx r) {
          c = 8;
          radio = effect ptt_released (start rx r).radio;
          hw = Adc.stop adc_ch2;
        })
        l refl refl quiet refl (omega arith) (omega arith)
  plain_line call_ended x q l quiet =
      let rx = text call_ended x q in
      message-line ans d r v g w rx q (drop (length rx) r.buf) ended
        (record (start rx r) { c = 7; radio = effect call_ended (start rx r).radio }) l refl refl
        quiet refl (omega arith) (omega arith)

  -- A line with one `+CTXG:` message: the sixth field behind the skipped byte becomes the speaker,
  -- the state is that of a speaker pressing, the sampler is started, and the line is reported to the
  -- server. The field must be there and be shorter than the array of the speaker, whose last byte it
  -- needs for its NUL, no other message may begin in the line, which is shorter than 256 bytes, the
  -- link must be in one of its states and lwIP must give a buffer.
  pub pressed_line :
      (x : ℕ) (fs : List (List ℕ × ℕ)) {f : List ℕ} {sep : ℕ}
      → AreFields fs
      → get_elem? fs 5 ≡ some (f, sep)
      → length f < length r.ssi2
      → IsLine (ctxg x (render fs))
      → IsQuiet (render fs)
      → let rx = ctxg x (render fs) in
        radio_comm ans rx d (idle r)
        ≡ ok (
          record (idle (with_line rx r)) { ser = active_ptt; ssi2 = stored f r.ssi2 },
          Adc.start adc_ch2,
          report ans d r v g w rx,
        )
  unfolding classify act
  pressed_line x fs {f} a e h l quiet =
      let q = render fs in
      let rx = ctxg x q in
      let junk = drop (length rx) r.buf in
      let found =
        get_value-field fs junk 5 a e (omega arith) (omega (arith, l.short, offset_le fs 5 e)) in
      let inside : offset fs 5 + length f ≤ length (q ++ junk) =
        omega (arith, length-append q junk, offset_le fs 5 e) in
      let left : sub32 (length rx) 7 ≡ length q = omega (arith, l.short) in
      message-line ans d r v g w rx q junk pressed
        (record (start rx r) {
          c = 7;
          len = some (length f);
          radio = record (start rx r).radio { ser = active_ptt; ssi2 = stored f r.ssi2 };
          hw = Adc.start adc_ch2;
        })
        l refl
        (rw (
          act,
          left,
          found.0,
          ◌>>=◌,
          copy_value-field (q ++ junk) r.ssi2 (offset fs 5) f found.1 inside h,
        ))
        quiet refl (omega arith) (omega arith)

  -- A line with one `+CTICN:` message: the fifth field behind the skipped byte becomes the caller,
  -- the twelfth the group, and the state is that of an incoming call.
  pub incoming_line :
      (x : ℕ) (fs : List (List ℕ × ℕ)) {f f' : List ℕ} {sep sep' : ℕ}
      → AreFields fs
      → get_elem? fs 4 ≡ some (f, sep)
      → get_elem? fs 11 ≡ some (f', sep')
      → length f < length r.ssi
      → length f' < length r.gssi
      → IsLine (cticn x (render fs))
      → IsQuiet (render fs)
      → let rx = cticn x (render fs) in
        radio_comm ans rx d (idle r)
        ≡ ok (
          record (idle (with_line rx r)) {
            ser = active_incoming_call;
            ssi = stored f r.ssi;
            gssi = stored f' r.gssi;
          },
          [],
          report ans d r v g w rx,
        )
  unfolding classify act
  incoming_line x fs {f} {f'} a e e' h h' l quiet =
      let q = render fs in
      let rx = cticn x q in
      let junk = drop (length rx) r.buf in
      let found =
        get_value-field fs junk 4 a e (omega arith) (omega (arith, l.short, offset_le fs 4 e)) in
      let found' =
        get_value-field fs junk 11 a e' (omega arith)
          (omega (arith, l.short, offset_le fs 11 e')) in
      let inside : offset fs 4 + length f ≤ length (q ++ junk) =
        omega (arith, length-append q junk, offset_le fs 4 e) in
      let inside' : offset fs 11 + length f' ≤ length (q ++ junk) =
        omega (arith, length-append q junk, offset_le fs 11 e') in
      let left : sub32 (length rx) 8 ≡ length q = omega (arith, l.short) in
      message-line ans d r v g w rx q junk incoming
        (record (start rx r) {
          c = 8;
          len = some (length f');
          radio = record (start rx r).radio {
            ser = active_incoming_call;
            ssi = stored f r.ssi;
            gssi = stored f' r.gssi;
          };
        })
        l refl
        (rw (
          act,
          left,
          found.0,
          ◌>>=◌,
          copy_value-field (q ++ junk) r.ssi (offset fs 4) f found.1 inside h,
          found'.0,
          ◌>>=◌,
          copy_value-field (q ++ junk) r.gssi (offset fs 11) f' found'.1 inside' h',
        ))
        quiet refl (omega arith) (omega arith)
