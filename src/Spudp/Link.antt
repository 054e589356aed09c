-- ===== src/Spudp/Link.antt =====
-- apps/speex_udp.c: the code's state byte follows the abstract state machine of Spec.antt.
use roip.Prelude.{
  ℕ, ◌<◌, ◌≡◌, refl, sym, inl, inr, Bool-cases, Bool, true, List, [], ◌∷◌, arith, sub32, ltb,
  length, if◌then◌else◌, ok,
}
use roip.Net.{
  Answers, NetCall, control_pcb, udp_connect, udp_send, udp_disconnect, pbuf_alloc, pbuf_free,
}
use roip.Spudp.{Spudp, string_send, control_send, payload, next_st}
use roip.Spudp.Spec.{
  first, second, Link, trying, connected, peer, tick, encode, view, IsState, address,
}

pub encode-IsState : (l : Link) → IsState (encode l)
encode-IsState (trying first) = refl
encode-IsState (trying second) = refl
encode-IsState (connected first) = refl
encode-IsState (connected second) = refl

-- Whether the last control packet is more than five seconds old.
abbrev pub is_due : ℕ → Spudp → Bool
is_due now d = ltb 5000 (sub32 now d.tm_ctlpacket_sent)

-- Whether the last answer is more than ten seconds old.
abbrev pub is_stale : ℕ → Spudp → Bool
is_stale now d = ltb 10000 (sub32 now d.tm_ctlpacket_received)

-- The calls for one control packet.
abbrev pub exchange : ℕ → List ℕ → List NetCall
exchange addr bytes =
    udp_connect control_pcb addr 5199
    ∷ pbuf_alloc (length bytes)
    ∷ udp_send control_pcb bytes
    ∷ pbuf_free
    ∷ udp_disconnect control_pcb
    ∷ []

next_st-encode :
    (now : ℕ) (d : Spudp) (l : Link)
    → d.st ≡ encode l
    → next_st now d ≡ encode (tick (is_stale now d) l)
next_st-encode now d (trying first) e = ground arith
next_st-encode now d (trying second) e = ground arith
next_st-encode now d (connected first) e = ground arith
next_st-encode now d (connected second) e = ground arith

string_send-encode :
    (ans : Answers) (buf : List ℕ) (d : Spudp) (l : Link)
    → d.st ≡ encode l
    → ans.pbuf_given ≡ true
    → 0 < length buf
    → length buf < 256
    → string_send ans buf d
      ≡ ok (if ans.send_ok then length buf else 0, exchange (address d (peer l)) buf)
unfolding string_send
string_send-encode ans buf d (trying first) e g p q = ground arith
string_send-encode ans buf d (trying second) e g p q = ground arith
string_send-encode ans buf d (connected first) e g p q = ground arith
string_send-encode ans buf d (connected second) e g p q = ground arith

-- A text of 1 to 255 bytes goes to the server of the state, at port 5199, in one datagram; the
-- socket is disconnected and the buffer freed whether or not it could be sent, and the result is
-- the length, or 0 when it could not.
pub string_send_lem :
    (ans : Answers) (buf : List ℕ) (d : Spudp)
    → IsState d.st
    → ans.pbuf_given ≡ true
    → 0 < length buf
    → length buf < 256
    → string_send ans buf d
      ≡ ok (if ans.send_ok then length buf else 0, exchange (address d (peer (view d.st))) buf)
string_send_lem ans buf d v g p q = string_send-encode ans buf d (view d.st) (sym v) g p q

-- `control_send_refines` at a state that is known to encode `l`.
pub control_send-encode :
    (ans : Answers) (t1 t2 t3 : ℕ) (d : Spudp) (l : Link)
    → d.st ≡ encode l
    → ans.pbuf_given ≡ true
    → let m = tick (is_stale t2 d) l in
      control_send ans t1 t2 t3 d
      ≡ ok (
          if is_due t1 d
          then (
            record d {
              st = encode m;
              tm_ctlpacket_sent = if ans.send_ok then t3 else d.tm_ctlpacket_sent;
            },
            exchange (address d (peer m)) payload,
          )
          else (d, []))
unfolding control_send
control_send-encode ans t1 t2 t3 d l v g =
    let e = record d { st = next_st t2 d } in
    let st = next_st-encode t2 d l v in
    elim (Bool-cases (is_due t1 d)) [
      | inl due ↦
          rw
            (
              due,
              string_send-encode ans payload e (tick (is_stale t2 d) l) st g (omega arith)
                  (omega arith),
            )
            (ground (arith, st))
      | inr early ↦ rw early
    ]

-- The periodic call refines the abstract machine. Before five seconds have passed it does nothing.
-- After that the state makes one `tick`, one control packet goes to the server of the new state,
-- and the timer starts again if the packet could be sent. The buffer must be available.
pub control_send_refines :
    (ans : Answers) (t1 t2 t3 : ℕ) (d : Spudp)
    → IsState d.st
    → ans.pbuf_given ≡ true
    → let l = tick (is_stale t2 d) (view d.st) in
      control_send ans t1 t2 t3 d
      ≡ ok (
          if is_due t1 d
          then (
            record d {
              st = encode l;
              tm_ctlpacket_sent = if ans.send_ok then t3 else d.tm_ctlpacket_sent;
            },
            exchange (address d (peer l)) payload,
          )
          else (d, []))
control_send_refines ans t1 t2 t3 d v g = control_send-encode ans t1 t2 t3 d (view d.st) (sym v) g
