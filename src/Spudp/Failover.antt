-- ===== src/Spudp/Failover.antt =====
-- apps/speex_udp.c: which server is asked, over several events.
use roip.Prelude.{ℕ, ◌≤◌, ◌≡◌, ◌≢◌, refl, Bool, true, Option, List, arith, sub32, if◌then◌else◌, ok}
use roip.Net.{Answers, NetCall}
use roip.Spudp.{Spudp, handle_control, init, deinit, control_send, payload}
use roip.Spudp.Spec.{Server, trying, connected, other, tick, encode, view, IsState, address}
use roip.Spudp.Link.{
  encode-IsState, is_due, is_stale, exchange, control_send_refines, control_send-encode,
}

-- What the environment can do to the connection.
pub data Step (d : Spudp) : Spudp → Type 0 where
  packet : (addr now : ℕ) → Step d (handle_control addr now d).0
  poll :
      (ans : Answers) (t1 t2 t3 : ℕ) {e : Spudp} {calls : List NetCall}
      → ans.pbuf_given ≡ true
      → control_send ans t1 t2 t3 d ≡ ok (e, calls)
      → Step d e
  start :
      (ip : ℕ) (ip1 ip2 : Option ℕ) (b1 b2 b3 : Bool) (t1 t2 : ℕ)
      → Step d (init ip ip1 ip2 b1 b2 b3 t1 t2 d).0
  stop : Step d (deinit d).0

pub data Reach (d : Spudp) : Spudp → Type 0 where
  here : Reach d d
  next : {e f : Spudp} → Reach d e → Step e f → Reach d f

pub handle_control-IsState :
    (addr now : ℕ) (d : Spudp) → IsState d.st → IsState (handle_control addr now d).0.st
unfolding handle_control
handle_control-IsState addr now d v = ground arith

pub control_send-IsState :
    (ans : Answers) (t1 t2 t3 : ℕ) (d : Spudp) {e : Spudp} {calls : List NetCall}
    → ans.pbuf_given ≡ true
    → control_send ans t1 t2 t3 d ≡ ok (e, calls)
    → IsState d.st
    → IsState e.st
control_send-IsState ans t1 t2 t3 d g h v =
    let l = tick (is_stale t2 d) (view d.st) in
    ground (arith, control_send_refines ans t1 t2 t3 d v g, encode-IsState l)

init-IsState :
    (ip : ℕ) (ip1 ip2 : Option ℕ) (b1 b2 b3 : Bool) (t1 t2 : ℕ) (d : Spudp)
    → IsState (init ip ip1 ip2 b1 b2 b3 t1 t2 d).0.st
unfolding init
init-IsState ip ip1 ip2 b1 b2 b3 t1 t2 d = ground arith

deinit-IsState : (d : Spudp) → IsState (deinit d).0.st
unfolding deinit
deinit-IsState d = refl

Step-IsState : {d e : Spudp} → Step d e → IsState d.st → IsState e.st
Step-IsState {d} (packet addr now) v = handle_control-IsState addr now d v
Step-IsState {d} (poll ans t1 t2 t3 g h) v = control_send-IsState ans t1 t2 t3 d g h v
Step-IsState {d} (start ip ip1 ip2 b1 b2 b3 t1 t2) v = init-IsState ip ip1 ip2 b1 b2 b3 t1 t2 d
Step-IsState {d} stop v = deinit-IsState d

-- Whatever packets arrive, whatever the clock shows and however often the connection is polled,
-- opened and closed, the state byte names one of the two servers, as connected or as tried: the
-- source's branches for "some other server" are never taken.
pub Reach-IsState : {d e : Spudp} → IsState d.st → Reach d e → IsState e.st
Reach-IsState v here = v
Reach-IsState v (next r s) = Step-IsState s (Reach-IsState v r)

-- A poll that is due, with the connected server silent for more than ten seconds, gives the server
-- up and addresses the other one; with an answer not older than ten seconds it keeps the server.
pub connected_poll :
    (ans : Answers) (t1 t2 t3 : ℕ) (s : Server) (d : Spudp)
    → d.st ≡ encode (connected s)
    → ans.pbuf_given ≡ true
    → ans.send_ok ≡ true
    → is_due t1 d ≡ true
    → control_send ans t1 t2 t3 d ≡ (
        if is_stale t2 d
        then ok (
          record d { st = encode (trying (other s)); tm_ctlpacket_sent = t3 },
          exchange (address d (other s)) payload,
        )
        else ok (record d { tm_ctlpacket_sent = t3 }, exchange (address d s) payload))
connected_poll ans t1 t2 t3 s d e g k due =
    ground (arith, control_send-encode ans t1 t2 t3 d (connected s) e g)

-- A packet from an address that is neither server's counts as an answer: if a server is connected, a
-- poll up to ten seconds after such a packet leaves it connected, however long ago the server itself
-- was heard.
pub stranger_keeps_link :
    (ans : Answers) (addr now t1 t2 t3 : ℕ) (s : Server) (d : Spudp)
    → addr ≢ d.server1
    → addr ≢ d.server2
    → d.st ≡ encode (connected s)
    → ans.pbuf_given ≡ true
    → sub32 t2 now ≤ 10000
    → {e : Spudp} {calls : List NetCall}
    → control_send ans t1 t2 t3 (handle_control addr now d).0 ≡ ok (e, calls)
    → e.st ≡ encode (connected s)
unfolding handle_control
stranger_keeps_link ans addr now t1 t2 t3 s d n1 n2 c g h p = ground (
  arith,
  control_send-encode ans t1 t2 t3 (record d { tm_ctlpacket_received = now }) (connected s) c g,
)
