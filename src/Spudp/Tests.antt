-- ===== src/Spudp/Tests.antt =====
-- The connection on concrete events.
use roip.Prelude.{
  ℕ, ◌≡◌, ◌≢◌, refl, true, false, [], ◌∷◌, arith, ok, fault, null_pointer, assertion,
}
use roip.Net.{Answers}
use roip.Spudp.{Spudp, handle_control, control_send, string_send, payload}
use roip.Spudp.Spec.{IsState}
use roip.Spudp.Link.{exchange, control_send_refines}
use roip.Spudp.Failover.{here, next, packet, Reach-IsState}

abbrev ip1 : ℕ
ip1 = 0xC601A8C0

abbrev ip2 : ℕ
ip2 = 0xC501A8C0

abbrev good : Answers
good = record { pbuf_given = true; send_ok = true }

abbrev asking : Spudp
asking = record {
  data_open = true;
  st = 1;
  server1 = ip1;
  server2 = ip2;
  tm_ctlpacket_sent = 100;
  tm_ctlpacket_received = 100;
}

abbrev linked : Spudp
linked = record asking { st = 129; tm_ctlpacket_received = 9000; tm_ctlpacket_sent = 9000 }

servers_differ : ip1 ≢ ip2
servers_differ = omega arith

-- A null buffer and a text of 256 bytes are faults.
no_pbuf : string_send (record good { pbuf_given = false }) (65 ∷ []) asking ≡ fault null_pointer
unfolding string_send
no_pbuf = refl

empty_text : string_send good [] asking ≡ fault assertion
unfolding string_send
empty_text = refl

-- The clock has wrapped between the two readings.
control_send_refines_example :
    control_send good 6000 6001 6002 (record asking { tm_ctlpacket_sent = 4294967290 })
    ≡ ok (record asking { st = 2; tm_ctlpacket_sent = 6002 }, exchange ip2 payload)
control_send_refines_example =
    control_send_refines good 6000 6001 6002 (record asking { tm_ctlpacket_sent = 4294967290 }) refl
      refl

Reach-IsState_example : IsState (handle_control ip2 777 (handle_control 5 3 asking).0).0.st
Reach-IsState_example =
    Reach-IsState {d = asking} refl (next (next here (packet 5 3)) (packet ip2 777))

abbrev after_stranger : Spudp
after_stranger = record linked { tm_ctlpacket_received = 20000; tm_ctlpacket_sent = 20003 }

-- The server itself was last heard at 9000.
poll_after_stranger :
    control_send good 20001 20002 20003 (handle_control 5 20000 linked).0
    ≡ ok (after_stranger, exchange ip1 payload)
unfolding control_send handle_control
poll_after_stranger = refl
