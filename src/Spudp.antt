-- ===== src/Spudp.antt =====
-- apps/speex_udp.c: the control connection to the two servers. A control packet goes out every five
-- seconds; a server that answers becomes the connected one, and one that is silent for ten seconds
-- is given up for the other.
--
-- `spudp_state` is kept as the byte that the source keeps: bit 7 for connected, bits 0 to 6 for the
-- server. The clock is read where the source calls SysTick_GetMS, so a call takes one time for each.
pub mod Spec
pub mod Link
pub mod Failover
mod Tests
use roip.Prelude.{
  ℕ, zero, suc, ◌+◌, ◌-◌, ◌/◌, ◌%◌, ◌≡◌, Bool, true, false, ◌&&◌, Option, none, some, List, [], ◌∷◌,
  ◌++◌, u8, sub32, ltb, leb, ◌==◌, if◌then◌else◌, length, take, Result, ok, fault, Fault,
  null_pointer, ◌>>=◌, ◌>>◌, assert, assertion,
}
use roip.IpAddr.{ip_addr_cmp}
use roip.Net.{
  Answers, NetCall, Pcb, data_pcb, control_pcb, Receiver, handle_audio_input, handle_control_input,
  udp_new, udp_bind, udp_recv, udp_connect, udp_send, udp_disconnect, udp_remove, pbuf_alloc,
  pbuf_free,
}

-- SPUDP_SERVER1 and SPUDP_SERVER2
abbrev pub server_1 : ℕ
server_1 = 1

abbrev pub server_2 : ℕ
server_2 = 2

-- `st & SPUDP_CONNECTED`, SPUDP_CONNECTED being 1 << 7.
abbrev pub is_connected : ℕ → Bool
is_connected st = st / 128 % 2 == 1

-- `st & SPUDP_SERVER_MASK`
abbrev pub server : ℕ → ℕ
server st = st % 128

-- `SPUDP_CONNECTED | s` for a server number `s`
abbrev pub connected_to : ℕ → ℕ
connected_to s = 128 + s

-- `struct spudp_data`, with the two timers. `data_open` says whether the pointer `dt.p` is not 0.
pub record Spudp : Type 0 where
  pub data_open : Bool
  pub st : ℕ  -- uint8_t
  pub server1 : ℕ
  pub server2 : ℕ
  pub tm_ctlpacket_sent : ℕ  -- uint32_t
  pub tm_ctlpacket_received : ℕ  -- uint32_t

-- `get_server1_ip` and `get_server2_ip`
abbrev pub get_server1_ip : Spudp → ℕ
get_server1_ip d = d.server1

abbrev pub get_server2_ip : Spudp → ℕ
get_server2_ip d = d.server2

-- `handleAudioInput`
pub handle_audio : List NetCall
handle_audio = pbuf_free ∷ []

-- `handleControlInput`, for a packet from `addr`.
unfoldable pub handle_control : ℕ → ℕ → Spudp → Spudp × List NetCall
handle_control addr now d = (
  record d {
    st =
        if ip_addr_cmp addr d.server1
        then connected_to server_1
        else if ip_addr_cmp addr d.server2
        then connected_to server_2
        else d.st;
    tm_ctlpacket_received = now;
  },
  pbuf_free ∷ [],
)

-- `if(p != NULL) x = p->addr`
abbrev pub given : Option ℕ → ℕ → ℕ
given none old = old
given (some a) old = a

-- `spudp_init` from the stack's answers to `udp_new` and to the two `udp_bind`; a null address
-- leaves the server as it was. (The settings of the encoder are the codec's.)
unfoldable pub init :
    ℕ → Option ℕ → Option ℕ → Bool → Bool → Bool → ℕ → ℕ → Spudp → Spudp × List NetCall
init local_ip ip1 ip2 pcb_given bind_data_ok bind_control_ok t_sent t_received d =
    let begun = record d {
      data_open = pcb_given;
      st = server_1;
      server1 = given ip1 d.server1;
      server2 = given ip2 d.server2;
    } in
    let opened = udp_new data_pcb ∷ udp_bind data_pcb local_ip 5198 ∷ [] in
    let control =
      opened
      ++ (udp_recv data_pcb handle_audio_input
          ∷ udp_new control_pcb
          ∷ udp_bind control_pcb local_ip 5199
          ∷ []) in
    if bind_data_ok
    then if bind_control_ok
      then (
        record begun { tm_ctlpacket_sent = t_sent; tm_ctlpacket_received = t_received },
        control ++ (udp_recv control_pcb handle_control_input ∷ []),
      )
      else (begun, control)
    else (begun, opened)

-- `spudp_deinit`
pub deinit : Spudp → Spudp × List NetCall
deinit d = (record d { data_open = false; st = server_1 }, udp_remove data_pcb ∷ [])

-- The tail of `spudp_string_send`, once a server is chosen. A null `pb` is dereferenced.
send_to : Answers → ℕ → List ℕ → Result (ℕ × List NetCall)
send_to ans addr bytes =
    if ans.pbuf_given
    then ok (
      if ans.send_ok then length bytes else 0,
      udp_connect control_pcb addr 5199
          ∷ pbuf_alloc (length bytes)
          ∷ udp_send control_pcb bytes
          ∷ pbuf_free
          ∷ udp_disconnect control_pcb
          ∷ [],
    )
    else fault null_pointer

-- `spudp_string_send` of the `len` bytes `buf`: the result is the number returned.
unfoldable pub string_send : Answers → List ℕ → Spudp → Result (ℕ × List NetCall)
unfolding send_to
string_send ans buf d = do
  assert (ltb 0 (length buf))
  assert (ltb (length buf) 256)
  if server d.st == server_1
      then send_to ans d.server1 buf
      else if server d.st == server_2
      then send_to ans d.server2 buf
      else ok (0, [])

-- `uint32_t payload[] = {1,2,3,4,5,6,7,8}` in memory.
abbrev pub payload : List ℕ
payload =
    1 ∷ 0 ∷ 0 ∷ 0 ∷ 2 ∷ 0 ∷ 0 ∷ 0 ∷ 3 ∷ 0 ∷ 0 ∷ 0 ∷ 4 ∷ 0 ∷ 0 ∷ 0 ∷ 5 ∷ 0 ∷ 0 ∷ 0 ∷ 6 ∷ 0 ∷ 0 ∷ 0
    ∷ 7 ∷ 0 ∷ 0 ∷ 0 ∷ 8 ∷ 0 ∷ 0 ∷ 0 ∷ []

-- The `if` ladder that goes to the other server.
abbrev pub other_server : ℕ → ℕ
other_server st =
    if server st == server_1 then server_2 else if server st == server_2 then server_1 else server_1

-- The state that `spudp_control_send` reaches before it sends; `now` is the second reading of the
-- clock. `dt.st &= ~SPUDP_CONNECTED` keeps bits 0 to 6 of the byte.
abbrev pub next_st : ℕ → Spudp → ℕ
next_st now d =
    if is_connected d.st
    then if ltb 10000 (sub32 now d.tm_ctlpacket_received) then other_server (server d.st) else d.st
    else other_server d.st

-- `spudp_control_send`: `t1`, `t2` and `t3` are what the clock shows at its three readings.
unfoldable pub control_send : Answers → ℕ → ℕ → ℕ → Spudp → Result (Spudp × List NetCall)
unfolding string_send
control_send ans t1 t2 t3 d =
    let e = record d { st = next_st t2 d } in
    if ltb 5000 (sub32 t1 d.tm_ctlpacket_sent)
    then (do
      (n, calls) ← string_send ans payload e
      ok (record e { tm_ctlpacket_sent = if ltb 0 n then t3 else d.tm_ctlpacket_sent }, calls))
    else ok (d, [])
