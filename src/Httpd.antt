-- ===== src/Httpd.antt =====
-- apps/httpd.c: the web server by which the addresses and the password are set.
--
-- The connection's state is one variable of the whole server, `st`, and lives with the buffer of iap.c
-- and the time of the last change. A request is the memory from the payload pointer on, which may go
-- on behind the packet. lwIP's answers are only counted by the source, so the calls are a list.
pub mod Pages
pub mod Scan
pub mod Replies
pub mod Guard
pub mod Settings
pub mod Renewal
pub mod Password
pub mod Session
pub mod Buffer
mod Tests
use roip.Prelude.{
  ℕ, ◌+◌, ◌-◌, Bool, true, false, ◌&&◌, not, Option, none, some, List, [], ◌∷◌, ◌++◌, ◌==◌,
  if◌then◌else◌, length, drop, replicate, slice, memcpy, read, strncmp_eq, strlen, codes, c_str,
  Result, ok, ◌>>=◌,
}
use roip.IpAddr.{ip4_addr}
use roip.Iap.Layout.{Member, store, offset}
use roip.Httpd.Scan.{find, octet, next_octet}
use roip.Httpd.Replies.{
  HttpCall, tcp_recved, pbuf_free, write_flash, tcp_new, tcp_listen, tcp_bind, tcp_accepted,
  tcp_recv, tcp_arg, tcp_sent, tcp_accept, Addresses, config_page, password_page,
  wrong_password_page, changed_configuration_page, pass_change_page, changed_password_page,
  change_unsuccessful_page, reply,
}

-- `enum http_state`
pub data HttpState : Type 0 where
  disconnected pass_sent config_changed : HttpState

pub record Http : Type 0 where
  pub st : HttpState
  pub flash_buff : List ℕ
  pub sysreset_req : ℕ

-- What the server finds when a request comes in: the bytes that `get_flash` reads, the addresses in
-- use, and `sys_now`.
pub record Site : Type 0 where
  pub flash : List ℕ
  pub in_use : Addresses
  pub now : ℕ

abbrev pub request : List ℕ
request = codes "GET /"

abbrev pub pass_sent_cgi : List ℕ
pass_sent_cgi = codes "pass_sent.cgi"

abbrev pub ip_set_cgi : List ℕ
ip_set_cgi = codes "ip_set.cgi"

abbrev pub change_pass_cgi : List ℕ
change_pass_cgi = codes "change_pass.cgi"

abbrev pub pass_set_cgi : List ℕ
pass_set_cgi = codes "pass_set.cgi"

-- `strncmp(&rq[i], text, strlen(text)) == 0`
unfoldable pub starts : List ℕ → ℕ → List ℕ → Result Bool
unfolding strncmp_eq
starts rq i text = strncmp_eq (drop i rq) (text ++ (0 ∷ [])) (length text)

-- `fd->password` and what follows it in the buffer
unfoldable pub password_of : List ℕ → List ℕ
password_of fd = drop (offset Member.password) fd

-- A state with the page that answers the request.
unfoldable pub answered : Http → List ℕ → Result (Http × List HttpCall)
unfolding reply
answered s page = reply page >>= λ calls. ok (s, calls)

-- The page for a request that needs a password.
unfoldable pub refuse : Http → Result (Http × List HttpCall)
unfolding answered
refuse s = answered (record s { st = disconnected }) wrong_password_page

-- Whether the value of the request's first field is the password.
unfoldable pub right_password : List ℕ → ℕ → List ℕ → Result Bool
unfolding find strlen strncmp_eq
right_password pass end rq = do
  e ← find b'=' end rq 18
  end_of_string ← find b' ' end rq e
  n ← strlen pass
  same ← strncmp_eq pass (drop (e + 1) rq) n
  ok (same && (end_of_string - (e + 1) == n))

-- "GET /pass_sent.cgi"
unfoldable pub check_password : Site → ℕ → List ℕ → Http → Result (Http × List HttpCall)
unfolding right_password password_of answered refuse
check_password site end rq s = do
  right ← right_password (password_of site.flash) end rq
  if right
      then answered (record s { st = pass_sent; flash_buff = site.flash }) (config_page site.in_use)
      else refuse (record s { flash_buff = site.flash })

-- Four values and the step to the next, and the four last ones.
unfoldable pub address : ℕ → List ℕ → ℕ → Result (ℕ × ℕ)
unfolding next_octet
address end rq p = do
  (ip1, p1) ← next_octet end rq p
  (ip2, p2) ← next_octet end rq p1
  (ip3, p3) ← next_octet end rq p2
  (ip4, p4) ← next_octet end rq p3
  ok (ip4_addr ip1 ip2 ip3 ip4, p4)

unfoldable pub last_address : ℕ → List ℕ → ℕ → Result ℕ
unfolding next_octet octet
last_address end rq p = do
  (ip1, p1) ← next_octet end rq p
  (ip2, p2) ← next_octet end rq p1
  (ip3, p3) ← next_octet end rq p2
  (ip4, p4) ← octet rq p3
  ok (ip4_addr ip1 ip2 ip3 ip4)

-- The five addresses of a request.
unfoldable pub parse : ℕ → List ℕ → Result Addresses
unfolding address last_address
parse end rq = do
  (tmplocal, p1) ← address end rq 26
  (tmpgw, p2) ← address end rq p1
  (tmpnm, p3) ← address end rq p2
  (tmpser1, p4) ← address end rq p3
  tmpser2 ← last_address end rq p4
  ok (record { ip_local = tmplocal; ip_gw = tmpgw; ip_nm = tmpnm; ser1 = tmpser1; ser2 = tmpser2 })

-- The addresses copied to the buffer.
unfoldable pub store_all : Addresses → List ℕ → List ℕ
store_all a fd =
    let fd1 = store Member.ip_local a.ip_local fd in
    let fd2 = store Member.ip_gw a.ip_gw fd1 in
    let fd3 = store Member.ip_nm a.ip_nm fd2 in
    let fd4 = store Member.ser1 a.ser1 fd3 in store Member.ser2 a.ser2 fd4

-- "GET /ip_set.cgi" once the password has been given
unfoldable pub change_config : Site → ℕ → List ℕ → Http → Result (Http × List HttpCall)
unfolding parse store_all reply
change_config site end rq s = do
  new ← parse end rq
  let fd = store_all new s.flash_buff
  calls ← reply changed_configuration_page
  ok (
    record { st = config_changed; flash_buff = fd; sysreset_req = site.now },
    write_flash fd ∷ calls,
  )

-- `memcpy(array, bs, n); array[n] = 0` for an array of 16 bytes, whose further bytes are not read.
unfoldable pub copy_terminated : ℕ → List ℕ → Result (List ℕ)
copy_terminated n bs = do copied ← memcpy (replicate 16 0) 0 bs; memcpy copied n (0 ∷ [])

-- A field that ends at `x`, copied. Also the position where it begins.
unfoldable pub copy_field : ℕ → ℕ → List ℕ → ℕ → Result (List ℕ × ℕ)
unfolding find
copy_field x end rq p = do
  e ← find b'=' end rq p
  end_of_string ← find x end rq (e + 1)
  let n = end_of_string - (e + 1)
  copied ← copy_terminated n (slice (e + 1) n rq)
  ok (copied, e + 1)

-- The new password stored in the buffer.
unfoldable pub store_password : List ℕ → ℕ → List ℕ → Result (List ℕ)
store_password new_password n fd = do
  copied ← memcpy fd (offset Member.password) (slice 0 n new_password)
  memcpy copied (offset Member.password + n) (0 ∷ [])

-- "GET /pass_set.cgi" once the password has been given
unfoldable pub change_password : ℕ → List ℕ → Http → Result (Http × List HttpCall)
unfolding copy_field store_password answered reply strlen strncmp_eq
change_password end rq s = do
  (old_password, p1) ← copy_field b'&' end rq 17
  (new_password, p2) ← copy_field b'&' end rq p1
  (confirm_password, p3) ← copy_field b' ' end rq p2
  n ← strlen new_password
  same ← strncmp_eq new_password confirm_password n
  if same && not (n == 0)
      then (do
        fd ← store_password new_password n s.flash_buff
        calls ← reply changed_password_page
        ok (record s { st = disconnected; flash_buff = fd }, write_flash fd ∷ calls))
      else answered (record s { st = disconnected }) change_unsuccessful_page

-- A request that needs the password to have been given in the one before.
unfoldable pub guarded : Http → Result (Http × List HttpCall) → Result (Http × List HttpCall)
unfolding refuse
guarded s allowed = elim s.st [ pass_sent ↦ allowed | _ ↦ refuse s ]

-- The requests that the server tells apart.
pub data Request : Type 0 where
  start_page pass_sent_request ip_set_request change_pass_request pass_set_request unknown : Request

-- Which of the four names stands at the text's position 5.
named : List ℕ → Result Request
unfolding starts
named rq = do
  is_pass_sent ← starts rq 5 pass_sent_cgi
  if is_pass_sent then ok pass_sent_request else (do
    is_ip_set ← starts rq 5 ip_set_cgi
    if is_ip_set then ok ip_set_request else (do
      is_change_pass ← starts rq 5 change_pass_cgi
      if is_change_pass then ok change_pass_request else (do
        is_pass_set ← starts rq 5 pass_set_cgi
        ok (if is_pass_set then pass_set_request else unknown))))

unfoldable pub classify : List ℕ → Result Request
unfolding starts named
classify rq = do
  get ← starts rq 0 request
  if get then (do c ← read rq 5; if c == b' ' then ok start_page else named rq) else ok unknown

-- The answer to each; an unknown one gets none, and the connection stays open.
unfoldable pub serve : Site → ℕ → List ℕ → Request → Http → Result (Http × List HttpCall)
unfolding answered check_password change_config change_password guarded
serve site end rq start_page s = answered s password_page
serve site end rq pass_sent_request s = check_password site end rq s
serve site end rq ip_set_request s = guarded s (change_config site end rq s)
serve site end rq change_pass_request s = guarded s (answered s pass_change_page)
serve site end rq pass_set_request s = guarded s (change_password end rq s)
serve site end rq unknown s = ok (s, [])

-- `http_recv`, which returns ERR_OK in every case; `none` for a null `pbuf`. A packet is its
-- `tot_len` and the memory from `payload` on.
unfoldable pub http_recv : Site → Option (ℕ × List ℕ) → Http → Result (Http × List HttpCall)
unfolding classify serve
http_recv site none s = ok (s, [])
http_recv site (some (tot_len, rq)) s = do
  r ← classify rq
  (s', calls) ← serve site tot_len rq r s
  ok (s', tcp_recved tot_len ∷ calls ++ (pbuf_free ∷ []))

-- `http_accept` and `http_init`
unfoldable pub http_accept : List HttpCall
http_accept = tcp_accepted ∷ tcp_recv ∷ tcp_arg ∷ tcp_sent ∷ []

unfoldable pub http_init : List HttpCall
http_init = tcp_new ∷ tcp_bind 80 ∷ tcp_listen ∷ tcp_arg ∷ tcp_accept ∷ []

abbrev pub start : Http
start = record { st = disconnected; flash_buff = replicate 256 0; sysreset_req = 0 }
