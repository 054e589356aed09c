-- ===== src/Httpd/Tests.antt =====
-- apps/httpd.c: the theorems at concrete requests.
use roip.Prelude.{
  strncmp_eq, Bool-cases, inl, inr, not, ◌&&◌, ◌==◌, false, ℕ, ◌+◌, ◌≡◌, ◌↔◌, refl, Bool, true,
  if◌then◌else◌, some, List, [], ◌∷◌, ◌++◌, arith, codes, length, replicate, slice, ok, fault,
  out_of_bounds, ◌≤◌,
}
use roip.IpAddr.{ip4_addr4}
use roip.Httpd.Scan.{decimal, is_decimal}
use roip.Httpd.Scan.Numbers.{Gap, form, Lacks}
use roip.Httpd.Settings.{values}
use roip.IpAddr.{ip_addr_netcmp}
use roip.Roip.{defaults, is_consistent, choose}
use roip.Roip.Addressing.{settings_survive}
use roip.Hardware.{HwCall, irqs_on}
use roip.Iap
use roip.Iap.{get_flash}
use roip.Iap.Small.{Chip, chip, chip_laws, fresh}
use roip.Httpd.Password.{password_request}
use roip.Httpd.Renewal.Overflow.{long_password}
use roip.Httpd.Replies.{
  HttpCall, tcp_recved, tcp_write, tcp_output, tcp_close, pbuf_free, write_flash, Addresses,
  config_page, wrong_password_page, changed_configuration_page,
}
use roip.Httpd.{
  Http, Site, disconnected, pass_sent, config_changed, pass_sent_request, ip_set_request,
  pass_set_request, starts, classify, start, http_recv, password_of,
}

abbrev lacks : ℕ → List ℕ → Bool
lacks x [] = true
lacks x (y ∷ ys) = not (y == x) && lacks x ys

Lacks-of : (x : ℕ) (ys : List ℕ) → lacks x ys ≡ true → Lacks x ys
Lacks-of x [] e = tt
Lacks-of x (y ∷ ys) e = elim (Bool-cases (y == x)) [
  | inl hit ↦ cc
  | inr miss ↦ (miss, Lacks-of x ys (tail_lacks (y == x) miss e))
]
  where
    tail_lacks : (b : Bool) → b ≡ false → (not b && lacks x ys) ≡ true → lacks x ys ≡ true
    tail_lacks true p q = cc
    tail_lacks false p q = q

abbrev in_use : Addresses
in_use = record {
  ip_local = 0x0A00A8C0;
  ip_gw = 0x0100A8C0;
  ip_nm = 0x00FFFFFF;
  ser1 = 0x6464A8C0;
  ser2 = 0x6564A8C0;
}

abbrev site : Site
site = record {
  flash = replicate 26 1 ++ codes "secret" ++ (0 ∷ replicate 223 255);
  in_use = in_use;
  now = 5000;
}

abbrev open_session : Http
open_session = record { st = pass_sent; flash_buff = site.flash; sysreset_req = 0 }

abbrev password_rq : List ℕ
password_rq = codes "GET /pass_sent.cgi?password=secret HTTP/1.1\r\n\r\n"

password_rq-classify : classify password_rq ≡ ok pass_sent_request
unfolding classify starts strncmp_eq
password_rq-classify = refl

password_request_example :
    (r : Bool) × ((r ≡ true) ↔ (codes "secret" ≡ codes "secret"))
    × (http_recv site (some (47, password_rq)) start
        ≡ ok (
          record start { st = if r then pass_sent else disconnected; flash_buff = site.flash },
          tcp_recved 47
              ∷ tcp_write (if r then config_page in_use else wrong_password_page)
              ∷ tcp_output
              ∷ tcp_close
              ∷ pbuf_free
              ∷ [],
        ))
unfolding password_of
password_request_example =
    password_request (codes "password") (codes "secret") (codes "HTTP/1.1\r\n\r\n") (codes "secret")
      (replicate 223 255) 47 password_rq refl (Lacks-of 61 (codes "password") refl)
      (Lacks-of 32 (codes "secret") refl) (Lacks-of 0 (codes "secret") refl) (omega arith)
      (omega arith) site start password_rq-classify refl

abbrev gap : ℕ → Gap
gap i = (38, codes "ip")

abbrev ip_set_rq : List ℕ
ip_set_rq =
    codes "GET /ip_set.cgi?ip_local1="
    ++ form gap 0 (values in_use) (decimal (ip4_addr4 in_use.ser2) ++ (32 ∷ codes "HTTP/1.1\r\n"))

ip_set_rq-classify : classify ip_set_rq ≡ ok ip_set_request
unfolding classify starts strncmp_eq
ip_set_rq-classify = refl

ip_set_rq-fits :
    26
      + length (
          form gap 0
            (values in_use)
            (decimal (ip4_addr4 in_use.ser2) ++ (32 ∷ codes "HTTP/1.1\r\n")))
    ≤ 400
unfolding decimal
ip_set_rq-fits = omega arith

-- A request for new settings before the password has been given.
abbrev refused : List HttpCall
refused = tcp_recved 150 ∷ tcp_write wrong_password_page ∷ tcp_output ∷ tcp_close ∷ pbuf_free ∷ []

no_digit : is_decimal 38 ≡ false
unfolding is_decimal
no_digit = refl

space_no_digit : is_decimal 32 ≡ false
unfolding is_decimal
space_no_digit = refl

-- The servers of these settings are in another network.
settings_survive_example :
    (fd : List ℕ) × (http_recv site (some (400, ip_set_rq)) open_session
      ≡ ok (
        record { st = config_changed; flash_buff = fd; sysreset_req = 5000 },
        tcp_recved 400
            ∷ write_flash fd
            ∷ tcp_write changed_configuration_page
            ∷ tcp_output
            ∷ tcp_close
            ∷ pbuf_free
            ∷ [],
      ))
    × (e : Chip) × (hw : List HwCall) × (Iap.write_flash chip 4 fd fresh ≡ some (0, e, hw))
    × (irqs_on false hw ≡ true)
    × (slice 20 236 (get_flash chip e) ≡ slice 20 236 site.flash)
    × (choose (get_flash chip e) ≡ defaults)
unfolding is_consistent ip_addr_netcmp
settings_survive_example =
    settings_survive chip chip_laws gap (λ i. (no_digit, Lacks-of 61 (codes "ip") refl)) 32
      (codes "HTTP/1.1\r\n") space_no_digit site 400 ip_set_rq open_session in_use 4 fresh false
      refl refl (omega arith, omega arith, omega arith, omega arith, omega arith) ip_set_rq-classify
      (refl, ip_set_rq-fits) refl refl (omega arith)

abbrev pass_set_rq : List ℕ
pass_set_rq = codes "GET /pass_set.cgi?old=wrong&new=newpass&confirm=newpass HTTP/1.1\r\n"

abbrev long_rq : List ℕ
long_rq = codes "GET /pass_set.cgi?old=abcdefghijklmnop&new=x&confirm=x HTTP/1.1\r\n"

long_rq-classify : classify long_rq ≡ ok pass_set_request
unfolding classify starts strncmp_eq
long_rq-classify = refl

long_password_example : http_recv site (some (65, long_rq)) open_session ≡ fault out_of_bounds
long_password_example =
    long_password 65 long_rq (codes "old") 97 (codes "bcdefghijklmnop")
      (codes "new=x&confirm=x HTTP/1.1\r\n") (Lacks-of 0 (codes "old") refl)
      (Lacks-of 0 (codes "bcdefghijklmnop") refl) (refl, omega arith) site open_session refl
      long_rq-classify (omega arith)
