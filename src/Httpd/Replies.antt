-- ===== src/Httpd/Replies.antt =====
-- apps/httpd.c: the pages that the server sends. A page is the text of `outdata`, put together by
-- `strcat` and shorter than the 3072 bytes there are.
pub mod Bounds
use roip.Prelude.{
  ℕ, List, [], ◌∷◌, ◌++◌, ltb, if◌then◌else◌, length, Result, ok, fault, out_of_bounds,
}
use roip.IpAddr.{ip4_addr1, ip4_addr2, ip4_addr3, ip4_addr4}
use roip.Httpd.Scan.{decimal}
use roip.Httpd.Pages.{
  pg_header, pg_form_pass, pg_form0, pg_form1, pg_form2, pg_form3, pg_form4, pg_form5, pg_form6,
  pg_form7, pg_form8, pg_form9, pg_form10, pg_form11, pg_form12, pg_form13, pg_form14, pg_form15,
  pg_form16, pg_form17, pg_form18, pg_form19, pg_change_pass_req, pg_form_pass_change, pg_form22,
  pg_form20, pg_form21, pg_changed_configuration, pg_wrong_password,
  pg_change_password_unsuccessful, pg_changed_password, pg_form_tail, pg_tail,
}

-- The calls into lwIP's TCP and into iap.c.
pub data HttpCall : Type 0 where
  tcp_recved : ℕ → HttpCall
  tcp_write : List ℕ → HttpCall
  tcp_output tcp_close pbuf_free : HttpCall
  write_flash : List ℕ → HttpCall
  tcp_new tcp_listen : HttpCall
  tcp_bind : ℕ → HttpCall
  tcp_accepted tcp_recv tcp_arg tcp_sent tcp_accept : HttpCall

-- The five addresses: those of `lpc_netif` and those of the two servers.
pub record Addresses : Type 0 where
  pub ip_local : ℕ
  pub ip_gw : ℕ
  pub ip_nm : ℕ
  pub ser1 : ℕ
  pub ser2 : ℕ

-- Four values of the form with the texts behind them.
unfoldable pub four : ℕ → List ℕ → List ℕ → List ℕ → List ℕ → List ℕ
unfolding decimal
four ip t1 t2 t3 t4 =
    decimal (ip4_addr1 ip)
    ++ t1
    ++ (decimal (ip4_addr2 ip) ++ t2)
    ++ (decimal (ip4_addr3 ip) ++ t3 ++ (decimal (ip4_addr4 ip) ++ t4))

unfoldable pub config_page : Addresses → List ℕ
config_page a =
    pg_header
    ++ pg_form0
    ++ four a.ip_local pg_form1 pg_form2 pg_form3 pg_form4
    ++ four a.ip_gw pg_form5 pg_form6 pg_form7 pg_form8
    ++ four a.ip_nm pg_form9 pg_form10 pg_form11 pg_form12
    ++ four a.ser1 pg_form13 pg_form14 pg_form15 pg_form16
    ++ four a.ser2 pg_form17 pg_form18 pg_form19 pg_form_tail
    ++ pg_change_pass_req
    ++ pg_tail

unfoldable pub password_page : List ℕ
password_page = pg_header ++ pg_form_pass ++ pg_form_tail ++ pg_tail

unfoldable pub wrong_password_page : List ℕ
wrong_password_page = pg_header ++ pg_wrong_password ++ pg_tail

unfoldable pub changed_configuration_page : List ℕ
changed_configuration_page = pg_header ++ pg_changed_configuration ++ pg_tail

unfoldable pub pass_change_page : List ℕ
pass_change_page =
    pg_header ++ pg_form_pass_change ++ pg_form22 ++ pg_form20 ++ pg_form21 ++ pg_form_tail
    ++ pg_tail

unfoldable pub changed_password_page : List ℕ
changed_password_page = pg_header ++ pg_changed_password ++ pg_tail

unfoldable pub change_unsuccessful_page : List ℕ
change_unsuccessful_page = pg_header ++ pg_change_password_unsuccessful ++ pg_tail

-- The page is written to the connection, which is then closed. The error codes are only counted.
unfoldable pub reply : List ℕ → Result (List HttpCall)
reply page =
    if ltb (length page) 3072
    then ok (tcp_write page ∷ tcp_output ∷ tcp_close ∷ [])
    else fault out_of_bounds
