-- ===== src/Httpd/Replies/Bounds.antt =====
-- apps/httpd.c: every page fits the buffer.
use roip.Prelude.{
  ℕ, ◌+◌, ◌≤◌, ◌<◌, ◌≡◌, refl, List, [], ◌∷◌, arith, length, length-append, ok, lt→ltb,
}
use roip.IpAddr.{ip4_addr1, ip4_addr2, ip4_addr3, ip4_addr4}
use roip.Httpd.Scan.{decimal}
use roip.Httpd.Pages.{
  pg_header, pg_form_pass, pg_form0, pg_form1, pg_form2, pg_form3, pg_form4, pg_form5, pg_form6,
  pg_form7, pg_form8, pg_form9, pg_form10, pg_form11, pg_form12, pg_form13, pg_form14, pg_form15,
  pg_form16, pg_form17, pg_form18, pg_form19, pg_change_pass_req, pg_form_pass_change, pg_form22,
  pg_form20, pg_form21, pg_changed_configuration, pg_wrong_password,
  pg_change_password_unsuccessful, pg_changed_password, pg_form_tail, pg_tail,
}
use roip.Httpd.Replies.{
  tcp_write, tcp_output, tcp_close, Addresses, four, config_page, password_page,
  wrong_password_page, changed_configuration_page, pass_change_page, changed_password_page,
  change_unsuccessful_page, reply,
}

-- A page that fits is written, sent, and the connection closed.
pub reply-fits :
    (page : List ℕ)
    → length page < 3072
    → reply page ≡ ok (tcp_write page ∷ tcp_output ∷ tcp_close ∷ [])
unfolding reply
reply-fits page h = rw (lt→ltb (length page) 3072 h) refl

length-decimal : (n : ℕ) → length (decimal n) ≤ 3
unfolding decimal
length-decimal n = ground arith

length-four :
    (ip : ℕ) (t1 t2 t3 t4 : List ℕ)
    → length (four ip t1 t2 t3 t4) ≤ 12 + length t1 + length t2 + length t3 + length t4
unfolding four
length-four ip t1 t2 t3 t4 = simp length-append (
    omega (
      arith,
      length-decimal (ip4_addr1 ip),
      length-decimal (ip4_addr2 ip),
      length-decimal (ip4_addr3 ip),
      length-decimal (ip4_addr4 ip),
    ))

length-texts :
    length pg_header
      + length pg_form0
      + length pg_form1
      + length pg_form2
      + length pg_form3
      + length pg_form4
      + length pg_form5
      + length pg_form6
      + length pg_form7
      + length pg_form8
      + length pg_form9
      + length pg_form10
      + length pg_form11
      + length pg_form12
      + length pg_form13
      + length pg_form14
      + length pg_form15
      + length pg_form16
      + length pg_form17
      + length pg_form18
      + length pg_form19
      + length pg_form_tail
      + length pg_change_pass_req
      + length pg_tail
    < 3000
unfolding pg_header pg_form0 pg_form1 pg_form2 pg_form3 pg_form4 pg_form5 pg_form6 pg_form7 pg_form8
    pg_form9 pg_form10 pg_form11 pg_form12 pg_form13 pg_form14 pg_form15 pg_form16 pg_form17
    pg_form18 pg_form19 pg_form_tail pg_change_pass_req pg_tail
length-texts = omega arith

-- The page of the settings fits the buffer with its NUL, whatever the addresses are.
pub length-config_page : (a : Addresses) → length (config_page a) < 3072
unfolding config_page
length-config_page a = simp length-append (
    omega (
      arith,
      length-four a.ip_local pg_form1 pg_form2 pg_form3 pg_form4,
      length-four a.ip_gw pg_form5 pg_form6 pg_form7 pg_form8,
      length-four a.ip_nm pg_form9 pg_form10 pg_form11 pg_form12,
      length-four a.ser1 pg_form13 pg_form14 pg_form15 pg_form16,
      length-texts,
      length-four a.ser2 pg_form17 pg_form18 pg_form19 pg_form_tail,
    ))

pub reply-changed_configuration_page :
    reply changed_configuration_page
    ≡ ok (tcp_write changed_configuration_page ∷ tcp_output ∷ tcp_close ∷ [])
unfolding changed_configuration_page pg_header pg_changed_configuration pg_tail
reply-changed_configuration_page = reply-fits changed_configuration_page fits
  where
    fits : length changed_configuration_page < 3072
    fits = omega arith

pub reply-password_page :
    reply password_page ≡ ok (tcp_write password_page ∷ tcp_output ∷ tcp_close ∷ [])
unfolding password_page pg_header pg_form_pass pg_form_tail pg_tail
reply-password_page = reply-fits password_page fits
  where
    fits : length password_page < 3072
    fits = omega arith

pub reply-wrong_password_page :
    reply wrong_password_page ≡ ok (tcp_write wrong_password_page ∷ tcp_output ∷ tcp_close ∷ [])
unfolding wrong_password_page pg_header pg_wrong_password pg_tail
reply-wrong_password_page = reply-fits wrong_password_page fits
  where
    fits : length wrong_password_page < 3072
    fits = omega arith

pub reply-pass_change_page :
    reply pass_change_page ≡ ok (tcp_write pass_change_page ∷ tcp_output ∷ tcp_close ∷ [])
unfolding pass_change_page pg_header pg_form_pass_change pg_form22 pg_form20 pg_form21 pg_form_tail
    pg_tail
reply-pass_change_page = reply-fits pass_change_page fits
  where
    fits : length pass_change_page < 3072
    fits = omega arith

pub reply-changed_password_page :
    reply changed_password_page ≡ ok (tcp_write changed_password_page ∷ tcp_output ∷ tcp_close ∷ [])
unfolding changed_password_page pg_header pg_changed_password pg_tail
reply-changed_password_page = reply-fits changed_password_page fits
  where
    fits : length changed_password_page < 3072
    fits = omega arith

pub reply-change_unsuccessful_page :
    reply change_unsuccessful_page
    ≡ ok (tcp_write change_unsuccessful_page ∷ tcp_output ∷ tcp_close ∷ [])
unfolding change_unsuccessful_page pg_header pg_change_password_unsuccessful pg_tail
reply-change_unsuccessful_page = reply-fits change_unsuccessful_page fits
  where
    fits : length change_unsuccessful_page < 3072
    fits = omega arith

pub reply-config_page :
    (a : Addresses)
    → reply (config_page a) ≡ ok (tcp_write (config_page a) ∷ tcp_output ∷ tcp_close ∷ [])
reply-config_page a = reply-fits (config_page a) (length-config_page a)
