-- ===== src/Httpd/Renewal/Overflow.antt =====
-- apps/httpd.c: a password that does not fit its array.
use roip.Prelude.{ℕ, ◌≤◌, ◌≡◌, refl, List, ◌∷◌, arith, length, ok, fault, out_of_bounds, some}
use roip.Httpd.Scan.Numbers.{Lacks}
use roip.Httpd.Guard.{guarded-open}
use roip.Httpd.Renewal.{Within, copy_field-overflows}
use roip.Httpd.Renewal.Store.{field_text}
use roip.Httpd.{
  Http, Site, pass_sent, change_password, classify, serve, pass_set_request, http_recv,
}

module _ (end : ℕ) (rq name : List ℕ) (f0 : ℕ) (fs rest : List ℕ) (named : Lacks b'=' name)
    (field : Lacks b'&' fs) (at : Within end rq 18 (field_text b'&' name f0 fs rest)) where
  -- After the password has been given, a request for a new one whose first field, up to its separator
  -- and within the packet, has 16 characters or more, writes past the end of the array that it is
  -- copied to.
  pub long_password :
      (site : Site) (s : Http)
      → s.st ≡ pass_sent
      → classify rq ≡ ok pass_set_request
      → 16 ≤ length (f0 ∷ fs)
      → http_recv site (some (end, rq)) s ≡ fault out_of_bounds
  unfolding http_recv serve change_password
  long_password site s st_ok k h =
      let e = copy_field-overflows b'&' end 17 rq name f0 fs rest named field at (omega arith) in
      rw (k, guarded-open, e) refl
