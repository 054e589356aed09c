-- ===== src/Httpd/Settings.antt =====
-- apps/httpd.c: the five addresses of a request are read back.
pub mod Stored
use roip.Prelude.{
  ℕ, zero, suc, ◌+◌, ◌*◌, ◌/◌, ◌%◌, ◌≤◌, ◌<◌, ◌≡◌, refl, sym, ◌∙◌, ap, true, false, List, [], ◌∷◌,
  ◌++◌, arith, length, length-append, length-write_at, drop, Result, ok, ◌>>=◌, some, ltb, slice,
  slice-write_at, slice-write_at_before, slice-write_at_after,
}
use roip.IpAddr.{ip4_addr, ip4_addr1, ip4_addr2, ip4_addr3, ip4_addr4, ip4_addr-octets}
use roip.Iap.Layout.{Member, Address, member, load, store, offset, size, load-store, slice-store}
use roip.Httpd.Scan.{is_decimal, decimal}
use roip.Httpd.Scan.Numbers.{Gap, IsGap, form, At, next_octet-form, octet-decimal}
use roip.Httpd.Replies.{
  HttpCall, tcp_recved, tcp_write, tcp_output, tcp_close, pbuf_free, write_flash, Addresses, reply,
  changed_configuration_page,
}
use roip.Httpd.{
  Http, Site, pass_sent, config_changed, address, last_address, parse, store_all, change_config,
  guarded, serve, classify, ip_set_request, http_recv,
}

-- The octets of an address in the order of the form.
abbrev pub octets : ℕ → List ℕ → List ℕ
octets ip ns = ip4_addr1 ip ∷ ip4_addr2 ip ∷ ip4_addr3 ip ∷ ip4_addr4 ip ∷ ns

-- The 19 values of the form that have a further one behind them.
abbrev pub values : Addresses → List ℕ
values a = octets a.ip_local (
    octets a.ip_gw (
      octets a.ip_nm (octets a.ser1 (ip4_addr1 a.ser2 ∷ ip4_addr2 a.ser2 ∷ ip4_addr3 a.ser2 ∷ []))))

abbrev pub AreAddresses : Addresses → Type 0
AreAddresses a =
    (a.ip_local < 4294967296)
    × (a.ip_gw < 4294967296)
    × (a.ip_nm < 4294967296)
    × (a.ser1 < 4294967296)
    × (a.ser2 < 4294967296)

module _ (gap : ℕ → Gap) (gaps : (i : ℕ) → IsGap (gap i)) (tail : List ℕ) (end : ℕ)
    (rq : List ℕ) where
  address-form :
      (p i ip : ℕ) (ns : List ℕ)
      → ip < 4294967296
      → At gap tail end rq p i (octets ip ns)
      → (q : ℕ) × (address end rq p ≡ ok (ip, q))
        × At gap tail end rq q (suc (suc (suc (suc i)))) ns
  unfolding address
  address-form p i ip ns h at =
      let step = next_octet-form gap gaps tail end rq in
      let (p1, e1, at1) =
        step p i (ip4_addr1 ip) (ip4_addr2 ip ∷ ip4_addr3 ip ∷ ip4_addr4 ip ∷ ns) (omega arith)
          at in
      let (p2, e2, at2) =
        step p1 (suc i) (ip4_addr2 ip) (ip4_addr3 ip ∷ ip4_addr4 ip ∷ ns) (omega arith) at1 in
      let (p3, e3, at3) =
        step p2 (suc (suc i)) (ip4_addr3 ip) (ip4_addr4 ip ∷ ns) (omega arith) at2 in
      let (p4, e4, at4) = step p3 (suc (suc (suc i))) (ip4_addr4 ip) ns (omega arith) at3 in
      (p4, rw (e1, e2, e3, e4) (ap (λ r. ok (r, p4)) (ip4_addr-octets ip h)), at4)

module _ (gap : ℕ → Gap) (gaps : (i : ℕ) → IsGap (gap i)) (end c : ℕ) (rq rest : List ℕ) where
  last_address-form :
      (p i ip : ℕ)
      → ip < 4294967296
      → is_decimal c ≡ false
      → At gap
          (decimal (ip4_addr4 ip) ++ (c ∷ rest))
          end
          rq
          p
          i
          (ip4_addr1 ip ∷ ip4_addr2 ip ∷ ip4_addr3 ip ∷ [])
      → last_address end rq p ≡ ok ip
  unfolding last_address
  last_address-form p i ip h e at =
      let step = next_octet-form gap gaps (decimal (ip4_addr4 ip) ++ (c ∷ rest)) end rq in
      let (p1, e1, at1) =
        step p i (ip4_addr1 ip) (ip4_addr2 ip ∷ ip4_addr3 ip ∷ []) (omega arith) at in
      let (p2, e2, at2) = step p1 (suc i) (ip4_addr2 ip) (ip4_addr3 ip ∷ []) (omega arith) at1 in
      let (p3, e3, at3) = step p2 (suc (suc i)) (ip4_addr3 ip) [] (omega arith) at2 in
      let e4 = octet-decimal (ip4_addr4 ip) c p3 rq rest (omega arith) e at3.0 in
      rw (e1, e2, e3, e4) (ap ok (ip4_addr-octets ip h))

  -- A request that carries five addresses in decimal is parsed as these.
  pub parse-form :
      (a : Addresses)
      → AreAddresses a
      → is_decimal c ≡ false
      → At gap (decimal (ip4_addr4 a.ser2) ++ (c ∷ rest)) end rq 26 0 (values a)
      → parse end rq ≡ ok a
  unfolding parse
  parse-form a (h1, h2, h3, h4, h5) e at =
      let step = address-form gap gaps (decimal (ip4_addr4 a.ser2) ++ (c ∷ rest)) end rq in
      let last = ip4_addr1 a.ser2 ∷ ip4_addr2 a.ser2 ∷ ip4_addr3 a.ser2 ∷ [] in
      let (p1, e1, at1) =
        step 26 0 a.ip_local (octets a.ip_gw (octets a.ip_nm (octets a.ser1 last))) h1 at in
      let (p2, e2, at2) = step p1 4 a.ip_gw (octets a.ip_nm (octets a.ser1 last)) h2 at1 in
      let (p3, e3, at3) = step p2 8 a.ip_nm (octets a.ser1 last) h3 at2 in
      let (p4, e4, at4) = step p3 12 a.ser1 last h4 at3 in
      let e5 = last_address-form p4 16 a.ser2 h5 e at4 in rw (e1, e2, e3, e4, e5) refl
