-- ===== src/Httpd/Settings/Stored.antt =====
-- apps/httpd.c: the addresses of a request reach the flash memory.
use roip.Prelude.{
  ℕ, ◌≡◌, refl, ◌∙◌, ap, false, List, [], ◌∷◌, ◌++◌, arith, length, length-write_at, ok, some,
  slice, slice-write_at_after,
}
use roip.IpAddr.{ip4_addr4}
use roip.Iap.Layout.{
  Member, Address, member, of_bytes, load, store, offset, load-store, slice-store,
}
use roip.Httpd.Scan.{is_decimal, decimal}
use roip.Httpd.Scan.Numbers.{Gap, IsGap, At}
use roip.Httpd.Replies.{
  tcp_recved, tcp_write, tcp_output, tcp_close, pbuf_free, write_flash, Addresses,
  changed_configuration_page,
}
use roip.Httpd.Replies.Bounds.{reply-changed_configuration_page}
use roip.Httpd.Guard.{guarded-open}
use roip.Httpd.Settings.{values, AreAddresses, parse-form}
use roip.Httpd.{
  Http, Site, pass_sent, config_changed, store_all, change_config, serve, classify, ip_set_request,
  http_recv,
}

-- The address that is meant for a member of the struct.
abbrev pub wanted : Addresses → Address → ℕ
wanted a Address.local = a.ip_local
wanted a Address.gateway = a.ip_gw
wanted a Address.netmask = a.ip_nm
wanted a Address.server1 = a.ser1
wanted a Address.server2 = a.ser2

length-store : (m : Member) (ip : ℕ) (fd : List ℕ) → length (store m ip fd) ≡ length fd
unfolding store
length-store m ip fd = length-write_at fd (offset m) _

-- A store to one address leaves the others.
load-other :
    (x y : Address) (ip : ℕ) (fd : List ℕ)
    → (offset (member y) ≡ offset (member x) → ⊥)
    → load (member y) (store (member x) ip fd) ≡ load (member y) fd
unfolding load
load-other x Address.local ip fd h = ap of_bytes (slice-store x Member.ip_local ip fd h)
load-other x Address.gateway ip fd h = ap of_bytes (slice-store x Member.ip_gw ip fd h)
load-other x Address.netmask ip fd h = ap of_bytes (slice-store x Member.ip_nm ip fd h)
load-other x Address.server1 ip fd h = ap of_bytes (slice-store x Member.ser1 ip fd h)
load-other x Address.server2 ip fd h = ap of_bytes (slice-store x Member.ser2 ip fd h)

module _ (a : Addresses) (fd : List ℕ) (w : length fd ≡ 256) where
  abbrev fd1 : List ℕ
  fd1 = store Member.ip_local a.ip_local fd

  abbrev fd2 : List ℕ
  fd2 = store Member.ip_gw a.ip_gw fd1

  abbrev fd3 : List ℕ
  fd3 = store Member.ip_nm a.ip_nm fd2

  abbrev fd4 : List ℕ
  fd4 = store Member.ser1 a.ser1 fd3

  w1 : length fd1 ≡ 256
  w1 = length-store Member.ip_local a.ip_local fd ∙ w

  w2 : length fd2 ≡ 256
  w2 = length-store Member.ip_gw a.ip_gw fd1 ∙ w1

  w3 : length fd3 ≡ 256
  w3 = length-store Member.ip_nm a.ip_nm fd2 ∙ w2

  w4 : length fd4 ≡ 256
  w4 = length-store Member.ser1 a.ser1 fd3 ∙ w3

  pub length-store_all : length (store_all a fd) ≡ 256
  unfolding store_all
  length-store_all = length-store Member.ser2 a.ser2 fd4 ∙ w4

  -- The station address and the password are left as they were.
  pub slice-store_all : slice 20 236 (store_all a fd) ≡ slice 20 236 fd
  unfolding store_all store
  slice-store_all =
      slice-write_at_after fd4 16 _ 20 236 (omega arith)
      ∙ (slice-write_at_after fd3 12 _ 20 236 (omega arith)
          ∙ (slice-write_at_after fd2 8 _ 20 236 (omega arith)
              ∙ (slice-write_at_after fd1 4 _ 20 236 (omega arith)
                  ∙ slice-write_at_after fd 0 _ 20 236 (omega arith))))

  module _ (h : AreAddresses a) where
    -- Each address is read back from its member.
    pub load-store_all : (b : Address) → load (member b) (store_all a fd) ≡ wanted a b
    unfolding store_all
    load-store_all Address.local =
        load-other Address.server2 Address.local a.ser2 fd4 (λ e. omega (arith, e))
        ∙ (load-other Address.server1 Address.local a.ser1 fd3 (λ e. omega (arith, e))
            ∙ (load-other Address.netmask Address.local a.ip_nm fd2 (λ e. omega (arith, e))
                ∙ (load-other Address.gateway Address.local a.ip_gw fd1 (λ e. omega (arith, e))
                    ∙ load-store Address.local a.ip_local fd w h.0)))
    load-store_all Address.gateway =
        load-other Address.server2 Address.gateway a.ser2 fd4 (λ e. omega (arith, e))
        ∙ (load-other Address.server1 Address.gateway a.ser1 fd3 (λ e. omega (arith, e))
            ∙ (load-other Address.netmask Address.gateway a.ip_nm fd2 (λ e. omega (arith, e))
                ∙ load-store Address.gateway a.ip_gw fd1 w1 h.1))
    load-store_all Address.netmask =
        load-other Address.server2 Address.netmask a.ser2 fd4 (λ e. omega (arith, e))
        ∙ (load-other Address.server1 Address.netmask a.ser1 fd3 (λ e. omega (arith, e))
            ∙ load-store Address.netmask a.ip_nm fd2 w2 h.2)
    load-store_all Address.server1 =
        load-other Address.server2 Address.server1 a.ser2 fd4 (λ e. omega (arith, e))
        ∙ load-store Address.server1 a.ser1 fd3 w3 h.3
    load-store_all Address.server2 = load-store Address.server2 a.ser2 fd4 w4 h.4

module _ (gap : ℕ → Gap) (gaps : (i : ℕ) → IsGap (gap i)) (c : ℕ) (rest : List ℕ)
    (digitless : is_decimal c ≡ false) where
  -- After the password has been given, a request for new settings whose values are five addresses in
  -- decimal, between gaps that begin with no digit and hold no further `=`, and all within the packet,
  -- is answered by a page; the buffer with these addresses is written to the flash memory, the reset is
  -- asked for, and the password does not count as given any more.
  pub settings_saved :
      (site : Site) (end : ℕ) (rq : List ℕ) (s : Http) (a : Addresses)
      → s.st ≡ pass_sent
      → AreAddresses a
      → classify rq ≡ ok ip_set_request
      → At gap (decimal (ip4_addr4 a.ser2) ++ (c ∷ rest)) end rq 26 0 (values a)
      → let fd = store_all a s.flash_buff in
        http_recv site (some (end, rq)) s
        ≡ ok (
          record { st = config_changed; flash_buff = fd; sysreset_req = site.now },
          tcp_recved end
              ∷ write_flash fd
              ∷ tcp_write changed_configuration_page
              ∷ tcp_output
              ∷ tcp_close
              ∷ pbuf_free
              ∷ [],
        )
  unfolding http_recv serve change_config
  settings_saved site end rq s a open_st h k at =
      let parsed = parse-form gap gaps end c rq rest a h digitless at in
      rw (k, parsed, guarded-open, reply-changed_configuration_page) refl
