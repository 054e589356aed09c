-- ===== src/Roip/Addressing.antt =====
-- roip.c, apps/httpd.c and apps/iap.c: new settings go from the web page through the flash memory to the
-- addresses that the firmware takes when it starts again.
use roip.Prelude.{
  ℕ, ◌<◌, ◌≡◌, refl, ◌∙◌, ap, false, Bool, true, List, [], ◌∷◌, ◌++◌, length, some, slice, ok,
  if◌then◌else◌,
}
use roip.Hardware.{HwCall, irqs_on}
use roip.IpAddr.{ip4_addr4}
use roip.Iap
use roip.Iap.{Flash, Laws, start_addr_last_sector, get_flash}
use roip.Iap.Layout.{Address, load, member}
use roip.Iap.Storage.{erasure, copy, get_flash-write_flash}
use roip.Httpd.{
  Http, Site, pass_sent, config_changed, classify, ip_set_request, http_recv, store_all,
}
use roip.Httpd.Scan.{is_decimal, decimal}
use roip.Httpd.Scan.Numbers.{Gap, IsGap, At}
use roip.Httpd.Replies.{
  tcp_recved, tcp_write, tcp_output, tcp_close, pbuf_free, write_flash, Addresses,
  changed_configuration_page,
}
use roip.Httpd.Settings.{values, AreAddresses}
use roip.Httpd.Settings.Stored.{
  wanted, load-store_all, slice-store_all, length-store_all, settings_saved,
}
use roip.Roip.{defaults, settings, is_consistent, choose}

-- A buffer with the five addresses in their members has them as its settings.
settings-wanted :
    (fd : List ℕ) (a : Addresses)
    → ((b : Address) → load (member b) fd ≡ wanted a b)
    → settings fd ≡ a
unfolding settings
settings-wanted fd a h =
    rw (h Address.local, h Address.gateway, h Address.netmask, h Address.server1, h Address.server2)
      refl

-- The firmware that starts from a buffer with the five addresses takes them if the gateway and one of
-- the servers are in the local network, and its own five if they are not.
choose-store_all :
    (a : Addresses) (fd : List ℕ)
    → length fd ≡ 256
    → AreAddresses a
    → choose (store_all a fd) ≡ (if is_consistent a then a else defaults)
unfolding choose
choose-store_all a fd w h =
    ap (λ x. if is_consistent x then x else defaults)
      (settings-wanted (store_all a fd) a (load-store_all a fd w h))

module _ (f : Flash) (laws : Laws f) (gap : ℕ → Gap) (gaps : (i : ℕ) → IsGap (gap i)) (c : ℕ)
    (rest : List ℕ) (digitless : is_decimal c ≡ false) where
  -- New settings survive the reset. After the password has been given, a request whose values are five
  -- addresses in decimal, between gaps that begin with no digit and hold no further `=`, and all within
  -- the packet, is answered by a page, asks for a reset, and has a buffer written to the flash memory.
  -- If the sector can be erased, the copy succeeds and the wait for the signature is given its rounds,
  -- `write_flash` ends with code 0 and with the interrupts on, and what `get_flash` then reads holds
  -- the old station address and password, and makes the firmware start with the five addresses, if the
  -- gateway and one of the servers are in the local network, and with its own five if they are not.
  pub settings_survive :
      (site : Site) (end : ℕ) (rq : List ℕ) (s : Http) (a : Addresses) (fuel : ℕ) (d : f.Device)
      (on : Bool)
      → s.st ≡ pass_sent
      → length s.flash_buff ≡ 256
      → AreAddresses a
      → classify rq ≡ ok ip_set_request
      → At gap (decimal (ip4_addr4 a.ser2) ++ (c ∷ rest)) end rq 26 0 (values a)
      → (erasure f laws d).0 ≡ 0
      → (copy f laws (store_all a s.flash_buff) d).0 ≡ 0
      → laws.polls (
          f.compute_signature
            (copy f laws (store_all a s.flash_buff) d).1
            start_addr_last_sector
            64)
        < fuel
      → (fd : List ℕ) × (http_recv site (some (end, rq)) s
          ≡ ok (
            record { st = config_changed; flash_buff = fd; sysreset_req = site.now },
            tcp_recved end
                ∷ write_flash fd
                ∷ tcp_write changed_configuration_page
                ∷ tcp_output
                ∷ tcp_close
                ∷ pbuf_free
                ∷ [],
          ))
        × (e : f.Device) × (hw : List HwCall) × (Iap.write_flash f fuel fd d ≡ some (0, e, hw))
        × (irqs_on on hw ≡ true)
        × (slice 20 236 (get_flash f e) ≡ slice 20 236 s.flash_buff)
        × (choose (get_flash f e) ≡ (if is_consistent a then a else defaults))
  settings_survive site end rq s a fuel d on open_st w h k at er cp enough =
      let fd = store_all a s.flash_buff in
      let (e, hw, q, stored, on_again) =
        get_flash-write_flash f laws fuel fd d on (length-store_all a s.flash_buff w) er cp
          enough in
      (
        fd,
        settings_saved gap gaps c rest digitless site end rq s a open_st h k at,
        e,
        hw,
        q,
        on_again,
        ap (slice 20 236) stored ∙ slice-store_all a s.flash_buff w,
        ap choose stored ∙ choose-store_all a s.flash_buff w h,
      )
