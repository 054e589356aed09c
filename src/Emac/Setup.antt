-- ===== src/Emac/Setup.antt =====
-- lwip/src/arch/lpc17xx_40xx_emac.c: the interface is set up, and sends while the link is up.
pub mod Ready
use roip.Prelude.{
  ℕ, ◌+◌, ◌/◌, ◌%◌, Bool, true, false, List, [], ◌∷◌, ◌++◌, Option, none, some, ◌==◌, if◌then◌else◌,
  codes, slice, write_at, memcpy, Result, ok, ◌>>=◌,
}
use roip.Iap.Layout.{Member, offset}
use roip.Emac.{
  Pbuf, Enet, EnetCall, Chip, enet_init, setup_mii, phy_init, set_addr, enable_rx_filter,
  enable_int, tx_enable, rx_enable, set_full_duplex, set_half_duplex, set_100mbps, set_10mbps,
  nvic_disable_irq,
}
use roip.Emac.Rx.{rx_setup}
use roip.Emac.Tx.{tx_setup}

-- The fields of `struct netif` that the driver sets; `attached` says that its output functions are.
pub record Netif : Type 0 where
  pub hwaddr : List ℕ
  pub hwaddr_len : ℕ
  pub mtu : ℕ
  pub flags : ℕ
  pub name : List ℕ
  pub attached : Bool

-- The values of `err_t` that occur: ERR_OK, the ERROR of LPCOpen, and ERR_CONN.
pub data Err : Type 0 where
  err_ok error err_conn : Err

-- `GetMacADDR`: the station address in the settings.
unfoldable pub get_mac_addr : List ℕ → List ℕ → Result (List ℕ)
get_mac_addr fd mcaddr = memcpy mcaddr 0 (slice (offset Member.mac_address) 6 fd)

module _ (c : Chip) where
  -- `low_level_init`: `phy_ok` says that `lpc_phy_init` returns SUCCESS. The two set-ups return
  -- ERR_OK.
  unfoldable pub low_level_init :
      Bool
      → List ℕ
      → List (Option Pbuf)
      → Enet
      → Result (Err × List (Option Pbuf) × Enet × List EnetCall)
  unfolding tx_setup rx_setup
  low_level_init phy_ok hwaddr heap e =
      let begun = enet_init ∷ setup_mii ∷ phy_init ∷ [] in
      if phy_ok
      then (do
        let (e1, calls1) = tx_setup e
        (calls2, heap', e2) ← rx_setup c heap e1
        ok (
          err_ok,
          heap',
          e2,
          begun
              ++ (set_addr hwaddr ∷ calls1 ++ calls2)
              ++ (enable_rx_filter ∷ enable_int ∷ tx_enable ∷ rx_enable ∷ []),
        ))
      else ok (error, heap, e, begun)

  -- `lpc_enetif_init`, from the settings `fd`.
  unfoldable pub enetif_init :
      Bool
      → List ℕ
      → List (Option Pbuf)
      → Netif
      → Enet
      → Result (Err × List (Option Pbuf) × Netif × Enet × List EnetCall)
  unfolding get_mac_addr low_level_init
  enetif_init phy_ok fd heap n e = do
    hwaddr ← get_mac_addr fd n.hwaddr
    let n1 = record n {
      hwaddr = hwaddr;
      hwaddr_len = 6;
      mtu = 1500;
      flags = 0x02 + 0x20 + 0x01 + 0x40;
    }
    (err, heap', e', calls) ← low_level_init phy_ok hwaddr heap e
    ok (
      err,
      heap',
      elim err [ err_ok ↦ record n1 { name = codes "en"; attached = true } | _ ↦ n1 ],
      e',
      calls,
    )

-- `lpc_etharp_output`, from what `etharp_output` returns; the second is whether that was called.
-- NETIF_FLAG_LINK_UP is 0x10.
unfoldable pub etharp_output : Netif → Err → Err × Bool
etharp_output n answer = if n.flags / 16 % 2 == 1 then (answer, true) else (err_conn, false)

-- `ETH_IRQHandler`, `lpc_emac_set_duplex` and `lpc_emac_set_speed`
abbrev pub eth_irq_handler : List EnetCall
eth_irq_handler = nvic_disable_irq ∷ []

abbrev pub set_duplex : Bool → List EnetCall
set_duplex full_duplex = if full_duplex then set_full_duplex ∷ [] else set_half_duplex ∷ []

abbrev pub set_speed : Bool → List EnetCall
set_speed mbs_100 = if mbs_100 then set_100mbps ∷ [] else set_10mbps ∷ []
