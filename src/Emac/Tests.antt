-- ===== src/Emac/Tests.antt =====
-- The set-up of the Ethernet driver on a concrete controller.
use roip.Prelude.{ℕ, ◌≡◌, refl, true, false, List, [], ◌∷◌, ◌++◌, replicate, ok}
use roip.Emac.{
  Enet, init_rx_descriptors, init_tx_descriptors, rx_enable, tx_enable, enet_init, setup_mii,
  phy_init, enable_rx_filter, enable_int, set_addr,
}
use roip.Emac.Rx.Queue.{Holds}
use roip.Emac.Tx.Pending.{Pending}
use roip.Emac.Setup.{Netif, err_ok, enetif_init}
use roip.Emac.Setup.Ready.{interface_ready}
use roip.Emac.Small.{chip, buffer, blank, two_left}

abbrev netif : Netif
netif = record {
  hwaddr = replicate 6 0;
  hwaddr_len = 0;
  mtu = 0;
  flags = 0;
  name = [];
  attached = false;
}

abbrev settings : List ℕ
settings = replicate 20 192 ++ (2 ∷ 0 ∷ 0 ∷ 0 ∷ 0 ∷ 1 ∷ replicate 230 0)

interface_ready_example :
    (n' : Netif) × (e' : Enet) × (enetif_init chip true settings two_left netif blank
      ≡ ok (
        err_ok,
        [],
        n',
        e',
        enet_init
            ∷ setup_mii
            ∷ phy_init
            ∷ set_addr (2 ∷ 0 ∷ 0 ∷ 0 ∷ 0 ∷ 1 ∷ [])
            ∷ init_tx_descriptors
            ∷ init_rx_descriptors
            ∷ enable_rx_filter
            ∷ enable_int
            ∷ tx_enable
            ∷ rx_enable
            ∷ [],
      ))
    × (n'.hwaddr ≡ 2 ∷ 0 ∷ 0 ∷ 0 ∷ 0 ∷ 1 ∷ [])
    × (n'.attached ≡ true)
    × Holds chip 0 (buffer 3 ∷ buffer 4 ∷ []) e'
    × Pending 0 [] [] e'
interface_ready_example =
    interface_ready chip blank
      (record {
        wide_rxb = refl;
        wide_prxd = refl;
        wide_prxs = refl;
        wide_ptxd = refl;
        empty_rxb = refl;
        empty_txb = refl;
      })
      settings two_left netif refl refl (refl, (refl, tt))
