-- ===== src/Emac/Setup/Ready.antt =====
-- lwip/src/arch/lpc17xx_40xx_emac.c: after the set-up both rings are ready.
use roip.Prelude.{
  ℕ, zero, suc, ◌+◌, ◌≡◌, refl, sym, ap, ◌∙◌, List, [], ◌∷◌, append-nil, arith, true, inl, inr,
  Option, none, some, length, replicate, slice, write_at, length-take, length-drop, drop, memcpy-ok,
  codes, Result-cases, ok,
}
use roip.Emac.{
  Pbuf, Desc, Enet, EnetCall, Chip, init_rx_descriptors, init_tx_descriptors, enet_init, setup_mii,
  phy_init, set_addr, enable_rx_filter, enable_int, tx_enable, rx_enable,
}
use roip.Emac.Ring.{ring}
use roip.Emac.Rx.{rxqueue_pbuf, rx_queue_loop, rx_queue, rx_setup}
use roip.Emac.Rx.Queue.{Holds, length-map}
use roip.Emac.Rx.Refill.{granted, left, AreContiguous, rx_queue-Holds}
use roip.Emac.Tx.{tx_setup}
use roip.Emac.Tx.Pending.{Pending}
use roip.Emac.Setup.{Netif, err_ok, get_mac_addr, low_level_init, enetif_init}

-- The part of the driver's state that belongs to the transmit ring.
abbrev tx_part : Enet → List (Option ℕ) × List Desc × ℕ
tx_part e = (e.txb, e.ptxd, e.lpc_last_tx_idx)

module _ (c : Chip) where
  -- The receive side leaves the transmit ring alone.
  rxqueue_pbuf-keeps :
      (p : Pbuf) (e e' : Enet) → rxqueue_pbuf c (some p) e ≡ ok e' → tx_part e' ≡ tx_part e
  unfolding rxqueue_pbuf
  rxqueue_pbuf-keeps p e e' h = ground arith

  rx_queue_loop-keeps :
      (fuel queued : ℕ) (heap heap' : List (Option Pbuf)) (n : ℕ) (e e' : Enet)
      → rx_queue_loop c fuel queued heap e ≡ ok (n, heap', e')
      → tx_part e' ≡ tx_part e
  unfolding rx_queue_loop
  rx_queue_loop-keeps zero queued heap heap' n e e' h = cc
  rx_queue_loop-keeps (suc fuel) queued [] heap' n e e' h = ground arith
  rx_queue_loop-keeps (suc fuel) queued (none ∷ heap) heap' n e e' h = ground arith
  rx_queue_loop-keeps (suc fuel) queued (some p ∷ heap) heap' n e e' h =
      elim (Result-cases (rxqueue_pbuf c (some p) e)) [
        | inl (e1, q) ↦ ground (
          arith,
          rxqueue_pbuf-keeps p e e1 q,
          rx_queue_loop-keeps fuel (queued + 1) heap heap' n e1 e',
        )
        | inr (x, q) ↦ ground (arith, q)
      ]

write_at-whole : (xs bs : List ℕ) → length xs ≡ length bs → write_at xs 0 bs ≡ bs
write_at-whole [] [] h = refl
write_at-whole [] (b ∷ bs) h = absurd (omega (arith, h))
write_at-whole (x ∷ xs) [] h = absurd (omega (arith, h))
write_at-whole (x ∷ xs) (b ∷ bs) h = ap (λ r. b ∷ r) (write_at-whole xs bs (omega (arith, h)))

-- The receive side from its start to its end.
module _ (c : Chip) where
  rx_queue-keeps :
      (heap heap' : List (Option Pbuf)) (n : ℕ) (e e' : Enet)
      → rx_queue c heap e ≡ ok (n, heap', e')
      → tx_part e' ≡ tx_part e
  unfolding rx_queue
  rx_queue-keeps heap heap' n e e' q = rx_queue_loop-keeps c 5 0 heap heap' n e e' q

-- The calls of a set-up that succeeds: the station address is set before the controller is enabled.
abbrev pub ready_calls : List ℕ → List EnetCall
ready_calls hwaddr =
    enet_init
    ∷ setup_mii
    ∷ phy_init
    ∷ set_addr hwaddr
    ∷ init_tx_descriptors
    ∷ init_rx_descriptors
    ∷ enable_rx_filter
    ∷ enable_int
    ∷ tx_enable
    ∷ rx_enable
    ∷ []

-- The driver's arrays at their sizes, with no buffer in the transmit ring.
pub record IsFresh (e : Enet) : Type 0 where
  pub wide_rxb : length e.rxb ≡ 4
  pub wide_prxd : length e.prxd ≡ 4
  pub wide_prxs : length e.prxs ≡ 4
  pub wide_ptxd : length e.ptxd ≡ 4
  pub empty_rxb : e.rxb ≡ replicate 4 none
  pub empty_txb : e.txb ≡ replicate 4 none

module _ (c : Chip) (e : Enet) (f : IsFresh e) where
  -- The driver as the receive set-up finds it.
  abbrev begun : Enet
  begun = record (tx_setup e).0 { rx_free_descs = 4; rx_fill_desc_index = 0 }

  begun-Holds : Holds c 0 [] begun
  unfolding tx_setup
  begun-Holds = record {
    start = omega arith;
    wide_b = f.wide_rxb;
    wide_d = f.wide_prxd;
    wide_s = f.wide_prxs;
    free = refl;
    fill = refl;
    held = append-nil e.rxb ∙ f.empty_rxb;
    stale = e.prxd;
    described = append-nil e.prxd;
  }

  begun-Pending : Pending 0 [] [] begun
  unfolding tx_setup
  begun-Pending = record {
    start = omega arith;
    last = refl;
    wide_b = ap length f.empty_txb;
    wide_d = length-map _ e.ptxd ∙ f.wide_ptxd;
    level = refl;
    room = 4;
    fits = refl;
    held = append-nil e.txb ∙ f.empty_txb;
    stale = begun.ptxd;
    described = append-nil begun.ptxd;
  }

  -- The transmit ring is what its three parts are.
  Pending-tx_part : (e' : Enet) → tx_part e' ≡ tx_part begun → Pending 0 [] [] e'
  unfolding begun-Pending
  Pending-tx_part e' same =
      let p = begun-Pending in
      let txb : e'.txb ≡ begun.txb = ap (λ (t : List (Option ℕ) × List Desc × ℕ). t.0) same in
      let ptxd : e'.ptxd ≡ begun.ptxd = ap (λ (t : List (Option ℕ) × List Desc × ℕ). t.1) same in
      let last : e'.lpc_last_tx_idx ≡ begun.lpc_last_tx_idx =
        ap (λ (t : List (Option ℕ) × List Desc × ℕ). t.2) same in
      record {
        start = p.start;
        last = last ∙ p.last;
        wide_b = ap length txb ∙ p.wide_b;
        wide_d = ap length ptxd ∙ p.wide_d;
        level = refl;
        room = 4;
        fits = refl;
        held = ap (ring 0) txb ∙ p.held;
        stale = p.stale;
        described = ap (ring 0) ptxd ∙ p.described;
      }

  -- Once the PHY answers, the interface has the station address of the settings, both in its record and
  -- in the controller, which is set before it is enabled; the receive ring holds the buffers that are
  -- granted, four at most; and the transmit ring is empty.
  pub interface_ready :
      (fd : List ℕ) (heap : List (Option Pbuf)) (n : Netif)
      → length fd ≡ 256
      → length n.hwaddr ≡ 6
      → AreContiguous heap
      → (n' : Netif) × (e' : Enet) × (enetif_init c true fd heap n e
          ≡ ok (err_ok, left 4 heap, n', e', ready_calls (slice 20 6 fd)))
        × (n'.hwaddr ≡ slice 20 6 fd)
        × (n'.attached ≡ true)
        × Holds c 0 (granted 4 heap) e'
        × Pending 0 [] [] e'
  unfolding enetif_init get_mac_addr low_level_init tx_setup rx_setup
  interface_ready fd heap n w a flat =
      let (e', q, h') = rx_queue-Holds c 0 heap [] begun begun-Holds flat in
      let six : length (slice 20 6 fd) ≡ 6 =
        omega (arith, w, length-take 6 (drop 20 fd), length-drop 20 fd) in
      let copied =
        memcpy-ok n.hwaddr 0 (slice 20 6 fd) (omega (arith, six, a))
        ∙ ap ok (write_at-whole n.hwaddr (slice 20 6 fd) (a ∙ sym six)) in
      (
        record n {
          hwaddr = slice 20 6 fd;
          hwaddr_len = 6;
          mtu = 1500;
          flags = 0x63;
          name = codes "en";
          attached = true;
        },
        e',
        rw (copied, enetif_init) (rw (q, enetif_init) refl),
        refl,
        refl,
        h',
        Pending-tx_part e' (rx_queue-keeps c heap (left 4 heap) _ begun e' q),
      )
