-- ===== src/Emac/Sides.antt =====
-- lwip/src/arch/lpc17xx_40xx_emac.c: what the two rings depend on.
use roip.Prelude.{ℕ, ◌+◌, ◌≡◌, sym, ap, ◌∙◌, List, ◌++◌, map, Option, none, some, length, replicate}
use roip.Emac.{Pbuf, Desc, Stat, Enet, Chip}
use roip.Emac.Ring.{ring}
use roip.Emac.Rx.Queue.{Holds}
use roip.Emac.Tx.Pending.{Pending}

abbrev pub tx_side : Enet → List (Option ℕ) × List Desc × ℕ
tx_side e = (e.txb, e.ptxd, e.lpc_last_tx_idx)

abbrev pub rx_side : Enet → List (Option Pbuf) × List Desc × List Stat × ℕ × ℕ
rx_side e = (e.rxb, e.prxd, e.prxs, e.rx_fill_desc_index, e.rx_free_descs)

-- What a ring holds depends on its own side only.
pub Pending-tx_side :
    (i : ℕ) (es : List (Option ℕ)) (ds : List Desc) (e e' : Enet)
    → tx_side e' ≡ tx_side e
    → Pending i es ds e
    → Pending i es ds e'
Pending-tx_side i es ds e e' same h =
    let txb : e'.txb ≡ e.txb = ap (λ (t : List (Option ℕ) × List Desc × ℕ). t.0) same in
    let ptxd : e'.ptxd ≡ e.ptxd = ap (λ (t : List (Option ℕ) × List Desc × ℕ). t.1) same in
    record {
      start = h.start;
      last = ap (λ (t : List (Option ℕ) × List Desc × ℕ). t.2) same ∙ h.last;
      wide_b = ap length txb ∙ h.wide_b;
      wide_d = ap length ptxd ∙ h.wide_d;
      level = h.level;
      room = h.room;
      fits = h.fits;
      held = ap (ring i) txb ∙ h.held;
      stale = h.stale;
      described = ap (ring i) ptxd ∙ h.described;
    }

pub Holds-rx_side :
    (c : Chip) (i : ℕ) (ps : List Pbuf) (e e' : Enet)
    → rx_side e' ≡ rx_side e
    → Holds c i ps e
    → Holds c i ps e'
Holds-rx_side c i ps e e' same h =
    let Side = List (Option Pbuf) × List Desc × List Stat × ℕ × ℕ in
    let rxb : e'.rxb ≡ e.rxb = ap (λ (t : Side). t.0) same in
    let prxd : e'.prxd ≡ e.prxd = ap (λ (t : Side). t.1) same in
    let free : e'.rx_free_descs ≡ e.rx_free_descs = ap (λ (t : Side). t.4) same in
    record {
      start = h.start;
      wide_b = ap length rxb ∙ h.wide_b;
      wide_d = ap length prxd ∙ h.wide_d;
      wide_s = ap (λ (t : Side). length t.2) same ∙ h.wide_s;
      free = ap (λ n. length ps + n) free ∙ h.free;
      fill = ap (λ (t : Side). t.3) same ∙ h.fill;
      held = ap (ring i) rxb ∙ (h.held ∙ ap (λ n. map some ps ++ replicate n none) (sym free));
      stale = h.stale;
      described = ap (ring i) prxd ∙ h.described;
    }
