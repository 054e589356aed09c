-- ===== src/Emac/Rx/Restart.antt =====
-- lwip/src/arch/lpc17xx_40xx_emac.c: the receive ring after an overrun, and when it has run dry.
use roip.Prelude.{
  ℕ, zero, suc, ◌≡◌, refl, sym, ap, ◌∙◌, List, [], ◌∷◌, ◌++◌, map, append-nil, arith, Option, none,
  some, true, false, Bool, if◌then◌else◌, length, take, drop, take-append-drop, replicate, sub32,
  ok, fault, null_pointer,
}
use mathlib.Core.List.{map-append}
use roip.Emac.{
  Pbuf, Enet, EnetCall, Chip, pbuf_free, rx_disable, reset_rx_logic, clear_rx_overrun,
  init_rx_descriptors, rx_enable,
}
use roip.Emac.Ring.{ring, get_elem?-ring, within}
use roip.Emac.Rx.{
  rxqueue_pbuf, rx_setup, free_rxb, RxRegs, restart_rx, drop_frame, take_frame, low_level_input,
}
use roip.Emac.Rx.Queue.{Holds, length-map}
use roip.Emac.Rx.Refill.{granted, left, AreContiguous, rx_queue-Holds}

abbrev pub frees : List Pbuf → List EnetCall
frees ps = map (λ (p : Pbuf). pbuf_free p.id) ps

free_rxb-append : (xs ys : List (Option Pbuf)) → free_rxb (xs ++ ys) ≡ free_rxb xs ++ free_rxb ys
unfolding free_rxb
free_rxb-append [] ys = refl
free_rxb-append (none ∷ xs) ys = free_rxb-append xs ys
free_rxb-append (some p ∷ xs) ys = ap (λ r. pbuf_free p.id ∷ r) (free_rxb-append xs ys)

free_rxb-held : (ps : List Pbuf) (n : ℕ) → free_rxb (map some ps ++ replicate n none) ≡ frees ps
unfolding free_rxb
free_rxb-held [] zero = refl
free_rxb-held [] (suc n) = free_rxb-held [] n
free_rxb-held (p ∷ ps) n = ap (λ r. pbuf_free p.id ∷ r) (free_rxb-held ps n)

-- The parts of an image are the images of parts.
split_frees :
    (xs ys : List EnetCall) (ps : List Pbuf)
    → xs ++ ys ≡ frees ps
    → (a b : List Pbuf) × (ps ≡ a ++ b) × (xs ≡ frees a) × (ys ≡ frees b)
split_frees [] ys ps e = ([], ps, refl, refl, e)
split_frees (x ∷ xs) ys [] e = cc
split_frees (x ∷ xs) ys (p ∷ ps) e =
    let (a, b, q, r, s) = split_frees xs ys ps (cc) in (p ∷ a, b, ap (λ r. p ∷ r) q, cc, s)

emptied :
    (xs : List (Option Pbuf))
    → map {A = Option Pbuf} {B = Option Pbuf} (λ _. none) xs ≡ replicate (length xs) none
emptied [] = refl
emptied (x ∷ xs) = ap (λ r. none ∷ r) (emptied xs)

module _ (c : Chip) (i : ℕ) (ps : List Pbuf) (e : Enet) (h : Holds c i ps e) where
  -- Each buffer that waits is freed once.
  free_rxb-once : (a b : List Pbuf) × (ps ≡ a ++ b) × (free_rxb e.rxb ≡ frees (b ++ a))
  free_rxb-once =
      let whole =
        sym (free_rxb-append (drop i e.rxb) (take i e.rxb))
        ∙ (ap free_rxb h.held ∙ free_rxb-held ps e.rx_free_descs) in
      let (a, b, p, q, r) =
        split_frees (free_rxb (drop i e.rxb)) (free_rxb (take i e.rxb)) ps whole in
      (
        a,
        b,
        p,
        ap free_rxb (sym (take-append-drop i e.rxb))
            ∙ (free_rxb-append (take i e.rxb) (drop i e.rxb)
                ∙ (ap (λ r. r ++ free_rxb (drop i e.rxb)) r
                    ∙ (ap (λ r. frees b ++ r) q
                        ∙ sym (map-append (λ (p : Pbuf). pbuf_free p.id) b a)))),
      )

  abbrev blank : Enet
  blank = record e { rxb = map (λ _. none) e.rxb; rx_free_descs = 4; rx_fill_desc_index = 0 }

  blank-Holds : Holds c 0 [] blank
  blank-Holds = record {
    start = omega arith;
    wide_b = length-map (λ _. none) e.rxb ∙ h.wide_b;
    wide_d = h.wide_d;
    wide_s = h.wide_s;
    free = refl;
    fill = refl;
    held =
        append-nil (map (λ _. none) e.rxb) ∙ (emptied e.rxb ∙ ap (λ n. replicate n none) h.wide_b);
    stale = e.prxd;
    described = append-nil e.prxd;
  }

  -- After an overrun each buffer that waits is freed once, and the ring, which the controller then
  -- fills from its first descriptor on, holds the new buffers that are granted, four at most.
  pub overrun_restarts :
      (r : RxRegs) (heap : List (Option Pbuf))
      → r.overrun ≡ true
      → AreContiguous heap
      → (a b : List Pbuf) × (ps ≡ a ++ b)
        × (e' : Enet) × (low_level_input c r heap e
            ≡ ok (
              none,
              left 4 heap,
              e',
              rx_disable ∷ reset_rx_logic ∷ clear_rx_overrun ∷ frees (b ++ a)
                  ++ (init_rx_descriptors ∷ [])
                  ++ (rx_enable ∷ []),
            ))
        × Holds c 0 (granted 4 heap) e'
  unfolding low_level_input restart_rx rx_setup
  overrun_restarts r heap over flat =
      let (e', q, h') = rx_queue-Holds c 0 heap [] blank blank-Holds flat in
      let (a, b, p, f) = free_rxb-once in (a, b, p, e', rw (over, q, f) refl, h')

module _ (c : Chip) (i : ℕ) (e : Enet) (h : Holds c i [] e) where
  -- When no buffer waits, a frame that the controller reports is read through a null pointer.
  pub frame_unexpected :
      (r : RxRegs) (heap : List (Option Pbuf))
      → r.consume ≡ i
      → r.overrun ≡ false
      → r.empty ≡ false
      → low_level_input c r heap e ≡ fault null_pointer
  unfolding low_level_input drop_frame take_frame rxqueue_pbuf
  frame_unexpected r heap here runs waits =
      let full : e.rx_free_descs ≡ 4 = omega (arith, h.free) in
      let none_waits : ring i e.rxb ≡ none ∷ none ∷ none ∷ none ∷ [] =
        h.held ∙ ap (λ n. replicate {A = Option Pbuf} n none) full in
      let slot = get_elem?-ring i e.rxb h.start h.wide_b none_waits in
      let (st, written) = within e.prxs i (omega (arith, h.wide_s, h.start)) in
      rw (runs, waits, here, written, slot)
        (both (c.rinfo_error st.status_info) (sub32 (c.rinfo_size st.status_info) 4))
    where
      both :
          (b : Bool) (n : ℕ)
          → (if b then drop_frame c i none heap e else take_frame c i n none heap e)
            ≡ fault null_pointer
      both true n = refl
      both false n = refl
