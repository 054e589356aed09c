-- ===== src/Emac/Rx/Apart.antt =====
-- lwip/src/arch/lpc17xx_40xx_emac.c: the receive side leaves the transmit ring as it is.
use roip.Prelude.{
  ℕ, zero, suc, ◌+◌, ◌≡◌, sym, ap, ◌∙◌, Bool, Bool-cases, inl, inr, List, [], ◌∷◌, map, Option,
  none, some, ltb, leb, ◌==◌, get_elem?, sub32, u16, ok, out_of_bounds, assert, of_option, ◌>>◌,
  ok-injective, >>=-eq-ok,
}
use roip.Emac.{Pbuf, Enet, EnetCall, Chip, deref, in_bounds}
use roip.Emac.Rx.{
  rxqueue_pbuf, rx_queue_loop, rx_queue, rx_setup, take_out, RxRegs, Received, restart_rx,
  drop_frame, take_frame, low_level_input, enetif_input,
}
use roip.Emac.Sides.{tx_side}

same_side :
    (n : ℕ) (heap : List (Option Pbuf)) (e : Enet) (t : ℕ × List (Option Pbuf) × Enet)
    → ok (n, heap, e) ≡ ok t
    → tx_side t.2 ≡ tx_side e
same_side n heap e t done =
    ap (λ (x : ℕ × List (Option Pbuf) × Enet). tx_side x.2) (sym (ok-injective done))

module _ (c : Chip) where
  rxqueue_pbuf-tx_side :
      (p : Option Pbuf) (e e' : Enet) → rxqueue_pbuf c p e ≡ ok e' → tx_side e' ≡ tx_side e
  unfolding rxqueue_pbuf
  rxqueue_pbuf-tx_side p e e' went =
      let (q, _, more) = >>=-eq-ok (deref p) _ went in
      let (_, _, done) = >>=-eq-ok (in_bounds e.rx_fill_desc_index 4) _ more in
      ap tx_side (sym (ok-injective done))

  rx_queue_loop-tx_side :
      (fuel queued : ℕ) (heap : List (Option Pbuf)) (e : Enet) (t : ℕ × List (Option Pbuf) × Enet)
      → rx_queue_loop c fuel queued heap e ≡ ok t
      → tx_side t.2 ≡ tx_side e
  unfolding rx_queue_loop
  rx_queue_loop-tx_side zero queued heap e t went = cc
  rx_queue_loop-tx_side (suc fuel) queued [] e t went = elim (Bool-cases (ltb 0 e.rx_free_descs)) [
    | inl more ↦ same_side queued [] e t (rw (more, rx_queue_loop) at went)
    | inr full ↦ same_side queued [] e t (rw (full, rx_queue_loop) at went)
  ]
  rx_queue_loop-tx_side (suc fuel) queued (none ∷ heap) e t went =
      elim (Bool-cases (ltb 0 e.rx_free_descs)) [
        | inl more ↦ same_side queued heap e t (rw (more, rx_queue_loop) at went)
        | inr full ↦ same_side queued (none ∷ heap) e t (rw (full, rx_queue_loop) at went)
      ]
  rx_queue_loop-tx_side (suc fuel) queued (some p ∷ heap) e t went =
      elim (Bool-cases (ltb 0 e.rx_free_descs)) [
        | inl more ↦
            let checked = assert (leb p.clen 1) in
            let (e1, q, rest) =
              >>=-eq-ok (checked >> rxqueue_pbuf c (some p) e) _
                (rw (more, rx_queue_loop) at went) in
            let (_, _, q1) = >>=-eq-ok checked _ q in
            rx_queue_loop-tx_side fuel (queued + 1) heap e1 t rest
            ∙ rxqueue_pbuf-tx_side (some p) e e1 q1
        | inr full ↦ same_side queued (some p ∷ heap) e t (rw (full, rx_queue_loop) at went)
      ]

  rx_queue-tx_side :
      (heap : List (Option Pbuf)) (e : Enet) (t : ℕ × List (Option Pbuf) × Enet)
      → rx_queue c heap e ≡ ok t
      → tx_side t.2 ≡ tx_side e
  unfolding rx_queue
  rx_queue-tx_side heap e t went = rx_queue_loop-tx_side 5 0 heap e t went

  restart_rx-tx_side :
      (heap : List (Option Pbuf)) (e : Enet) (t : Received)
      → restart_rx c heap e ≡ ok t
      → tx_side t.2 ≡ tx_side e
  unfolding restart_rx rx_setup
  restart_rx-tx_side heap e t went =
      let blank = record e {
        rxb = map (λ _. none) e.rxb;
        rx_free_descs = 4;
        rx_fill_desc_index = 0;
      } in
      let (s, setup, done) =
        >>=-eq-ok (rx_setup c heap (record e { rxb = map (λ _. none) e.rxb })) _ went in
      let (q, queued, done') = >>=-eq-ok (rx_queue c heap blank) _ setup in
      ap (λ (x : Received). tx_side x.2) (sym (ok-injective done))
      ∙ (ap (λ (x : List EnetCall × List (Option Pbuf) × Enet). tx_side x.2)
            (sym (ok-injective done'))
          ∙ rx_queue-tx_side heap blank q queued)

  drop_frame-tx_side :
      (i : ℕ) (slot : Option Pbuf) (heap : List (Option Pbuf)) (e : Enet) (t : Received)
      → drop_frame c i slot heap e ≡ ok t
      → tx_side t.2 ≡ tx_side e
  unfolding drop_frame take_out
  drop_frame-tx_side i slot heap e t went =
      let (e1, q, done) = >>=-eq-ok (rxqueue_pbuf c slot (take_out i e)) _ went in
      ap (λ (x : Received). tx_side x.2) (sym (ok-injective done))
      ∙ rxqueue_pbuf-tx_side slot (take_out i e) e1 q

  take_frame-tx_side :
      (i n : ℕ) (slot : Option Pbuf) (heap : List (Option Pbuf)) (e : Enet) (t : Received)
      → take_frame c i n slot heap e ≡ ok t
      → tx_side t.2 ≡ tx_side e
  unfolding take_frame take_out
  take_frame-tx_side i n slot heap e t went =
      let (p, _, more) = >>=-eq-ok (deref slot) _ went in
      let (q, queued, last) = >>=-eq-ok (rx_queue c heap (take_out i e)) _ more in
      let filled = record p { len = u16 n } in
      let before = rx_queue-tx_side heap (take_out i e) q queued in
      elim (Bool-cases (q.0 == 0)) [
        | inl dry ↦
            let (e2, back, done) =
              >>=-eq-ok (rxqueue_pbuf c (some filled) q.2) _ (rw dry at last) in
            ap (λ (x : Received). tx_side x.2) (sym (ok-injective done))
            ∙ (rxqueue_pbuf-tx_side (some filled) q.2 e2 back ∙ before)
        | inr wet ↦
            ap (λ (x : Received). tx_side x.2) (sym (ok-injective (rw wet at last))) ∙ before
      ]

  low_level_input-tx_side :
      (r : RxRegs) (heap : List (Option Pbuf)) (e : Enet) (t : Received)
      → low_level_input c r heap e ≡ ok t
      → tx_side t.2 ≡ tx_side e
  unfolding low_level_input
  low_level_input-tx_side r heap e t went = elim (Bool-cases r.overrun) [
    | inl over ↦ restart_rx-tx_side heap e t (rw over at went)
    | inr runs ↦ elim (Bool-cases r.empty) [
      | inl empty ↦
          ap (λ (x : Received). tx_side x.2) (sym (ok-injective (rw (runs, empty) at went)))
      | inr waits ↦
          let (s, _, more) =
            >>=-eq-ok (of_option (get_elem? e.prxs r.consume) out_of_bounds) _
              (rw (runs, waits) at went) in
          let (slot, _, last) =
            >>=-eq-ok (of_option (get_elem? e.rxb r.consume) out_of_bounds) _ more in
          elim (Bool-cases (c.rinfo_error s.status_info)) [
            | inl bad ↦ drop_frame-tx_side r.consume slot heap e t (rw bad at last)
            | inr good ↦
                take_frame-tx_side r.consume (sub32 (c.rinfo_size s.status_info) 4) slot heap e t
                  (rw good at last)
          ]
    ]
  ]

  pub enetif_input-tx_side :
      (r : RxRegs) (ethertype : Pbuf → ℕ) (input_ok : Bool) (heap heap' : List (Option Pbuf))
      (e e' : Enet) (calls : List EnetCall)
      → enetif_input c r ethertype input_ok heap e ≡ ok (heap', e', calls)
      → tx_side e' ≡ tx_side e
  unfolding enetif_input
  enetif_input-tx_side r ethertype input_ok heap heap' e e' calls went =
      let (t, q, done) = >>=-eq-ok (low_level_input c r heap e) _ went in
      ap (λ (x : List (Option Pbuf) × Enet × List EnetCall). tx_side x.1) (sym (ok-injective done))
      ∙ low_level_input-tx_side r heap e t q
