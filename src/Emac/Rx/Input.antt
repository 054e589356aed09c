-- ===== src/Emac/Rx/Input.antt =====
-- lwip/src/arch/lpc17xx_40xx_emac.c: what `lpc_low_level_input` does with a frame.
use roip.Prelude.{
  ℕ, suc, ◌+◌, ◌%◌, ◌≡◌, refl, sym, ap, subst, ◌∙◌, List, [], ◌∷◌, ◌++◌, map, append-nil,
  append_assoc, arith, Option, none, some, true, false, ◌==◌, if◌then◌else◌, length, length-set,
  get_elem?, set, replicate, u16, u32, sub32, Result, ok,
}
use roip.Emac.{Pbuf, Stat, Enet, Chip, inc_rx_consume}
use roip.Emac.Ring.{replicate-snoc, ring, next, ring-set, ring-next, get_elem?-ring}
use roip.Emac.Rx.{rx_queue, RxRegs, Received, take_out, drop_frame, take_frame, low_level_input}
use roip.Emac.Rx.Queue.{Holds, desc, rxqueue_pbuf-Holds}
use roip.Emac.Rx.Refill.{granted, left, AreContiguous, rx_queue-Holds}

nonzero : (n : ℕ) → (suc n == 0) ≡ false
nonzero n = ground arith

module _ (c : Chip) (i : ℕ) (p : Pbuf) (ps : List Pbuf) (e : Enet) (h : Holds c i (p ∷ ps) e) where
  taken-held :
      ring (next i) (set e.rxb i none) ≡ map some ps ++ replicate (e.rx_free_descs + 1) none
  taken-held =
      let here : i ≡ (i + 0) % 4 = omega (arith, h.start) in
      let emptied =
        ap (λ n. ring i (set e.rxb n none)) here
        ∙ (ring-set i 0 none e.rxb h.start (omega arith) h.wide_b
            ∙ ap (λ r. set r 0 none) h.held) in
      let one_more : suc e.rx_free_descs ≡ e.rx_free_descs + 1 = omega arith in
      ring-next i (set e.rxb i none) h.start (length-set e.rxb i none ∙ h.wide_b) emptied
      ∙ (append_assoc (map some ps) (replicate e.rx_free_descs none) (none ∷ [])
          ∙ ap (λ r. map some ps ++ r)
              (replicate-snoc e.rx_free_descs none
                ∙ ap (λ n. replicate {A = Option Pbuf} n none) one_more))

  -- Without its first buffer, the ring holds the others, one position further.
  take_out-Holds : Holds c (next i) ps (take_out i e)
  unfolding take_out
  take_out-Holds =
      let more : u32 (e.rx_free_descs + 1) ≡ e.rx_free_descs + 1 = omega (arith, h.free) in
      record {
        start = omega arith;
        wide_b = length-set e.rxb i none ∙ h.wide_b;
        wide_d = h.wide_d;
        wide_s = h.wide_s;
        free = omega (arith, h.free);
        fill = omega (arith, h.fill);
        held = taken-held ∙ ap (λ n. map some ps ++ replicate n none) (sym more);
        stale = h.stale ++ (desc c p ∷ []);
        described =
            ring-next i e.prxd h.start h.wide_d h.described
            ∙ append_assoc (map (desc c) ps) h.stale (desc c p ∷ []);
      }

  free-take_out : (take_out i e).rx_free_descs ≡ e.rx_free_descs + 1
  unfolding take_out
  free-take_out = omega (arith, h.free)

  slot : get_elem? e.rxb i ≡ some (some p)
  slot = get_elem?-ring i e.rxb h.start h.wide_b h.held

  -- The ring once it has been filled up again.
  refilled :
      (heap : List (Option Pbuf))
      → AreContiguous heap
      → (e' : Enet) × (rx_queue c heap (take_out i e)
          ≡ ok (length (granted (e.rx_free_descs + 1) heap), left (e.rx_free_descs + 1) heap, e'))
        × Holds c (next i) (ps ++ granted (e.rx_free_descs + 1) heap) e'
  refilled heap flat =
      subst
        (λ n.
          (e' : Enet) × (rx_queue c heap (take_out i e)
            ≡ ok (length (granted n heap), left n heap, e'))
          × Holds c (next i) (ps ++ granted n heap) e')
        free-take_out (rx_queue-Holds c (next i) heap ps (take_out i e) take_out-Holds flat)

  module _ (r : RxRegs) (here : r.consume ≡ i) (runs : r.overrun ≡ false) (waits : r.empty ≡ false)
      (st : Stat) (written : get_elem? e.prxs i ≡ some st) where
    -- The call, once the registers and the frame's status are known.
    abbrev Branch : List (Option Pbuf) → Result Received
    Branch heap =
        if c.rinfo_error st.status_info
        then drop_frame c i (some p) heap e
        else take_frame c i (sub32 (c.rinfo_size st.status_info) 4) (some p) heap e

    input-Branch : (heap : List (Option Pbuf)) → low_level_input c r heap e ≡ Branch heap
    unfolding low_level_input
    input-Branch heap = rw (runs, waits, here, written, slot) refl

    -- A frame with an error is dropped: its buffer waits again, as the last.
    pub frame_dropped :
        (heap : List (Option Pbuf))
        → c.rinfo_error st.status_info ≡ true
        → (e' : Enet) × (low_level_input c r heap e ≡ ok (none, heap, e', inc_rx_consume ∷ []))
          × Holds c (next i) (ps ++ (p ∷ [])) e'
    unfolding drop_frame
    frame_dropped heap bad =
        let (e', q, h', f) =
          rxqueue_pbuf-Holds c (next i) ps p (take_out i e) take_out-Holds
            (omega (arith, free-take_out)) in
        (e', input-Branch heap ∙ rw (bad, q) refl, h')

    abbrev frame : Pbuf
    frame = record p { len = u16 (sub32 (c.rinfo_size st.status_info) 4) }

    -- A good frame for which no new buffer is granted, not even the first that is asked for, is dropped
    -- too, but its buffer waits again with the frame's length.
    pub frame_unbuffered :
        (heap : List (Option Pbuf))
        → c.rinfo_error st.status_info ≡ false
        → granted (e.rx_free_descs + 1) heap ≡ []
        → AreContiguous heap
        → (e' : Enet) × (low_level_input c r heap e
            ≡ ok (none, left (e.rx_free_descs + 1) heap, e', inc_rx_consume ∷ []))
          × Holds c (next i) (ps ++ (frame ∷ [])) e'
    unfolding take_frame
    frame_unbuffered heap good dry flat =
        let (e1, q, h1) = refilled heap flat in
        let h2 = subst (λ xs. Holds c (next i) xs e1) (ap (λ g. ps ++ g) dry ∙ append-nil ps) h1 in
        let (e', q', h', f) =
          rxqueue_pbuf-Holds c (next i) ps frame e1 h2 (omega (arith, h2.free, h.free)) in
        (e', input-Branch heap ∙ rw (good, q, dry, q') refl, h')

    -- If at least one new buffer is granted for the free descriptors, `low_level_input` returns a good frame
    -- in its buffer, with its length, and the buffers that are granted wait behind the others. None of
    -- them may be chained, and a buffer must wait for the frame.
    pub frame_received :
        (heap : List (Option Pbuf)) (q : Pbuf) (qs : List Pbuf)
        → c.rinfo_error st.status_info ≡ false
        → granted (e.rx_free_descs + 1) heap ≡ q ∷ qs
        → AreContiguous heap
        → (e' : Enet) × (low_level_input c r heap e
            ≡ ok (
              some (record frame { tot_len = frame.len }),
              left (e.rx_free_descs + 1) heap,
              e',
              inc_rx_consume ∷ [],
            ))
          × Holds c (next i) (ps ++ (q ∷ qs)) e'
    unfolding take_frame
    frame_received heap q qs good wet flat =
        let (e', p, h') = refilled heap flat in
        let some_queued : (suc (length qs) == 0) ≡ false = nonzero (length qs) in
        (
          e',
          input-Branch heap ∙ rw (good, p, wet, some_queued) refl,
          subst (λ xs. Holds c (next i) (ps ++ xs) e') wet h',
        )
