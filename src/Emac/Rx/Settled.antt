-- ===== src/Emac/Rx/Settled.antt =====
-- lwip/src/arch/lpc17xx_40xx_emac.c: what one call of `lpc_low_level_input` does with the
-- buffers.
use roip.Prelude.{
  ℕ, zero, suc, ◌+◌, ◌<◌, ◌≡◌, refl, sym, ap, subst, ◌∙◌, true, false, Bool-cases, inl, inr, ◌⊎◌,
  List, [], ◌∷◌, ◌++◌, append-nil, length, append_assoc, arith, Option, none, some, if◌then◌else◌,
  ok, ok-injective, count,
}
use roip.Emac.{
  Pbuf, Enet, EnetCall, Chip, rx_disable, reset_rx_logic, clear_rx_overrun, init_rx_descriptors,
  rx_enable, inc_rx_consume,
}
use roip.Emac.Ring.{next, within}
use roip.Emac.Rx.{RxRegs, Received, low_level_input}
use roip.Emac.Rx.Queue.{Holds}
use roip.Emac.Rx.Refill.{granted, left, AreContiguous}
use roip.Emac.Rx.Input.{frame_dropped, frame_unbuffered, frame_received}
use roip.Emac.Rx.Restart.{frees, overrun_restarts, frame_unexpected}
use roip.Emac.Rx.Accounts.{
  ids, buffers, released, offered, count-Holds, count-granted, count-ids, released-append,
  offered-append, released-frees, offered-frees,
}

-- Where the controller's consume index is after the call.
abbrev pub next_consume : RxRegs → ℕ → ℕ
next_consume r i = if r.overrun then 0 else if r.empty then i else next i

pub AreContiguous-left :
    (n : ℕ) (heap : List (Option Pbuf)) → AreContiguous heap → AreContiguous (left n heap)
AreContiguous-left zero heap h = h
AreContiguous-left (suc n) [] h = h
AreContiguous-left (suc n) (none ∷ heap) h = h
AreContiguous-left (suc n) (some p ∷ heap) h = AreContiguous-left n heap h.1

list_cases {ℓ} : {A : Type ℓ} (xs : List A) → (xs ≡ []) ⊎ ((y : A) × (ys : List A) × (xs ≡ y ∷ ys))
list_cases [] = inl refl
list_cases (x ∷ xs) = inr (x, xs, refl)

abbrev pub in_hand : Option Pbuf → List ℕ
in_hand none = []
in_hand (some p) = p.id ∷ []

-- What a call of `lpc_low_level_input` leaves: a queue in the ring, and every buffer of the ring and of
-- the memory once, in the ring, in the memory, in the result or freed.
pub record Settled (c : Chip) (j : ℕ) (heap : List (Option Pbuf)) (e : Enet) (t : Received)
    : Type 0 where
  pub queue : List Pbuf
  pub holds : Holds c j queue t.2
  pub flat : AreContiguous t.1
  pub balance :
      (a : ℕ)
      → count a (buffers e.rxb) + count a (buffers heap)
        ≡ count a (buffers t.2.rxb)
          + count a (buffers t.1)
          + count a (in_hand t.0)
          + count a (released t.3)
  pub unoffered : offered t.3 ≡ []

-- The balance of the queues is that of the rings.
settle :
    (c : Chip) (i j : ℕ) (ps qs : List Pbuf) (heap heap' : List (Option Pbuf)) (e e' : Enet)
    (got : Option Pbuf) (calls : List EnetCall)
    → Holds c i ps e
    → Holds c j qs e'
    → AreContiguous heap'
    → offered calls ≡ []
    → ((a : ℕ)
        → count a (ids ps) + count a (buffers heap)
          ≡ count a (ids qs)
            + count a (buffers heap')
            + count a (in_hand got)
            + count a (released calls))
    → Settled c j heap e (got, heap', e', calls)
settle c i j ps qs heap heap' e e' got calls h h' flat none_offered same = record {
  queue = qs;
  holds = h';
  flat = flat;
  balance = λ a. omega (arith, same a, count-Holds a c i ps e h, count-Holds a c j qs e' h');
  unoffered = none_offered;
}

-- The calls of a restart free the buffers `qs` and offer none.
abbrev restarting : List Pbuf → List EnetCall
restarting qs =
    rx_disable ∷ reset_rx_logic ∷ clear_rx_overrun ∷ frees qs
    ++ (init_rx_descriptors ∷ [])
    ++ (rx_enable ∷ [])

released-restarting : (qs : List Pbuf) → released (restarting qs) ≡ ids qs
released-restarting qs =
    let tail = init_rx_descriptors ∷ rx_enable ∷ [] in
    ap released (append_assoc (frees qs) (init_rx_descriptors ∷ []) (rx_enable ∷ []))
    ∙ (released-append (frees qs) tail
        ∙ (ap (λ r. r ++ released tail) (released-frees qs) ∙ append-nil (ids qs)))

offered-restarting : (qs : List Pbuf) → offered (restarting qs) ≡ []
offered-restarting qs =
    let tail = init_rx_descriptors ∷ rx_enable ∷ [] in
    ap offered (append_assoc (frees qs) (init_rx_descriptors ∷ []) (rx_enable ∷ []))
    ∙ (offered-append (frees qs) tail ∙ ap (λ r. r ++ offered tail) (offered-frees qs))

module _ (c : Chip) (i : ℕ) (r : RxRegs) (heap : List (Option Pbuf)) (e : Enet)
    (here : r.consume ≡ i) (flat : AreContiguous heap) where
  abbrev Went : ℕ → Type 0
  Went j = (t : Received) × (low_level_input c r heap e ≡ ok t) × Settled c j heap e t

  input-overrun : (ps : List Pbuf) → Holds c i ps e → r.overrun ≡ true → Went 0
  input-overrun ps h over =
      let (x, y, p, e', q, h') = overrun_restarts c i ps e h r heap over flat in
      (
        (none, left 4 heap, e', restarting (y ++ x)),
        q,
        settle c i 0 ps (granted 4 heap) heap (left 4 heap) e e' none (restarting (y ++ x)) h h'
            (AreContiguous-left 4 heap flat) (offered-restarting (y ++ x))
            (λ a.
              let split = ap (λ z. count a (ids z)) p in
              omega (
                arith,
                split,
                count-ids a x y,
                count-ids a y x,
                ap (count a) (released-restarting (y ++ x)),
                count-granted a 4 heap,
              )),
      )

  module _ (p : Pbuf) (ps : List Pbuf) (h : Holds c i (p ∷ ps) e) (runs : r.overrun ≡ false)
      (waits : r.empty ≡ false) where
    input-frame : Went (next i)
    input-frame =
        let (st, written) = within e.prxs i (omega (arith, h.wide_s, h.start)) in
        let n = e.rx_free_descs + 1 in
        elim (Bool-cases (c.rinfo_error st.status_info)) [
          | inl bad ↦
              let (e', q, h') = frame_dropped c i p ps e h r here runs waits st written heap bad in
              (
                (none, heap, e', inc_rx_consume ∷ []),
                q,
                settle c i (next i) (p ∷ ps) _ heap heap e e' none _ h h' flat refl
                    (λ a. omega (arith, count-ids a ps (p ∷ []), count-ids a (p ∷ []) ps)),
              )
          | inr good ↦ elim (list_cases (granted n heap)) [
            | inl dry ↦
                let (e', q, h') =
                  frame_unbuffered c i p ps e h r here runs waits st written heap good dry flat in
                (
                  (none, left n heap, e', inc_rx_consume ∷ []),
                  q,
                  settle c i (next i) (p ∷ ps) _ heap (left n heap) e e' none _ h h'
                      (AreContiguous-left n heap flat) refl
                      (λ a.
                        let nothing = ap (λ g. count a (ids g)) dry in
                        omega (
                          arith,
                          nothing,
                          count-ids a ps (_ ∷ []),
                          count-ids a (p ∷ []) ps,
                          count-granted a n heap,
                        )),
                )
            | inr (q0, qs, wet) ↦
                let (e', q, h') =
                  frame_received c i p ps e h r here runs waits st written heap q0 qs good wet
                    flat in
                (
                  (some _, left n heap, e', inc_rx_consume ∷ []),
                  q,
                  settle c i (next i) (p ∷ ps) _ heap (left n heap) e e' (some _) _ h h'
                      (AreContiguous-left n heap flat) refl
                      (λ a.
                        let given = ap (λ g. count a (ids g)) wet in
                        omega (
                          arith,
                          given,
                          count-ids a ps (q0 ∷ qs),
                          count-ids a (p ∷ []) ps,
                          count-granted a n heap,
                        )),
                )
          ]
        ]

  same_result :
      (j : ℕ) (t : Received) → low_level_input c r heap e ≡ ok t → Went j → Settled c j heap e t
  same_result j t went (t', q, s) =
      subst (λ x. Settled c j heap e x) (ok-injective (sym q ∙ went)) s

  input-empty : (ps : List Pbuf) → Holds c i ps e → r.overrun ≡ false → r.empty ≡ true → Went i
  unfolding low_level_input
  input-empty ps h runs empty = (
    (none, heap, e, []),
    rw (runs, empty) refl,
    settle c i i ps ps heap heap e e none [] h h flat refl (λ a. omega arith),
  )

  input-waiting :
      (ps : List Pbuf) (t : Received)
      → Holds c i ps e
      → r.overrun ≡ false
      → r.empty ≡ false
      → low_level_input c r heap e ≡ ok t
      → Settled c (next i) heap e t
  input-waiting [] t h runs waits went =
      let faulted = frame_unexpected c i e h r heap here runs waits in absurd (cc)
  input-waiting (p ∷ ps) t h runs waits went =
      same_result (next i) t went (input-frame p ps h runs waits)

  -- A call that does not fault settles every buffer.
  pub input-Settled :
      (ps : List Pbuf) (t : Received)
      → Holds c i ps e
      → low_level_input c r heap e ≡ ok t
      → Settled c (next_consume r i) heap e t
  input-Settled ps t h went = elim (Bool-cases r.overrun) [
    | inl over ↦ rw over (same_result 0 t went (input-overrun ps h over))
    | inr runs ↦ elim (Bool-cases r.empty) [
      | inl empty ↦ rw (runs, empty) (same_result i t went (input-empty ps h runs empty))
      | inr waits ↦ rw (runs, waits) (input-waiting ps t h runs waits went)
    ]
  ]

  -- A call does not fault when a frame that waits has a buffer.
  pub input-total :
      (ps : List Pbuf)
      → Holds c i ps e
      → (r.overrun ≡ false → r.empty ≡ false → 0 < length ps)
      → (t : Received) × (low_level_input c r heap e ≡ ok t)
  input-total ps h buffered = elim (Bool-cases r.overrun) [
    | inl over ↦ let (t, q, s) = input-overrun ps h over in (t, q)
    | inr runs ↦ elim (Bool-cases r.empty) [
      | inl empty ↦ let (t, q, s) = input-empty ps h runs empty in (t, q)
      | inr waits ↦ with_frame ps h runs waits (buffered runs waits)
    ]
  ]
    where
      with_frame :
          (ps : List Pbuf)
          → Holds c i ps e
          → r.overrun ≡ false
          → r.empty ≡ false
          → 0 < length ps
          → (t : Received) × (low_level_input c r heap e ≡ ok t)
      with_frame [] h runs waits some_one = absurd (omega (arith, some_one))
      with_frame (p ∷ ps) h runs waits some_one =
          let (t, q, s) = input-frame p ps h runs waits in (t, q)
