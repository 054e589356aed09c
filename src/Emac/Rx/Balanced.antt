-- ===== src/Emac/Rx/Balanced.antt =====
-- lwip/src/arch/lpc17xx_40xx_emac.c: what one call of `lpc_enetif_input` does with the buffers.
use roip.Prelude.{
  ℕ, ◌+◌, ◌<◌, ◌≡◌, refl, ap, subst, ◌∙◌, Bool, true, false, List, [], ◌++◌, length, arith, Option,
  none, some, ok, ok-injective, >>=-eq-ok, count, count-append,
}
use roip.Emac.{Pbuf, Enet, EnetCall, Chip}
use roip.Emac.Rx.{RxRegs, low_level_input, hand_on, enetif_input}
use roip.Emac.Rx.Queue.{Holds}
use roip.Emac.Rx.Refill.{AreContiguous}
use roip.Emac.Rx.Accounts.{buffers, released, offered, accepted, released-append, offered-append}
use roip.Emac.Rx.Settled.{next_consume, in_hand, input-Settled, input-total}

accepted-append :
    (b : Bool) (xs ys : List EnetCall) → offered xs ≡ [] → accepted b (xs ++ ys) ≡ accepted b ys
accepted-append true xs ys h = offered-append xs ys ∙ ap (λ r. r ++ offered ys) h
accepted-append false xs ys h = refl

-- The buffer in hand goes to lwIP or is freed.
hand_on-balance :
    (a : ℕ) (ethertype : Pbuf → ℕ) (b : Bool) (got : Option Pbuf)
    → count a (in_hand got)
      ≡ count a (accepted b (hand_on ethertype b got))
        + count a (released (hand_on ethertype b got))
unfolding hand_on
hand_on-balance a ethertype b none = ground arith
hand_on-balance a ethertype b (some p) = ground arith

-- The ring holds a queue, and each buffer that was in the ring or in the memory is in one of them still,
-- but for those that lwIP has taken and those that have been returned.
abbrev pub Balanced :
    Chip → ℕ → List (Option Pbuf) → List (Option Pbuf) → Enet → Enet → List ℕ → List ℕ → Type 0
Balanced c j heap heap' e e' taken returned =
    (qs : List Pbuf) × Holds c j qs e'
    × AreContiguous heap'
    × ((a : ℕ)
        → count a (buffers e.rxb) + count a (buffers heap)
          ≡ count a (buffers e'.rxb) + count a (buffers heap') + count a taken + count a returned)

module _ (c : Chip) (i : ℕ) (ps : List Pbuf) (heap : List (Option Pbuf)) (e : Enet)
    (h : Holds c i ps e) (flat : AreContiguous heap) where
  pub enetif_input-Balanced :
      (r : RxRegs) (ethertype : Pbuf → ℕ) (input_ok : Bool) (heap' : List (Option Pbuf)) (e' : Enet)
      (calls : List EnetCall)
      → r.consume ≡ i
      → enetif_input c r ethertype input_ok heap e ≡ ok (heap', e', calls)
      → Balanced c (next_consume r i) heap heap' e e' (accepted input_ok calls) (released calls)
  unfolding enetif_input
  enetif_input-Balanced r ethertype input_ok heap' e' calls here went =
      let (t, q, done) = >>=-eq-ok (low_level_input c r heap e) _ went in
      let s = input-Settled c i r heap e here flat ps t h q in
      let handed = hand_on ethertype input_ok t.0 in
      subst
        (λ (x : List (Option Pbuf) × Enet × List EnetCall).
          Balanced c (next_consume r i) heap x.0 e x.1 (accepted input_ok x.2) (released x.2))
        (ok-injective done)
        (
          s.queue,
          s.holds,
          s.flat,
          λ a. omega (
            arith,
            s.balance a,
            hand_on-balance a ethertype input_ok t.0,
            ap (count a) (accepted-append input_ok t.3 handed s.unoffered),
            ap (count a) (released-append t.3 handed),
            count-append a (released t.3) (released handed),
          ),
        )

-- Nor does `lpc_enetif_input`.
pub enetif_input-total :
    (c : Chip) (i : ℕ) (ps : List Pbuf) (heap : List (Option Pbuf)) (e : Enet) (r : RxRegs)
    (ethertype : Pbuf → ℕ) (input_ok : Bool)
    → Holds c i ps e
    → AreContiguous heap
    → r.consume ≡ i
    → (r.overrun ≡ false → r.empty ≡ false → 0 < length ps)
    → (heap' : List (Option Pbuf)) × (e' : Enet) × (calls : List EnetCall) × (enetif_input c r
          ethertype input_ok heap e
        ≡ ok (heap', e', calls))
unfolding enetif_input
enetif_input-total c i ps heap e r ethertype input_ok h flat here buffered =
    let (t, q) = input-total c i r heap e here flat ps h buffered in
    (t.1, t.2, t.3 ++ hand_on ethertype input_ok t.0, rw q refl)
