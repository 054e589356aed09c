-- ===== src/Emac/Rx/Refill.antt =====
-- lwip/src/arch/lpc17xx_40xx_emac.c: `lpc_rx_queue` fills the ring as far as there is memory.
use roip.Prelude.{
  ℕ, zero, suc, ◌+◌, ◌<◌, ◌≡◌, refl, sym, ap, subst, ◌∙◌, List, [], ◌∷◌, ◌++◌, append-nil,
  append_assoc, arith, Option, none, some, true, false, leb, ltb, length, ok,
}
use roip.Emac.{Pbuf, Enet, Chip, next_alloc}
use roip.Emac.Rx.{rxqueue_pbuf, rx_queue_loop, rx_queue}
use roip.Emac.Rx.Queue.{Holds, rxqueue_pbuf-Holds}

-- The buffers that `n` requests are given before the first refusal, and the answers behind that.
abbrev pub granted : ℕ → List (Option Pbuf) → List Pbuf
granted zero heap = []
granted (suc n) [] = []
granted (suc n) (none ∷ heap) = []
granted (suc n) (some p ∷ heap) = p ∷ granted n heap

abbrev pub left : ℕ → List (Option Pbuf) → List (Option Pbuf)
left zero heap = heap
left (suc n) [] = []
left (suc n) (none ∷ heap) = heap
left (suc n) (some p ∷ heap) = left n heap

-- Buffers of the kind PBUF_RAM are not chained.
abbrev pub AreContiguous : List (Option Pbuf) → Type 0
AreContiguous [] = Unit {0}
AreContiguous (none ∷ heap) = AreContiguous heap
AreContiguous (some p ∷ heap) = (leb p.clen 1 ≡ true) × AreContiguous heap

unchanged : (c : Chip) (i : ℕ) (ps : List Pbuf) (e : Enet) → Holds c i ps e → Holds c i (ps ++ []) e
unchanged c i ps e h = subst (λ xs. Holds c i xs e) (sym (append-nil ps)) h

module _ (c : Chip) where
  -- One round, in its three cases.
  round_full :
      (fuel queued : ℕ) (heap : List (Option Pbuf)) (e : Enet)
      → ltb 0 e.rx_free_descs ≡ false
      → rx_queue_loop c (suc fuel) queued heap e ≡ ok (queued, heap, e)
  unfolding rx_queue_loop
  round_full fuel queued heap e h = rw (h, rx_queue_loop) refl

  round_refused :
      (fuel queued : ℕ) (heap : List (Option Pbuf)) (e : Enet)
      → ltb 0 e.rx_free_descs ≡ true
      → (next_alloc heap).0 ≡ none
      → rx_queue_loop c (suc fuel) queued heap e ≡ ok (queued, (next_alloc heap).1, e)
  unfolding rx_queue_loop
  round_refused fuel queued heap e h r = ground arith

  round_granted :
      (fuel queued : ℕ) (p : Pbuf) (heap : List (Option Pbuf)) (e e' : Enet)
      → ltb 0 e.rx_free_descs ≡ true
      → leb p.clen 1 ≡ true
      → rxqueue_pbuf c (some p) e ≡ ok e'
      → rx_queue_loop c (suc fuel) queued (some p ∷ heap) e
        ≡ rx_queue_loop c fuel (queued + 1) heap e'
  unfolding rx_queue_loop
  round_granted fuel queued p heap e e' h flat q =
      rw (h, rx_queue_loop) (rw (flat, rx_queue_loop) (rw (q, rx_queue_loop) refl))

module _ (c : Chip) (i : ℕ) where
  abbrev Refills : ℕ → ℕ → ℕ → List (Option Pbuf) → List Pbuf → Enet → Type 0
  Refills fuel queued free heap ps e =
      (e' : Enet) × (rx_queue_loop c fuel queued heap e
        ≡ ok (queued + length (granted free heap), left free heap, e'))
      × Holds c i (ps ++ granted free heap) e'

  rx_queue_loop-Refills :
      (fuel queued free : ℕ) (heap : List (Option Pbuf)) (ps : List Pbuf) (e : Enet)
      → e.rx_free_descs ≡ free
      → Holds c i ps e
      → free < fuel
      → AreContiguous heap
      → Refills fuel queued free heap ps e
  rx_queue_loop-Refills zero queued free heap ps e w h f a = absurd (omega arith)
  rx_queue_loop-Refills (suc fuel) queued zero heap ps e w h f a = (
    e,
    round_full c fuel queued heap e (ground arith) ∙ ap (λ n. ok (n, heap, e)) (omega arith),
    unchanged c i ps e h,
  )
  rx_queue_loop-Refills (suc fuel) queued (suc free) [] ps e w h f a = (
    e,
    round_refused c fuel queued [] e (ground arith) refl ∙ ap (λ n. ok (n, [], e)) (omega arith),
    unchanged c i ps e h,
  )
  rx_queue_loop-Refills (suc fuel) queued (suc free) (none ∷ heap) ps e w h f a = (
    e,
    round_refused c fuel queued (none ∷ heap) e (ground arith) refl
        ∙ ap (λ n. ok (n, heap, e)) (omega arith),
    unchanged c i ps e h,
  )
  rx_queue_loop-Refills (suc fuel) queued (suc free) (some p ∷ heap) ps e w h f (flat, a) =
      let (e1, q, h1, w1) = rxqueue_pbuf-Holds c i ps p e h (omega (arith, w)) in
      let (e', r, h') =
        rx_queue_loop-Refills fuel (queued + 1) free heap (ps ++ (p ∷ [])) e1 (omega (arith, w, w1))
          h1 (omega arith) a in
      (
        e',
        round_granted c fuel queued p heap e e1 (ground arith) flat q
            ∙ (r ∙ ap (λ n. ok (n, left free heap, e')) (omega arith)),
        subst (λ xs. Holds c i xs e') (append_assoc ps (p ∷ []) (granted free heap)) h',
      )

  -- The loop ends, and queues the buffers that are granted for the free descriptors.
  pub rx_queue-Holds :
      (heap : List (Option Pbuf)) (ps : List Pbuf) (e : Enet)
      → Holds c i ps e
      → AreContiguous heap
      → (e' : Enet) × (rx_queue c heap e
          ≡ ok (length (granted e.rx_free_descs heap), left e.rx_free_descs heap, e'))
        × Holds c i (ps ++ granted e.rx_free_descs heap) e'
  unfolding rx_queue
  rx_queue-Holds heap ps e h a =
      let (e', r, h') =
        rx_queue_loop-Refills 5 0 e.rx_free_descs heap ps e refl h (omega (arith, h.free)) a in
      (e', r ∙ ap (λ n. ok (n, left e.rx_free_descs heap, e')) (omega arith), h')
