-- ===== src/Serial/Port/Calls.antt =====
-- apps/serial.c: what each function of the serial line does with the bytes received.
use roip.Prelude.{
  ℕ, zero, suc, ◌-◌, ◌≡◌, refl, sym, ◌∙◌, ap, inl, inr, Bool-cases, List, [], ◌∷◌, ◌++◌, append-nil,
  arith, if◌then◌else◌, length, length-append, take, ok,
}
use roip.Hardware.{HwCall}
use roip.Serial.Interface.{RingBuffer, Laws}
use roip.Serial.Port.{Port, Uart, serial_send, takes, uart1_irq_handler, stored}

take-length-take : (n : ℕ) (xs : List ℕ) → take (length (take n xs)) xs ≡ take n xs
take-length-take zero xs = refl
take-length-take (suc n) [] = refl
take-length-take (suc n) (x ∷ xs) = ap (λ r. x ∷ r) (take-length-take n xs)

module _ (b : RingBuffer) where
  -- Sending leaves the bytes received alone.
  pub serial_send-received :
      (buf : List ℕ) (p : Port b) {r : ℕ × Port b × List HwCall}
      → serial_send b buf p ≡ ok r
      → r.1.rxring ≡ p.rxring
  unfolding serial_send
  serial_send-received buf p e = ground arith

module _ (b : RingBuffer) (laws : Laws b) where
  open laws use {contents, capacity, IsMade, get_count_lem, contents-rx_handler, rx_handler-IsMade}

  pub uart1_irq_handler-IsMade :
      (u : Uart) (p : Port b) → IsMade p.rxring → IsMade (uart1_irq_handler b u p).1.rxring
  unfolding uart1_irq_handler
  uart1_irq_handler-IsMade u p made = elim (Bool-cases (takes b u)) [
    | inl yes' ↦ rw yes' (rx_handler-IsMade u.received p.rxring made)
    | inr no' ↦ rw no' made
  ]

  -- Received bytes are put behind those that wait, as far as there is room, when the UART reports data
  -- or a timeout with data, and the receive buffer is left alone otherwise.
  uart1_irq_handler-contents :
      (u : Uart) (p : Port b)
      → IsMade p.rxring
      → contents (uart1_irq_handler b u p).1.rxring ≡ (
          if takes b u
          then contents p.rxring ++ take (capacity p.rxring - length (contents p.rxring)) u.received
          else contents p.rxring)
  unfolding uart1_irq_handler
  uart1_irq_handler-contents u p made = elim (Bool-cases (takes b u)) [
    | inl yes' ↦ rw (yes', contents-rx_handler u.received p.rxring made) refl
    | inr no' ↦ rw no' refl
  ]

  -- What an interrupt puts behind the bytes received.
  pub stored-interrupt :
      (u : Uart) (p : Port b)
      → IsMade p.rxring
      → contents (uart1_irq_handler b u p).1.rxring
        ≡ contents p.rxring ++ stored b u p (uart1_irq_handler b u p).1
  stored-interrupt u p made =
      let q = (uart1_irq_handler b u p).1 in
      let free = capacity p.rxring - length (contents p.rxring) in
      let grown = uart1_irq_handler-contents u p made in
      let before = get_count_lem p.rxring made in
      let after = get_count_lem q.rxring (uart1_irq_handler-IsMade u p made) in
      elim (Bool-cases (takes b u)) [
        | inl taken ↦
            let more : contents q.rxring ≡ contents p.rxring ++ take free u.received =
              rw taken at grown in
            let n : b.get_count q.rxring - b.get_count p.rxring ≡ length (take free u.received) =
              omega (
                arith,
                before,
                after,
                ap length more,
                length-append (contents p.rxring) (take free u.received),
              ) in
            more
            ∙ ap (λ xs. contents p.rxring ++ xs)
                (sym (ap (λ m. take m u.received) n ∙ take-length-take free u.received))
        | inr left_ ↦
            let same : contents q.rxring ≡ contents p.rxring = rw left_ at grown in
            let n : b.get_count q.rxring - b.get_count p.rxring ≡ 0 =
              omega (arith, before, after, ap length same) in
            same
            ∙ sym (
                ap (λ m. contents p.rxring ++ take m u.received) n ∙ append-nil (contents p.rxring))
      ]
