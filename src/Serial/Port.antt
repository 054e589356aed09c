-- ===== src/Serial/Port.antt =====
-- apps/serial.c: the functions of the serial line and its interrupt handler.
pub mod Calls
pub mod Fifo
use roip.Prelude.{
  ℕ, suc, ◌+◌, ◌-◌, Bool, true, false, not, ◌&&◌, List, [], ◌∷◌, ◌++◌, ltb, leb, ◌==◌,
  if◌then◌else◌, length, take, Result, ok, ◌>>=◌, ◌>>◌, assert,
}
use roip.Hardware.{
  HwCall, uart1_irqn, disable_irq, enable_irq, nvic_disable, nvic_enable, nvic_set_priority,
  nvic_stir, gpio_dir_output, iocon_func1, mode0, uart_init, uart_set_baud, uart_config_8n1,
  uart_tx_enable, uart_setup_fifos_level3, uart_int_enable_rx_line, uart_int_enable_thre,
  uart_int_disable_thre,
}
use roip.Serial.Interface.{RingBuffer}

-- The interrupt that the UART reports in its identification register.
pub data Interrupt : Type 0 where
  line_status data_available character_timeout other_interrupt : Interrupt

-- The registers that the handler reads: whether an interrupt is pending, which one, whether the line
-- status has its data-ready bit, how many bytes the transmitter can take, and the bytes received.
pub record Uart : Type 0 where
  pub pending : Bool
  pub interrupt : Interrupt
  pub data_ready : Bool
  pub room : ℕ
  pub received : List ℕ

pub record Port (b : RingBuffer) : Type 0 where
  pub rxring : b.Ring
  pub txring : b.Ring

module _ (b : RingBuffer) where
  -- `serial_init`, with `UART_init`
  unfoldable pub serial_init : Port b × List HwCall
  serial_init = (
    record { rxring = b.init 256; txring = b.init 192 },
    gpio_dir_output 0 15
        ∷ iocon_func1 0 15 mode0
        ∷ iocon_func1 0 16 mode0
        ∷ uart_init
        ∷ uart_set_baud 9600
        ∷ uart_config_8n1
        ∷ uart_tx_enable
        ∷ uart_setup_fifos_level3
        ∷ uart_int_enable_rx_line
        ∷ nvic_set_priority uart1_irqn 1
        ∷ nvic_enable uart1_irqn
        ∷ [],
  )

  -- `serial_send` of the `len` bytes `buf`
  unfoldable pub serial_send : List ℕ → Port b → Result (ℕ × Port b × List HwCall)
  serial_send buf p = do
    assert (ltb 0 (length buf))
    assert (leb (length buf) 192)
    let (n, tx) = b.insert_mult p.txring buf
    ok (
        if ltb (b.get_free p.txring) (length buf) then (0, p, []) else (
          n,
          record p { txring = tx },
          disable_irq ∷ uart_int_enable_thre ∷ enable_irq ∷ nvic_stir 6 ∷ [],
        ))

  -- `serial_nitems_RB`
  pub serial_nitems_rb : Port b → ℕ
  serial_nitems_rb p = b.get_count p.rxring

  -- `serial_read` of at most `len` bytes
  unfoldable pub serial_read : ℕ → Port b → Result (List ℕ × Port b × List HwCall)
  serial_read len p = do
    assert (ltb 0 len)
    let (bytes, rx) = b.pop_mult p.rxring len
    ok (bytes, record p { rxring = rx }, disable_irq ∷ enable_irq ∷ [])

  -- The first part of `UART1_IRQHandler`: what it sends, the buffer, and its calls.
  unfoldable pub transmit : Uart → b.Ring → List ℕ × b.Ring × List HwCall
  transmit u tx =
      let (bytes, rest) = b.tx_handler u.room tx in
      if ltb 0 (b.get_count tx)
      then if b.is_empty rest
        then (bytes, b.flush rest, uart_int_disable_thre ∷ [])
        else (bytes, rest, [])
      else ([], tx, [])

  -- Whether its second part takes the received bytes.
  abbrev pub takes : Uart → Bool
  takes u =
      u.pending
      && elim u.interrupt [ data_available ↦ true | character_timeout ↦ u.data_ready | _ ↦ false ]

  -- `UART1_IRQHandler`: what it sends, the port, and its calls.
  unfoldable pub uart1_irq_handler : Uart → Port b → List ℕ × Port b × List HwCall
  uart1_irq_handler u p =
      let (bytes, tx, calls) = transmit u p.txring in
      (
        bytes,
        record {
          txring = tx;
          rxring = if takes u then b.rx_handler u.received p.rxring else p.rxring;
        },
        nvic_disable uart1_irqn ∷ calls ++ (nvic_enable uart1_irqn ∷ []),
      )

  -- What happens to the port: a call of `serial_send` or of `serial_read`, or an interrupt.
  pub data Event : Type 0 where
    send : List ℕ → Event
    read : ℕ → Event
    interrupt : Uart → Event

  -- The port after some events, the bytes that found room when they came in and those read.
  pub record History : Type 0 where
    pub port : Port b
    pub heard : List ℕ
    pub got : List ℕ

  -- Of the bytes received, those by which the receive buffer has grown.
  abbrev pub stored : Uart → Port b → Port b → List ℕ
  stored u p q = take (b.get_count q.rxring - b.get_count p.rxring) u.received

  unfoldable pub run : List Event → Port b → Result History
  unfolding serial_read
  run [] p = ok (record { port = p; heard = []; got = [] })
  run (send buf ∷ es) p = do (n, q, calls) ← serial_send buf p; run es q
  run (read n ∷ es) p = do
    (bytes, q, calls) ← serial_read n p
    h ← run es q
    ok (record h { got = bytes ++ h.got })
  run (interrupt u ∷ es) p = do
    let (bytes, q, calls) = uart1_irq_handler u p
    h ← run es q
    ok (record h { heard = stored u p q ++ h.heard })
