-- ===== src/Serial/Interface.antt =====
-- The LPCOpen functions that apps/serial.c calls, as parameters.
--
-- The library asks for a power of two as the number of items; the source gives 256 for the receive
-- buffer and 192 for the transmit buffer. Nothing is assumed of a transmit buffer of 192 items.
use roip.Prelude.{ℕ, ◌-◌, ◌^◌, ◌≡◌, Bool, List, [], ◌++◌, length, take, drop}

-- A ring buffer of bytes.
pub record RingBuffer : Type 1 where
  pub Ring : Type 0
  pub init : ℕ → Ring  -- RingBuffer_Init with a byte array of this many items
  pub get_free : Ring → ℕ  -- RingBuffer_GetFree
  pub get_count : Ring → ℕ  -- RingBuffer_GetCount
  pub is_empty : Ring → Bool  -- RingBuffer_IsEmpty
  pub flush : Ring → Ring  -- RingBuffer_Flush
  pub insert_mult : Ring → List ℕ → ℕ × Ring  -- RingBuffer_InsertMult
  pub pop_mult : Ring → ℕ → List ℕ × Ring  -- RingBuffer_PopMult
  pub tx_handler : ℕ → Ring → List ℕ × Ring  -- Chip_UART_TXIntHandlerRB, room in the UART
  pub rx_handler : List ℕ → Ring → Ring  -- Chip_UART_RXIntHandlerRB, the bytes in the UART

-- What the documentation says of the receiving side, for a buffer that was made with a power of two as
-- its number of items. `contents` are the bytes held, oldest first.
pub record Laws (b : RingBuffer) : Type 1 where
  pub contents : b.Ring → List ℕ
  pub capacity : b.Ring → ℕ
  pub IsMade : b.Ring → Type 0
  pub init-IsMade : (k : ℕ) → IsMade (b.init (2 ^ k))
  pub contents-init : (k : ℕ) → contents (b.init (2 ^ k)) ≡ []
  pub capacity-init : (k : ℕ) → capacity (b.init (2 ^ k)) ≡ 2 ^ k
  pub get_count_lem : (r : b.Ring) → IsMade r → b.get_count r ≡ length (contents r)
  -- As many items as there are, up to the number asked for, are taken out.
  pub bytes-pop_mult : (r : b.Ring) (n : ℕ) → IsMade r → (b.pop_mult r n).0 ≡ take n (contents r)
  pub contents-pop_mult :
      (r : b.Ring) (n : ℕ) → IsMade r → contents (b.pop_mult r n).1 ≡ drop n (contents r)
  pub pop_mult-IsMade : (r : b.Ring) (n : ℕ) → IsMade r → IsMade (b.pop_mult r n).1
  -- The UART's bytes are put into the buffer as far as there is room.
  pub contents-rx_handler :
      (xs : List ℕ) (r : b.Ring)
      → IsMade r
      → contents (b.rx_handler xs r) ≡ contents r ++ take (capacity r - length (contents r)) xs
  pub rx_handler-IsMade : (xs : List ℕ) (r : b.Ring) → IsMade r → IsMade (b.rx_handler xs r)
