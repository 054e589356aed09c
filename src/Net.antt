-- ===== src/Net.antt =====
-- The calls that the firmware makes into the UDP part of lwIP, and lwIP's answers to them. The stack
-- itself is not modelled: an operation takes the answers as an argument and returns its calls in
-- order.
use roip.Prelude.{ℕ, Bool, List}

-- The firmware's two protocol control blocks: `dt.p` and `pctl`.
pub data Pcb : Type 0 where
  data_pcb control_pcb : Pcb

-- The receive functions that it registers.
pub data Receiver : Type 0 where
  handle_audio_input handle_control_input : Receiver

pub data NetCall : Type 0 where
  udp_new : Pcb → NetCall
  udp_bind : Pcb → ℕ → ℕ → NetCall  -- address, port
  udp_recv : Pcb → Receiver → NetCall
  udp_connect : Pcb → ℕ → ℕ → NetCall
  udp_send : Pcb → List ℕ → NetCall  -- the bytes of the pbuf
  udp_disconnect : Pcb → NetCall
  udp_remove : Pcb → NetCall
  pbuf_alloc : ℕ → NetCall
  pbuf_free : NetCall

-- What lwIP answers to one transmission: whether `pbuf_alloc` gives a buffer, and whether `udp_send`
-- returns ERR_OK.
pub record Answers : Type 0 where
  pub pbuf_given : Bool
  pub send_ok : Bool
