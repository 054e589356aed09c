-- ===== src/Serial.antt =====
-- apps/serial.c: the serial line to the terminal, with a ring buffer for each direction.
--
-- The ring buffers and the two handlers that move bytes between them and the UART are functions of
-- the LPCOpen library. They are the fields of `RingBuffer`, and what their documentation says is in
-- `Laws`.
pub mod Interface
pub mod Port
mod Tests
