-- ===== src/Serial/Port/Fifo.antt =====
-- apps/serial.c: bytes are read in the order in which they came in, and none that found room is lost.
use roip.Prelude.{◌≡◌, ◌++◌}
use roip.Serial.Interface.{RingBuffer, Laws}
use roip.Serial.Port.{Port, History}

module _ (b : RingBuffer) (laws : Laws b) where
  open laws use {contents, IsMade, bytes-pop_mult, contents-pop_mult, pop_mult-IsMade}

  abbrev InOrder : Port b → History b → Type 0
  InOrder p h = contents p.rxring ++ h.heard ≡ h.got ++ contents h.port.rxring
