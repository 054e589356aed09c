-- ===== src/Roip/Booted.antt =====
-- roip.c: the state in which `main` enters its loop.
mod Tests
use roip.Adc
use roip.Roip.Sound.{Sound}
use roip.Spudp
use roip.Spudp.{Spudp}
use roip.Parser.Modem.{Modem}
use roip.Emac.Tx.Pending.{Pending}
use roip.Systick.{Systick}
