-- ===== src/Roip/Progress.antt =====
-- roip.c: a round comes to its end.
use roip.Prelude.{ℕ, ◌≡◌, List, [], Option}
use roip.Hardware.{HwCall}
use roip.Net.{NetCall}
use roip.Spudp.{Spudp}
use roip.Parser.Radio.{Radio}
use roip.Parser.Radio.Lines.{IsLine, IsQuiet}
use roip.Emac.{Pbuf, Enet, EnetCall, Chip}
use roip.Voice.{Codec}
use roip.Roip.{Apps, Action, Stack, Main, Round}
use roip.Roip.Callbacks.{Callbacks}
use roip.Roip.Sound.{Sound}

-- What comes from the terminal in a round: nothing, or a whole line in which no message begins.
pub data Heard (rx : List ℕ) : Type 0 where
  nothing : rx ≡ [] → Heard rx
  line : IsLine rx → IsQuiet rx → Heard rx

module _ (codec : Codec) (c : Chip) (stack : Stack codec) (r : Round codec) (m : Main codec)
    (heap1 : List (Option Pbuf)) (e1 e2 : Enet) (in_calls tx_calls : List EnetCall)
    (talk : Radio × List HwCall × List NetCall) (send : Spudp × List NetCall) where
  abbrev handed : Apps × List Action
  handed = stack.input in_calls (record m.apps { enet = e1 })

  abbrev timed : Apps × List Action
  timed = stack.timeouts (record handed.0 { enet = e2 })

  abbrev ended : Main codec
  ended = record {
    apps = record timed.0 { spudp = send.0 };
    radio = talk.0;
    adc = m.adc;
    voice = m.voice;
    heap = heap1;
  }
