-- ===== src/Roip/Boot.antt =====
-- roip.c: `main` up to its loop.
use roip.Prelude.{
  ℕ, Bool, true, false, List, [], ◌∷◌, ◌++◌, map, Option, some, replicate, Result, ok, fault,
  no_fuel, if◌then◌else◌, ◌>>=◌,
}
use roip.Hardware.{HwCall, adc_ch2}
use roip.Net.{NetCall}
use roip.Adc
use roip.Adc.{Adc}
use roip.Serial.Interface.{RingBuffer}
use roip.Serial.Port.{serial_init}
use roip.Spudp
use roip.Spudp.{Spudp}
use roip.Parser.{is_starting}
use roip.Parser.Radio.{Radio}
use roip.Parser.Modem.{Reply, Modem, begin, rounds}
use roip.Httpd.{Http, http_init}
use roip.Httpd.Replies.{Addresses}
use roip.Emac.{Pbuf, Enet, EnetCall, Chip}
use roip.Emac.Setup.{Netif, enetif_init}
use roip.Systick
use roip.Systick.{Systick, handlers}
use roip.Voice.{Codec, Voice}
use roip.Roip.{
  Action, system_core_clock_update, board_init, systick_config, led_set, enet_call, hw_call,
  net_call, http_call, lwip_init, sys_timeouts_init, netif_add, netif_set_default, netif_set_up,
  choose, Main,
}

-- `prvSetupHardware`
abbrev pub set_up_hardware : ℕ → Systick → Systick × List Action
set_up_hardware clock s =
    let (s', ticks) = Systick.enable clock 1 s in
    (s', system_core_clock_update ∷ board_init ∷ led_set false ∷ systick_config ticks ∷ [])

module _ (codec : Codec) (b : RingBuffer) where
  -- What `main` finds: SystemCoreClock, the bytes that `get_flash` reads, whether the PHY answers, the
  -- memory, the statics, how many interrupts of the clock come before the loop (`radio_comm_init` waits
  -- for five seconds and then for the terminal), what the stack answers to `spudp_init` with the two
  -- readings of the clock, and the rounds of `radio_comm_init`, whose buffer has no value at first.
  pub record Power : Type 0 where
    pub clock : ℕ
    pub flash : List ℕ
    pub phy_ok : Bool
    pub heap : List (Option Pbuf)
    pub netif : Netif
    pub enet : Enet
    pub systick : Systick
    pub ticks : ℕ
    pub adc : Adc
    pub spudp : Spudp
    pub http : Http
    pub voice : Voice codec
    pub pcb_given : Bool
    pub bind_data_ok : Bool
    pub bind_control_ok : Bool
    pub t_sent : ℕ
    pub t_received : ℕ
    pub replies : List Reply
    pub garbage : List ℕ

  pub record Booted : Type 0 where
    pub main : Main codec
    pub systick : Systick
    pub netif : Netif
    pub in_use : Addresses
    pub commands : List (List ℕ × Bool)  -- what `radio_comm_init` has handed to the serial line

  -- The statics of `radio_comm` at the start.
  abbrev pub begun_radio : Modem → Radio
  begun_radio m = record {
    ser = m.ser;
    ssi = replicate 32 0;
    ssi2 = replicate 32 0;
    gssi = replicate 32 0;
    nbytes = 0;
    buf = replicate 256 0;
  }

  -- `spudp_init`, with the addresses of the servers.
  abbrev pub open_spudp : Power → Spudp × List NetCall
  open_spudp p =
      let a = choose p.flash in
      Spudp.init a.ip_local (some a.ser1) (some a.ser2) p.pcb_given p.bind_data_ok p.bind_control_ok
        p.t_sent p.t_received p.spudp

  abbrev pub open_adc : Power → Adc × List HwCall
  open_adc p = Adc.init 0 25 adc_ch2 8000 false 0 p.adc

  -- The state, from what the driver and the terminal come to.
  abbrev pub entered : Power → List (Option Pbuf) → Netif → Enet → Modem → Booted
  entered p heap netif enet modem = record {
    main = record {
      apps = record {
        spudp = (open_spudp p).0;
        http = record p.http { flash_buff = p.flash };
        enet = enet;
      };
      radio = begun_radio modem;
      adc = (open_adc p).0;
      voice = p.voice;
      heap = heap;
    };
    systick = handlers p.ticks (set_up_hardware p.clock p.systick).0;
    netif = netif;
    in_use = choose p.flash;
    commands = modem.handed;
  }

  -- The calls, from those of the driver.
  abbrev pub entering : Power → List EnetCall → List Action
  entering p calls =
      let a = choose p.flash in
      (system_core_clock_update ∷ board_init ∷ led_set true ∷ [])
      ++ (set_up_hardware p.clock p.systick).1
      ++ map hw_call ((open_adc p).1 ++ (serial_init b).1)
      ++ (lwip_init ∷ sys_timeouts_init ∷ netif_add a.ip_local a.ip_nm a.ip_gw ∷ [])
      ++ map enet_call calls
      ++ (netif_set_default ∷ netif_set_up ∷ [])
      ++ map net_call (open_spudp p).1
      ++ map http_call http_init

  -- `no_fuel`: the terminal has not been set up after the last of its replies. The serial line stays with
  -- its ring buffers. What the driver returns to `netif_add` is not looked at. The encoder's settings are the codec's.
  unfoldable pub boot : Chip → Power → Result (Booted × List Action)
  boot c p = do
    (err, heap, netif, enet, calls) ← enetif_init c p.phy_ok p.flash p.heap p.netif p.enet
    modem ← rounds p.replies (begin p.garbage)
    if is_starting modem.ser
        then fault no_fuel
        else ok (entered p heap netif enet modem, entering p calls)
