-- ===== src/Roip.antt =====
-- roip.c: `main`, which takes its addresses from the settings and then polls every part in turn.
--
-- What lwIP calls back while it handles a frame or its timers (the receivers of Spudp and Httpd, and
-- the driver's output) is the parameter `Stack`. Interrupts of the sampler come between the rounds,
-- and while a block is encoded.
pub mod Boot
pub mod Booted
pub mod Addressing
pub mod Sampling
pub mod Restarting
pub mod Callbacks
pub mod Sound
pub mod Rounds
pub mod Buffers
pub mod Progress
pub mod Small
mod Tests
use roip.Prelude.{
  ℕ, ◌+◌, ◌-◌, Bool, true, false, ◌&&◌, ◌||◌, not, List, [], ◌∷◌, ◌++◌, map, Option, ltb, ◌==◌,
  if◌then◌else◌, sub32, Result, ok, fault, ◌>>=◌,
}
use roip.Hardware.{HwCall}
use roip.IpAddr.{ip4_addr, ip_addr_netcmp}
use roip.Net.{NetCall, Answers}
use roip.Adc.{Adc, block_size, run}
use roip.Adc.Reading.{read_through, concat}
use roip.Spudp.{Spudp, control_send}
use roip.Parser.Radio.{Radio, radio_comm}
use roip.Iap.Layout.{Member, load}
use roip.Httpd.{Http}
use roip.Httpd.Replies.{Addresses, HttpCall}
use roip.Emac.{Pbuf, Enet, EnetCall, Chip}
use roip.Emac.Rx.{RxRegs, enetif_input}
use roip.Emac.Tx.{tx_reclaim}
use roip.Emac.Setup.{set_speed, set_duplex}
use roip.Voice.{Codec, Voice, spudp_send}

-- The addresses that `main` starts from.
abbrev pub defaults : Addresses
defaults = record {
  ip_local = ip4_addr 192 168 1 201;
  ip_gw = ip4_addr 192 168 1 1;
  ip_nm = ip4_addr 255 255 255 0;
  ser1 = ip4_addr 192 168 1 198;
  ser2 = ip4_addr 192 168 1 197;
}

-- Those in the settings.
unfoldable pub settings : List ℕ → Addresses
settings fd = record {
  ip_local = load Member.ip_local fd;
  ip_gw = load Member.ip_gw fd;
  ip_nm = load Member.ip_nm fd;
  ser1 = load Member.ser1 fd;
  ser2 = load Member.ser2 fd;
}

-- The condition under which the settings are taken.
unfoldable pub is_consistent : Addresses → Bool
is_consistent a =
    ip_addr_netcmp a.ip_local a.ip_gw a.ip_nm
    && (ip_addr_netcmp a.ip_local a.ser1 a.ip_nm || ip_addr_netcmp a.ip_local a.ser2 a.ip_nm)

-- The addresses that `main` goes on with, from the settings in `flash_buff`.
unfoldable pub choose : List ℕ → Addresses
unfolding settings is_consistent
choose fd = if is_consistent (settings fd) then settings fd else defaults

-- The bits of `lpcPHYStsPoll`.
pub record PhyStatus : Type 0 where
  pub link_changed : Bool
  pub link_connected : Bool
  pub link_speed100 : Bool
  pub link_full_duplex : Bool

-- What a round does, in order.
pub data Action : Type 0 where
  enet_call : EnetCall → Action
  hw_call : HwCall → Action
  net_call : NetCall → Action
  sys_check_timeouts system_reset : Action
  led_set : Bool → Action  -- Board_LED_Set(0, on)
  netif_set_link_up netif_set_link_down : Action
  system_core_clock_update board_init : Action
  systick_config : ℕ → Action
  lwip_init sys_timeouts_init netif_set_default netif_set_up : Action
  netif_add : ℕ → ℕ → ℕ → Action  -- the address, the netmask and the gateway
  http_call : HttpCall → Action

-- The branch on the PHY's status.
unfoldable pub link_actions : PhyStatus → List Action
link_actions p =
    if p.link_changed
    then if p.link_connected
      then led_set true ∷ map enet_call (set_speed p.link_speed100)
        ++ map enet_call (set_duplex p.link_full_duplex)
        ++ (netif_set_link_up ∷ [])
      else led_set false ∷ netif_set_link_down ∷ []
    else []

-- The condition on `sysreset_req`, where `now` is what `sys_now` returns.
unfoldable pub reset_actions : ℕ → Http → List Action
reset_actions now h =
    if not (h.sysreset_req == 0) && ltb 500 (sub32 now h.sysreset_req)
    then system_reset ∷ []
    else []

-- What the callbacks may change.
pub record Apps : Type 0 where
  pub spudp : Spudp
  pub http : Http
  pub enet : Enet

module _ (codec : Codec) where
  -- The branch on `n_conv_finished`. `spudp_send` is given the pointer `block_result` as it is then, and
  -- `during` are the samples that come in before each read through it and then until the flag is cleared.
  unfoldable pub voice_step :
      Answers
      → List (List ℕ)
      → Radio
      → Spudp
      → Adc
      → Voice codec
      → Result (Adc × Voice codec × List NetCall)
  unfolding read_through
  voice_step ans during r d a v = if a.n_conv_finished == 0 then ok (a, v, []) else (do
    (n, v', calls) ←
        spudp_send codec ans r.ssi r.gssi r.ssi2 (read_through a.block_result 0 during a) block_size
          d v
    ok (record (run (concat during) a).0 { n_conv_finished = 0 }, v', calls))

  -- lwIP: what it does with the calls of the driver, and in `sys_check_timeouts`.
  pub record Stack : Type 0 where
    pub input : List EnetCall → Apps → Apps × List Action
    pub timeouts : Apps → Apps × List Action

  -- The state between two rounds; `heap` are the answers of `pbuf_alloc` to come.
  pub record Main : Type 0 where
    pub apps : Apps
    pub radio : Radio
    pub adc : Adc
    pub voice : Voice codec
    pub heap : List (Option Pbuf)

  -- What a round finds outside.
  pub record Round : Type 0 where
    pub regs : RxRegs
    pub ethertype : Pbuf → ℕ
    pub input_ok : Bool
    pub tx_consume : ℕ
    pub phy : PhyStatus
    pub received : List ℕ  -- the bytes of the terminal
    pub line_answers : Answers
    pub control_answers : Answers
    pub voice_answers : Answers
    pub t1 : ℕ  -- the clock in `spudp_control_send`
    pub t2 : ℕ
    pub t3 : ℕ
    pub during : List (List ℕ)
    pub now : ℕ

  -- The body of `while (1)`.
  unfoldable pub main_round : Chip → Stack → Round → Main → Result (Main × List Action)
  main_round c stack r m = do
    (heap, enet1, in_calls) ← enetif_input c r.regs r.ethertype r.input_ok m.heap m.apps.enet
    let (apps1, in_actions) = stack.input in_calls (record m.apps { enet = enet1 })
    (enet2, tx_calls) ← tx_reclaim r.tx_consume apps1.enet
    let (apps2, timer_actions) = stack.timeouts (record apps1 { enet = enet2 })
    (radio, hw_calls, line_calls) ← radio_comm r.line_answers r.received apps2.spudp m.radio
    (spudp, control_calls) ← control_send r.control_answers r.t1 r.t2 r.t3 apps2.spudp
    (adc, voice, voice_calls) ← voice_step r.voice_answers r.during radio spudp m.adc m.voice
    ok (
      record {
        apps = record apps2 { spudp = spudp };
        radio = radio;
        adc = adc;
        voice = voice;
        heap = heap;
      },
      map enet_call in_calls
          ++ in_actions
          ++ map enet_call tx_calls
          ++ (sys_check_timeouts ∷ timer_actions)
          ++ link_actions r.phy
          ++ map hw_call hw_calls
          ++ map net_call line_calls
          ++ map net_call control_calls
          ++ map net_call voice_calls
          ++ reset_actions r.now apps2.http,
    )
