-- ===== src/Roip/Rounds.antt =====
-- roip.c: the loop of `main`, round after round.
mod Tests
use roip.Prelude.{
  ℕ, ◌+◌, ◌-◌, ◌%◌, ◌<◌, ◌≤◌, ◌≡◌, refl, sym, ap, subst, ◌∙◌, true, false, Bool-cases, inl, inr,
  List, Option, arith, ◌==◌, length, length-drop, drop, ok, ok-injective, >>=-eq-ok, ◌>>=◌,
}
use roip.Net.{Answers, NetCall}
use roip.Adc.{Adc, run}
use roip.Adc.Blocks.{IsValid}
use roip.Spudp.{Spudp, control_send}
use roip.Spudp.Spec.{IsState}
use roip.Spudp.Failover.{control_send-IsState}
use roip.Hardware.{HwCall}
use roip.Parser.Radio.{Radio, radio_comm}
use roip.Parser.Radio.Arrays.{IsTerminal, radio_comm-IsTerminal}
use roip.Emac.{Pbuf, Desc, Stat, Enet, EnetCall, Chip}
use roip.Emac.Sides.{Pending-tx_side, Holds-rx_side}
use roip.Emac.Rx.{enetif_input}
use roip.Emac.Rx.Queue.{Holds}
use roip.Emac.Rx.Refill.{AreContiguous}
use roip.Emac.Rx.Settled.{next_consume}
use roip.Emac.Rx.Balanced.{enetif_input-Balanced}
use roip.Emac.Rx.Run.{written-Holds}
use roip.Emac.Rx.Apart.{enetif_input-tx_side}
use roip.Emac.Tx.{tx_reclaim}
use roip.Emac.Tx.Pending.{Pending}
use roip.Emac.Tx.Apart.{tx_reclaim-rx_side}
use roip.Emac.Tx.Traffic.{reclaim_prefix}
use roip.Voice.{Codec, Voice}
use roip.Roip.{Apps, Action, Stack, Main, Round, main_round, voice_step}
use roip.Roip.Callbacks.{Callbacks, Steady}
use roip.Roip.Sampling.{voice_step-idle, voice_step-after}
use roip.Roip.Sound.{Sound, apps2}

module _ (codec : Codec) where
  -- Rounds one after the other, none of which faults; in between, the controller writes the status of
  -- frames, and samples come in. In each round, the controller's consume index of the receive ring is
  -- where the round before left it; lwIP does nothing but call back; the controller has consumed up to
  -- three more entries of the transmit ring; and lwIP has memory for a control packet.
  pub data Rounds (c : Chip) : ℕ → ℕ → ℕ → Main codec → ℕ → ℕ → ℕ → Main codec → Type 0 where
    before : {i t n : ℕ} {m : Main codec} → Rounds c i t n m i t n m
    frames :
        {i t n i' t' n' : ℕ} {m m'' : Main codec} (written : List Stat)
        → length written ≡ 4
        → Rounds c i t n
            (record m { apps = record m.apps { enet = record m.apps.enet { prxs = written } } })
            i'
            t'
            n'
            m''
        → Rounds c i t n m i' t' n' m''
    samples :
        {i t n i' t' n' : ℕ} {m m'' : Main codec} (drs : List ℕ)
        → Rounds c i t n (record m { adc = (run drs m.adc).0 }) i' t' n' m''
        → Rounds c i t n m i' t' n' m''
    turn :
        {i t n i' t' n' : ℕ} {m m'' : Main codec} (stack : Stack codec) (r : Round codec)
        (heap1 : List (Option Pbuf)) (e1 : Enet) (in_calls : List EnetCall) (n1 k : ℕ) (e2 : Enet)
        (tx_calls : List EnetCall) (n2 : ℕ) (m' : Main codec) (actions : List Action)
        → r.regs.consume ≡ i
        → enetif_input c r.regs r.ethertype r.input_ok m.heap m.apps.enet ≡ ok (heap1, e1, in_calls)
        → Callbacks c t n
            (record m.apps { enet = e1 })
            n1
            (stack.input in_calls (record m.apps { enet = e1 })).0
        → k < 4
        → k ≤ n1
        → r.tx_consume ≡ (t + k) % 4
        → tx_reclaim r.tx_consume (stack.input in_calls (record m.apps { enet = e1 })).0.enet
          ≡ ok (e2, tx_calls)
        → Callbacks c
            ((t + k) % 4)
            (n1 - k)
            (record (stack.input in_calls (record m.apps { enet = e1 })).0 { enet = e2 })
            n2
            (stack.timeouts
              (record (stack.input in_calls (record m.apps { enet = e1 })).0 { enet = e2 })).0
        → r.control_answers.pbuf_given ≡ true
        → main_round codec c stack r m ≡ ok (m', actions)
        → Rounds c (next_consume r.regs i) ((t + k) % 4) n2 m' i' t' n' m''
        → Rounds c i t n m i' t' n' m''
