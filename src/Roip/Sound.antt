-- ===== src/Roip/Sound.antt =====
-- roip.c: what the loop of `main` relies on, and how the parts of a round keep it.
use roip.Prelude.{
  ℕ, ◌+◌, ◌-◌, ◌%◌, ◌<◌, ◌≤◌, ◌≡◌, refl, sym, ap, subst, ◌∙◌, true, Bool-cases, inl, inr, List,
  Option, arith, ◌==◌, length, length-drop, drop, ok, ok-injective, >>=-eq-ok,
}
use roip.Net.{Answers, NetCall}
use roip.Adc.{Adc}
use roip.Adc.Reading.{concat}
use roip.Adc.Blocks.{IsValid, run-IsValid}
use roip.Spudp.{Spudp, control_send}
use roip.Spudp.Failover.{control_send-IsState}
use roip.Hardware.{HwCall}
use roip.Parser.Radio.{Radio, radio_comm}
use roip.Parser.Radio.Arrays.{IsTerminal, radio_comm-IsTerminal}
use roip.Emac.{Pbuf, Stat, Enet, EnetCall, Chip, Laws}
use roip.Emac.Sides.{Pending-tx_side, Holds-rx_side}
use roip.Emac.Rx.{enetif_input}
use roip.Emac.Rx.Refill.{AreContiguous}
use roip.Emac.Rx.Settled.{next_consume}
use roip.Emac.Rx.Balanced.{enetif_input-Balanced}
use roip.Emac.Rx.Run.{written-Holds}
use roip.Emac.Rx.Apart.{enetif_input-tx_side}
use roip.Emac.Tx.{tx_reclaim}
use roip.Emac.Tx.Pending.{Pending}
use roip.Emac.Tx.Apart.{tx_reclaim-rx_side}
use roip.Emac.Tx.Traffic.{reclaim_prefix}
use roip.Voice.{Codec, Voice}
use roip.Roip.{Apps, Action, Stack, Main, Round, main_round, voice_step}
use roip.Roip.Callbacks.{Steady}
use roip.Roip.Sampling.{voice_step-idle, voice_step-after}

module _ (codec : Codec) where
  -- What the loop relies on: the rings and the connection are steady, the buffers to be granted are not
  -- chained, the sampler has its two blocks and a position within one, and the arrays of the dialogue
  -- with the terminal have their sizes.
  pub record Sound (c : Chip) (i t n : ℕ) (m : Main codec) : Type 0 where
    pub steady : Steady c i t n m.apps
    pub flat : AreContiguous m.heap
    pub sampler : IsValid m.adc
    pub terminal : IsTerminal m.radio

  voice_step-IsValid :
      (ans : Answers) (during : List (List ℕ)) (r : Radio) (d : Spudp) (a a' : Adc)
      (v v' : Voice codec) (calls : List NetCall)
      → IsValid a
      → voice_step codec ans during r d a v ≡ ok (a', v', calls)
      → IsValid a'
  voice_step-IsValid ans during r d a a' v v' calls valid went =
      elim (Bool-cases (a.n_conv_finished == 0)) [
        | inl clear ↦
            let idle = voice_step-idle codec ans during r d a v (ground arith) in
            subst IsValid
              (ap (λ (t : Adc × Voice codec × List NetCall). t.0) (ok-injective (sym idle ∙ went)))
              valid
        | inr flag ↦
            let during_valid = run-IsValid (concat during) valid in
            let after = voice_step-after codec ans during r d a a' v v' calls flag went in
            subst IsValid (sym after) (record {
              length1 = during_valid.length1;
              length2 = during_valid.length2;
              apart = during_valid.apart;
              in_block = during_valid.in_block;
              flag_byte = omega arith;
            })
      ]

  module _ (c : Chip) (stack : Stack codec) (r : Round codec) (m m' : Main codec)
      (heap1 : List (Option Pbuf)) (e1 e2 : Enet) (in_calls tx_calls : List EnetCall)
      (actions : List Action) where
    abbrev pub apps1 : Apps
    apps1 = (stack.input in_calls (record m.apps { enet = e1 })).0

    abbrev pub apps2 : Apps
    apps2 = (stack.timeouts (record apps1 { enet = e2 })).0

    -- What a round that does not fault leaves of the parts that it does not poll first.
    pub record Left : Type 0 where
      pub spudp : Spudp
      pub control_calls : List NetCall
      pub sent :
          control_send r.control_answers r.t1 r.t2 r.t3 apps2.spudp ≡ ok (spudp, control_calls)
      pub radio : Radio
      pub hw_calls : List HwCall
      pub line_calls : List NetCall
      pub talked :
          radio_comm r.line_answers r.received apps2.spudp m.radio
          ≡ ok (radio, hw_calls, line_calls)
      pub adc : Adc
      pub voice : Voice codec
      pub voice_calls : List NetCall
      pub spoken :
          voice_step codec r.voice_answers r.during radio spudp m.adc m.voice
          ≡ ok (adc, voice, voice_calls)
      pub result : m' ≡ record {
        apps = record apps2 { spudp = spudp };
        radio = radio;
        adc = adc;
        voice = voice;
        heap = heap1;
      }

    pub main_round-Left :
        enetif_input c r.regs r.ethertype r.input_ok m.heap m.apps.enet ≡ ok (heap1, e1, in_calls)
        → tx_reclaim r.tx_consume apps1.enet ≡ ok (e2, tx_calls)
        → main_round codec c stack r m ≡ ok (m', actions)
        → Left
    unfolding main_round
    main_round-Left polled reclaimed went =
        let (talk, talked, more) =
          >>=-eq-ok (radio_comm r.line_answers r.received apps2.spudp m.radio) _
            (rw (polled, reclaimed) at went) in
        let (s, sent, rest) =
          >>=-eq-ok (control_send r.control_answers r.t1 r.t2 r.t3 apps2.spudp) _ more in
        let (v, spoken, done) =
          >>=-eq-ok (voice_step codec r.voice_answers r.during talk.0 s.0 m.adc m.voice) _ rest in
        record {
          spudp = s.0;
          control_calls = s.1;
          sent = sent;
          radio = talk.0;
          hw_calls = talk.1;
          line_calls = talk.2;
          talked = talked;
          adc = v.0;
          voice = v.1;
          voice_calls = v.2;
          spoken = spoken;
          result = ap (λ (x : Main codec × List Action). x.0) (sym (ok-injective done));
        }

module _ (codec : Codec) (c : Chip) (laws : Laws c) where
  -- The controller writes the status of frames.
  pub written_Steady :
      (i t n : ℕ) (a : Apps)
      → Steady c i t n a
      → (written : List Stat) → length written ≡ 4
      → Steady c i t n (record a { enet = record a.enet { prxs = written } })
  written_Steady i t n a s written four = record {
    queue = s.queue;
    holds = written-Holds c i s.queue a.enet s.holds written four;
    waiting = s.waiting;
    descriptors = s.descriptors;
    pending = Pending-tx_side t s.waiting s.descriptors a.enet _ refl s.pending;
    level = s.level;
    link = s.link;
    buffer = s.buffer;
  }

  -- The receive side of a round.
  pub polled_Steady :
      (i t n : ℕ) (r : Round codec) (heap heap1 : List (Option Pbuf)) (a : Apps) (e1 : Enet)
      (in_calls : List EnetCall)
      → Steady c i t n a
      → AreContiguous heap
      → r.regs.consume ≡ i
      → enetif_input c r.regs r.ethertype r.input_ok heap a.enet ≡ ok (heap1, e1, in_calls)
      → Steady c (next_consume r.regs i) t n (record a { enet = e1 }) × AreContiguous heap1
  polled_Steady i t n r heap heap1 a e1 in_calls s flat here went =
      let (qs, h, flat1, _) =
        enetif_input-Balanced c i s.queue heap a.enet s.holds flat r.regs r.ethertype r.input_ok
          heap1 e1 in_calls here went in
      let apart =
        enetif_input-tx_side c r.regs r.ethertype r.input_ok heap heap1 a.enet e1 in_calls went in
      (
        record {
          queue = qs;
          holds = h;
          waiting = s.waiting;
          descriptors = s.descriptors;
          pending = Pending-tx_side t s.waiting s.descriptors a.enet e1 apart s.pending;
          level = s.level;
          link = s.link;
          buffer = s.buffer;
        },
        flat1,
      )

  -- The transmit side.
  pub reclaimed_Steady :
      (i t n k cidx : ℕ) (a : Apps) (e2 : Enet) (tx_calls : List EnetCall)
      → Steady c i t n a
      → k < 4
      → k ≤ n
      → cidx ≡ (t + k) % 4
      → tx_reclaim cidx a.enet ≡ ok (e2, tx_calls)
      → Steady c i ((t + k) % 4) (n - k) (record a { enet = e2 })
  reclaimed_Steady i t n k cidx a e2 tx_calls s few within at went =
      let (e, q, h) =
        reclaim_prefix t k s.waiting s.descriptors a.enet s.pending few
          (omega (arith, s.level, within)) in
      let same : e ≡ e2 =
        ap (λ (x : Enet × List EnetCall). x.0)
          (ok-injective (sym q ∙ (ap (λ x. tx_reclaim x a.enet) (sym at) ∙ went))) in
      record {
        queue = s.queue;
        holds =
            Holds-rx_side c i s.queue a.enet e2 (tx_reclaim-rx_side cidx a.enet e2 tx_calls went)
              s.holds;
        waiting = drop k s.waiting;
        descriptors = drop k s.descriptors;
        pending =
            subst (λ x. Pending ((t + k) % 4) (drop k s.waiting) (drop k s.descriptors) x) same h;
        level = omega (arith, s.level, length-drop k s.waiting);
        link = s.link;
        buffer = s.buffer;
      }

  -- What is polled after lwIP keeps the loop's invariant.
  pub Left-Sound :
      (i t n : ℕ) (stack : Stack codec) (r : Round codec) (m m' : Main codec)
      (heap1 : List (Option Pbuf)) (e1 e2 : Enet) (in_calls tx_calls : List EnetCall)
      (actions : List Action)
      → Steady c i t n (apps2 codec c stack r m m' heap1 e1 e2 in_calls tx_calls actions)
      → AreContiguous heap1
      → IsValid m.adc
      → IsTerminal m.radio
      → r.control_answers.pbuf_given ≡ true
      → Left codec c stack r m m' heap1 e1 e2 in_calls tx_calls actions
      → Sound codec c i t n m'
  Left-Sound i t n stack r m m' heap1 e1 e2 in_calls tx_calls actions s flat valid arrays given l =
      let apps = apps2 codec c stack r m m' heap1 e1 e2 in_calls tx_calls actions in
      subst (λ x. Sound codec c i t n x) (sym l.result)
        (record {
          steady = record {
            queue = s.queue;
            holds = s.holds;
            waiting = s.waiting;
            descriptors = s.descriptors;
            pending = s.pending;
            level = s.level;
            link =
                control_send-IsState r.control_answers r.t1 r.t2 r.t3 apps.spudp given l.sent
                  s.link;
            buffer = s.buffer;
          };
          flat = flat;
          sampler =
              voice_step-IsValid codec r.voice_answers r.during l.radio l.spudp m.adc l.adc m.voice
                l.voice l.voice_calls valid l.spoken;
          terminal =
              radio_comm-IsTerminal r.line_answers r.received apps.spudp m.radio l.radio l.hw_calls
                l.line_calls arrays l.talked;
        })
