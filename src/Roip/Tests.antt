-- ===== src/Roip/Tests.antt =====
-- The main loop on concrete inputs.
use roip.Prelude.{
  ℕ, ◌+◌, ◌≡◌, refl, ap, ◌∙◌, inl, List, [], ◌∷◌, map, arith, replicate, strlen, u32, ok,
}
use roip.Net.{NetCall, data_pcb, udp_connect, udp_send, udp_disconnect, pbuf_alloc, pbuf_free}
use roip.Adc.{Adc, block, run}
use roip.Adc.Blocks.{convert}
use roip.Adc.Reading.{read_through-block}
use roip.Voice.{spudp_send}
use roip.Roip.{system_reset, reset_actions, voice_step}
use roip.Roip.Sampling.{voice_step-sent, sampled_block_sent, late_block_lost}
use roip.Roip.Restarting.{reset_due}
use roip.Roip.Small.{
  codec, codec_laws, quiet, answers, link, radio, sampler, requested, sampler-IsValid,
}

reset_due_example :
    reset_actions (u32 (4294967000 + 501)) (requested 4294967000) ≡ system_reset ∷ []
reset_due_example = reset_due (requested 4294967000) 501 (omega arith) (omega arith) (omega arith)

abbrev readings : List ℕ
readings = replicate 640 0x8003

sampled_block_sent_example :
    voice_step codec answers ((5 ∷ []) ∷ []) radio link (run readings (sampler 0)).0 quiet
    ≡ ok (
      record (run (5 ∷ []) (run readings (sampler 0)).0).0 { n_conv_finished = 0 },
      quiet,
      udp_connect data_pcb 1000 5198
          ∷ pbuf_alloc 12
          ∷ udp_send data_pcb (7 ∷ 49 ∷ 50 ∷ 44 ∷ 55 ∷ 44 ∷ 51 ∷ 0 ∷ 0 ∷ 0 ∷ 0 ∷ 127 ∷ [])
          ∷ pbuf_free
          ∷ udp_disconnect data_pcb
          ∷ [],
    )
unfolding strlen
sampled_block_sent_example =
    sampled_block_sent codec codec_laws (49 ∷ 50 ∷ []) (55 ∷ []) (51 ∷ []) radio
      (record { ends = refl; starts = refl }) (record { ends = refl; starts = refl })
      (record { ends = refl; starts = refl }) answers refl refl link refl 1 (inl refl) refl readings
      ((5 ∷ []) ∷ []) (sampler 0) quiet (sampler-IsValid 0 (omega arith)) refl refl refl
      (omega arith) (omega arith)

abbrev after_send : Adc
after_send = record (run readings (sampler 1)).0 { n_conv_finished = 0 }

sent_meanwhile :
    (calls : List NetCall) × (voice_step codec answers (readings ∷ []) radio link (sampler 1) quiet
      ≡ ok (after_send, quiet, calls))
unfolding spudp_send strlen
sent_meanwhile =
    let kept =
      read_through-block (readings ∷ []) (sampler 1) (sampler-IsValid 1 (omega arith))
        (omega arith) in
    (
      _,
      voice_step-sent codec answers (readings ∷ []) radio link (sampler 1) quiet quiet 640 _ refl (
          ap (λ xs. spudp_send codec answers radio.ssi radio.gssi radio.ssi2 xs 640 link quiet) kept
          ∙ refl),
    )

late_block_lost_example :
    (block after_send after_send.block_result ≡ map convert readings)
    × (voice_step codec answers [] radio link after_send quiet ≡ ok (after_send, quiet, []))
late_block_lost_example =
    late_block_lost codec answers answers (readings ∷ []) [] radio link (sampler 1) after_send quiet
      quiet sent_meanwhile.0 (sampler-IsValid 1 (omega arith)) refl refl refl sent_meanwhile.1
