-- ===== src/Emac/Tx/Output.antt =====
-- lwip/src/arch/lpc17xx_40xx_emac.c: what `lpc_low_level_output` leaves in the ring.
use roip.Prelude.{
  ℕ, ◌+◌, ◌%◌, ◌≤◌, ◌<◌, ◌≡◌, refl, ap, ◌∙◌, List, [], ◌∷◌, ◌++◌, map, append-nil, append_assoc,
  arith, true, false, Option, none, some, lt→ltb, if◌then◌else◌, length, length-append, set, ok,
}
use roip.Emac.{Desc, Enet, Chip, Laws, pbuf_ref, inc_tx_produce}
use roip.Emac.Tx.{
  Seg, Chain, dma_safe, is_last, tx_ready, wait_ready, setup_transfers, low_level_output,
}
use roip.Emac.Tx.Pending.{Pending, pushed-Pending}

-- The entry of a chain is its last descriptor's; the others have none.
abbrev pub entries : ℕ → List Seg → List (Option ℕ)
entries p [] = []
entries p (q ∷ qs) = (if is_last qs then some p else none) ∷ entries p qs

-- The descriptors of a chain: one for each buffer, the last one marked.
abbrev pub descs : Chip → List Seg → List Desc
descs c [] = []
descs c (q ∷ qs) = record { control = c.tctrl q.len (is_last qs); packet = q.payload } ∷ descs c qs

module _ (c : Chip) (laws : Laws c) (i : ℕ) (p : ℕ) where
  setup-Pending :
      (qs : List Seg) (idx : ℕ) (es : List (Option ℕ)) (ds : List Desc) (e : Enet)
      → Pending i es ds e
      → length es + length qs ≤ 4
      → idx ≡ (i + length es) % 4
      → (e' : Enet) × (setup_transfers c p qs idx e ≡ ok (e', (i + length es + length qs) % 4))
        × Pending i (es ++ entries p qs) (ds ++ descs c qs) e'
  unfolding setup_transfers
  setup-Pending [] idx es ds e h few at =
      (e, ap (λ n. ok (e, n)) (omega (arith, at)), rw (append-nil es, append-nil ds) h)
  setup-Pending (q ∷ qs) idx es ds e h few at =
      let b : Option ℕ = if is_last qs then some p else none in
      let d : Desc = record { control = c.tctrl q.len (is_last qs); packet = q.payload } in
      let pushed = pushed-Pending i es ds e h (omega arith) b d in
      let small : idx < 4 = omega (arith, at) in
      let step : c.inc_tx_produce_index idx ≡ (i + length (es ++ (b ∷ []))) % 4 =
        laws.inc_tx_produce_index_lem idx small ∙ omega (arith, at, length-append es (b ∷ [])) in
      let (e', r, h') =
        setup-Pending qs (c.inc_tx_produce_index idx) (es ++ (b ∷ [])) (ds ++ (d ∷ [])) _ pushed
          (omega (arith, length-append es (b ∷ []))) step in
      (
        e',
        rw (lt→ltb idx 4 small) (
            ap
              (λ n.
                setup_transfers c p qs (c.inc_tx_produce_index idx)
                  (record e { ptxd = set e.ptxd n d; txb = set e.txb n b }))
              at
            ∙ (r ∙ ap (λ n. ok (e', n)) (omega (arith, length-append es (b ∷ []))))),
        rw (← append_assoc es (b ∷ []) (entries p qs), ← append_assoc ds (d ∷ []) (descs c qs)) h',
      )

  -- A chain whose buffers the controller can reach, for which the ring has room behind what has not
  -- been reclaimed, is queued once a poll finds enough descriptors: its buffer is referenced once, its
  -- descriptors follow those that are there, and the entry of the last one is the chain.
  pub frame_queued :
      (polls : List ℕ) (qs : List Seg) (es : List (Option ℕ)) (ds : List Desc) (e : Enet)
      → Pending i es ds e
      → length es + length qs ≤ 4
      → dma_safe qs ≡ true
      → wait_ready c (length qs) ((i + length es) % 4) polls ≡ true
      → (e' : Enet) × (low_level_output c
            ((i + length es) % 4)
            polls
            (record { id = p; segs = qs })
            e
          ≡ ok (
              some
                (e', (i + length es + length qs) % 4, pbuf_ref p ∷ map (λ _. inc_tx_produce) qs)))
        × Pending i (es ++ entries p qs) (ds ++ descs c qs) e'
  unfolding low_level_output
  frame_queued polls qs es ds e h few safe ready =
      let (e', r, h') = setup-Pending qs ((i + length es) % 4) es ds e h few refl in
      (e', rw (safe, ready, r) refl, h')

-- Readings of an index of the ring.
abbrev pub AreIndices : List ℕ → Type 0
AreIndices [] = Unit {0}
AreIndices (q ∷ polls) = (q < 4) × AreIndices polls

module _ (c : Chip) (laws : Laws c) where
  never_ready :
      (dn pidx : ℕ) (polls : List ℕ)
      → 4 ≤ dn
      → pidx < 4
      → AreIndices polls
      → wait_ready c dn pidx polls ≡ false
  unfolding wait_ready tx_ready
  never_ready dn pidx [] h k a = refl
  never_ready dn pidx (q ∷ polls) h k (s, a) =
      let few = laws.free_desc_num_lem pidx q 4 k s in
      let less : c.free_desc_num pidx q 4 < dn = omega (arith, few) in
      rw (lt→ltb (c.free_desc_num pidx q 4) dn less) (never_ready dn pidx polls h k a)

  -- A chain of four buffers or more is never sent: however often the consume index is read, and
  -- whatever it is, the driver waits for as many descriptors.
  pub long_chain_waits :
      (pidx : ℕ) (polls : List ℕ) (p : Chain) (e : Enet)
      → pidx < 4
      → AreIndices polls
      → dma_safe p.segs ≡ true
      → 4 ≤ length p.segs
      → low_level_output c pidx polls p e ≡ ok none
  unfolding low_level_output
  long_chain_waits pidx polls p e k a safe long =
      rw (safe, never_ready (length p.segs) pidx polls long k a) refl
