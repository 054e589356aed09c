-- ===== src/Emac/Tx/Reclaim.antt =====
-- lwip/src/arch/lpc17xx_40xx_emac.c: what `lpc_tx_reclaim` frees.
use roip.Prelude.{
  ℕ, zero, suc, ◌+◌, ◌%◌, ◌<◌, ◌≡◌, refl, sym, ap, subst, ◌∙◌, List, [], ◌∷◌, ◌++◌, map, append-nil,
  arith, true, false, Option, some, leb, ◌==◌, ==_iff, if◌then◌else◌, length, ok,
}
use roip.Emac.{Desc, Enet, EnetCall, Chip, Laws, pbuf_ref, pbuf_free, inc_tx_produce}
use roip.Emac.Ring.{next}
use roip.Emac.Tx.{
  Seg, dma_safe, freed, reclaim_one, tx_reclaim_loop, tx_reclaim, wait_ready, low_level_output,
}
use roip.Emac.Tx.Pending.{Pending, popped, popped-Pending, first_entry}
use roip.Emac.Tx.Output.{entries, descs, frame_queued}

-- The calls that free the chains of some entries.
abbrev pub frees : List (Option ℕ) → List EnetCall
frees [] = []
frees (b ∷ bs) = freed b ++ frees bs

module _ (i : ℕ) (b : Option ℕ) (es : List (Option ℕ)) (d : Desc) (ds : List Desc) (e : Enet)
    (h : Pending i (b ∷ es) (d ∷ ds) e) where
  reclaim_one-popped : reclaim_one e ≡ ok (popped i b es d ds e h, freed b)
  unfolding reclaim_one
  reclaim_one-popped =
      let wrap : (if leb 4 (i + 1) then 0 else i + 1) ≡ next i = step i h.start in
      rw (h.last, first_entry i b es d ds e h, wrap) refl
    where
      step : (k : ℕ) → k < 4 → (if leb 4 (k + 1) then 0 else k + 1) ≡ next k
      step k lt = ground arith

round_done :
    (fuel cidx : ℕ) (e : Enet)
    → cidx ≡ e.lpc_last_tx_idx
    → tx_reclaim_loop (suc fuel) cidx e ≡ ok (e, [])
unfolding tx_reclaim_loop
round_done fuel cidx e here = rw ((==_iff cidx e.lpc_last_tx_idx).1 here, tx_reclaim_loop) refl

round_more :
    (fuel cidx : ℕ) (e e1 e' : Enet) (f fs : List EnetCall)
    → (cidx == e.lpc_last_tx_idx) ≡ false
    → reclaim_one e ≡ ok (e1, f)
    → tx_reclaim_loop fuel cidx e1 ≡ ok (e', fs)
    → tx_reclaim_loop (suc fuel) cidx e ≡ ok (e', f ++ fs)
unfolding tx_reclaim_loop
round_more fuel cidx e e1 e' f fs away one more = rw (away, tx_reclaim_loop) (rw (one, more) refl)

-- The position `k` places on is another one, short of a whole round.
elsewhere : (i k : ℕ) → i < 4 → 0 < k → k < 4 → (((i + k) % 4) == i) ≡ false
elsewhere i k h p q = ground arith

tx_reclaim_loop-Pending :
    (fuel i : ℕ) (done bs : List (Option ℕ)) (da db : List Desc) (e : Enet)
    → Pending i (done ++ bs) (da ++ db) e
    → length da ≡ length done
    → length done < 4
    → length done < fuel
    → (e' : Enet) × (tx_reclaim_loop fuel ((i + length done) % 4) e ≡ ok (e', frees done))
      × Pending ((i + length done) % 4) bs db e'
tx_reclaim_loop-Pending zero i done bs da db e h w k f = absurd (omega arith)
tx_reclaim_loop-Pending (suc fuel) i [] bs [] db e h w k f =
    let here : (i + 0) % 4 ≡ i = omega (arith, h.start) in
    (
      e,
      round_done fuel ((i + 0) % 4) e (here ∙ sym h.last),
      subst (λ n. Pending n bs db e) (sym here) h,
    )
tx_reclaim_loop-Pending (suc fuel) i [] bs (d ∷ da) db e h w k f = absurd (omega (arith, w))
tx_reclaim_loop-Pending (suc fuel) i (a ∷ done) bs [] db e h w k f = absurd (omega (arith, w))
tx_reclaim_loop-Pending (suc fuel) i (a ∷ done) bs (d ∷ da) db e h w k f =
    let e1 = popped i a (done ++ bs) d (da ++ db) e h in
    let target : (next i + length done) % 4 ≡ (i + suc (length done)) % 4 = omega arith in
    let (e', r, h') =
      tx_reclaim_loop-Pending fuel (next i) done bs da db e1
        (popped-Pending i a (done ++ bs) d (da ++ db) e h) (omega (arith, w)) (omega arith)
        (omega arith) in
    let away = elsewhere i (suc (length done)) h.start (omega arith) k in
    (
      e',
      round_more fuel ((i + suc (length done)) % 4) e e1 e' (freed a) (frees done)
          (ap (λ n. ((i + suc (length done)) % 4) == n) h.last ∙ away)
          (reclaim_one-popped i a (done ++ bs) d (da ++ db) e h)
          (ap (λ n. tx_reclaim_loop fuel n e1) (sym target) ∙ r),
      subst (λ n. Pending n bs db e') target h',
    )

-- When the controller has consumed some of the pending entries, but not four, each of their chains is
-- freed once, in order, and the others are pending still.
pub tx_reclaim-Pending :
    (i : ℕ) (done bs : List (Option ℕ)) (da db : List Desc) (e : Enet)
    → Pending i (done ++ bs) (da ++ db) e
    → length da ≡ length done
    → length done < 4
    → (e' : Enet) × (tx_reclaim ((i + length done) % 4) e ≡ ok (e', frees done))
      × Pending ((i + length done) % 4) bs db e'
unfolding tx_reclaim
tx_reclaim-Pending i done bs da db e h w k =
    tx_reclaim_loop-Pending 5 i done bs da db e h w k (omega arith)

-- With nothing consumed since the last time, the driver is left as it is.
pub tx_reclaim-idle :
    (cidx : ℕ) (e : Enet) → cidx ≡ e.lpc_last_tx_idx → tx_reclaim cidx e ≡ ok (e, [])
unfolding tx_reclaim
tx_reclaim-idle cidx e here = round_done 4 cidx e here

-- A ring of four chains that have all been sent looks like one with nothing to reclaim.
pub full_round_kept :
    (i : ℕ) (es : List (Option ℕ)) (ds : List Desc) (e : Enet)
    → Pending i es ds e
    → length es ≡ 4
    → tx_reclaim ((i + length es) % 4) e ≡ ok (e, [])
full_round_kept i es ds e h w =
    tx_reclaim-idle ((i + length es) % 4) e (omega (arith, w, h.start, h.last))

frees-entries : (p : ℕ) (q : Seg) (qs : List Seg) → frees (entries p (q ∷ qs)) ≡ pbuf_free p ∷ []
frees-entries p q [] = refl
frees-entries p q (r ∷ qs) = frees-entries p r qs

length-entries : (p : ℕ) (qs : List Seg) → length (entries p qs) ≡ length qs
length-entries p [] = refl
length-entries p (q ∷ qs) = ap suc (length-entries p qs)

module _ (c : Chip) (laws : Laws c) where
  length-descs : (qs : List Seg) → length (descs c qs) ≡ length qs
  length-descs [] = refl
  length-descs (q ∷ qs) = ap suc (length-descs qs)

  -- A frame of one to three buffers that is sent from an empty ring, once a poll finds room, is
  -- referenced once; when the controller has consumed it, it is freed once and the ring is empty again.
  pub frame_reclaimed :
      (i p : ℕ) (polls : List ℕ) (q : Seg) (qs : List Seg) (e : Enet)
      → Pending i [] [] e
      → length (q ∷ qs) < 4
      → dma_safe (q ∷ qs) ≡ true
      → wait_ready c (length (q ∷ qs)) i polls ≡ true
      → (e1 e2 : Enet) × (idx : ℕ) × (low_level_output c i polls
            (record { id = p; segs = q ∷ qs })
            e
          ≡ ok (some (e1, idx, pbuf_ref p ∷ map (λ _. inc_tx_produce) (q ∷ qs))))
        × (tx_reclaim idx e1 ≡ ok (e2, pbuf_free p ∷ []))
        × Pending idx [] [] e2
  frame_reclaimed i p polls q qs e h few safe ready =
      let here : (i + 0) % 4 ≡ i = omega (arith, h.start) in
      let (e1, r1, h1) =
        frame_queued c laws i p polls (q ∷ qs) [] [] e h (omega arith) safe
          (ap (λ n. wait_ready c (length (q ∷ qs)) n polls) here ∙ ready) in
      let idx : (i + 0 + length (q ∷ qs)) % 4 ≡ (i + length (entries p (q ∷ qs))) % 4 =
        omega (arith, length-entries p (q ∷ qs)) in
      let all =
        subst (λ xs. Pending i xs (descs c (q ∷ qs) ++ []) e1)
          (sym (append-nil (entries p (q ∷ qs))))
          (subst (λ xs. Pending i (entries p (q ∷ qs)) xs e1) (sym (append-nil (descs c (q ∷ qs))))
            h1) in
      let (e2, r2, h2) =
        tx_reclaim-Pending i (entries p (q ∷ qs)) [] (descs c (q ∷ qs)) [] e1 all
          (length-descs (q ∷ qs) ∙ sym (length-entries p (q ∷ qs)))
          (omega (arith, length-entries p (q ∷ qs))) in
      (
        e1,
        e2,
        (i + length (entries p (q ∷ qs))) % 4,
        ap (λ n. low_level_output c n polls (record { id = p; segs = q ∷ qs }) e) (sym here)
            ∙ (r1
                ∙ ap (λ n. ok (some (e1, n, pbuf_ref p ∷ map (λ _. inc_tx_produce) (q ∷ qs)))) idx),
        r2 ∙ ap (λ f. ok (e2, f)) (frees-entries p q qs),
        h2,
      )
