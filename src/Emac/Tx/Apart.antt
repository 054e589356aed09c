-- ===== src/Emac/Tx/Apart.antt =====
-- lwip/src/arch/lpc17xx_40xx_emac.c: the transmit side leaves the receive ring as it is.
use roip.Prelude.{
  ℕ, zero, suc, ◌≡◌, sym, ap, ◌∙◌, Bool-cases, inl, inr, List, [], ◌∷◌, map, some, true, get_elem?,
  length, ◌==◌, ok, out_of_bounds, assert, of_option, ok-injective, >>=-eq-ok,
}
use roip.Emac.{Enet, EnetCall, Chip, in_bounds, pbuf_ref, inc_tx_produce}
use roip.Emac.Sides.{rx_side}
use roip.Emac.Tx.{
  Seg, Chain, dma_safe, reclaim_one, tx_reclaim_loop, tx_reclaim, wait_ready, setup_transfers,
  low_level_output,
}

reclaim_one-rx_side :
    (e : Enet) (t : Enet × List EnetCall) → reclaim_one e ≡ ok t → rx_side t.0 ≡ rx_side e
unfolding reclaim_one
reclaim_one-rx_side e t went =
    let (b, _, done) =
      >>=-eq-ok (of_option (get_elem? e.txb e.lpc_last_tx_idx) out_of_bounds) _ went in
    ap (λ (x : Enet × List EnetCall). rx_side x.0) (sym (ok-injective done))

tx_reclaim_loop-rx_side :
    (fuel cidx : ℕ) (e : Enet) (t : Enet × List EnetCall)
    → tx_reclaim_loop fuel cidx e ≡ ok t
    → rx_side t.0 ≡ rx_side e
unfolding tx_reclaim_loop
tx_reclaim_loop-rx_side zero cidx e t went = cc
tx_reclaim_loop-rx_side (suc fuel) cidx e t went = elim (Bool-cases (cidx == e.lpc_last_tx_idx)) [
  | inl here ↦
      ap (λ (x : Enet × List EnetCall). rx_side x.0)
        (sym (ok-injective (rw (here, tx_reclaim_loop) at went)))
  | inr away ↦
      let (s, one, more) = >>=-eq-ok (reclaim_one e) _ (rw (away, tx_reclaim_loop) at went) in
      let (u, rest, done) = >>=-eq-ok (tx_reclaim_loop fuel cidx s.0) _ more in
      ap (λ (x : Enet × List EnetCall). rx_side x.0) (sym (ok-injective done))
      ∙ (tx_reclaim_loop-rx_side fuel cidx s.0 u rest ∙ reclaim_one-rx_side e s one)
]

pub tx_reclaim-rx_side :
    (cidx : ℕ) (e e' : Enet) (calls : List EnetCall)
    → tx_reclaim cidx e ≡ ok (e', calls)
    → rx_side e' ≡ rx_side e
unfolding tx_reclaim
tx_reclaim-rx_side cidx e e' calls went = tx_reclaim_loop-rx_side 5 cidx e (e', calls) went

module _ (c : Chip) where
  setup_transfers-rx_side :
      (p : ℕ) (qs : List Seg) (idx : ℕ) (e : Enet) (t : Enet × ℕ)
      → setup_transfers c p qs idx e ≡ ok t
      → rx_side t.0 ≡ rx_side e
  unfolding setup_transfers
  setup_transfers-rx_side p [] idx e t went =
      ap (λ (x : Enet × ℕ). rx_side x.0) (sym (ok-injective went))
  setup_transfers-rx_side p (q ∷ qs) idx e t went =
      let (_, _, more) = >>=-eq-ok (in_bounds idx 4) _ went in
      setup_transfers-rx_side p qs (c.inc_tx_produce_index idx) _ t more

  pub low_level_output-rx_side :
      (pidx : ℕ) (polls : List ℕ) (p : Chain) (e e' : Enet) (idx : ℕ) (calls : List EnetCall)
      → wait_ready c (length p.segs) pidx polls ≡ true
      → low_level_output c pidx polls p e ≡ ok (some (e', idx, calls))
      → rx_side e' ≡ rx_side e
  unfolding low_level_output
  low_level_output-rx_side pidx polls p e e' idx calls ready went =
      let (_, _, more) = >>=-eq-ok (assert (dma_safe p.segs)) _ went in
      let (t, set_up, done) =
        >>=-eq-ok (setup_transfers c p.id p.segs pidx e) _ (rw ready at more) in
      let same : some (t.0, t.1, pbuf_ref p.id ∷ map (λ _. inc_tx_produce) p.segs)
          ≡ some (e', idx, calls) =
        ok-injective done in
      let there : t.0 ≡ e' = cc in
      ap rx_side (sym there) ∙ setup_transfers-rx_side p.id p.segs pidx e t set_up
