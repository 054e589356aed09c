-- ===== src/Emac/Tx.antt =====
-- lwip/src/arch/lpc17xx_40xx_emac.c: the transmit ring.
pub mod Pending
pub mod Output
pub mod Reclaim
pub mod Traffic
pub mod Apart
pub mod Leak
mod Tests
use roip.Prelude.{
  ℕ, zero, suc, ◌+◌, Bool, true, false, ◌&&◌, ◌||◌, not, List, [], ◌∷◌, ◌++◌, map, Option, none,
  some, ltb, leb, ◌==◌, if◌then◌else◌, length, get_elem?, set, Result, ok, fault, no_fuel,
  out_of_bounds, assert, of_option, ◌>>=◌, ◌>>◌,
}
use roip.Emac.{
  num_buff_txdescs, Desc, Enet, EnetCall, pbuf_free, pbuf_ref, init_tx_descriptors, inc_tx_produce,
  Chip, in_bounds,
}

-- A buffer of a chain, and the chain, which is referred to by its first buffer.
pub record Seg : Type 0 where
  pub payload : ℕ
  pub len : ℕ

pub record Chain : Type 0 where
  pub id : ℕ
  pub segs : List Seg

-- `lpc_packet_addr_notsafe` of the LPC175x and 6x.
unfoldable pub packet_addr_notsafe : ℕ → Bool
packet_addr_notsafe addr =
    if (leb 0x10000000 addr && ltb addr 0x10008000)
      || (leb 0x1FFF0000 addr && ltb addr 0x1FFF2000)
      || (leb 0x2007C000 addr && ltb addr 0x20084000)
    then false
    else true

-- The sum of the unsafe addresses is 0.
unfoldable pub dma_safe : List Seg → Bool
unfolding packet_addr_notsafe
dma_safe [] = true
dma_safe (q ∷ qs) = not (packet_addr_notsafe q.payload) && dma_safe qs

-- `lpc_tx_setup`
unfoldable pub tx_setup : Enet → Enet × List EnetCall
tx_setup e = (
  record e {
    ptxd = map (λ (d : Desc). record d { control = 0 }) e.ptxd;
    ptxs = map (λ _. 0xFFFFFFFF) e.ptxs;
    lpc_last_tx_idx = 0;
  },
  init_tx_descriptors ∷ [],
)

abbrev pub freed : Option ℕ → List EnetCall
freed none = []
freed (some p) = pbuf_free p ∷ []

-- One round of `lpc_tx_reclaim_st`.
unfoldable pub reclaim_one : Enet → Result (Enet × List EnetCall)
reclaim_one e = do
  b ← of_option (get_elem? e.txb e.lpc_last_tx_idx) out_of_bounds
  ok (
    record e {
      txb = set e.txb e.lpc_last_tx_idx none;
      lpc_last_tx_idx =
          if leb num_buff_txdescs (e.lpc_last_tx_idx + 1) then 0 else e.lpc_last_tx_idx + 1;
    },
    freed b,
  )

-- `lpc_tx_reclaim_st`, for a number of rounds.
tx_reclaim_loop : ℕ → ℕ → Enet → Result (Enet × List EnetCall)
unfolding reclaim_one
tx_reclaim_loop zero cidx e = fault no_fuel
tx_reclaim_loop (suc fuel) cidx e = elim (cidx == e.lpc_last_tx_idx) [
  | true ↦ ok (e, [])
  | false ↦ reclaim_one e >>= λ r. tx_reclaim_loop fuel cidx r.0 >>= λ s. ok (s.0, r.1 ++ s.1)
]

-- `lpc_tx_reclaim`, where `cidx` is Chip_ENET_GetTXConsumeIndex. The rounds are those of the ring, and
-- one.
unfoldable pub tx_reclaim : ℕ → Enet → Result (Enet × List EnetCall)
unfolding tx_reclaim_loop
tx_reclaim cidx e = tx_reclaim_loop (suc num_buff_txdescs) cidx e

abbrev pub is_last : List Seg → Bool
is_last [] = true
is_last (_ ∷ _) = false

module _ (c : Chip) where
  -- `lpc_tx_ready`
  unfoldable pub tx_ready : ℕ → ℕ → ℕ
  tx_ready pidx cidx = c.free_desc_num pidx cidx num_buff_txdescs

  -- Whether `while (dn > lpc_tx_ready(netif))` ends at one of the polls, each of which reads the
  -- consume index.
  unfoldable pub wait_ready : ℕ → ℕ → List ℕ → Bool
  unfolding tx_ready
  wait_ready dn pidx [] = false
  wait_ready dn pidx (cidx ∷ polls) =
      let rest = wait_ready dn pidx polls in if ltb (tx_ready pidx cidx) dn then rest else true

  -- The loop over the chain: the driver, and the produce index.
  unfoldable pub setup_transfers : ℕ → List Seg → ℕ → Enet → Result (Enet × ℕ)
  setup_transfers p [] idx e = ok (e, idx)
  setup_transfers p (q ∷ qs) idx e =
      let last = is_last qs in
      in_bounds idx num_buff_txdescs
      >> setup_transfers p qs (c.inc_tx_produce_index idx) (record e {
        ptxd = set e.ptxd idx (record { control = c.tctrl q.len last; packet = q.payload });
        txb = set e.txb idx (if last then some p else none);
      })

  -- `lpc_low_level_output`: `pidx` is Chip_ENET_GetTXProduceIndex and `polls` are the readings of the
  -- consume index while it waits. `none`: it waits still.
  unfoldable pub low_level_output :
      ℕ → List ℕ → Chain → Enet → Result (Option (Enet × ℕ × List EnetCall))
  unfolding dma_safe wait_ready setup_transfers
  low_level_output pidx polls p e = do
    assert (dma_safe p.segs)
    if wait_ready (length p.segs) pidx polls
        then (do
          (e', idx) ← setup_transfers p.id p.segs pidx e
          ok (some (e', idx, pbuf_ref p.id ∷ map (λ _. inc_tx_produce) p.segs)))
        else ok none
