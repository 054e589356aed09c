-- ===== src/Emac/Rx.antt =====
-- lwip/src/arch/lpc17xx_40xx_emac.c: the receive ring.
pub mod Queue
pub mod Refill
pub mod Input
pub mod Restart
pub mod Accounts
pub mod Settled
pub mod Balanced
pub mod Apart
pub mod Run
mod Tests
use roip.Prelude.{
  map, ℕ, zero, suc, ◌+◌, ◌-◌, ◌*◌, Bool, true, false, ◌&&◌, ◌||◌, List, [], ◌∷◌, ◌++◌, Option,
  none, some, ltb, leb, ◌==◌, if◌then◌else◌, get_elem?, set, u16, u32, sub32, Result, ok, fault,
  null_pointer, out_of_bounds, no_fuel, assertion, assert, of_option, ◌>>=◌, ◌>>◌,
}
use roip.Emac.{
  num_buff_rxdescs, Pbuf, Desc, Stat, Enet, EnetCall, pbuf_free, init_rx_descriptors, rx_disable,
  reset_rx_logic, clear_rx_overrun, rx_enable, inc_rx_consume, netif_input, Chip, next_alloc, deref,
  in_bounds,
}

module _ (c : Chip) where
  -- `lpc_rxqueue_pbuf`
  unfoldable pub rxqueue_pbuf : Option Pbuf → Enet → Result Enet
  rxqueue_pbuf ptr e = do
    let idx = e.rx_fill_desc_index
    p ← deref ptr
    in_bounds idx num_buff_rxdescs
    ok (record e {
      prxd = set e.prxd idx (record { control = c.rctrl p.len; packet = p.payload });
      prxs = set e.prxs idx (record { status_info = 0xFFFFFFFF; status_hash_crc = 0xFFFFFFFF });
      rxb = set e.rxb idx (some p);
      rx_free_descs = sub32 e.rx_free_descs 1;
      rx_fill_desc_index = if leb num_buff_rxdescs (idx + 1) then 0 else idx + 1;
    })

  -- `lpc_rx_queue`, for a number of rounds: how many buffers it queued, and the answers of
  -- `pbuf_alloc` that are left.
  unfoldable pub rx_queue_loop :
      ℕ → ℕ → List (Option Pbuf) → Enet → Result (ℕ × List (Option Pbuf) × Enet)
  unfolding rxqueue_pbuf
  rx_queue_loop zero queued heap e = fault no_fuel
  rx_queue_loop (suc fuel) queued heap e = elim (ltb 0 e.rx_free_descs) [
    | true ↦
        let (a, heap') = next_alloc heap in
        elim a [
          | none ↦ ok (queued, heap', e)
          | some p ↦ assert (leb p.clen 1) >> rxqueue_pbuf (some p) e >>= λ e'.
              rx_queue_loop fuel (queued + 1) heap' e'
        ]
    | false ↦ ok (queued, heap, e)
  ]

  -- The number of rounds is that of the descriptors, and one.
  unfoldable pub rx_queue : List (Option Pbuf) → Enet → Result (ℕ × List (Option Pbuf) × Enet)
  unfolding rx_queue_loop
  rx_queue heap e = rx_queue_loop (suc num_buff_rxdescs) 0 heap e

  -- `lpc_rx_setup`; its calls are the first element.
  unfoldable pub rx_setup :
      List (Option Pbuf) → Enet → Result (List EnetCall × List (Option Pbuf) × Enet)
  unfolding rx_queue
  rx_setup heap e = do
    (n, heap', e') ←
        rx_queue heap (record e { rx_free_descs = num_buff_rxdescs; rx_fill_desc_index = 0 })
    ok (init_rx_descriptors ∷ [], heap', e')

-- The loop that frees the buffers of the ring.
unfoldable pub free_rxb : List (Option Pbuf) → List EnetCall
free_rxb [] = []
free_rxb (none ∷ xs) = free_rxb xs
free_rxb (some p ∷ xs) = pbuf_free p.id ∷ free_rxb xs

-- What the driver reads from the controller: ENET_INT_RXOVERRUN, Chip_ENET_GetRXConsumeIndex and
-- Chip_ENET_IsRxEmpty.
pub record RxRegs : Type 0 where
  pub overrun : Bool
  pub consume : ℕ
  pub empty : Bool

-- The buffer for the stack, the answers of `pbuf_alloc` that are left, the driver, and its calls.
abbrev pub Received : Type 0
Received = Option Pbuf × List (Option Pbuf) × Enet × List EnetCall

-- The `switch` of `lpc_enetif_input`: `ethertype` is what `htons(ethhdr->type)` finds in the buffer, and
-- `input_ok` says that `netif->input` returns ERR_OK. The types are ETHTYPE_IP and ETHTYPE_ARP.
unfoldable pub hand_on : (Pbuf → ℕ) → Bool → Option Pbuf → List EnetCall
hand_on ethertype input_ok none = []
hand_on ethertype input_ok (some p) =
    if (ethertype p == 0x0800) || (ethertype p == 0x0806)
    then if input_ok then netif_input p ∷ [] else netif_input p ∷ pbuf_free p.id ∷ []
    else pbuf_free p.id ∷ []

-- The descriptor `idx` without its buffer.
unfoldable pub take_out : ℕ → Enet → Enet
take_out idx e = record e { rx_free_descs = u32 (e.rx_free_descs + 1); rxb = set e.rxb idx none }

module _ (c : Chip) where
  -- The branch for an overrun.
  unfoldable pub restart_rx : List (Option Pbuf) → Enet → Result Received
  unfolding free_rxb rx_setup
  restart_rx heap e = do
    (calls, heap', e') ← rx_setup c heap (record e { rxb = map (λ _. none) e.rxb })
    ok (
      none,
      heap',
      e',
      rx_disable ∷ reset_rx_logic ∷ clear_rx_overrun ∷ free_rxb e.rxb ++ calls ++ (rx_enable ∷ []),
    )

  -- The branch for a frame with an error.
  unfoldable pub drop_frame : ℕ → Option Pbuf → List (Option Pbuf) → Enet → Result Received
  unfolding take_out rxqueue_pbuf
  drop_frame idx slot heap e = do
    e' ← rxqueue_pbuf c slot (take_out idx e)
    ok (none, heap, e', inc_rx_consume ∷ [])

  -- The branch for a frame of `length` bytes.
  unfoldable pub take_frame : ℕ → ℕ → Option Pbuf → List (Option Pbuf) → Enet → Result Received
  unfolding take_out rx_queue rxqueue_pbuf
  take_frame idx length slot heap e = do
    p ← deref slot
    let filled = record p { len = u16 length }
    (n, heap', e') ← rx_queue c heap (take_out idx e)
    if n == 0
        then (do e'' ← rxqueue_pbuf c (some filled) e'; ok (none, heap', e'', inc_rx_consume ∷ []))
        else ok (some (record filled { tot_len = u16 length }), heap', e', inc_rx_consume ∷ [])

  -- `lpc_low_level_input`
  unfoldable pub low_level_input : RxRegs → List (Option Pbuf) → Enet → Result Received
  unfolding restart_rx drop_frame take_frame
  low_level_input r heap e =
      if r.overrun then restart_rx heap e else if r.empty then ok (none, heap, e, []) else (do
        s ← of_option (get_elem? e.prxs r.consume) out_of_bounds
        slot ← of_option (get_elem? e.rxb r.consume) out_of_bounds
        if c.rinfo_error s.status_info
            then drop_frame r.consume slot heap e
            else take_frame r.consume (sub32 (c.rinfo_size s.status_info) 4) slot heap e)

  -- `lpc_enetif_input`
  unfoldable pub enetif_input :
      RxRegs
      → (Pbuf → ℕ)
      → Bool
      → List (Option Pbuf)
      → Enet
      → Result (List (Option Pbuf) × Enet × List EnetCall)
  unfolding low_level_input hand_on
  enetif_input r ethertype input_ok heap e = do
    (got, heap', e', calls) ← low_level_input r heap e
    ok (heap', e', calls ++ hand_on ethertype input_ok got)
