-- ===== src/Emac.antt =====
-- lwip/src/arch/lpc17xx_40xx_emac.c and inc/lpc_17xx40xx_emac_config.h: the Ethernet driver's
-- descriptor rings, without an operating system (NO_SYS is 1) and without bounce buffers.
--
-- The controller's registers and the words that LPCOpen's macros make are the parameter `Chip`. A
-- buffer that waits for a frame is kept with its fields, since nobody else holds it; what
-- `pbuf_alloc` answers is a list, which stands for the answers to come (none are left: no memory).
pub mod Ring
pub mod Rx
pub mod Tx
pub mod Setup
pub mod Sides
pub mod Small
mod Tests
use roip.Prelude.{
  if◌then◌else◌, ltb, out_of_bounds, ℕ, ◌+◌, ◌-◌, ◌%◌, ◌<◌, ◌≡◌, Bool, List, [], ◌∷◌, Option, none,
  some, Result, ok, fault, null_pointer,
}

-- LPC_NUM_BUFF_RXDESCS and LPC_NUM_BUFF_TXDESCS
abbrev pub num_buff_rxdescs : ℕ
num_buff_rxdescs = 4

abbrev pub num_buff_txdescs : ℕ
num_buff_txdescs = 4

-- `struct pbuf`, as far as the driver reads it; `clen` is what `pbuf_clen` tells of it.
pub record Pbuf : Type 0 where
  pub id : ℕ
  pub payload : ℕ
  pub len : ℕ
  pub tot_len : ℕ
  pub clen : ℕ

-- ENET_RXDESC_T and ENET_TXDESC_T, and ENET_RXSTAT_T
pub record Desc : Type 0 where
  pub control : ℕ
  pub packet : ℕ

pub record Stat : Type 0 where
  pub status_info : ℕ
  pub status_hash_crc : ℕ

-- `lpc_enetdata_t`. In the list `txb` a buffer is its address.
pub record Enet : Type 0 where
  pub prxs : List Stat
  pub prxd : List Desc
  pub ptxs : List ℕ
  pub ptxd : List Desc
  pub rxb : List (Option Pbuf)
  pub rx_fill_desc_index : ℕ
  pub rx_free_descs : ℕ
  pub txb : List (Option ℕ)
  pub lpc_last_tx_idx : ℕ

-- What the driver calls, in order.
pub data EnetCall : Type 0 where
  pbuf_free pbuf_ref : ℕ → EnetCall
  init_rx_descriptors init_tx_descriptors : EnetCall  -- Chip_ENET_InitRxDescriptors and -Tx-
  rx_disable reset_rx_logic clear_rx_overrun rx_enable tx_enable : EnetCall
  inc_rx_consume : EnetCall  -- Chip_ENET_IncRXConsumeIndex
  inc_tx_produce : EnetCall  -- Chip_ENET_IncTXProduceIndex
  netif_input : Pbuf → EnetCall
  enet_init setup_mii phy_init enable_rx_filter enable_int : EnetCall
  set_addr : List ℕ → EnetCall
  set_full_duplex set_half_duplex set_100mbps set_10mbps : EnetCall
  nvic_disable_irq : EnetCall  -- NVIC_DisableIRQ(ETHERNET_IRQn)

-- The words of the descriptors: ENET_RCTRL_INT | ENET_RCTRL_SIZE(n), and ENET_TCTRL_SIZE(n) |
-- ENET_TCTRL_INT with or without ENET_TCTRL_LAST; what a status tells of a frame: whether it has one
-- of the four errors, and ENET_RINFO_SIZE; Chip_ENET_GetFreeDescNum; and the index that Chip_ENET_IncTXProduceIndex goes to and returns.
pub record Chip : Type 0 where
  pub rctrl : ℕ → ℕ
  pub tctrl : ℕ → Bool → ℕ
  pub rinfo_error : ℕ → Bool
  pub rinfo_size : ℕ → ℕ
  pub free_desc_num : ℕ → ℕ → ℕ → ℕ
  pub inc_tx_produce_index : ℕ → ℕ

-- LPCOpen keeps one descriptor free, so that a full ring can be told from an empty one.
pub record Laws (c : Chip) : Type 0 where
  pub free_desc_num_lem :
      (p q n : ℕ) → p < n → q < n → c.free_desc_num p q n + (p + n - q) % n + 1 ≡ n
  pub inc_tx_produce_index_lem : (i : ℕ) → i < 4 → c.inc_tx_produce_index i ≡ (i + 1) % 4

-- What `pbuf_alloc` answers next.
abbrev pub next_alloc : List (Option Pbuf) → Option Pbuf × List (Option Pbuf)
next_alloc [] = (none, [])
next_alloc (a ∷ more) = (a, more)

-- A field of a pointer.
abbrev pub deref {ℓ} : {A : Type ℓ} → Option A → Result A
deref none = fault null_pointer
deref (some a) = ok a

-- An index into an array of `n`.
abbrev pub in_bounds : ℕ → ℕ → Result (Unit {0})
in_bounds i n = if ltb i n then ok tt else fault out_of_bounds
