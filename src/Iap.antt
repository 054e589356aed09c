-- ===== src/Iap.antt =====
-- apps/iap.c and apps/iap.h: the settings that are kept in the last sector of the flash memory.
--
-- The in-application programming routines and the signature generator belong to the chip: they are
-- the fields of `Flash`, on a state `Device` of its own, and what their documentation promises is in
-- `Laws`.
pub mod Layout
pub mod Storage
pub mod Small
mod Tests
use roip.Prelude.{
  ℕ, zero, suc, ◌+◌, ◌/◌, ◌<◌, ◌≡◌, ◌≢◌, Bool, true, false, Option, none, some, List, [], ◌∷◌, ◌++◌,
  u8, length,
}
use roip.Hardware.{HwCall, disable_irq, enable_irq}

-- START_ADDR_LAST_SECTOR, IAP_LAST_SECTOR and IAP_NUM_BYTES_TO_WRITE
abbrev pub start_addr_last_sector : ℕ
start_addr_last_sector = 0x00078000

abbrev pub iap_last_sector : ℕ
iap_last_sector = 29

abbrev pub sector_size : ℕ
sector_size = 1024

-- Each routine returns its status code (0 for CMD_SUCCESS) and the device's new state.
pub record Flash : Type 1 where
  pub Device : Type 0
  pub memory : Device → ℕ → ℕ → List ℕ  -- the bytes at an address, as the processor reads them
  pub read_pid : Device → Device  -- Chip_IAP_ReadPID
  pub pre_sector : Device → ℕ → ℕ → ℕ × Device  -- Chip_IAP_PreSectorForReadWrite
  pub erase_sector : Device → ℕ → ℕ → ℕ × Device  -- Chip_IAP_EraseSector
  pub copy_ram_to_flash : Device → ℕ → List ℕ → ℕ × Device  -- Chip_IAP_CopyRamToFlash
  pub compute_signature : Device → ℕ → ℕ → Device  -- Chip_FMC_ComputeSignatureBlocks
  pub is_signature_busy : Device → Bool × Device  -- Chip_FMC_IsSignatureBusy

-- What the documentation promises. `Blank d` says that the last sector is erased.
pub record Laws (f : Flash) : Type 1 where
  pub Blank : f.Device → Type 0
  pub erased : (d : f.Device) → (f.erase_sector d 29 29).0 ≡ 0 → Blank (f.erase_sector d 29 29).1
  pub prepared : (d : f.Device) → Blank d → Blank (f.pre_sector d 29 29).1
  -- A copy to an erased sector that succeeds stores the bytes.
  pub copied :
      (d : f.Device) (bs : List ℕ)
      → Blank d
      → (f.copy_ram_to_flash d start_addr_last_sector bs).0 ≡ 0
      → f.memory
          (f.copy_ram_to_flash d start_addr_last_sector bs).1
          start_addr_last_sector
          (length bs)
        ≡ bs
  -- The signature generator writes nothing, and its work ends.
  pub memory-signature :
      (d : f.Device) (a n b m : ℕ) → f.memory (f.compute_signature d a n) b m ≡ f.memory d b m
  pub memory-busy :
      (d : f.Device) (b m : ℕ) → f.memory (f.is_signature_busy d).1 b m ≡ f.memory d b m
  pub polls : f.Device → ℕ
  pub polls_fall :
      (d : f.Device) → (f.is_signature_busy d).0 ≡ true → polls (f.is_signature_busy d).1 < polls d

module _ (f : Flash) where
  -- `get_flash`: the contents of `flash_buff`
  unfoldable pub get_flash : f.Device → List ℕ
  get_flash d = f.memory d start_addr_last_sector 256

  -- `while (Chip_FMC_IsSignatureBusy()) {}`, for a number of rounds; `none` if they are not enough.
  unfoldable pub wait_signature : ℕ → f.Device → Option f.Device
  wait_signature zero d = none
  wait_signature (suc fuel) d =
      let (busy, e) = f.is_signature_busy d in
      elim busy [ true ↦ wait_signature fuel e | false ↦ some e ]

  -- `write_flash` up to the last loop: the status code, which is that of the copy alone, and the
  -- calls that concern interrupts.
  unfoldable pub write_sector : List ℕ → f.Device → ℕ × f.Device × List HwCall
  write_sector flash_buff d =
      let d1 = f.read_pid d in
      let (ret1, d2) = f.pre_sector d1 iap_last_sector iap_last_sector in
      let (ret2, d3) = f.erase_sector d2 iap_last_sector iap_last_sector in
      let (ret3, d4) = f.pre_sector d3 iap_last_sector iap_last_sector in
      let (ret4, d5) = f.copy_ram_to_flash d4 start_addr_last_sector flash_buff in
      (
        u8 ret4,
        f.compute_signature d5 start_addr_last_sector (sector_size / 16),
        disable_irq ∷ enable_irq ∷ [],
      )

  -- `write_flash`
  unfoldable pub write_flash : ℕ → List ℕ → f.Device → Option (ℕ × f.Device × List HwCall)
  unfolding write_sector
  write_flash fuel flash_buff d =
      let (ret, e, hw) = write_sector flash_buff d in
      elim (wait_signature fuel e) [ none ↦ none | some e' ↦ some (ret, e', hw) ]
