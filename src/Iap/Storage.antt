-- ===== src/Iap/Storage.antt =====
-- apps/iap.c: what is written to the flash memory is read back.
use roip.Prelude.{
  ℕ, zero, suc, ◌<◌, ◌≡◌, refl, sym, ◌∙◌, ap, Bool, true, false, Bool-cases, inl, inr, some, List,
  [], ◌∷◌, arith, length, u8,
}
use roip.Hardware.{HwCall, disable_irq, enable_irq, irqs_on}
use roip.Iap.{
  Flash, Laws, start_addr_last_sector, get_flash, wait_signature, write_sector, write_flash,
}

module _ (f : Flash) (laws : Laws f) where
  open laws use {Blank, erased, prepared, copied, memory-signature, memory-busy, polls, polls_fall}

  wait-busy :
      (fuel : ℕ) (d : f.Device)
      → (f.is_signature_busy d).0 ≡ true
      → wait_signature f (suc fuel) d ≡ wait_signature f fuel (f.is_signature_busy d).1
  unfolding wait_signature
  wait-busy fuel d h = ground arith

  wait-idle :
      (fuel : ℕ) (d : f.Device)
      → (f.is_signature_busy d).0 ≡ false
      → wait_signature f (suc fuel) d ≡ some (f.is_signature_busy d).1
  unfolding wait_signature
  wait-idle fuel d h = ground arith

  -- Enough rounds end the wait, and the memory is as it was.
  wait_signature_total :
      (fuel : ℕ) (d : f.Device)
      → polls d < fuel
      → (e : f.Device) × (wait_signature f fuel d ≡ some e)
        × ((a n : ℕ) → f.memory e a n ≡ f.memory d a n)
  wait_signature_total zero d h = absurd (omega arith)
  wait_signature_total (suc fuel) d h = elim (Bool-cases (f.is_signature_busy d).0) [
    | inl busy ↦
        let next = (f.is_signature_busy d).1 in
        let (e, p, q) = wait_signature_total fuel next (omega (arith, polls_fall d busy)) in
        (e, wait-busy fuel d busy ∙ p, λ a n. q a n ∙ memory-busy d a n)
    | inr idle ↦ ((f.is_signature_busy d).1, wait-idle fuel d idle, λ a n. memory-busy d a n)
  ]

  -- What `write_flash` does on the way, as single steps on the device.
  abbrev pub prepared_1 : f.Device → f.Device
  prepared_1 d = (f.pre_sector (f.read_pid d) 29 29).1

  abbrev pub erasure : f.Device → ℕ × f.Device
  erasure d = f.erase_sector (prepared_1 d) 29 29

  abbrev pub prepared_2 : f.Device → f.Device
  prepared_2 d = (f.pre_sector (erasure d).1 29 29).1

  abbrev pub copy : List ℕ → f.Device → ℕ × f.Device
  copy bs d = f.copy_ram_to_flash (prepared_2 d) start_addr_last_sector bs

  -- If the sector was erased and the copy succeeds, `write_flash` ends, returns 0 with interrupts on,
  -- and `get_flash` reads back the buffer. The rounds needed are those that the signature generator
  -- keeps the code waiting.
  pub get_flash-write_flash :
      (fuel : ℕ) (bs : List ℕ) (d : f.Device) (on : Bool)
      → length bs ≡ 256
      → (erasure d).0 ≡ 0
      → (copy bs d).0 ≡ 0
      → polls (f.compute_signature (copy bs d).1 start_addr_last_sector 64) < fuel
      → (e : f.Device) × (hw : List HwCall) × (write_flash f fuel bs d ≡ some (0, e, hw))
        × (get_flash f e ≡ bs)
        × (irqs_on on hw ≡ true)
  unfolding write_flash write_sector get_flash
  get_flash-write_flash fuel bs d on w er cp h =
      let d5 = (copy bs d).1 in
      let signed = f.compute_signature d5 start_addr_last_sector 64 in
      let (e, p, q) = wait_signature_total fuel signed h in
      let stored =
        copied (prepared_2 d) bs (prepared (erasure d).1 (erased (prepared_1 d) er)) cp in
      (
        e,
        disable_irq ∷ enable_irq ∷ [],
        ground (arith, p),
        q start_addr_last_sector 256
            ∙ memory-signature d5 start_addr_last_sector 64 start_addr_last_sector 256
            ∙ ap (f.memory d5 start_addr_last_sector) (sym w)
            ∙ stored,
        refl,
      )

  -- The code returned tells nothing of the erasure: it is the status of the copy alone, as a byte.
  pub write_flash_code :
      (fuel : ℕ) (bs : List ℕ) (d : f.Device)
      → polls (f.compute_signature (copy bs d).1 start_addr_last_sector 64) < fuel
      → (e : f.Device) × (hw : List HwCall) × (write_flash f fuel bs d
          ≡ some (u8 (copy bs d).0, e, hw))
  unfolding write_flash write_sector
  write_flash_code fuel bs d h =
      let (e, p, q) =
        wait_signature_total fuel (f.compute_signature (copy bs d).1 start_addr_last_sector 64) h in
      (e, disable_irq ∷ enable_irq ∷ [], ground (arith, p))
