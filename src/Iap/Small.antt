-- ===== src/Iap/Small.antt =====
-- apps/iap.c: a small flash memory.
use roip.Prelude.{
  ℕ, ◌-◌, ◌<◌, ◌≡◌, refl, Bool, true, false, List, arith, length, replicate, take, take-all, ltb,
  if◌then◌else◌,
}
use roip.Iap.{Flash, Laws}

-- `worn` makes the erasure fail, and a copy to a sector that is not blank has no effect.
pub record Chip : Type 0 where
  pub bytes : List ℕ
  pub blank : Bool
  pub worn : Bool
  pub busy : ℕ

abbrev programmed : List ℕ → Chip → Chip
programmed bs d = if d.blank then record d { bytes = bs; blank = false } else d

abbrev pub chip : Flash
chip = record {
  Device = Chip;
  memory = λ d a n. take n d.bytes;
  read_pid = λ d. d;
  pre_sector = λ d a b. (0, d);
  erase_sector = λ d a b. if d.worn then (11, d) else (0, record d { blank = true });
  copy_ram_to_flash = λ d a bs. (0, programmed bs d);
  compute_signature = λ d a n. record d { busy = 3 };
  is_signature_busy = λ d. (ltb 0 d.busy, record d { busy = d.busy - 1 });
}

pub erased-Blank :
    (d : Chip) → (chip.erase_sector d 29 29).0 ≡ 0 → (chip.erase_sector d 29 29).1.blank ≡ true
erased-Blank d h = ground arith

pub copied-bytes :
    (d : Chip) (bs : List ℕ) → d.blank ≡ true → take (length bs) (programmed bs d).bytes ≡ bs
copied-bytes d bs h = rw h (take-all (length bs) bs (omega arith))

pub busy-falls : (d : Chip) → ltb 0 d.busy ≡ true → d.busy - 1 < d.busy
busy-falls d h = ground arith

abbrev pub chip_laws : Laws chip
chip_laws = record {
  Blank = λ d. d.blank ≡ true;
  erased = erased-Blank;
  prepared = λ d h. h;
  copied = λ d bs h e. copied-bytes d bs h;
  memory-signature = λ d a n b m. refl;
  memory-busy = λ d b m. refl;
  polls = λ d. d.busy;
  polls_fall = busy-falls;
}

abbrev pub fresh : Chip
fresh = record { bytes = replicate 256 255; blank = false; worn = false; busy = 0 }
