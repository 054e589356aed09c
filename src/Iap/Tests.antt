-- ===== src/Iap/Tests.antt =====
-- The settings on a small flash memory.
use roip.Prelude.{ℕ, ◌≡◌, refl, true, false, some, List, [], ◌∷◌, arith, replicate}
use roip.Hardware.{HwCall, irqs_on, disable_irq, enable_irq}
use roip.Iap.{get_flash, write_flash, wait_signature, write_sector}
use roip.Iap.Small.{Chip, chip, chip_laws, fresh}
use roip.Iap.Storage.{get_flash-write_flash}

abbrev settings : List ℕ
settings = replicate 256 1

get_flash-write_flash_example :
    (e : Chip) × (hw : List HwCall) × (write_flash chip 4 settings fresh ≡ some (0, e, hw))
    × (get_flash chip e ≡ settings)
    × (irqs_on false hw ≡ true)
get_flash-write_flash_example =
    get_flash-write_flash chip chip_laws 4 settings fresh false refl refl refl (omega arith)

-- On a worn sector the code is 0 and the old settings are read back.
worn_settings :
    write_flash chip 4 settings (record fresh { worn = true })
    ≡ some (0, record fresh { worn = true }, disable_irq ∷ enable_irq ∷ [])
unfolding write_flash write_sector wait_signature
worn_settings = refl
