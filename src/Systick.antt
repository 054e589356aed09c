-- ===== src/Systick.antt =====
-- lwip/src/arch/lpc17xx_40xx_systick_arch.c: the clock in milliseconds, and the delay that waits for it.
pub mod Delay
mod Tests
use roip.Prelude.{
  ℕ, ◌+◌, ◌*◌, ◌/◌, Bool, true, false, Option, none, some, List, [], ◌∷◌, ltb, if◌then◌else◌, u32,
  zero, suc,
}

pub record Systick : Type 0 where
  pub saved_period : ℕ
  pub systick_timems : ℕ  -- u32_t

-- `SysTick_Enable`, with the argument of SysTick_Config; `clock` is SystemCoreClock. The time that has
-- passed is kept.
abbrev pub enable : ℕ → ℕ → Systick → Systick × ℕ
enable clock period s = (record s { saved_period = period }, u32 (clock * period) / 1000)

-- `SysTick_Disable`, which clears bit 0 of the register CTRL
abbrev pub disable : ℕ → ℕ
disable ctrl = ctrl / 2 * 2

-- `SysTick_Handler`
abbrev pub handler : Systick → Systick
handler s = record s { systick_timems = u32 (s.systick_timems + s.saved_period) }

-- `SysTick_GetMS` and `sys_now`
abbrev pub get_ms : Systick → ℕ
get_ms s = s.systick_timems

abbrev pub sys_now : Systick → ℕ
sys_now s = u32 (get_ms s)

-- So many interrupts.
unfoldable pub handlers : ℕ → Systick → Systick
handlers zero s = s
handlers (suc n) s = handlers n (handler s)

-- The loop of `msDelay`: before each reading of the clock there are so many interrupts. `none`: it
-- still waits after the last.
unfoldable pub wait : ℕ → List ℕ → Systick → Option Systick
unfolding handlers
wait to [] s = none
wait to (n ∷ polls) s =
    let s' = handlers n s in
    let rest = wait to polls s' in if ltb (get_ms s') to then rest else some s'

-- `msDelay`
unfoldable pub ms_delay : ℕ → List ℕ → Systick → Option Systick
unfolding wait
ms_delay ms polls s = wait (u32 (ms + s.systick_timems)) polls s
