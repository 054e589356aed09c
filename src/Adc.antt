-- ===== src/Adc.antt =====
-- apps/adc.c and apps/adc.h: the sampler of the microphone. Two blocks of samples take turns: the
-- interrupt handler fills one while the main loop encodes the other.
--
-- An `int16_t` is its bit pattern, a number below 2^16. The pointers `block_fill` and
-- `block_result` say which of the two arrays they point to, and the static local `nSamples` of the
-- handler is a field. The ADC and interrupt-controller calls are returned as a list.
pub mod Sample
pub mod Blocks
pub mod Reading
mod Tests
use roip.Prelude.{
  ℕ, zero, suc, ◌+◌, ◌-◌, ◌*◌, ◌/◌, Bool, true, false, Option, none, some, List, [], ◌∷◌, ◌++◌, u8,
  u16, u32, leb, if◌then◌else◌, set, length, replicate,
}
use roip.Hardware.{
  HwCall, Channel, adc_ch2, Vector, adc_irqn, disable_irq, enable_irq, nvic_disable, nvic_enable,
  gpio_init, gpio_write_dir, iocon_func1, mode_pulldown, pconp_or, adc_init, adc_set_sample_rate,
  adc_enable_channel, adc_int_channel, adc_start_now, adc_no_start,
}

-- BLOCK_SIZE
abbrev pub block_size : ℕ
block_size = 160 * 4

-- The arrays `x1` and `x2`, as a pointer names them.
pub data Block : Type 0 where
  x1 x2 : Block

-- A call of the registered function: the block, the number of samples, the argument.
pub record CallbackCall : Type 0 where
  pub block : Block
  pub count : ℕ
  pub arg : ℕ

pub record Adc : Type 0 where
  pub samples1 : List ℕ  -- x1
  pub samples2 : List ℕ  -- x2
  pub block_fill : Block
  pub block_result : Block
  pub n_samples : ℕ  -- uint32_t
  pub n_conv_finished : ℕ  -- uint8_t
  pub send_samples : Bool  -- whether the function pointer is not NULL
  pub arg_callback : ℕ

abbrev pub block : Adc → Block → List ℕ
block a x1 = a.samples1
block a x2 = a.samples2

-- A write through a pointer to one of the arrays. `Blocks.IsValid` keeps the index in range.
abbrev pub write_block : Adc → Block → ℕ → ℕ → Adc
write_block a x1 i v = record a { samples1 = set a.samples1 i v }
write_block a x2 i v = record a { samples2 = set a.samples2 i v }

-- `ADC_init`
unfoldable pub init : ℕ → ℕ → Channel → ℕ → Bool → ℕ → Adc → Adc × List HwCall
init port pin ch rate fn arg a = (
  record a { send_samples = fn; arg_callback = arg; block_fill = x1; block_result = x2 },
  nvic_disable adc_irqn
      ∷ disable_irq
      ∷ gpio_init
      ∷ gpio_write_dir port pin false
      ∷ iocon_func1 port pin mode_pulldown
      ∷ pconp_or 4096
      ∷ adc_init rate 12 false
      ∷ adc_set_sample_rate rate
      ∷ adc_enable_channel ch
      ∷ adc_int_channel ch true
      ∷ adc_no_start
      ∷ enable_irq
      ∷ [],
)

-- `ADC_start`
unfoldable pub start : Channel → List HwCall
start ch =
    disable_irq ∷ adc_int_channel ch true ∷ adc_start_now ∷ enable_irq ∷ nvic_enable adc_irqn ∷ []

-- `ADC_stop`
unfoldable pub stop : Channel → List HwCall
stop ch = nvic_disable adc_irqn ∷ disable_irq ∷ adc_int_channel ch false ∷ enable_irq ∷ []

-- `ADC_error`
pub error : List HwCall
unfolding stop
error = stop adc_ch2

-- `(int16_t)(((int16_t)(uaccept & 0xFFF0) - 0x8000))`: the mask clears the low four bits of a
-- 16-bit value, and the subtraction is kept modulo 2^16.
abbrev pub to_sample : ℕ → ℕ
to_sample uaccept = u16 (uaccept / 16 * 16 + 65536 - 32768)

-- The end of a block: the pointers are exchanged, the function is called, the main loop is told.
abbrev pub finish_block : Adc → Adc × List CallbackCall
finish_block a =
    let done = record a { block_result = a.block_fill; block_fill = a.block_result } in
    (
      record done { n_conv_finished = u8 (a.n_conv_finished + 1); n_samples = 0 },
      if a.send_samples
          then record {
            block = done.block_result;
            count = u32 (a.n_samples + 1);
            arg = a.arg_callback;
          }
            ∷ []
          else [],
    )

-- `ADC_IRQHandler`, from the value of the data register of channel 2.
pub irq_handler : ℕ → Adc → Adc × List CallbackCall × List HwCall
unfolding start
irq_handler dr a =
    let uaccept = u16 dr in
    let written = write_block a a.block_fill a.n_samples (to_sample uaccept) in
    let counted = record written { n_samples = u32 (a.n_samples + 1) } in
    let hw = start adc_ch2 ++ (disable_irq ∷ enable_irq ∷ []) in
    let (done, calls) = finish_block counted in
    if leb block_size counted.n_samples then (done, calls, hw) else (counted, [], hw)

-- One interrupt for each value of the data register.
pub run : List ℕ → Adc → Adc × List CallbackCall
unfolding irq_handler
run [] a = (a, [])
run (dr ∷ drs) a =
    let (b, calls, hw) = irq_handler dr a in let (c, more) = run drs b in (c, calls ++ more)
