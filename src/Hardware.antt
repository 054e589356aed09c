-- ===== src/Hardware.antt =====
-- The calls that the firmware makes into the CMSIS and LPCOpen chip libraries, which are not part
-- of the repository. An operation's effect on the hardware is the list of these calls, in order.
use roip.Prelude.{ℕ, Bool, true, false, List, [], ◌∷◌}

-- ADC_IRQn and UART1_IRQn.
pub data Vector : Type 0 where
  adc_irqn uart1_irqn : Vector

-- The third argument of Chip_IOCON_PinMux.
pub data PinMode : Type 0 where
  mode0 mode_pulldown : PinMode

-- The ADC channel of the microphone and the others.
pub data Channel : Type 0 where
  adc_ch2 : Channel
  adc_other : ℕ → Channel

pub data HwCall : Type 0 where
  disable_irq enable_irq : HwCall  -- __disable_irq, __enable_irq
  nvic_disable nvic_enable : Vector → HwCall  -- NVIC_DisableIRQ, NVIC_EnableIRQ
  nvic_set_priority : Vector → ℕ → HwCall
  nvic_stir : ℕ → HwCall  -- NVIC->STIR = n
  gpio_init : HwCall
  gpio_write_dir : ℕ → ℕ → Bool → HwCall  -- Chip_GPIO_WriteDirBit
  gpio_dir_output : ℕ → ℕ → HwCall  -- Chip_GPIO_SetPinDIROutput
  iocon_func1 : ℕ → ℕ → PinMode → HwCall  -- Chip_IOCON_PinMux(port, pin, mode, IOCON_FUNC1)
  pconp_or : ℕ → HwCall  -- LPC_SYSCTL->PCONP |= n
  adc_init : ℕ → ℕ → Bool → HwCall  -- rate, bitsAccuracy, burstMode
  adc_set_sample_rate : ℕ → HwCall
  adc_enable_channel : Channel → HwCall
  adc_int_channel : Channel → Bool → HwCall  -- Chip_ADC_Int_SetChannelCmd
  adc_start_now adc_no_start : HwCall  -- Chip_ADC_SetStartMode, on the falling edge
  uart_init uart_tx_enable : HwCall
  uart_set_baud : ℕ → HwCall
  uart_config_8n1 : HwCall
  uart_setup_fifos_level3 : HwCall
  uart_int_enable_rx_line : HwCall  -- UART_IER_RBRINT | UART_IER_RLSINT
  uart_int_enable_thre uart_int_disable_thre : HwCall  -- UART_IER_THREINT

abbrev pub is_vector : Vector → Vector → Bool
is_vector adc_irqn adc_irqn = true
is_vector uart1_irqn uart1_irqn = true
is_vector _ _ = false

-- Whether interrupts are taken after the calls, from whether they were before.
abbrev pub irqs_on : Bool → List HwCall → Bool
irqs_on b [] = b
irqs_on b (disable_irq ∷ cs) = irqs_on false cs
irqs_on b (enable_irq ∷ cs) = irqs_on true cs
irqs_on b (_ ∷ cs) = irqs_on b cs

abbrev after_nvic : Vector → Bool → HwCall → Bool
after_nvic v b (nvic_disable w) = elim (is_vector v w) [ true ↦ false | false ↦ b ]
after_nvic v b (nvic_enable w) = elim (is_vector v w) [ true ↦ true | false ↦ b ]
after_nvic v b _ = b

-- Whether the vector `v` is enabled in the interrupt controller after the calls.
abbrev pub vector_on : Vector → Bool → List HwCall → Bool
vector_on v b [] = b
vector_on v b (c ∷ cs) = vector_on v (after_nvic v b c) cs
