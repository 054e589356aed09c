-- ===== src/Adc/Blocks.antt =====
-- apps/adc.c: the two blocks take turns, and a full block holds its samples in order.
use roip.Prelude.{
  ℕ, suc, ◌+◌, ◌<◌, ◌≡◌, ◌≢◌, refl, Bool, true, if◌then◌else◌, ◌==◌, ◌&&◌, List, [], ◌∷◌, ◌++◌, map,
  append_assoc, arith, length, take, set, length-set, take-set, take-all, u8, u16,
}
use roip.Hardware.{irqs_on, vector_on, adc_irqn}
use roip.Adc.{Adc, block, block_size, to_sample, irq_handler, run}

pub record IsValid (a : Adc) : Type 0 where
  pub length1 : length a.samples1 ≡ block_size
  pub length2 : length a.samples2 ≡ block_size
  pub apart : a.block_fill ≢ a.block_result
  pub in_block : a.n_samples < block_size
  pub flag_byte : a.n_conv_finished < 256

-- The samples that the current block has so far.
abbrev pub filled : Adc → List ℕ
filled a = take a.n_samples (block a a.block_fill)

abbrev pub convert : ℕ → ℕ
convert dr = to_sample (u16 dr)

-- An interrupt keeps the invariant, so each write is inside its array.
pub irq_handler-IsValid : (dr : ℕ) {a : Adc} → IsValid a → IsValid (irq_handler dr a).0
unfolding irq_handler
irq_handler-IsValid dr {a} v = ground (
  arith,
  length-set a.samples1 a.n_samples (convert dr),
  length-set a.samples2 a.n_samples (convert dr),
)

-- An interrupt leaves interrupts and the ADC vector enabled, whatever they were.
pub irq_handler-irqs_on :
    (dr : ℕ) (a : Adc) (b : Bool)
    → (irqs_on b (irq_handler dr a).2 ≡ true) × (vector_on adc_irqn b (irq_handler dr a).2 ≡ true)
unfolding irq_handler
irq_handler-irqs_on dr a b = ground arith

-- What an interrupt does before the block is full.
pub record Counted (dr : ℕ) (a b : Adc) : Type 0 where
  pub filled_next : filled b ≡ filled a ++ convert dr ∷ []
  pub fill_same : b.block_fill ≡ a.block_fill
  pub result_same : b.block_result ≡ a.block_result
  pub flag_same : b.n_conv_finished ≡ a.n_conv_finished
  pub count_next : b.n_samples ≡ suc a.n_samples
  pub kept : block b b.block_result ≡ block a a.block_result

-- What it does with the last sample of a block.
pub record Finished (dr : ℕ) (a b : Adc) : Type 0 where
  pub full : block b b.block_result ≡ filled a ++ convert dr ∷ []
  pub fill_swapped : b.block_fill ≡ a.block_result
  pub result_swapped : b.block_result ≡ a.block_fill
  pub flag_next : b.n_conv_finished ≡ u8 (a.n_conv_finished + 1)
  pub count_reset : b.n_samples ≡ 0

pub irq_handler-Counted :
    (dr : ℕ) {a : Adc}
    → IsValid a
    → suc a.n_samples < block_size
    → Counted dr a (irq_handler dr a).0
unfolding irq_handler
irq_handler-Counted dr {a} v h = ground (
  arith,
  take-set a.samples1 a.n_samples (convert dr),
  take-set a.samples2 a.n_samples (convert dr),
)

irq_handler-Finished :
    (dr : ℕ) {a : Adc}
    → IsValid a
    → suc a.n_samples ≡ block_size
    → Finished dr a (irq_handler dr a).0
unfolding irq_handler
irq_handler-Finished dr {a} v h = ground (
  arith,
  take-set a.samples1 a.n_samples (convert dr),
  take-set a.samples2 a.n_samples (convert dr),
  take-all (suc a.n_samples) (set a.samples1 a.n_samples (convert dr)),
  take-all (suc a.n_samples) (set a.samples2 a.n_samples (convert dr)),
  length-set a.samples1 a.n_samples (convert dr),
  length-set a.samples2 a.n_samples (convert dr),
)

pub run-eq-cons :
    (dr : ℕ) (drs : List ℕ) (a : Adc) → (run (dr ∷ drs) a).0 ≡ (run drs (irq_handler dr a).0).0
unfolding run
run-eq-cons dr drs a = refl

-- From any valid state, any readings keep the two block pointers apart, both blocks whole and the
-- write index inside the block.
pub run-IsValid : (drs : List ℕ) {a : Adc} → IsValid a → IsValid (run drs a).0
unfolding run
run-IsValid [] v = v
run-IsValid (dr ∷ drs) v = run-IsValid drs (irq_handler-IsValid dr v)

pub run-nil : (a : Adc) → (run [] a).0 ≡ a
unfolding run
run-nil a = refl

-- The state in which a begun block is completed by just the readings that it lacks.
record Delivered (drs : List ℕ) (a b : Adc) : Type 0 where
  samples : block b b.block_result ≡ filled a ++ map convert drs
  fill_swapped : b.block_fill ≡ a.block_result
  result_swapped : b.block_result ≡ a.block_fill
  flag_next : b.n_conv_finished ≡ u8 (a.n_conv_finished + 1)
  count_reset : b.n_samples ≡ 0

run-Delivered :
    (dr : ℕ) (drs : List ℕ) {a : Adc}
    → IsValid a
    → a.n_samples + length (dr ∷ drs) ≡ block_size
    → Delivered (dr ∷ drs) a (run (dr ∷ drs) a).0
run-Delivered dr [] {a} v h = rw (run-eq-cons, run-nil) (ground (arith, irq_handler-Finished dr v))
run-Delivered dr (d ∷ drs) {a} v h =
    let b = (irq_handler dr a).0 in
    let c = irq_handler-Counted dr v (omega arith) in
    rw run-eq-cons (
      ground (
        arith,
        c,
        run-Delivered d drs {a = b} (irq_handler-IsValid dr v),
        append_assoc (filled a) (convert dr ∷ []) (map convert (d ∷ drs)),
      ))

-- `BLOCK_SIZE` interrupts from the start of a block hand the main loop exactly the converted
-- readings, in order; the pointers are exchanged, the next block starts at its first element, and
-- the flag counts one more block modulo 256.
pub block_delivered :
    (drs : List ℕ) {a : Adc}
    → IsValid a
    → a.n_samples ≡ 0
    → length drs ≡ block_size
    → let b = (run drs a).0 in
      (block b b.block_result ≡ map convert drs)
      × (b.block_fill ≡ a.block_result)
      × (b.block_result ≡ a.block_fill)
      × (b.n_samples ≡ 0)
      × (b.n_conv_finished ≡ u8 (a.n_conv_finished + 1))
block_delivered [] v z h = absurd (omega arith)
block_delivered (dr ∷ drs) {a} v z h = ground (arith, run-Delivered dr drs v)

-- The registered function is called exactly when a block is full and one is registered, with the
-- block that was just filled, and it is told one sample more than the block holds.
pub irq_handler_calls :
    (dr : ℕ) {a : Adc}
    → IsValid a
    → (irq_handler dr a).1 ≡ (
        if (suc a.n_samples == block_size) && a.send_samples
        then record { block = a.block_fill; count = block_size + 1; arg = a.arg_callback } ∷ []
        else [])
unfolding irq_handler
irq_handler_calls dr {a} v = ground arith

-- The flag that the main loop polls is a byte: a 256th block that finishes before the main loop has
-- looked makes it 0, and the main loop sees no block at all.
pub flag_wraps :
    (dr : ℕ) {a : Adc}
    → IsValid a
    → suc a.n_samples ≡ block_size
    → a.n_conv_finished ≡ 255
    → (irq_handler dr a).0.n_conv_finished ≡ 0
flag_wraps dr v h e = ground (arith, irq_handler-Finished dr v h)
