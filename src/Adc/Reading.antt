-- ===== src/Adc/Reading.antt =====
-- apps/adc.c and roip.c: a block that is read through `block_result` while interrupts go on.
use roip.Prelude.{
  ℕ, suc, ◌+◌, ◌≤◌, ◌≡◌, refl, ◌∙◌, ap, ap₂, subst, dec_lt, List, [], ◌∷◌, ◌++◌, arith, length,
  length-append, take, drop, drop-drop, take-append-drop, slice,
}
use roip.Adc.{Adc, Block, block, block_size, irq_handler, run}
use roip.Adc.Blocks.{
  IsValid, irq_handler-Counted, irq_handler-IsValid, run-IsValid, run-eq-cons, run-nil,
}

abbrev pub concat : List (List ℕ) → List ℕ
concat [] = []
concat (xs ∷ xss) = xs ++ concat xss

-- The samples from the place `i` on, read one after the other through the pointer `p`: before each the
-- next of the lists comes in from the converter.
unfoldable pub read_through : Block → ℕ → List (List ℕ) → Adc → List ℕ
read_through p i [] a = drop i (block a p)
read_through p i (drs ∷ more) a =
    let b = (run drs a).0 in slice i 1 (block b p) ++ read_through p (suc i) more b

-- An interrupt writes to the other block, also when it is the last of its block.
irq_handler-other :
    (dr : ℕ) {a : Adc}
    → IsValid a
    → block (irq_handler dr a).0 a.block_result ≡ block a a.block_result
unfolding irq_handler
irq_handler-other dr {a} v = ground arith

-- The pointer `p` is that of the full block, while `m` samples are still to come, or none is.
data Kept (p : Block) (m : ℕ) (a : Adc) : Type 0 where
  going : a.block_result ≡ p → a.n_samples + m ≤ block_size → Kept p m a
  over : m ≡ 0 → Kept p m a

irq_handler-Kept :
    (dr m : ℕ) (p : Block) {a : Adc}
    → IsValid a
    → Kept p (suc m) a
    → Kept p m (irq_handler dr a).0 × (block (irq_handler dr a).0 p ≡ block a p)
irq_handler-Kept dr m p v (over z) = absurd (omega (arith, z))
irq_handler-Kept dr m p {a} v (going here fits) =
    let b = (irq_handler dr a).0 in
    let same : block b p ≡ block a p =
      subst (λ q. block b q ≡ block a q) here (irq_handler-other dr v) in
    elim (dec_lt (suc a.n_samples) block_size) [
      | yes early ↦
          let c = irq_handler-Counted dr v early in
          (going (c.result_same ∙ here) (omega (arith, fits, c.count_next)), same)
      | no late ↦ (over (omega (arith, fits, late)), same)
    ]

run-Kept :
    (drs : List ℕ) (m : ℕ) (p : Block) {a : Adc}
    → IsValid a
    → Kept p (length drs + m) a
    → Kept p m (run drs a).0 × (block (run drs a).0 p ≡ block a p)
run-Kept [] m p {a} v k =
    rw run-nil (subst (λ n. Kept p n a) {x = length {A = ℕ} [] + m} {y = m} (omega arith) k, refl)
run-Kept (dr ∷ drs) m p {a} v k =
    let k0 : Kept p (suc (length drs + m)) a =
      subst (λ n. Kept p n a) {x = length (dr ∷ drs) + m} {y = suc (length drs + m)} (omega arith)
        k in
    let (k1, e1) = irq_handler-Kept dr (length drs + m) p v k0 in
    let (k2, e2) = run-Kept drs m p (irq_handler-IsValid dr v) k1 in rw run-eq-cons (k2, e2 ∙ e1)

read_through-Kept :
    (p : Block) (i : ℕ) (during : List (List ℕ)) (a : Adc)
    → IsValid a
    → Kept p (length (concat during)) a
    → read_through p i during a ≡ drop i (block a p)
unfolding read_through
read_through-Kept p i [] a v k = refl
read_through-Kept p i (drs ∷ more) a v k =
    let (k1, e) =
      run-Kept drs (length (concat more)) p v
        (subst (λ m. Kept p m a) (length-append drs (concat more)) k) in
    ap₂ (λ xs ys. slice i 1 xs ++ ys) e
      (read_through-Kept p (suc i) more (run drs a).0 (run-IsValid drs v) k1 ∙ ap (drop (suc i)) e)
    ∙ ap (λ xs. take 1 (drop i (block a p)) ++ xs)
        (ap (λ n. drop n (block a p)) {x = suc i} {y = i + 1} (omega arith)
          ∙ drop-drop i 1 (block a p))
    ∙ take-append-drop 1 (drop i (block a p))

-- A block that is full stays as it is until the next one is full too: up to then it is read as it was at
-- first, whenever the samples come in.
pub read_through-block :
    (during : List (List ℕ)) (a : Adc)
    → IsValid a
    → a.n_samples + length (concat during) ≤ block_size
    → read_through a.block_result 0 during a ≡ block a a.block_result
read_through-block during a v h = read_through-Kept a.block_result 0 during a v (going refl h)
