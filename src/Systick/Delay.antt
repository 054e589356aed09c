-- ===== src/Systick/Delay.antt =====
-- lwip/src/arch/lpc17xx_40xx_systick_arch.c: how long `msDelay` waits.
use roip.Prelude.{
  ℕ, zero, suc, ◌+◌, ◌-◌, ◌≤◌, ◌<◌, ◌≡◌, refl, ap, ◌∙◌, true, false, Bool-cases, inl, inr, some,
  List, [], ◌∷◌, arith, ltb, ltb→lt, u32,
}
use roip.Systick.{Systick, handlers, wait, ms_delay}

-- The interrupts of some polls together.
abbrev pub total : List ℕ → ℕ
total [] = 0
total (n ∷ polls) = n + total polls

-- The clock with the period of the firmware, a millisecond.
abbrev pub at : ℕ → Systick
at t = record { saved_period = 1; systick_timems = t }

-- Interrupts add their periods, as long as the word does not overflow.
handlers-at : (n t : ℕ) → t + n < 4294967296 → handlers n (at t) ≡ at (t + n)
unfolding handlers
handlers-at zero t h = ap at (omega arith)
handlers-at (suc n) t h =
    let one : u32 (t + 1) ≡ t + 1 = omega arith in
    rw one (handlers-at n (t + 1) (omega arith) ∙ ap at (omega arith))

-- One reading of the clock, in its two cases.
poll_late :
    (to n t : ℕ) (polls : List ℕ)
    → t + n < 4294967296
    → ltb (t + n) to ≡ false
    → wait to (n ∷ polls) (at t) ≡ some (at (t + n))
unfolding wait
poll_late to n t polls h k = rw (handlers-at n t h) (rw k refl)

poll_early :
    (to n t : ℕ) (polls : List ℕ)
    → t + n < 4294967296
    → ltb (t + n) to ≡ true
    → wait to (n ∷ polls) (at t) ≡ wait to polls (at (t + n))
unfolding wait
poll_early to n t polls h k = rw (handlers-at n t h) (rw k refl)

wait-reaches :
    (to : ℕ) (polls : List ℕ) (t : ℕ)
    → t < to
    → t + total polls < 4294967296
    → to ≤ t + total polls
    → (t' : ℕ) × (wait to polls (at t) ≡ some (at t')) × (to ≤ t') × (t' ≤ t + total polls)
wait-reaches to [] t l h k = absurd (omega arith)
wait-reaches to (n ∷ polls) t l h k = elim (Bool-cases (ltb (t + n) to)) [
  | inl early ↦
      let (t', q, r, s) =
        wait-reaches to polls (t + n) (ltb→lt (t + n) to early) (omega arith) (omega arith) in
      (t', poll_early to n t polls (omega arith) early ∙ q, r, omega arith)
  | inr late ↦ (t + n, poll_late to n t polls (omega arith) late, ground (arith, late), omega arith)
]

-- When the clock goes on for as many milliseconds as are asked for, and does not overflow, the delay
-- ends, and not before they have passed.
pub delay_waits :
    (ms t : ℕ) (polls : List ℕ)
    → 0 < ms
    → t + total polls < 4294967296
    → ms ≤ total polls
    → (t' : ℕ) × (ms_delay ms polls (at t) ≡ some (at t')) × (t + ms ≤ t')
unfolding ms_delay
delay_waits ms t polls z h k =
    let on : u32 (ms + t) ≡ t + ms = omega arith in
    let (t', q, r, s) = wait-reaches (t + ms) polls t (omega arith) h (omega arith) in
    (t', ap (λ to. wait to polls (at t)) on ∙ q, r)

-- When the end of the delay is behind the overflow of the clock, the delay ends at its first reading,
-- however many milliseconds are asked for.
pub delay_cut_short :
    (ms t n : ℕ) (polls : List ℕ)
    → ms < 4294967296
    → t + n < 4294967296
    → 4294967296 ≤ t + ms
    → ms_delay ms (n ∷ polls) (at t) ≡ some (at (t + n))
unfolding ms_delay
delay_cut_short ms t n polls h k over =
    let wrapped : u32 (ms + t) ≡ t + ms - 4294967296 = omega arith in
    ap (λ to. wait to (n ∷ polls) (at t)) wrapped
    ∙ poll_late (t + ms - 4294967296) n t polls k (ground arith)
