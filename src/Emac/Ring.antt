-- ===== src/Emac/Ring.antt =====
-- lwip/src/arch/lpc17xx_40xx_emac.c: an array of four as a ring, seen from a position on.
use roip.Prelude.{
  ℕ, zero, suc, ◌+◌, ◌%◌, ◌<◌, ◌≡◌, refl, ap, List, [], ◌∷◌, ◌++◌, arith, length, get_elem?, set,
  take, drop, replicate, some,
}

-- The elements from position `c` on, round the end.
abbrev pub ring {ℓ} : {A : Type ℓ} → ℕ → List A → List A
ring c xs = drop c xs ++ take c xs

-- The position behind, as the source steps.
abbrev pub next : ℕ → ℕ
next i = (i + 1) % 4

-- What holds at four positions holds at each.
pub below_four {ℓ} : (P : ℕ → Type ℓ) → P 0 → P 1 → P 2 → P 3 → (i : ℕ) → i < 4 → P i
below_four P p q r s zero h = p
below_four P p q r s (suc zero) h = q
below_four P p q r s (suc (suc zero)) h = r
below_four P p q r s (suc (suc (suc zero))) h = s
below_four P p q r s (suc (suc (suc (suc i)))) h = absurd (omega arith)

module _ {ℓ} {A : Type ℓ} where
  of_four {κ} :
      (P : List A → Type κ)
      → ((a b c d : A) → P (a ∷ b ∷ c ∷ d ∷ []))
      → (xs : List A) → length xs ≡ 4
      → P xs
  of_four P p [] h = absurd (omega (arith, h))
  of_four P p (a ∷ []) h = absurd (omega (arith, h))
  of_four P p (a ∷ b ∷ []) h = absurd (omega (arith, h))
  of_four P p (a ∷ b ∷ c ∷ []) h = absurd (omega (arith, h))
  of_four P p (a ∷ b ∷ c ∷ d ∷ []) h = p a b c d
  of_four P p (a ∷ b ∷ c ∷ d ∷ e ∷ xs) h = absurd (omega (arith, h))

  -- A write `k` places behind the position is a write at place `k` of the ring.
  pub ring-set :
      (i k : ℕ) (v : A) (xs : List A)
      → i < 4
      → k < 4
      → length xs ≡ 4
      → ring i (set xs ((i + k) % 4) v) ≡ set (ring i xs) k v
  ring-set i k v xs h h' w =
      of_four (λ xs. ring i (set xs ((i + k) % 4) v) ≡ set (ring i xs) k v)
        (λ a b c d.
          below_four
            (λ i.
              ring i (set (a ∷ b ∷ c ∷ d ∷ []) ((i + k) % 4) v)
              ≡ set (ring i (a ∷ b ∷ c ∷ d ∷ [])) k v)
            (at 0 a b c d (refl, refl, refl, refl)) (at 1 a b c d (refl, refl, refl, refl))
            (at 2 a b c d (refl, refl, refl, refl)) (at 3 a b c d (refl, refl, refl, refl)) i h)
        xs w
    where
      Writes : ℕ → ℕ → A → A → A → A → Type ℓ
      Writes i k a b c d =
          ring i (set (a ∷ b ∷ c ∷ d ∷ []) ((i + k) % 4) v) ≡ set (ring i (a ∷ b ∷ c ∷ d ∷ [])) k v

      at :
          (i : ℕ) (a b c d : A)
          → Writes i 0 a b c d × Writes i 1 a b c d × Writes i 2 a b c d × Writes i 3 a b c d
          → Writes i k a b c d
      at i a b c d (p, q, r, s) = below_four (λ k. Writes i k a b c d) p q r s k h'

  -- One position further, the first element is the last.
  pub ring-next :
      (i : ℕ) (xs : List A) {y : A} {ys : List A}
      → i < 4
      → length xs ≡ 4
      → ring i xs ≡ y ∷ ys
      → ring (next i) xs ≡ ys ++ (y ∷ [])
  ring-next i xs {y} {ys} h w =
      of_four (λ xs. ring i xs ≡ y ∷ ys → ring (next i) xs ≡ ys ++ (y ∷ []))
        (λ a b c d.
          below_four
            (λ i.
              ring i (a ∷ b ∷ c ∷ d ∷ []) ≡ y ∷ ys
              → ring (next i) (a ∷ b ∷ c ∷ d ∷ []) ≡ ys ++ (y ∷ []))
            turned turned turned turned i h)
        xs w
    where
      turned : {z : A} {zs : List A} → z ∷ zs ≡ y ∷ ys → zs ++ (z ∷ []) ≡ ys ++ (y ∷ [])
      turned e = cc

  pub get_elem?-ring :
      (i : ℕ) (xs : List A) {y : A} {ys : List A}
      → i < 4
      → length xs ≡ 4
      → ring i xs ≡ y ∷ ys
      → get_elem? xs i ≡ some y
  get_elem?-ring i xs {y} {ys} h w =
      of_four (λ xs. ring i xs ≡ y ∷ ys → get_elem? xs i ≡ some y)
        (λ a b c d.
          below_four
            (λ i. ring i (a ∷ b ∷ c ∷ d ∷ []) ≡ y ∷ ys → get_elem? (a ∷ b ∷ c ∷ d ∷ []) i ≡ some y)
            first first first first i h)
        xs w
    where
      first : {z : A} {zs : List A} → z ∷ zs ≡ y ∷ ys → some z ≡ some y
      first e = cc

  -- A write behind a part of a list.
  pub set-append_length :
      (xs : List A) (y v : A) (ys : List A) → set (xs ++ (y ∷ ys)) (length xs) v ≡ xs ++ (v ∷ ys)
  set-append_length [] y v ys = refl
  set-append_length (x ∷ xs) y v ys = ap (λ r. x ∷ r) (set-append_length xs y v ys)

  pub replicate-snoc : (n : ℕ) (a : A) → replicate n a ++ (a ∷ []) ≡ replicate (suc n) a
  replicate-snoc zero a = refl
  replicate-snoc (suc n) a = ap (λ r. a ∷ r) (replicate-snoc n a)

-- A position inside a list has an element.
pub within {ℓ} :
    {A : Type ℓ} (xs : List A) (k : ℕ) → k < length xs → (x : A) × (get_elem? xs k ≡ some x)
within [] k lt = absurd (omega arith)
within (x ∷ xs) zero lt = (x, refl)
within (x ∷ xs) (suc k) lt = within xs k (omega arith)
