-- ===== src/Voice/Header.antt =====
-- apps/speex_udp.c: what `enc` holds while `spudp_send` fills it.
use roip.Prelude.{
  ℕ, zero, suc, ◌+◌, ◌≤◌, ◌<◌, ◌≡◌, refl, sym, ap, ap₂, subst, ◌∙◌, Bool-cases, List, [], ◌∷◌, ◌++◌,
  append-nil, append_assoc, arith, u8, ◌==◌, length, length-append, length-write_at, take,
  replicate, write_at, memcpy-ok, strlen, Result-cases, inl, inr, ok,
}
use roip.Voice.{put, put_all, fill_header}

-- The first `n` bytes of the array are `done`, and the index is behind them.
pub record Filled (done : List ℕ) (n : ℕ) (s : List ℕ × ℕ) : Type 0 where
  pub wide : length s.0 ≡ 256
  pub index : s.1 ≡ n
  pub first : take n s.0 ≡ done

pub take-write_at :
    (xs : List ℕ) (i : ℕ) (bs : List ℕ)
    → i + length bs ≤ length xs
    → take (i + length bs) (write_at xs i bs) ≡ take i xs ++ bs
take-write_at [] zero [] h = refl
take-write_at [] zero (b ∷ bs) h = absurd (omega arith)
take-write_at [] (suc i) bs h = absurd (omega arith)
take-write_at (x ∷ xs) zero [] h = refl
take-write_at (x ∷ xs) zero (b ∷ bs) h =
    let next : 0 + suc (length bs) ≡ suc (0 + length bs) = omega arith in
    rw next (ap (λ r. b ∷ r) (take-write_at xs 0 bs (omega (arith, h))))
take-write_at (x ∷ xs) (suc i) bs h =
    let next : suc i + length bs ≡ suc (i + length bs) = omega arith in
    rw next (ap (λ r. x ∷ r) (take-write_at xs i bs (omega (arith, h))))

put-Filled :
    (bs done : List ℕ) (n : ℕ) (s : List ℕ × ℕ)
    → Filled done n s
    → n + length bs < 256
    → (s' : List ℕ × ℕ) × (put bs s ≡ ok s') × Filled (done ++ bs) (n + length bs) s'
put-Filled bs done n (enc, c) f h =
    let fits : n + length bs ≤ length enc = omega (arith, f.wide) in
    let copied = memcpy-ok enc n bs fits in
    (
      (write_at enc n bs, u8 (n + length bs)),
      rw (f.index, copied) refl,
      record {
        wide = length-write_at enc n bs ∙ f.wide;
        index = omega arith;
        first = take-write_at enc n bs fits ∙ ap (λ r. r ++ bs) f.first;
      },
    )

abbrev pub join : List (List ℕ) → List ℕ
join [] = []
join (bs ∷ pieces) = bs ++ join pieces

put_all-Filled :
    (pieces : List (List ℕ)) (done : List ℕ) (n : ℕ) (s : List ℕ × ℕ)
    → Filled done n s
    → n + length (join pieces) < 256
    → (s' : List ℕ × ℕ) × (put_all pieces s ≡ ok s')
      × Filled (done ++ join pieces) (n + length (join pieces)) s'
unfolding put_all
put_all-Filled [] done n s f h =
    let n_zero : n + 0 ≡ n = omega arith in (s, refl, rw (append-nil done, n_zero) f)
put_all-Filled (bs ∷ pieces) done n s f h =
    let wide = length-append bs (join pieces) in
    let (s1, q, f1) = put-Filled bs done n s f (omega (arith, wide)) in
    let (s', r, f') =
      put_all-Filled pieces (done ++ bs) (n + length bs) s1 f1 (omega (arith, wide)) in
    let at : n + length bs + length (join pieces) ≡ n + length (bs ++ join pieces) =
      omega (arith, wide) in
    (s', rw q r, rw (← append_assoc done bs (join pieces), ← at) f')

-- The header of a packet: its length, and the three texts between commas.
abbrev pub header : List ℕ → List ℕ → List ℕ → List ℕ
header a b c =
    join (((length a + length b + length c + 3) ∷ []) ∷ a ∷ (44 ∷ []) ∷ b ∷ (44 ∷ []) ∷ c ∷ [])

pub length-header : (a b c : List ℕ) → length (header a b c) ≡ length a + length b + length c + 3
length-header a b c = simp length-append (omega arith)

strlen-bound : (xs : List ℕ) (n : ℕ) → strlen xs ≡ ok n → n < length xs
unfolding strlen
strlen-bound [] n h = cc
strlen-bound (x ∷ xs) n h = elim (Bool-cases (x == 0)) [
  | inl z ↦ ground (arith, z)
  | inr z ↦ elim (Result-cases (strlen xs)) [
    | inl (m, q) ↦ ground (arith, q, z, strlen-bound xs m q)
    | inr (f, q) ↦ ground (arith, q, z)
  ]
]

-- A text and its length.
pub record IsText (t : List ℕ) (id : List ℕ) : Type 0 where
  pub ends : strlen id ≡ ok (length t)
  pub starts : take (length t) id ≡ t

abbrev pieces_of : List ℕ → List ℕ → List ℕ → List (List ℕ)
pieces_of a b c =
    ((length a + length b + length c + 3) ∷ []) ∷ a ∷ (44 ∷ []) ∷ b ∷ (44 ∷ []) ∷ c ∷ []

module _ (a b c : List ℕ) (short : length a + length b + length c < 253) where
  pieces_of-Filled :
      (s : List ℕ × ℕ) × (put_all (pieces_of a b c) (replicate 256 0, 0) ≡ ok s)
      × Filled (header a b c) (length (header a b c)) s
  pieces_of-Filled =
      let blank : Filled [] 0 (replicate 256 0, 0) = record {
        wide = refl;
        index = refl;
        first = refl;
      } in
      let (s, q, f) =
        put_all-Filled (pieces_of a b c) [] 0 (replicate 256 0, 0) blank
          (omega (arith, length-header a b c)) in
      let from_zero : 0 + length (header a b c) ≡ length (header a b c) = omega arith in
      (s, q, subst (λ n. Filled (header a b c) n s) from_zero f)

  module _ (id gid id2 : List ℕ) (x : IsText a id) (y : IsText b gid) (z : IsText c id2) where
    fill_header-pieces_of :
        (enc : List ℕ) (n : ℕ)
        → put_all (pieces_of a b c) (replicate 256 0, 0) ≡ ok (enc, n)
        → fill_header id gid id2 ≡ ok (enc, n, length a + length b + length c + 3)
    unfolding fill_header
    fill_header-pieces_of enc n q =
        let ua : u8 (length a) ≡ length a = omega arith in
        let ub : u8 (length b) ≡ length b = omega arith in
        let uc : u8 (length c) ≡ length c = omega arith in
        let total : u8 (length a + length b + length c + 3) ≡ length a + length b + length c + 3 =
          omega arith in
        rw (x.ends, y.ends, z.ends, ua, ub, uc, x.starts, y.starts, z.starts, total, q) refl

    -- The header is at the start of `enc`, and the index is behind it.
    pub fill_header-header :
        (enc : List ℕ) × (fill_header id gid id2
          ≡ ok (enc, length (header a b c), length (header a b c)))
        × (length enc ≡ 256)
        × (take (length (header a b c)) enc ≡ header a b c)
    fill_header-header =
        let ((enc, n), q, f) = pieces_of-Filled in
        (
          enc,
          fill_header-pieces_of enc n q
              ∙ ap₂ (λ (k m : ℕ). ok (enc, k, m)) f.index (sym (length-header a b c)),
          f.wide,
          f.first,
        )
