-- ===== src/Httpd/Scan/Numbers.antt =====
-- apps/httpd.c: what the scanning functions find in a text that is put together from parts.
use roip.Prelude.{
  ℕ, suc, ◌+◌, ◌/◌, ◌%◌, ◌≤◌, ◌<◌, ◌≡◌, refl, sym, ◌∙◌, ap, true, false, List, [], ◌∷◌, ◌++◌, arith,
  ◌==◌, ==_self, ltb, length, length-append, drop, drop-drop, drop-append_length, ok, Bool-cases,
  inl, inr,
}
use roip.Httpd.Scan.{
  find_from, find, is_decimal, is_space, number, clamp, signed_number, strtoul_from, strtoul, octet,
  next_octet, decimal,
}

-- A text in which a character does not occur.
abbrev pub Lacks : ℕ → List ℕ → Type 0
Lacks x [] = Unit
Lacks x (y ∷ ys) = ((y == x) ≡ false) × Lacks x ys

find_from-hit :
    (x end p : ℕ) (f rest : List ℕ)
    → Lacks x f
    → p + length f ≤ end
    → find_from x end p (f ++ (x ∷ rest)) ≡ ok (p + length f)
unfolding find_from
find_from-hit x end p [] rest l h = rw (==_self x) (ap ok (omega arith))
find_from-hit x end p (y ∷ f) rest (ne, l) h =
    let next = find_from-hit x end (p + 1) f rest l (omega arith) in ground (arith, next, ne)

-- The scan stops at the first occurrence behind its start, if that is within the packet.
pub find-hit :
    (x end p : ℕ) (rq f rest : List ℕ)
    → Lacks x f
    → drop (p + 1) rq ≡ f ++ (x ∷ rest)
    → p + 1 + length f ≤ end
    → find x end rq p ≡ ok (p + 1 + length f)
unfolding find
find-hit x end p rq f rest l d h = rw d (find_from-hit x end (p + 1) f rest l h)

-- A byte printed in decimal is read as itself, up to a character that is no digit.
number-decimal :
    (n c : ℕ) (rest : List ℕ)
    → n < 256
    → is_decimal c ≡ false
    → number 0 0 (decimal n ++ (c ∷ rest)) ≡ ok (n, length (decimal n))
unfolding number decimal
number-decimal n c rest h e = ground (arith, is_decimal)

-- The first digit is neither a space nor a sign.
strtoul_from-digit :
    (c : ℕ) (cs : List ℕ)
    → is_decimal c ≡ true
    → strtoul_from 0 (c ∷ cs) ≡ signed_number false 0 (c ∷ cs)
unfolding strtoul_from is_space is_decimal
strtoul_from-digit c cs e = ground arith

decimal-cons :
    (n : ℕ) → n < 256 → (c : ℕ) × (cs : List ℕ) × (decimal n ≡ c ∷ cs) × (is_decimal c ≡ true)
unfolding decimal is_decimal
decimal-cons n h = elim (Bool-cases (ltb n 10)) [
  | inl a ↦ (48 + n, [], rw a refl, ground arith)
  | inr a ↦ elim (Bool-cases (ltb n 100)) [
    | inl b ↦ (48 + n / 10, (48 + n % 10) ∷ [], rw (a, b) refl, ground arith)
    | inr b ↦ (48 + n / 100, (48 + n / 10 % 10) ∷ (48 + n % 10) ∷ [], rw (a, b) refl, ground arith)
  ]
]

strtoul_from-decimal :
    (n c : ℕ) (rest : List ℕ)
    → n < 256
    → is_decimal c ≡ false
    → strtoul_from 0 (decimal n ++ (c ∷ rest)) ≡ ok (n, length (decimal n))
unfolding signed_number clamp
strtoul_from-decimal n c rest h e =
    let (d, ds, p, q) = decimal-cons n h in
    let value = number-decimal n c rest h e in
    ap (λ t. strtoul_from 0 (t ++ (c ∷ rest))) p
    ∙ strtoul_from-digit d (ds ++ (c ∷ rest)) q
    ∙ ap (λ t. signed_number false 0 (t ++ (c ∷ rest))) (sym p)
    ∙ ground (arith, value, p)

-- An octet at a position is read back, and the position moves behind it.
pub octet-decimal :
    (n c p : ℕ) (rq rest : List ℕ)
    → n < 256
    → is_decimal c ≡ false
    → drop p rq ≡ decimal n ++ (c ∷ rest)
    → octet rq p ≡ ok (n, p + length (decimal n))
unfolding octet strtoul
octet-decimal n c p rq rest h e d =
    rw (d, strtoul_from-decimal n c rest h e)
      (ap (λ r. ok (r, p + length (decimal n))) (omega arith))

-- What stands between two values: its first character, and the others up to the `=`.
abbrev pub Gap : Type 0
Gap = ℕ × List ℕ

abbrev pub IsGap : Gap → Type 0
IsGap (c, name) = (is_decimal c ≡ false) × Lacks b'=' name

-- Values in decimal, each with the gap behind it, and then a tail.
abbrev pub form : (ℕ → Gap) → ℕ → List ℕ → List ℕ → List ℕ
form gap i [] tail = tail
form gap i (n ∷ ns) tail =
    decimal n ++ ((gap i).0 ∷ ((gap i).1 ++ (b'=' ∷ form gap (suc i) ns tail)))

-- A position of the request where such values begin, all of them within the packet.
abbrev pub At : (ℕ → Gap) → List ℕ → ℕ → List ℕ → ℕ → ℕ → List ℕ → Type 0
At gap tail end rq p i ns =
    (drop p rq ≡ form gap i ns tail) × (p + length (form gap i ns tail) ≤ end)

module _ (gap : ℕ → Gap) (gaps : (i : ℕ) → IsGap (gap i)) (tail : List ℕ) (end : ℕ)
    (rq : List ℕ) where
  -- One value is read, and the position moves to the next.
  pub next_octet-form :
      (p i n : ℕ) (ns : List ℕ)
      → n < 256
      → At gap tail end rq p i (n ∷ ns)
      → (q : ℕ) × (next_octet end rq p ≡ ok (n, q)) × At gap tail end rq q (suc i) ns
  unfolding next_octet
  next_octet-form p i n ns h (d, b) =
      let name = (gap i).1 in
      let rest = form gap (suc i) ns tail in
      let text = name ++ (b'=' ∷ rest) in
      let q = p + length (decimal n) in
      let long = length-append (decimal n) ((gap i).0 ∷ text) in
      let long2 = length-append name (b'=' ∷ rest) in
      let behind : drop q rq ≡ (gap i).0 ∷ text =
        drop-drop p (length (decimal n)) rq
        ∙ (ap (drop (length (decimal n))) d ∙ drop-append_length (decimal n) ((gap i).0 ∷ text)) in
      let inside : drop (q + 1) rq ≡ text = drop-drop q 1 rq ∙ ap (drop 1) behind in
      let found =
        find-hit b'=' end q rq name rest (gaps i).1 inside (omega (arith, b, long, long2)) in
      let read = octet-decimal n (gap i).0 p rq text h (gaps i).0 d in
      (
        q + 1 + length name + 1,
        rw (read, found) refl,
        (
          drop-drop (q + 1 + length name) 1 rq
              ∙ (ap (drop 1) (drop-drop (q + 1) (length name) rq)
                  ∙ (ap (λ r. drop 1 (drop (length name) r)) inside
                      ∙ ap (drop 1) (drop-append_length name (b'=' ∷ rest)))),
          omega (arith, b, long, long2),
        ),
      )
