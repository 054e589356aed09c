-- ===== src/Parser/Value/Fields.antt =====
-- apps/parser.c: on fields that are joined by separators, `get_value` finds the field asked for.
use roip.Prelude.{
  ℕ, zero, suc, ◌+◌, ◌≤◌, ◌<◌, ◌≡◌, refl, ◌∙◌, ap, true, false, Option, none, some, List, [], ◌∷◌,
  ◌++◌, append_assoc, arith, u8, ◌==◌, length, length-append, get_elem?, drop, drop-drop,
  drop-append_length, take-append_length, slice, ok,
}
use roip.Parser.Value.{is_digit, digits, value_loop, get_value}

abbrev pub AreDigits : List ℕ → Type 0
AreDigits [] = Unit
AreDigits (x ∷ xs) = (is_digit x ≡ true) × AreDigits xs

-- Each field followed by a byte that is no digit.
abbrev pub render : List (List ℕ × ℕ) → List ℕ
render [] = []
render ((f, sep) ∷ fs) = f ++ (sep ∷ render fs)

abbrev pub AreFields : List (List ℕ × ℕ) → Type 0
AreFields [] = Unit
AreFields ((f, sep) ∷ fs) = AreDigits f × (is_digit sep ≡ false) × AreFields fs

-- Where the field number `i` begins in the text.
abbrev pub offset : List (List ℕ × ℕ) → ℕ → ℕ
offset [] i = 0
offset (f ∷ fs) zero = 0
offset ((f, sep) ∷ fs) (suc i) = length f + 1 + offset fs i

pub digits-append :
    (f : List ℕ) (sep : ℕ) (rest : List ℕ)
    → AreDigits f
    → is_digit sep ≡ false
    → digits (f ++ (sep ∷ rest)) ≡ ok (length f)
unfolding digits
digits-append [] sep rest d s = rw s
digits-append (x ∷ f) sep rest d s = rw (d.0, digits-append f sep rest d.1 s)

-- The text of a list of fields, split at its first separator.
render-cons :
    (f : List ℕ) (sep : ℕ) (fs : List (List ℕ × ℕ)) (junk : List ℕ)
    → render ((f, sep) ∷ fs) ++ junk ≡ f ++ (sep ∷ (render fs ++ junk))
render-cons f sep fs junk = append_assoc f (sep ∷ render fs) junk

drop-field : (f : List ℕ) (sep : ℕ) (rest : List ℕ) → drop (length f + 1) (f ++ (sep ∷ rest)) ≡ rest
drop-field f sep rest =
    drop-drop (length f) 1 (f ++ (sep ∷ rest)) ∙ ap (drop 1) (drop-append_length f (sep ∷ rest))

length-render :
    (f : List ℕ) (sep : ℕ) (fs : List (List ℕ × ℕ))
    → length (render ((f, sep) ∷ fs)) ≡ length f + 1 + length (render fs)
length-render f sep fs = omega (arith, length-append f (sep ∷ render fs))

slice-field :
    (fs : List (List ℕ × ℕ)) (junk : List ℕ) (i : ℕ) {f : List ℕ} {sep : ℕ}
    → get_elem? fs i ≡ some (f, sep)
    → slice (offset fs i) (length f) (render fs ++ junk) ≡ f
slice-field [] junk i e = cc
slice-field ((g, s) ∷ fs) junk zero {f} e =
    let same : g ≡ f = cc in
    rw (render-cons g s fs junk, same) (take-append_length f (s ∷ (render fs ++ junk)))
slice-field ((g, s) ∷ fs) junk (suc i) {f} e =
    rw (render-cons g s fs junk, drop-drop (length g + 1) (offset fs i), drop-field)
      (slice-field fs junk i e)

same_field :
    {f g : List ℕ} {s t : ℕ} → ◌≡◌ {A = Option (List ℕ × ℕ)} (some (f, s)) (some (g, t)) → f ≡ g
same_field e = cc

module _ (buf : List ℕ) (len place : ℕ) (small : place < 256) where
  -- One round of the loop at the head of a list of fields.
  value_loop-step :
      (fuel c count : ℕ) (start : Option ℕ) (f : List ℕ) (sep : ℕ) (rest : List ℕ)
      → AreDigits f
      → is_digit sep ≡ false
      → drop c buf ≡ f ++ (sep ∷ rest)
      → c < len
      → value_loop (suc fuel) buf len place c count start ≡ elim (count == place) [
        | true ↦ ok (some c, some (u8 (length f)))
        | false ↦ value_loop fuel buf len place (c + length f + 1) (u8 (count + 1)) (some c)
      ]
  unfolding value_loop
  value_loop-step fuel c count start f sep rest d s e h =
      ground (arith, digits-append f sep rest d s)

  next :
      (c : ℕ) (f : List ℕ) (sep : ℕ) {rest : List ℕ}
      → drop c buf ≡ f ++ (sep ∷ rest)
      → drop (c + length f + 1) buf ≡ rest
  next c f sep {rest} e =
      ap (λ n. drop n buf) {x = c + length f + 1} {y = c + (length f + 1)} (omega arith)
      ∙ drop-drop c (length f + 1) buf
      ∙ ap (drop (length f + 1)) e
      ∙ drop-field f sep rest

  value_loop-fields :
      (fs : List (List ℕ × ℕ)) (junk : List ℕ) (i fuel c count : ℕ) (start : Option ℕ) {f : List ℕ}
      {sep : ℕ}
      → AreFields fs
      → drop c buf ≡ render fs ++ junk
      → c + length (render fs) ≡ len
      → count + i ≡ place
      → length (render fs) < fuel
      → get_elem? fs i ≡ some (f, sep)
      → value_loop fuel buf len place c count start
        ≡ ok (some (c + offset fs i), some (u8 (length f)))
  value_loop-fields [] junk i fuel c count start a e l p h g = cc
  value_loop-fields (x ∷ fs) junk i zero c count start a e l p h g = absurd (omega arith)
  value_loop-fields ((f0, s0) ∷ fs) junk zero (suc fuel) c count start a e l p h g =
      let at = e ∙ render-cons f0 s0 fs junk in
      let inside : c < len = omega (arith, length-render f0 s0 fs) in
      value_loop-step fuel c count start f0 s0 (render fs ++ junk) a.0 a.1 at inside
      ∙ ground (arith, ap length (same_field g))
  value_loop-fields ((f0, s0) ∷ fs) junk (suc i) (suc fuel) c count start a e l p h g =
      let at = e ∙ render-cons f0 s0 fs junk in
      let inside : c < len = omega (arith, length-render f0 s0 fs) in
      value_loop-step fuel c count start f0 s0 (render fs ++ junk) a.0 a.1 at inside
      ∙ ground (
        arith,
        value_loop-fields fs junk i fuel (c + length f0 + 1) (count + 1) (some c) a.2
            (next c f0 s0 at) (omega (arith, length-render f0 s0 fs)) (omega arith)
            (omega (arith, length-render f0 s0 fs)) g,
      )

  value_loop_end :
      (fuel c count : ℕ) (start : Option ℕ)
      → len ≤ c
      → value_loop (suc fuel) buf len place c count start ≡ ok (start, none)
  unfolding value_loop
  value_loop_end fuel c count start h = ground arith

  value_loop-missing :
      (fs : List (List ℕ × ℕ)) (junk : List ℕ) (fuel c count : ℕ) (start : Option ℕ)
      → AreFields fs
      → drop c buf ≡ render fs ++ junk
      → c + length (render fs) ≡ len
      → count + length fs ≤ place
      → length (render fs) < fuel
      → (s : Option ℕ) × (value_loop fuel buf len place c count start ≡ ok (s, none))
  value_loop-missing fs junk zero c count start a e l p h = absurd (omega arith)
  value_loop-missing [] junk (suc fuel) c count start a e l p h =
      (start, value_loop_end fuel c count start (omega arith))
  value_loop-missing ((f0, s0) ∷ fs) junk (suc fuel) c count start a e l p h =
      let at = e ∙ render-cons f0 s0 fs junk in
      let (s, rest) =
        value_loop-missing fs junk fuel (c + length f0 + 1) (count + 1) (some c) a.2
          (next c f0 s0 at) (omega (arith, length-render f0 s0 fs)) (omega arith)
          (omega (arith, length-render f0 s0 fs)) in
      (
        s,
        value_loop-step fuel c count start f0 s0 (render fs ++ junk) a.0 a.1 at
              (omega (arith, length-render f0 s0 fs))
            ∙ ground (arith, rest),
      )

-- In a text of fields, each a run of digits followed by another byte, `get_value` returns for the
-- place `i + 1` the position and the length of field `i`, and the bytes there are that field. The
-- text may stand in front of anything else. The place is a `uint8_t`, and so is the length.
pub get_value-field :
    (fs : List (List ℕ × ℕ)) (junk : List ℕ) (i : ℕ) {f : List ℕ} {sep : ℕ}
    → AreFields fs
    → get_elem? fs i ≡ some (f, sep)
    → i + 1 < 256
    → length f < 256
    → (get_value (render fs ++ junk) (length (render fs)) (i + 1)
        ≡ ok (some (offset fs i), some (length f)))
      × (slice (offset fs i) (length f) (render fs ++ junk) ≡ f)
unfolding get_value
get_value-field fs junk i {f} a g p h = (
  value_loop-fields (render fs ++ junk) (length (render fs)) (i + 1) p fs junk i
        (suc (length (render fs))) 0 1 none a refl (omega arith) (omega arith) (omega arith) g
      ∙ ground arith,
  slice-field fs junk i g,
)

-- With fewer fields than the place asked for, `get_value` leaves the caller's length as it was.
pub get_value-missing :
    (fs : List (List ℕ × ℕ)) (junk : List ℕ) (i : ℕ)
    → AreFields fs
    → length fs ≤ i
    → i + 1 < 256
    → (s : Option ℕ) × (get_value (render fs ++ junk) (length (render fs)) (i + 1) ≡ ok (s, none))
unfolding get_value
get_value-missing fs junk i a l p =
    value_loop-missing (render fs ++ junk) (length (render fs)) (i + 1) p fs junk
      (suc (length (render fs))) 0 1 none a refl (omega arith) (omega arith) (omega arith)

pub offset_le :
    (fs : List (List ℕ × ℕ)) (i : ℕ) {f : List ℕ} {sep : ℕ}
    → get_elem? fs i ≡ some (f, sep)
    → offset fs i + length f ≤ length (render fs)
offset_le [] i e = cc
offset_le ((g, s) ∷ fs) zero e = omega (arith, ap length (same_field e), length-render g s fs)
offset_le ((g, s) ∷ fs) (suc i) e = omega (arith, offset_le fs i e, length-render g s fs)
