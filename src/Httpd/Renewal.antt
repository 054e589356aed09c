-- ===== src/Httpd/Renewal.antt =====
-- apps/httpd.c: a field of a request is copied into an array of 16 bytes.
pub mod Store
pub mod Change
pub mod Overflow
use roip.Prelude.{
  ℕ, zero, suc, ◌+◌, ◌-◌, ◌≤◌, ◌<◌, ◌≡◌, refl, sym, ◌∙◌, ap, subst, Bool, true, false, Bool-cases,
  inl, inr, ◌↔◌, List, [], ◌∷◌, ◌++◌, append_assoc, arith, ◌==◌, ==_iff, length, length-append,
  length-replicate, length-drop, take, take-append_length, drop, drop-drop, drop-append_length,
  replicate, slice, write_at, write_at-zero, write_at-append, length-write_at, leb, leb→le, memcpy,
  memcpy-ok, memcpy-fault, strncmp_eq, strlen, Result, ok, fault, out_of_bounds, ◌>>=◌, some,
}
use roip.Httpd.Scan.{find}
use roip.Httpd.Scan.Numbers.{Lacks, find-hit}
use roip.Httpd.{copy_terminated, copy_field}

written :
    (f : List ℕ) (y : ℕ) (ys : List ℕ)
    → length f < 16
    → drop (length f) (replicate 16 0) ≡ y ∷ ys
    → copy_terminated (length f) f ≡ ok (f ++ (0 ∷ write_at ys 0 []))
unfolding copy_terminated
written f y ys h e =
    let xs = replicate 16 0 in
    let copied = memcpy-ok xs 0 f (omega arith) in
    let closed =
      memcpy-ok (write_at xs 0 f) (length f) (0 ∷ []) (omega (arith, length-write_at xs 0 f)) in
    let begun = write_at-zero xs f (omega arith) ∙ ap (λ r. f ++ r) e in
    ap (λ r. r >>= λ c. memcpy c (length f) (0 ∷ [])) copied
    ∙ (closed
        ∙ (ap (λ r. ok (write_at r (length f) (0 ∷ []))) begun
            ∙ ap ok (write_at-append f (y ∷ ys) (0 ∷ []))))

nonempty : (zs : List ℕ) → 0 < length zs → (y : ℕ) × (ys : List ℕ) × (zs ≡ y ∷ ys)
nonempty [] p = absurd (omega arith)
nonempty (y ∷ ys) p = (y, ys, refl)

-- A text of less than 16 bytes is copied and terminated.
copy_terminated-fits :
    (f : List ℕ)
    → length f < 16
    → (junk : List ℕ) × (copy_terminated (length f) f ≡ ok (f ++ (0 ∷ junk)))
      × (length junk + length f ≡ 15)
copy_terminated-fits f h =
    let (y, ys, e) =
      nonempty (drop (length f) (replicate 16 0))
        (omega (arith, length-drop {A = ℕ} (length f) (replicate 16 0))) in
    (
      write_at ys 0 [],
      written f y ys h e,
      omega (
        arith,
        length-write_at ys 0 [],
        length-drop {A = ℕ} (length f) (replicate 16 0),
        ap length e,
      ),
    )

copy_terminated-overflows :
    (f : List ℕ) → 16 ≤ length f → copy_terminated (length f) f ≡ fault out_of_bounds
unfolding copy_terminated
copy_terminated-overflows f h = elim (Bool-cases (leb (length f) 16)) [
  | inl fits ↦
      ap (λ r. r >>= λ c. memcpy c (length f) (0 ∷ []))
        (memcpy-ok (replicate 16 0) 0 f (omega (arith, leb→le (length f) 16 fits)))
      ∙ memcpy-fault (write_at (replicate 16 0) 0 f) (length f) (0 ∷ [])
          (omega (arith, length-write_at (replicate 16 0) 0 f))
  | inr wide ↦
      ap (λ r. r >>= λ c. memcpy c (length f) (0 ∷ []))
        (memcpy-fault (replicate 16 0) 0 f (grind arith))
]

-- A text at a position of the request, all of it within the packet.
abbrev pub Within : ℕ → List ℕ → ℕ → List ℕ → Type 0
Within end rq p text = (drop p rq ≡ text) × (p + length text ≤ end)

Within-step :
    (end p : ℕ) (rq f rest : List ℕ)
    → Within end rq p (f ++ rest)
    → Within end rq (p + length f) rest
Within-step end p rq f rest (d, b) = (
  drop-drop p (length f) rq ∙ (ap (drop (length f)) d ∙ drop-append_length f rest),
  omega (arith, b, length-append f rest),
)

module _ (x end p : ℕ) (rq name : List ℕ) (f0 : ℕ) (fs rest : List ℕ) (named : Lacks b'=' name)
    (field : Lacks x fs)
    (at : Within end rq (p + 1) (name ++ (b'=' ∷ (f0 ∷ (fs ++ (x ∷ rest)))))) where
  abbrev value : ℕ
  value = p + 1 + length name + 1

  at_value : Within end rq value (f0 ∷ (fs ++ (x ∷ rest)))
  at_value =
      Within-step end (p + 1 + length name) rq (b'=' ∷ []) _ (Within-step end (p + 1) rq name _ at)

  at_next : Within end rq (value + 1) (fs ++ (x ∷ rest))
  at_next = Within-step end value rq (f0 ∷ []) _ at_value

  found_value : find b'=' end rq p ≡ ok (p + 1 + length name)
  found_value =
      find-hit b'=' end p rq name _ named at.0
        (omega (arith, at.1, length-append name (b'=' ∷ (f0 ∷ (fs ++ (x ∷ rest))))))

  found_end : find x end rq value ≡ ok (value + 1 + length fs)
  found_end =
      find-hit x end value rq fs rest field at_next.0
        (omega (arith, at_next.1, length-append fs (x ∷ rest)))

  field_slice : slice value (suc (length fs)) rq ≡ f0 ∷ fs
  field_slice =
      ap (take (suc (length fs))) at_value.0 ∙ ap (λ r. f0 ∷ r) (take-append_length fs (x ∷ rest))

  width : value + 1 + length fs - value ≡ suc (length fs)
  width = omega arith

  -- A field of less than 16 characters, and of at least one, is copied and terminated.
  pub copy_field-fits :
      length fs < 15
      → (junk : List ℕ) × (copy_field x end rq p ≡ ok (f0 ∷ (fs ++ (0 ∷ junk)), value))
        × (length junk + length fs ≡ 14)
  unfolding copy_field
  copy_field-fits h =
      let (junk, e, w) = copy_terminated-fits (f0 ∷ fs) (omega arith) in
      (junk, rw (found_value, found_end, width, field_slice, e) refl, omega (arith, w))

  pub copy_field-overflows : 15 ≤ length fs → copy_field x end rq p ≡ fault out_of_bounds
  unfolding copy_field
  copy_field-overflows h =
      rw
        (
          found_value,
          found_end,
          width,
          field_slice,
          copy_terminated-overflows (f0 ∷ fs) (omega arith),
        )
        refl
