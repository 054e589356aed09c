-- ===== src/Prelude/Memory.antt =====
-- Byte arrays of C: parts of an array, `memcpy` into it, and the string functions of <string.h>.
use Prim.Native.Nat.{ℕ, zero, suc, ◌+◌, ◌≤◌, ◌<◌}
use mathlib.Core.Path.{◌≡◌, refl, ap}
use mathlib.Core.Bool.{Bool, true, false}
use mathlib.Core.List.{List, [], ◌∷◌, ◌++◌}
use native.Mathlib.Omega.{arith}
use roip.Prelude.Tests.{if◌then◌else◌, ◌==◌, leb}
use roip.Prelude.Lists.{length, get_elem?, take, drop}
use roip.Prelude.Results.{Result, ok, fault, out_of_bounds, ◌>>=◌, of_option}

-- The bytes `off` to `off + n` of an array.
abbrev pub slice : ℕ → ℕ → List ℕ → List ℕ
slice off n xs = take n (drop off xs)

-- `memcpy(&xs[off], bs, length bs)`; what would fall outside is dropped.
abbrev pub write_at : List ℕ → ℕ → List ℕ → List ℕ
write_at [] i bs = []
write_at (x ∷ xs) zero [] = x ∷ xs
write_at (x ∷ xs) zero (b ∷ bs) = b ∷ write_at xs zero bs
write_at (x ∷ xs) (suc i) bs = x ∷ write_at xs i bs

-- The same where leaving the array is a fault.
abbrev pub memcpy : List ℕ → ℕ → List ℕ → Result (List ℕ)
memcpy xs off bs =
    if leb (off + length bs) (length xs) then ok (write_at xs off bs) else fault out_of_bounds

-- `xs[i]` where leaving the array is a fault.
abbrev pub read : List ℕ → ℕ → Result ℕ
read xs i = of_option (get_elem? xs i) out_of_bounds

-- Whether `strncmp(a, b, n) == 0`. The comparison stops at a difference or at a NUL, and reading
-- past the end of an array before that is a fault.
unfoldable pub strncmp_eq : List ℕ → List ℕ → ℕ → Result Bool
strncmp_eq a b zero = ok true
strncmp_eq [] b (suc n) = fault out_of_bounds
strncmp_eq (x ∷ a) [] (suc n) = fault out_of_bounds
strncmp_eq (x ∷ a) (y ∷ b) (suc n) =
    let rest = strncmp_eq a b n in if x == y then if x == 0 then ok true else rest else ok false

-- `strlen`; an array with no NUL is read past its end.
unfoldable pub strlen : List ℕ → Result ℕ
strlen [] = fault out_of_bounds
strlen (x ∷ xs) = let rest = strlen xs in if x == 0 then ok 0 else rest >>= λ n. ok (suc n)

-- The characters of a NUL-terminated text.
abbrev pub chars : List ℕ → List ℕ
chars [] = []
chars (x ∷ xs) = let rest = chars xs in if x == 0 then [] else x ∷ rest

pub length-write_at : (xs : List ℕ) (i : ℕ) (bs : List ℕ) → length (write_at xs i bs) ≡ length xs
length-write_at [] i bs = refl
length-write_at (x ∷ xs) zero [] = refl
length-write_at (x ∷ xs) zero (b ∷ bs) = ap suc (length-write_at xs zero bs)
length-write_at (x ∷ xs) (suc i) bs = ap suc (length-write_at xs i bs)

-- What was written is read back.
pub slice-write_at :
    (xs : List ℕ) (i : ℕ) (bs : List ℕ)
    → i + length bs ≤ length xs
    → slice i (length bs) (write_at xs i bs) ≡ bs
slice-write_at [] zero [] h = refl
slice-write_at [] zero (b ∷ bs) h = absurd (omega arith)
slice-write_at [] (suc i) bs h = absurd (omega arith)
slice-write_at (x ∷ xs) zero [] h = refl
slice-write_at (x ∷ xs) zero (b ∷ bs) h = ap (λ r. b ∷ r) (slice-write_at xs zero bs (omega arith))
slice-write_at (x ∷ xs) (suc i) bs h = slice-write_at xs i bs (omega arith)

-- A write leaves the bytes in front of it.
pub slice-write_at_before :
    (xs : List ℕ) (i : ℕ) (bs : List ℕ) (o n : ℕ)
    → o + n ≤ i
    → slice o n (write_at xs i bs) ≡ slice o n xs
slice-write_at_before [] i bs o n h = refl
slice-write_at_before (x ∷ xs) zero bs zero zero h = refl
slice-write_at_before (x ∷ xs) zero bs zero (suc n) h = absurd (omega arith)
slice-write_at_before (x ∷ xs) zero bs (suc o) n h = absurd (omega arith)
slice-write_at_before (x ∷ xs) (suc i) bs zero zero h = refl
slice-write_at_before (x ∷ xs) (suc i) bs zero (suc n) h =
    ap (λ r. x ∷ r) (slice-write_at_before xs i bs zero n (omega arith))
slice-write_at_before (x ∷ xs) (suc i) bs (suc o) n h =
    slice-write_at_before xs i bs o n (omega arith)

-- A write leaves the bytes behind it.
pub slice-write_at_after :
    (xs : List ℕ) (i : ℕ) (bs : List ℕ) (o n : ℕ)
    → i + length bs ≤ o
    → slice o n (write_at xs i bs) ≡ slice o n xs
slice-write_at_after [] i bs o n h = refl
slice-write_at_after (x ∷ xs) zero [] o n h = refl
slice-write_at_after (x ∷ xs) zero (b ∷ bs) zero n h = absurd (omega arith)
slice-write_at_after (x ∷ xs) zero (b ∷ bs) (suc o) n h =
    slice-write_at_after xs zero bs o n (omega arith)
slice-write_at_after (x ∷ xs) (suc i) bs zero n h = absurd (omega arith)
slice-write_at_after (x ∷ xs) (suc i) bs (suc o) n h =
    slice-write_at_after xs i bs o n (omega arith)

-- A write at the start of an array.
pub write_at-zero :
    (xs bs : List ℕ) → length bs ≤ length xs → write_at xs 0 bs ≡ bs ++ drop (length bs) xs
write_at-zero [] [] h = refl
write_at-zero [] (b ∷ bs) h = absurd (omega arith)
write_at-zero (x ∷ xs) [] h = refl
write_at-zero (x ∷ xs) (b ∷ bs) h = ap (λ r. b ∷ r) (write_at-zero xs bs (omega arith))

-- A write behind a part of an array.
pub write_at-append : (f xs bs : List ℕ) → write_at (f ++ xs) (length f) bs ≡ f ++ write_at xs 0 bs
write_at-append [] xs bs = refl
write_at-append (x ∷ f) xs bs = ap (λ r. x ∷ r) (write_at-append f xs bs)

pub memcpy-ok :
    (xs : List ℕ) (off : ℕ) (bs : List ℕ)
    → off + length bs ≤ length xs
    → memcpy xs off bs ≡ ok (write_at xs off bs)
memcpy-ok xs off bs h = ground arith

pub memcpy-fault :
    (xs : List ℕ) (off : ℕ) (bs : List ℕ)
    → length xs < off + length bs
    → memcpy xs off bs ≡ fault out_of_bounds
memcpy-fault xs off bs h = ground arith
