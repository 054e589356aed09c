-- ===== src/Httpd/Scan.antt =====
-- apps/httpd.c: how a request is scanned. The request is the memory from the payload pointer on, and a
-- pointer into it is a position.
pub mod Numbers
use roip.Prelude.{
  ℕ, zero, suc, ◌+◌, ◌-◌, ◌*◌, ◌/◌, ◌%◌, Bool, true, false, ◌&&◌, ◌||◌, List, [], ◌∷◌, ◌++◌, ltb,
  leb, ◌==◌, if◌then◌else◌, length, drop, Result, ok, fault, out_of_bounds, ◌>>=◌,
}

find_from : ℕ → ℕ → ℕ → List ℕ → Result ℕ
find_from x end p [] = fault out_of_bounds
find_from x end p (b ∷ bs) =
    let rest = find_from x end (p + 1) bs in
    if b == x then ok p else if ltb p end then rest else ok p

-- FIND_EQUALS, FIND_SPACE and FIND_AMPERSAND: `do{p++;}while(((*p) != x) && ((p) < (end)))`. The byte
-- at `end` is read too.
unfoldable pub find : ℕ → ℕ → List ℕ → ℕ → Result ℕ
unfolding find_from
find x end rq p = find_from x end (p + 1) (drop (p + 1) rq)

-- What <ctype.h> calls a space.
is_space : ℕ → Bool
is_space c = c == 32 || (leb 9 c && leb c 13)

unfoldable pub is_decimal : ℕ → Bool
is_decimal c = leb 48 c && leb c 57

-- The digits at the head of a text: their value so far and how many there are.
unfoldable pub number : ℕ → ℕ → List ℕ → Result (ℕ × ℕ)
unfolding is_decimal
number n k [] = fault out_of_bounds
number n k (c ∷ cs) =
    let rest = number (n * 10 + (c - 48)) (suc k) cs in if is_decimal c then rest else ok (n, k)

-- `strtoul(s, &s, 10)` of <stdlib.h> at the head of a text: the value, an `unsigned long` of 32 bits
-- that is the largest one if the number does not fit, and how far the pointer moves, which is
-- nothing if there are no digits. A sign is accepted, and a minus negates modulo 2^32.
clamp : Bool → ℕ → ℕ
clamp negative n =
    if ltb 4294967295 n then 4294967295 else if negative then (4294967296 - n) % 4294967296 else n

signed_number : Bool → ℕ → List ℕ → Result (ℕ × ℕ)
unfolding clamp number
signed_number negative skipped cs = do
  (n, k) ← number 0 0 cs
  ok (clamp negative n, if k == 0 then 0 else skipped + k)

unfoldable pub strtoul_from : ℕ → List ℕ → Result (ℕ × ℕ)
unfolding is_space signed_number
strtoul_from skipped [] = fault out_of_bounds
strtoul_from skipped (c ∷ cs) =
    let rest = strtoul_from (suc skipped) cs in
    let minus = signed_number true (suc skipped) cs in
    let plus = signed_number false (suc skipped) cs in
    let plain = signed_number false skipped (c ∷ cs) in
    if is_space c then rest else if c == b'-' then minus else if c == b'+' then plus else plain

-- The value at a position, and the position behind it.
unfoldable pub strtoul : List ℕ → ℕ → Result (ℕ × ℕ)
unfolding strtoul_from
strtoul rq p = strtoul_from 0 (drop p rq) >>= λ r. ok (r.0, p + r.1)

-- `(uint8_t) (strtoul(new_setup, delimiter, 10) & 0xFF)`
unfoldable pub octet : List ℕ → ℕ → Result (ℕ × ℕ)
unfolding strtoul
octet rq p = strtoul rq p >>= λ r. ok (r.0 % 256, r.1)

-- The same, with the step to the next value: FIND_EQUALS, and one further.
unfoldable pub next_octet : ℕ → List ℕ → ℕ → Result (ℕ × ℕ)
unfolding octet find
next_octet end rq p = do (n, q) ← octet rq p; e ← find b'=' end rq q; ok (n, e + 1)

-- `sprintf(s, "%u", n)` for a byte `n`.
unfoldable pub decimal : ℕ → List ℕ
decimal n =
    if ltb n 10
    then (48 + n) ∷ []
    else if ltb n 100
    then (48 + n / 10) ∷ (48 + n % 10) ∷ []
    else (48 + n / 100) ∷ (48 + n / 10 % 10) ∷ (48 + n % 10) ∷ []
