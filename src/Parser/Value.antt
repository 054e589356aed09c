-- ===== src/Parser/Value.antt =====
-- apps/parser.c: `get_value`, which finds the field at a given place of a message.
pub mod Fields
use roip.Prelude.{
  ℕ, zero, suc, ◌+◌, Bool, true, false, ◌&&◌, Option, none, some, List, [], ◌∷◌, u8, ltb, leb, ◌==◌,
  if◌then◌else◌, drop, Result, ok, fault, out_of_bounds, no_fuel, ◌>>=◌,
}

-- `buf[c] >= 0x30 && buf[c] <= 0x39`
abbrev pub is_digit : ℕ → Bool
is_digit c = leb 0x30 c && leb c 0x39

-- The inner loop: how many digits there are in front of the first other byte. Running into the end
-- of the array is a fault.
pub digits : List ℕ → Result ℕ
digits [] = fault out_of_bounds
digits (x ∷ xs) = let rest = digits xs in if is_digit x then (rest >>= λ n. ok (suc n)) else ok 0

-- The outer loop, from position `c` and field `count_place`. The result is the position that is
-- returned (`none` for the null pointer), and what `*out_len` is set to (`none` if it is not set).
-- The position grows in each round, so `len` rounds are enough.
unfoldable pub value_loop : ℕ → List ℕ → ℕ → ℕ → ℕ → ℕ → Option ℕ → Result (Option ℕ × Option ℕ)
unfolding digits
value_loop zero buf len place c count_place start = fault no_fuel
value_loop (suc fuel) buf len place c count_place start = elim (ltb c len) [
  | true ↦ digits (drop c buf) >>= λ seg_len. elim (count_place == place) [
    | true ↦ ok (some c, some (u8 seg_len))
    | false ↦ value_loop fuel buf len place (c + seg_len + 1) (u8 (count_place + 1)) (some c)
  ]
  | false ↦ ok (start, none)
]

-- `get_value`; `buf` is the rest of the array from the pointer on.
unfoldable pub get_value : List ℕ → ℕ → ℕ → Result (Option ℕ × Option ℕ)
unfolding value_loop
get_value buf len place = value_loop (suc len) buf len place 0 1 none
