-- ===== src/Prelude/Text.antt =====
-- Text literals as the bytes that C keeps for them.
use Prim.Native.Char.{code}
use Prim.Native.String.{String}
use Prim.Native.Nat.{ℕ}
use mathlib.Core.List.{List, [], ◌∷◌, ◌++◌}

abbrev pub codes : String → List ℕ
codes String.[] = []
codes (String.◌∷◌ c s) = code c ∷ codes s

-- The literal with its NUL.
abbrev pub c_str : String → List ℕ
c_str s = codes s ++ (0 ∷ [])
