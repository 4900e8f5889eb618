-- ===== src/Base/Text.antt =====
-- String literals as the bytes that the C compiler lays down, without the final zero.
use Prim.Native.Nat.{ℕ}
use Prim.Native.Char.{code}
use Prim.Native.String.{String}
use mathlib.Core.List.{List, [], ◌∷◌, ◌++◌}

abbrev pub codes : String → List ℕ
codes String.[] = []
codes (String.◌∷◌ letter others) = code letter ∷ codes others

-- The texts of consecutive prints.
abbrev pub joined : List (List ℕ) → List ℕ
joined [] = []
joined (s ∷ ss) = s ++ joined ss
