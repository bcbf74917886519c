-- ===== src/Prelude/Text.antt =====
-- Byte strings: `b"text".to_vec()` of an ASCII text.
use Prim.Native.Nat.{ℕ}
use Prim.Native.Char.{code}
use Prim.Native.String.{String}
use mathlib.Core.List.{List, [], ◌∷◌}

unfoldable pub code_bytes : String → List ℕ
code_bytes String.[] = []
code_bytes (String.◌∷◌ c s) = code c ∷ code_bytes s
