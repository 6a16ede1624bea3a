-- ===== src/Prelude/Bytes.antt =====
-- `bytes`, and what the program takes from Python's built-ins on them: `int`, `decode`, `rfind`,
-- `rstrip` and fixed-width decimals. A byte is a number below 256.
pub mod Search
pub mod Number
pub mod Utf8
pub mod Order
pub mod Blank
use mathlib.Core.List.{List, [], ◌∷◌}
use Prim.Native.String.{String}
use Prim.Native.String
use Prim.Native.Char.{code}
use Prim.Native.Nat.{ℕ}

abbrev pub Bytes : Type 0
Bytes = List ℕ

-- The code points of a text.
abbrev pub codes : String → List ℕ
codes String.[] = []
codes (String.◌∷◌ letter rest) = code letter ∷ codes rest
