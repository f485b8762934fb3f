-- ===== src/Prelude/Runes.antt =====
-- Texts as lists of runes: the runes of a literal, and the ASCII part of Go's `unicode` tables.
use Prim.Native.Nat.{ℕ, ◌+◌, ◌-◌}
use Prim.Native.Char.{code}
use Prim.Native.String.{String}
use mathlib.Core.Bool.{Bool, ◌&&◌, ◌||◌}
use mathlib.Core.List.{List, [], ◌∷◌}
use fieldwatchai_comms_openk.Prelude.Tests.{leb, if◌then◌else◌, ◌==◌, comparable_nat}

abbrev pub codes : String → List ℕ
codes String.[] = []
codes (String.◌∷◌ c s) = code c ∷ codes s

unfoldable pub is_upper : ℕ → Bool
is_upper r = leb b'A' r && leb r b'Z'

unfoldable pub is_lower : ℕ → Bool
is_lower r = leb b'a' r && leb r b'z'

unfoldable pub to_upper : ℕ → ℕ
unfolding is_lower
to_upper r = if is_lower r then r - 32 else r

unfoldable pub to_lower : ℕ → ℕ
unfolding is_upper
to_lower r = if is_upper r then r + 32 else r

-- `unicode.IsSpace`, the whole table.
unfoldable pub is_space : ℕ → Bool
is_space r =
    (leb 9 r && leb r 13)
    || r == 32
    || r == 0x85
    || r == 0xA0
    || r == 0x1680
    || (leb 0x2000 r && leb r 0x200a)
    || r == 0x2028
    || r == 0x2029
    || r == 0x202f
    || r == 0x205f
    || r == 0x3000
