-- ===== src/Prelude/Text.antt =====
-- Texts as the validators read them.
use Prim.Native.Char.{code}
use Prim.Native.Nat.{ℕ, suc}
use Prim.Native.String.{String, len}
use mathlib.Core.Bool.{Bool, false, not, ◌&&◌, ◌||◌}
use llama.Prelude.Tests.{ltb, leb, ◌==◌}

-- `len(s)`, which counts characters; the library's `len` counts the bytes of the UTF-8 encoding.
unfoldable pub char_count : String → ℕ
char_count String.[] = 0
char_count (String.◌∷◌ c s) = suc (char_count s)

-- `ord(character) < 0x20 or ord(character) == 0x7F` for some character
unfoldable pub has_control : String → Bool
has_control String.[] = false
has_control (String.◌∷◌ c s) = (ltb (code c) 0x20 || code c == 0x7f) || has_control s

-- A text of at most `limit` bytes that is not empty and has no control character
unfoldable pub is_identifier : ℕ → String → Bool
unfolding has_control
is_identifier limit s = not (len s == 0) && leb (len s) limit && not (has_control s)
