-- ===== src/Base/Shas.antt =====
-- The pattern `^[0-9a-f]{40}$`, which both packages compile as `shaRe`.
use Prim.Native.Nat.{ℕ}
use Prim.Native.Char.{code}
use Prim.Native.String.{String}
use mathlib.Core.Bool.{Bool, true, ◌&&◌, ◌||◌}
use mathlib.Core.List.{List, [], ◌∷◌}
use autophage.Base.Tests.{leb, ◌==◌}
use autophage.Base.Lists.{length}

-- The characters of a text, as code points.
abbrev pub codes : String → List ℕ
codes String.[] = []
codes (String.◌∷◌ c s) = code c ∷ codes s

abbrev is_hex : ℕ → Bool
is_hex c = leb b'0' c && leb c b'9' || leb b'a' c && leb c b'f'

abbrev all_hex : List ℕ → Bool
all_hex [] = true
all_hex (c ∷ cs) = is_hex c && all_hex cs

-- `shaRe.MatchString(s)`: exactly forty characters, each a lower-case hexadecimal digit.
unfoldable pub is_sha : String → Bool
is_sha s = (length (codes s) == 40) && all_hex (codes s)
