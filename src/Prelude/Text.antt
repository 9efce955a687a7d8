-- ===== src/Prelude/Text.antt =====
-- String literals as the bytes of an ASCII text.
use Prim.Native.String.{String}
use Prim.Native.Char.{code}
use go_mongo_sync.Prelude.Bytes.{Bytes}
use mathlib.Core.List.{[], ◌∷◌}

abbrev pub codes : String → Bytes
codes String.[] = []
codes (String.◌∷◌ c s) = code c ∷ codes s
