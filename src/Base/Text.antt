-- ===== src/Base/Text.antt =====
-- The bytes of a text in the source (all are ASCII, so a code point is a byte).
use Prim.Native.Char.{code}
use Prim.Native.String.{String}
use mathlib.Core.List.{[], ◌∷◌}
use utxo_block_emulator.Base.Eq.{Bytes}

abbrev pub codes : String → Bytes
codes (String.◌∷◌ letter text) = code letter ∷ codes text
codes String.[] = []
