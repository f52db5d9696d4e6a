-- ===== src/Prelude/Text.antt =====
-- Text literals of the sources as the bytes that the compiler stores: UTF-8.
use Prim.Native.Nat.{ℕ, ◌+◌, ◌/◌, ◌%◌}
use Prim.Native.Char.{code}
use Prim.Native.String.{String}
use mathlib.Core.List.{[], ◌∷◌}
use alientek.Prelude.Tests.{ltb, if◌then◌else◌}
use alientek.Prelude.CString.{Bytes}

abbrev utf8_char : ℕ → Bytes → Bytes
utf8_char c rest =
    if ltb c 0x80
    then c ∷ rest
    else if ltb c 0x800
    then (0xc0 + c / 64) ∷ (0x80 + c % 64) ∷ rest
    else if ltb c 0x10000
    then (0xe0 + c / 4096) ∷ (0x80 + c / 64 % 64) ∷ (0x80 + c % 64) ∷ rest
    else (0xf0 + c / 262144)
      ∷ (0x80 + c / 4096 % 64)
      ∷ (0x80 + c / 64 % 64)
      ∷ (0x80 + c % 64)
      ∷ rest

abbrev pub text : String → Bytes
text String.[] = []
text (String.◌∷◌ c s) = utf8_char (code c) (text s)
