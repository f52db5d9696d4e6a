-- ===== src/Prelude/CString.antt =====
-- C strings as the bytes before their terminator, and the functions of libc that the sources call
-- on them. The end of a list is the '\0'; a byte 0 does not stand inside one.
use Prim.Native.Nat.{ℕ, zero, suc, ◌-◌, ◌+◌}
use mathlib.Core.Bool.{Bool, true, false, ◌&&◌, ◌||◌}
use mathlib.Core.List.{List, [], ◌∷◌}
use mathlib.Core.Option.{Option, none, some}
use alientek.Prelude.Tests.{within, ◌==◌, if◌then◌else◌}
use alientek.Prelude.Lists.{take}

abbrev pub Bytes : Type 0
Bytes = List ℕ

-- isspace, isdigit and isxdigit in the C locale
unfoldable pub is_space : ℕ → Bool
is_space c = c == 32 || within 9 13 c

unfoldable pub is_digit : ℕ → Bool
is_digit c = within b'0' b'9' c

unfoldable pub is_xdigit : ℕ → Bool
is_xdigit c = within b'0' b'9' c || within b'a' b'f' c || within b'A' b'F' c

-- tolower in the C locale, for strcasestr and strncasecmp
unfoldable pub to_lower : ℕ → ℕ
to_lower c = if within b'A' b'Z' c then c + 32 else c

-- strcmp(a, b) == 0
unfoldable pub str_eq : Bytes → Bytes → Bool
str_eq [] [] = true
str_eq (x ∷ xs) (y ∷ ys) = x == y && str_eq xs ys
str_eq _ _ = false

-- strncmp(s, prefix, strlen(prefix)) == 0
unfoldable pub starts_with : Bytes → Bytes → Bool
starts_with s [] = true
starts_with [] (p ∷ ps) = false
starts_with (c ∷ s) (p ∷ ps) = c == p && starts_with s ps

-- strchr(s, c): the part of `s` that begins at the byte
unfoldable pub str_chr : Bytes → ℕ → Option Bytes
str_chr [] c = none
str_chr (x ∷ xs) c = let rest = str_chr xs c in if x == c then some (x ∷ xs) else rest

-- The bytes before the first byte of the kind: strcspn, as the part that it measures.
unfoldable pub before : (ℕ → Bool) → Bytes → Bytes
before p [] = []
before p (x ∷ xs) = let rest = before p xs in if p x then [] else x ∷ rest

-- strstr(s, pat): the part of `s` that begins with the first occurrence
unfoldable pub str_str : Bytes → Bytes → Option Bytes
unfolding starts_with
str_str [] pat = if starts_with [] pat then some [] else none
str_str (x ∷ xs) pat =
    let rest = str_str xs pat in if starts_with (x ∷ xs) pat then some (x ∷ xs) else rest

unfoldable pub skip_while : (ℕ → Bool) → Bytes → Bytes
skip_while p [] = []
skip_while p (x ∷ xs) = let rest = skip_while p xs in if p x then rest else x ∷ xs

-- What snprintf leaves in a buffer of `size` bytes for the text `s`.
abbrev pub fit : ℕ → Bytes → Bytes
fit size s = take (size - 1) s

-- A buffer read as a C string ends at its first byte 0.
unfoldable pub c_str : Bytes → Bytes
c_str = before (λ c. c == 0)

-- What fgets takes with room for `n` bytes, and what it leaves in the file.
unfoldable pub fgets_take : ℕ → Bytes → Bytes × Bytes
fgets_take zero s = ([], s)
fgets_take (suc n) [] = ([], [])
fgets_take (suc n) (c ∷ s) =
    let more = fgets_take n s in if c == b'\n' then (c ∷ [], s) else (c ∷ more.0, more.1)

-- fgets(line, size, file): the line, and the rest of the file; `none` at its end
unfoldable pub fgets : ℕ → Bytes → Option (Bytes × Bytes)
unfolding fgets_take c_str before
fgets size [] = none
fgets size (c ∷ s) = let got = fgets_take (size - 1) (c ∷ s) in some (c_str got.0, got.1)

-- while (fgets(line, size, file) != NULL) …: the lines of a file, on fuel
unfoldable pub read_lines : ℕ → ℕ → Bytes → List Bytes
read_lines zero size file = []
read_lines (suc fuel) size file = elim (fgets size file) [
  | none ↦ []
  | some (line, rest) ↦ line ∷ read_lines fuel size rest
]

-- strncasecmp(s, prefix, strlen(prefix)) == 0
unfoldable pub starts_with_case : Bytes → Bytes → Bool
unfolding to_lower
starts_with_case s [] = true
starts_with_case [] (p ∷ ps) = false
starts_with_case (c ∷ s) (p ∷ ps) = to_lower c == to_lower p && starts_with_case s ps

-- strcasestr(s, pat)
unfoldable pub str_case_str : Bytes → Bytes → Option Bytes
unfolding starts_with_case
str_case_str [] pat = if starts_with_case [] pat then some [] else none
str_case_str (x ∷ xs) pat =
    let rest = str_case_str xs pat in if starts_with_case (x ∷ xs) pat then some (x ∷ xs) else rest

-- strstr(s, pat) != NULL
unfoldable pub has : Bytes → Bytes → Bool
unfolding str_str
has s pat = elim (str_str s pat) [ none ↦ false | some found ↦ true ]

-- The part behind the last byte `c`, or the whole text: strrchr and a step.
unfoldable pub after_last : ℕ → Bytes → Bytes
after_last c [] = []
after_last c (x ∷ xs) =
    let rest = after_last c xs in
    elim (str_chr xs c) [ some found ↦ rest | none ↦ if x == c then xs else x ∷ xs ]

-- A text without the bytes of the kind at its end.
unfoldable pub strip_end : (ℕ → Bool) → Bytes → Bytes
strip_end p [] = []
strip_end p (c ∷ s) = elim (strip_end p s) [ [] ↦ if p c then [] else c ∷ [] | d ∷ ds ↦ c ∷ d ∷ ds ]
