-- ===== src/Web/Parse.antt =====
-- The parsers of webserver-http.c. A text is what stands before its terminator.
use alientek.Prelude.{
  ℕ, zero, suc, ◌-◌, Bool, ◌||◌, Option, none, some, [], ◌∷◌, ◌==◌, ltb, leb, if◌then◌else◌, map,
  Bytes, length, take, drop, text, str_eq, str_chr, str_str, before, skip_while, starts_with,
  to_lower,
}
use alientek.State.Int.{ℤ, pos, negsuc, scan_int}

-- Lines 75 to 78 of parseULong: strtoul takes a sign too, and `-n` for 2^32 - n.
unfoldable pub ulong_of : ℤ × Bytes → Option ℕ
ulong_of (pos n, []) = if ltb 0xffffffff n then none else some n
ulong_of (negsuc n, []) = if ltb 0xfffffffe n then none else some (0xffffffff - n)
ulong_of (i, c ∷ rest) = none

-- parseULong
unfoldable pub parse_ulong : Bytes → Option ℕ
unfolding ulong_of
parse_ulong s = elim (scan_int s) [ none ↦ none | some found ↦ ulong_of found ]

-- 0, 1 and -1 of getQueryValue and getHttpHeader.
pub data Lookup : Type 0 where
  found : Bytes → Lookup
  missing wrong : Lookup

-- A value that must fit `size` bytes with its terminator.
unfoldable pub fitted : ℕ → Bytes → Lookup
fitted size value = if leb size (length value) then wrong else found value

-- The text behind the first byte `c`.
unfoldable pub behind : ℕ → Bytes → Option Bytes
behind c s = elim (str_chr s c) [ none ↦ none | some rest ↦ some (drop 1 rest) ]

-- Lines 100 to 107 of getQueryValue, on a name and a value.
unfoldable pub query_pair : Bytes → ℕ → Bytes → Bytes → Lookup → Lookup
unfolding str_eq
query_pair key size name value rest = if str_eq name key then fitted size value else rest

-- The loop of getQueryValue on fuel: every round takes a pair off. `pair` is what stands before the
-- first `&`; an `=` has to stand in it.
unfoldable pub query_loop : ℕ → Bytes → ℕ → Bytes → Lookup
query_loop zero key size p = missing
query_loop (suc fuel) key size [] = missing
query_loop (suc fuel) key size (c ∷ s) =
    let pair = before (λ x. x == b'&') (c ∷ s) in
    let rest : Lookup = elim (behind b'&' (c ∷ s)) [
      | none ↦ missing
      | some t ↦ query_loop fuel key size t
    ] in
    elim (behind b'=' pair) [
      | none ↦ wrong
      | some value ↦ query_pair key size (before (λ x. x == b'=') pair) value rest
    ]

-- getQueryValue, into a buffer of `size` bytes
unfoldable pub get_query_value : Bytes → Bytes → ℕ → Lookup
get_query_value query key size = query_loop (length query) key size query

-- The method, the path and the query.
unfoldable pub request_parts : ℕ → ℕ → ℕ → Bytes → Bytes → Option (Bytes × Bytes × Bytes)
request_parts method_size path_size query_size method target =
    let path = before (λ x. x == b'?') target in
    let query : Bytes = elim (behind b'?' target) [ none ↦ [] | some s ↦ s ] in
    if length path == 0 || leb path_size (length path) || leb query_size (length query)
    then none
    else some (method, path, query)

-- Lines 210 to 229 of parseRequestLine, behind the method.
unfoldable pub request_target : ℕ → ℕ → ℕ → Bytes → Bytes → Option (Bytes × Bytes × Bytes)
request_target method_size path_size query_size method s = elim (behind b' ' s) [
  | none ↦ none
  | some rest ↦ request_parts method_size path_size query_size method (before (λ x. x == b' ') s)
]

-- parseRequestLine, into buffers of these sizes
unfoldable pub parse_request_line : ℕ → ℕ → ℕ → Bytes → Option (Bytes × Bytes × Bytes)
parse_request_line method_size path_size query_size req =
    let method = before (λ x. x == b' ') req in
    elim (behind b' ' req) [
      | none ↦ none
      | some s ↦
          if length method == 0 || leb method_size (length method)
          then none
          else request_target method_size path_size query_size method s
    ]

-- The name of a header, in any case.
unfoldable pub is_named : Bytes → Bytes → Bool
unfolding str_eq to_lower
is_named name key = str_eq (map to_lower name) (map to_lower key)

-- Lines 250 to 277 of getHttpHeader, on a line.
unfoldable pub header_line : Bytes → ℕ → Bytes → Lookup → Lookup
header_line name size line rest = elim (behind b':' line) [
  | none ↦ rest
  | some value ↦
      if is_named (before (λ x. x == b':') line) name
      then fitted size (skip_while (λ x. x == b' ' || x == b'\t') value)
      else rest
]

-- The loop of getHttpHeader on fuel: every round takes a line off.
unfoldable pub header_loop : ℕ → Bytes → ℕ → Bytes → Lookup
unfolding starts_with
header_loop zero name size p = missing
header_loop (suc fuel) name size [] = missing
header_loop (suc fuel) name size (c ∷ s) =
    let p = c ∷ s in
    if starts_with p (text "\r\n\r\n") then missing else elim (str_str p (text "\r\n")) [
      | none ↦ wrong
      | some eol ↦
          header_line name size (take (length p - length eol) p)
            (header_loop fuel name size (drop 2 eol))
    ]

-- getHttpHeader, into a buffer of `size` bytes
unfoldable pub get_http_header : Bytes → Bytes → ℕ → Lookup
get_http_header headers name size = header_loop (length headers) name size headers
