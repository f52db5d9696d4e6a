-- ===== src/Web/Upload.antt =====
-- webserver-upgrade.c, lines 17 to 149 and 294 to 327: what comes with an upload.
use alientek.Prelude.{
  ℕ, zero, suc, ◌-◌, ◌+◌, Bool, true, false, not, ◌&&◌, ◌||◌, Option, none, some, List, [], ◌∷◌,
  ◌++◌, ◌==◌, ltb, leb, if◌then◌else◌, Bytes, length, take, drop, text, str_eq, str_str, before,
  has, starts_with, min,
}
use alientek.World.{World, Platform, put_file}
use alientek.Web.{Web, Recv, got, broken_off, again, read_whole_file}
use alientek.Web.Parse.{Lookup, found, missing, wrong, behind, get_http_header, parse_ulong}

-- Lines 41 to 46 of parseMultipartBoundary.
unfoldable pub framed : ℕ → Bytes → Option Bytes
framed size s = if length s == 0 || leb size (length s + 3) then none else some (text "--" ++ s)

-- Lines 29 to 40, behind "boundary=".
unfoldable pub boundary_value : Bytes → Option Bytes
boundary_value [] = some []
boundary_value (c ∷ s) =
    if c == b'"'
    then (elim (behind b'"' s) [ none ↦ none | some rest ↦ some (before (λ x. x == b'"') s) ])
    else some
        (before (λ x. x == b' ' || x == b'\t' || x == b'\r' || x == b'\n' || x == b';') (c ∷ s))

-- parseMultipartBoundary, into a buffer of `size` bytes
unfoldable pub parse_multipart_boundary : ℕ → Bytes → Option Bytes
parse_multipart_boundary size ctype = elim (str_str ctype (text "boundary=")) [
  | none ↦ none
  | some s ↦ elim (boundary_value (drop 9 s)) [ none ↦ none | some b ↦ framed size b ]
]

-- A part of a body without the line end in front of the next boundary.
unfoldable pub strip_crlf : Bytes → Bytes
strip_crlf s =
    let n = length s - 2 in
    if leb 2 (length s) && str_eq (drop n s) (text "\r\n") then take n s else s

-- Behind a boundary: the line end goes.
unfoldable pub skip_crlf : Bytes → Bytes
skip_crlf s = if starts_with s (text "\r\n") then drop 2 s else s

-- Lines 111 to 144 of extractSwuFromMime, behind the boundary: the text of the part named swu, the
-- rest from the next boundary on, or nothing.
pub data Part : Type 0 where
  swu : Bytes → Part
  other : Bytes → Part
  broken : Part

-- Lines 121 to 131, with the headers `head` and the text behind them.
unfoldable pub part_body : Bytes → Bytes → Bytes → Part
unfolding has
part_body boundary head body = elim (str_str body boundary) [
  | none ↦ broken
  | some next ↦
      if has head (text "name=\"swu\"")
      then swu (strip_crlf (take (length body - length next) body))
      else other next
]

-- Lines 118 to 129.
unfoldable pub part_of : Bytes → Bytes → Part
part_of boundary part = elim (str_str part (text "\r\n\r\n")) [
  | none ↦ broken
  | some rest ↦ part_body boundary (take (length part - length rest) part) (drop 4 rest)
]

-- The loop of extractSwuFromMime on fuel: every round takes a part off.
unfoldable pub extract_loop : ℕ → Bytes → Bytes → Option Bytes
unfolding starts_with
extract_loop zero boundary cursor = none
extract_loop (suc fuel) boundary cursor =
    if not (ltb (length boundary) (length cursor)) then none else elim (str_str cursor boundary) [
      | none ↦ none
      | some at ↦
          let part = drop (length boundary) at in
          if starts_with part (text "--") then none else elim (part_of boundary (skip_crlf part)) [
            | broken ↦ none
            | swu body ↦ some body
            | other next ↦ extract_loop fuel boundary next
          ]
    ]

-- The text of the file in an upload.
unfoldable pub swu_of : Bytes → Bytes → Option Bytes
swu_of boundary content = extract_loop (length content) boundary content

module _ (p : Platform) where
  -- fwrite behind the text `old` of a file: whether all of it is written
  unfoldable pub append_file : Bytes → Bytes → Bytes → World → Bool × World
  append_file path old s w = elim (p.write_error w path s) [
    | none ↦ (true, put_file path (some (old ++ s)) w)
    | some (e, part) ↦ (false, put_file path (some (old ++ part)) w)
  ]

  -- The loop of recvBodyToFile, with `need` bytes to come and `old` in the file.
  unfoldable pub body_loop : Bytes → List Recv → ℕ → Bytes → World → Bool × World × List Recv
  body_loop path calls zero old w = (true, w, calls)
  body_loop path [] (suc need) old w = (false, w, [])
  body_loop path (broken_off ∷ calls) (suc need) old w = (false, w, calls)
  body_loop path (again ∷ calls) (suc need) old w = body_loop path calls (suc need) old w
  body_loop path (got s ∷ calls) (suc need) old w =
      let piece = take (min 8192 (suc need)) s in
      let r = append_file path old piece w in
      let rest = body_loop path calls (suc need - length piece) (old ++ piece) r.1 in
      if length piece == 0 then (false, w, calls) else if not r.0 then (false, r.1, calls) else rest

  -- Lines 66 to 84 of recvBodyToFile, with the start of the body written.
  unfoldable pub recv_rest : Bytes → Bytes → ℕ → Bool × World → Web → Bool × Web
  recv_rest path pref size (false, v) w = (false, record w { world = v })
  recv_rest path pref size (true, v) w =
      let r = body_loop path w.calls (size - length pref) pref v in
      (r.0, record w { world = r.1; calls = r.2 })

  -- recvBodyToFile, on a file that fopen has emptied
  unfoldable pub recv_body_to_file : Bytes → Bytes → ℕ → Web → Bool × Web
  recv_body_to_file path pref size w =
      if ltb size (length pref)
      then (false, w)
      else recv_rest path pref size
          (if length pref == 0 then (true, w.world) else append_file path [] pref w.world) w

  -- Lines 130 to 143: the file is written, and whether it has a byte.
  unfoldable pub write_swu : Bytes → Bytes → World → Bool × World
  write_swu path body w = elim (p.create_error w path) [
    | some e ↦ (false, w)
    | none ↦
        if length body == 0
        then (false, put_file path (some []) w)
        else append_file path [] body (put_file path (some []) w)
  ]

  -- extractSwuFromMime: whether it returns 0
  unfoldable pub extract_swu_from_mime : Bytes → Bytes → Bytes → World → Bool × World
  extract_swu_from_mime mime_path boundary path w = elim (read_whole_file p mime_path w) [
    | none ↦ (false, w)
    | some content ↦ elim (swu_of boundary content) [
      | none ↦ (false, w)
      | some body ↦ write_swu path body w
    ]
  ]

-- checkUpgradeAuth: whether it returns 0
unfoldable pub token_matches : Bytes → Lookup → Bool
unfolding str_eq
token_matches token (found value) = str_eq value token
token_matches token missing = false
token_matches token wrong = false

unfoldable pub bearer_matches : Bytes → Lookup → Bool
unfolding str_eq starts_with
bearer_matches token (found value) =
    starts_with value (text "Bearer ") && str_eq (drop 7 value) token
bearer_matches token missing = false
bearer_matches token wrong = false

unfoldable pub check_upgrade_auth : Bytes → Bytes → Bool
check_upgrade_auth [] headers = true
check_upgrade_auth (c ∷ token) headers =
    token_matches (c ∷ token) (get_http_header headers (text "X-Upgrade-Token") 512)
    || bearer_matches (c ∷ token) (get_http_header headers (text "Authorization") 512)

-- What parseUpgradeHeaders gives: the boundary and the length, or -1, -2 and -3.
pub data UpgradeHeaders : Type 0 where
  good : Bytes → ℕ → UpgradeHeaders
  no_headers bad_size no_boundary : UpgradeHeaders

-- Lines 322 to 326, with the length.
unfoldable pub sized : Bytes → ℕ → UpgradeHeaders
sized ctype n =
    if n == 0 || ltb 536870912 n then bad_size else elim (parse_multipart_boundary 128 ctype) [
      | none ↦ no_boundary
      | some boundary ↦ good boundary n
    ]

unfoldable pub upgrade_fields : Lookup → Lookup → UpgradeHeaders
upgrade_fields (found ctype) (found size) = elim (parse_ulong size) [
  | none ↦ no_headers
  | some n ↦ sized ctype n
]
upgrade_fields (found ctype) missing = no_headers
upgrade_fields (found ctype) wrong = no_headers
upgrade_fields missing size = no_headers
upgrade_fields wrong size = no_headers

-- parseUpgradeHeaders
unfoldable pub parse_upgrade_headers : Bytes → UpgradeHeaders
parse_upgrade_headers headers =
    upgrade_fields (get_http_header headers (text "Content-Type") 256)
      (get_http_header headers (text "Content-Length") 64)
