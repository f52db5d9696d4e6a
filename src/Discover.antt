-- ===== src/Discover.antt =====
-- ota-discover.cpp: the newest package in the listing of an HTTP directory.
pub mod Listing
pub mod Names
pub mod Pick
pub mod Resolve
pub mod Resolved
use alientek.Prelude.{
  ℕ, zero, suc, ◌+◌, ◌-◌, ◌*◌, Bool, true, false, not, ◌&&◌, ◌||◌, Option, none, some, List, [],
  ◌∷◌, ◌++◌, ltb, leb, ◌==◌, if◌then◌else◌, length, take, drop, Bytes, fit, text, is_digit, str_eq,
  str_str, str_chr, str_case_str, has, after_last, strip_end, before, skip_while,
}

-- endsWith
unfoldable pub ends_with : Bytes → Bytes → Bool
unfolding str_eq
ends_with s suffix =
    if ltb (length s) (length suffix)
    then false
    else str_eq (drop (length s - length suffix) s) suffix

-- The loop over `n` digits: the number that they make, onto `acc`, and what is behind them.
unfoldable pub read_stamp : ℕ → ℕ → Bytes → Option (ℕ × Bytes)
unfolding is_digit
read_stamp zero acc s = some (acc, s)
read_stamp (suc n) acc [] = none
read_stamp (suc n) acc (c ∷ s) =
    let more = read_stamp n (10 * acc + (c - b'0')) s in if is_digit c then more else none

stamp_at : Option Bytes → Option (ℕ × Bytes)
stamp_at none = none
stamp_at (some p) = read_stamp 14 0 (drop 7 p)

-- extractBuildStamp; `none` is -1
unfoldable pub extract_build_stamp : Bytes → Option ℕ
unfolding str_str stamp_at read_stamp
extract_build_stamp name = elim (stamp_at (str_str name (text "rootfs-"))) [
  | none ↦ none
  | some (stamp, rest) ↦ some stamp
]

not_dot : Bytes → Bool
not_dot [] = true
not_dot (c ∷ s) = not (c == b'.')

-- isUnversionedUpdateSwu, where the name has `rootfs-`: lines 48 to 53
unversioned_at : Option Bytes → Bool
unversioned_at none = true
unversioned_at (some p) = elim (read_stamp 14 0 (drop 7 p)) [
  | none ↦ true
  | some (stamp, rest) ↦ not_dot rest
]

-- isUnversionedUpdateSwu
unfoldable pub is_unversioned_update_swu : Bytes → Bool
unfolding has ends_with unversioned_at str_str read_stamp not_dot
is_unversioned_update_swu name =
    if not (has name (text "alientek-image-update"))
    then false
    else if not (ends_with name (text ".rootfs.swu"))
    then false
    else unversioned_at (str_str name (text "rootfs-"))

-- isUpdateSwu
unfoldable pub is_update_swu : Bytes → Bool
unfolding has ends_with
is_update_swu name = has name (text "alientek-image-update") && ends_with name (text ".swu")

-- trimUrlBase
unfoldable pub trim_url_base : ℕ → Bytes → Bytes
unfolding strip_end
trim_url_base size base_url = strip_end (λ c. c == b'/') (fit size base_url)

-- Lines 106 to 115 of extractHrefName.
unfoldable pub fit_name : ℕ → Bytes → Option Bytes
fit_name size [] = none
fit_name size (c ∷ name) = if leb size (length (c ∷ name)) then none else some (c ∷ name)

-- extractHrefName
unfoldable pub extract_href_name : ℕ → Bytes → Option Bytes
unfolding before after_last fit_name str_chr
extract_href_name size [] = none
extract_href_name size (c ∷ href) =
    fit_name size (before (λ x. x == b'?') (after_last b'/' (c ∷ href)))

-- kMaxSwuNames and kMaxNameLen
abbrev pub max_swu_names : ℕ
max_swu_names = 64

abbrev pub max_name_len : ℕ
max_name_len = 256

-- strcmp over the names so far
unfoldable pub contains : List Bytes → Bytes → Bool
unfolding str_eq
contains [] name = false
contains (x ∷ xs) name = str_eq x name || contains xs name

-- appendUniqueName
unfoldable pub append_unique_name : List Bytes → Bytes → List Bytes
append_unique_name names name =
    if not (is_update_swu name) || leb max_swu_names (length names)
    then names
    else if contains names name
    then names
    else names ++ (fit max_name_len name ∷ [])

unfoldable pub append_href : List Bytes → Bytes → List Bytes
append_href names href = elim (extract_href_name max_name_len href) [
  | none ↦ names
  | some name ↦ append_unique_name names name
]

abbrev is_quote : ℕ → Bool
is_quote c = c == b'"' || c == b'\''

-- Lines 158 to 170, behind the quote at `start - 1`.
unfoldable pub quoted_href : ℕ → Bytes → List Bytes → Option (Bytes × List Bytes)
quoted_href quote start names = elim (str_chr start quote) [
  | some (c ∷ next) ↦
      let href = before (λ x. x == quote) start in
      if leb max_name_len (length href)
      then some (next, names)
      else some (next, append_href names href)
  | _ ↦ none
]

-- Lines 154 to 170.
unfoldable pub at_quote : Bytes → List Bytes → Option (Bytes × List Bytes)
at_quote [] names = some ([], names)
at_quote (quote ∷ start) names =
    if is_quote quote then quoted_href quote start names else some (quote ∷ start, names)

-- One round of the loop of parseListingHtml: `none` is its break; else the rest of the page to go
-- on with, and the names.
unfoldable pub parse_href : Bytes → List Bytes → Option (Bytes × List Bytes)
parse_href p names = elim (str_case_str p (text "href=")) [
  | none ↦ none
  | some key ↦ at_quote (skip_while (λ c. c == 32 || c == 9) (drop 5 key)) names
]

-- The loop of parseListingHtml. Each round goes past `href=`, so the length of the page is fuel
-- enough.
unfoldable pub parse_loop : ℕ → Bytes → List Bytes → List Bytes
parse_loop zero p names = names
parse_loop (suc fuel) [] names = names
parse_loop (suc fuel) (c ∷ p) names =
    if leb max_swu_names (length names) then names else elim (parse_href (c ∷ p) names) [
      | none ↦ names
      | some (p', names') ↦ parse_loop fuel p' names'
    ]

-- parseListingHtml
unfoldable pub parse_listing_html : Bytes → List Bytes
unfolding parse_loop
parse_listing_html html = parse_loop (length html) html []

-- What the loop of pickBestSwuName keeps: bestStamp with names[bestStamped], and
-- names[fallbackLink]; `none` is an index -1.
pub record Choice : Type 0 where
  pub best : Option (ℕ × Bytes)
  pub link : Option Bytes

abbrev pub no_choice : Choice
no_choice = record { best = none; link = none }

unfoldable pub newer : Option (ℕ × Bytes) → ℕ → Bytes → Option (ℕ × Bytes)
newer none stamp name = some (stamp, name)
newer (some (best, old)) stamp name =
    if ltb best stamp then some (stamp, name) else some (best, old)

unfoldable pub first_link : Option Bytes → Bytes → Option Bytes
first_link (some link) name = some link
first_link none name = if is_unversioned_update_swu name then some name else none

unfoldable pub choose : Choice → Bytes → Choice
unfolding newer first_link
choose c name = elim (extract_build_stamp name) [
  | some stamp ↦ record c { best = newer c.best stamp name }
  | none ↦ record c { link = first_link c.link name }
]

unfoldable pub choose_all : Choice → List Bytes → Choice
choose_all c [] = c
choose_all c (name ∷ names) = choose_all (choose c name) names

unfoldable pub decide_best : Choice → Bytes → Bytes
decide_best c first = elim (c.best) [
  | some (stamp, name) ↦ name
  | none ↦ elim (c.link) [ some name ↦ name | none ↦ first ]
]

-- pickBestSwuName
unfoldable pub pick_best_swu_name : ℕ → List Bytes → Option Bytes
unfolding choose_all decide_best
pick_best_swu_name size [] = none
pick_best_swu_name size (first ∷ names) =
    if size == 0
    then none
    else some (fit size (decide_best (choose_all no_choice (first ∷ names)) first))
