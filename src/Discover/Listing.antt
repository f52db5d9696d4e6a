-- ===== src/Discover/Listing.antt =====
-- parseListingHtml: the list of names, and the loop over the page.
use mathlib.Core.Path.{subst}
use mathlib.Core.Option.{none-ne-some}
use alientek.Prelude.{
  ℕ, zero, suc, ◌≤◌, ◌<◌, true, false, not, ◌||◌, Option, none, some, List, [], ◌∷◌, ◌++◌, ◌≡◌,
  refl, inl, inr, arith, leb, ◌==◌, Bool-cases, Option-cases, length, length-append, All,
  All-append, Bytes, fit, take_all, drop, text, str_eq, str_chr, str_case_str, before,
}
use alientek.Prelude.CLaws.{str_eq_iff, str_chr_shrinks, skip_while_shrinks, str_case_str_shrinks}
use alientek.Discover.Names.{IsPackageName, is_update_swu-IsPackageName}
use alientek.Discover.{
  is_update_swu, extract_href_name, fit_name, max_swu_names, max_name_len, contains,
  append_unique_name, append_href, quoted_href, at_quote, parse_href, parse_loop,
  parse_listing_html,
}

-- No name stands twice in the list.
abbrev pub IsDistinct : List Bytes → Type 0
IsDistinct [] = Unit
IsDistinct (x ∷ xs) = (contains xs x ≡ false) × IsDistinct xs

-- What parseListingHtml promises of its array of names.
pub record IsListing (names : List Bytes) : Type 0 where
  pub count : length names ≤ max_swu_names
  pub packages : All (λ n. is_update_swu n ≡ true) names
  pub named : All IsPackageName names
  pub fits : All (λ n. length n < max_name_len) names
  pub distinct : IsDistinct names

contains-append :
    (xs : List Bytes) (n x : Bytes) → contains (xs ++ (n ∷ [])) x ≡ (contains xs x || str_eq n x)
unfolding contains
contains-append [] n x = ground arith
contains-append (y ∷ xs) n x = ground (arith, contains-append xs n x)

IsDistinct-append :
    (xs : List Bytes) (n : Bytes)
    → contains xs n ≡ false
    → IsDistinct xs
    → IsDistinct (xs ++ (n ∷ []))
unfolding contains
IsDistinct-append [] n h d = (refl, tt)
IsDistinct-append (x ∷ xs) n h d = (
  ground (arith, contains-append xs n x, str_eq_iff x n, str_eq_iff n x),
  IsDistinct-append xs n (ground arith) d.1,
)

add-IsListing :
    (names : List Bytes) (name : Bytes)
    → length name < max_name_len
    → is_update_swu name ≡ true
    → leb max_swu_names (length names) ≡ false
    → contains names name ≡ false
    → IsListing names
    → IsListing (names ++ (fit max_name_len name ∷ []))
add-IsListing names name b u room new h = rw (take_all 255 name (omega arith)) (record {
  count = omega (arith, length-append names (name ∷ []), roomy);
  packages = All-append (λ n. is_update_swu n ≡ true) names (name ∷ []) h.packages (u, tt);
  named =
      All-append IsPackageName names (name ∷ []) h.named (is_update_swu-IsPackageName name u, tt);
  fits = All-append (λ n. length n < max_name_len) names (name ∷ []) h.fits (b, tt);
  distinct = IsDistinct-append names name new h.distinct;
})
  where
    roomy : length names < 64
    roomy = ground arith

append_unique_name-IsListing :
    (names : List Bytes) (name : Bytes)
    → length name < max_name_len
    → IsListing names
    → IsListing (append_unique_name names name)
unfolding append_unique_name
append_unique_name-IsListing names name b h =
    elim (Bool-cases (not (is_update_swu name) || leb max_swu_names (length names))) [
      | inl skip ↦ rw skip h
      | inr take_it ↦ elim (Bool-cases (contains names name)) [
        | inl old ↦ rw (take_it, old) h
        | inr new ↦
            rw (take_it, new) (add-IsListing names name b (ground arith) (ground arith) new h)
      ]
    ]

extract_href_name-fits :
    (size : ℕ) (href : Bytes) {name : Bytes}
    → extract_href_name size href ≡ some name
    → length name < size
unfolding extract_href_name fit_name
extract_href_name-fits size [] e = absurd (none-ne-some _ e)
extract_href_name-fits size (c ∷ href) {name} e = ground arith

append_href-IsListing :
    (names : List Bytes) (href : Bytes) → IsListing names → IsListing (append_href names href)
unfolding append_href
append_href-IsListing names href h = elim (Option-cases (extract_href_name max_name_len href)) [
  | inl e ↦ rw (e, append_href) h
  | inr (name, e) ↦
      rw (e, append_href)
        (append_unique_name-IsListing names name (extract_href_name-fits 256 href e) h)
]

-- What one round gives: the names stay a listing, and the rest of the page is shorter than `n`.
abbrev Advances : ℕ → Option (Bytes × List Bytes) → Type 0
Advances n none = Unit
Advances n (some (p, names)) = (length p < n) × IsListing names

quoted_href-Advances :
    (n quote : ℕ) (start : Bytes) (names : List Bytes)
    → length start < n
    → IsListing names
    → Advances n (quoted_href quote start names)
unfolding quoted_href
quoted_href-Advances n quote start names b h = elim (Option-cases (str_chr start quote)) [
  | inl e ↦ rw (e, quoted_href) tt
  | inr ([], e) ↦ rw (e, quoted_href) tt
  | inr (c ∷ next, e) ↦
      let shorter : length next < n = omega (arith, str_chr_shrinks start quote e) in
      rw (e, quoted_href)
        (elim (Bool-cases (leb max_name_len (length (before (λ x. x == quote) start)))) [
          | inl long ↦ rw long (shorter, h)
          | inr short ↦ rw short (shorter, append_href-IsListing names _ h)
        ])
]

at_quote-Advances :
    (n : ℕ) (p : Bytes) (names : List Bytes)
    → length p < n
    → IsListing names
    → Advances n (at_quote p names)
unfolding at_quote
at_quote-Advances n [] names b h = (b, h)
at_quote-Advances n (c ∷ p) names b h = elim (Bool-cases (c == b'"' || c == b'\'')) [
  | inl e ↦ rw e (quoted_href-Advances n c p names (omega arith) h)
  | inr e ↦ rw e (b, h)
]

parse_href-Advances :
    (p : Bytes) (names : List Bytes) → IsListing names → Advances (length p) (parse_href p names)
unfolding parse_href
parse_href-Advances p names h = elim (Option-cases (str_case_str p (text "href="))) [
  | inl e ↦ rw (e, parse_href) tt
  | inr (key, e) ↦
      rw (e, parse_href)
        (at_quote-Advances (length p) _ names
          (omega (
            arith,
            skip_while_shrinks (λ c. c == 32 || c == 9) (drop 5 key),
            str_case_str_shrinks p b'h' (text "ref=") 4 e,
          ))
          h)
]

parse_loop-IsListing :
    (fuel : ℕ) (p : Bytes) (names : List Bytes)
    → IsListing names
    → IsListing (parse_loop fuel p names)
unfolding parse_loop
parse_loop-IsListing zero p names h = h
parse_loop-IsListing (suc fuel) [] names h = h
parse_loop-IsListing (suc fuel) (c ∷ p) names h =
    elim (Bool-cases (leb max_swu_names (length names))) [
      | inl full ↦ rw full h
      | inr room ↦ rw room (elim (Option-cases (parse_href (c ∷ p) names)) [
        | inl e ↦ rw (e, parse_loop) h
        | inr ((p', names'), e) ↦
            rw (e, parse_loop)
              (parse_loop-IsListing fuel p' names'
                (subst (Advances (suc (length p))) e (parse_href-Advances (c ∷ p) names h)).1)
      ])
    ]

-- The names found in any page are at most 64, each is an update package, that is one with the text
-- alientek-image-update in it and .swu at its end, each fits its buffer of 256 bytes, and none stands
-- twice.
pub parse_listing_html-IsListing : (html : Bytes) → IsListing (parse_listing_html html)
unfolding parse_listing_html
parse_listing_html-IsListing html =
    parse_loop-IsListing (length html) html []
      (record { count = omega arith; packages = tt; named = tt; fits = tt; distinct = tt })

-- The loop ends by its own tests: with any fuel from the length of the page on it gives the same names.
pub parse_loop-fuel :
    (f g : ℕ) (p : Bytes) (names : List Bytes)
    → IsListing names
    → length p ≤ f
    → length p ≤ g
    → parse_loop f p names ≡ parse_loop g p names
unfolding parse_loop
parse_loop-fuel zero zero p names h a b = refl
parse_loop-fuel zero (suc g) [] names h a b = refl
parse_loop-fuel zero (suc g) (c ∷ p) names h a b = absurd (omega arith)
parse_loop-fuel (suc f) zero [] names h a b = refl
parse_loop-fuel (suc f) zero (c ∷ p) names h a b = absurd (omega arith)
parse_loop-fuel (suc f) (suc g) [] names h a b = refl
parse_loop-fuel (suc f) (suc g) (c ∷ p) names h a b =
    elim (Bool-cases (leb max_swu_names (length names))) [
      | inl full ↦ rw full
      | inr room ↦ rw room (elim (Option-cases (parse_href (c ∷ p) names)) [
        | inl e ↦ rw (e, parse_loop)
        | inr ((p', names'), e) ↦
            let step = subst (Advances (suc (length p))) e (parse_href-Advances (c ∷ p) names h) in
            rw (e, parse_loop)
              (parse_loop-fuel f g p' names' step.1 (omega (arith, step.0)) (omega (arith, step.0)))
      ])
    ]
