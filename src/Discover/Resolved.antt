-- ===== src/Discover/Resolved.antt =====
-- The URL that otaResolveLatestSwuUrl gives.
use alientek.Prelude.{
  ℕ, ◌<◌, true, none, some, List, [], ◌∷◌, ◌++◌, ◌≡◌, ◌⊎◌, refl, sym, ap, ◌∙◌, inl, inr, arith, leb,
  Bool-cases, Option-cases, if◌then◌else◌, length, All, take_all, Bytes, fit, text,
}
use mathlib.Core.Path.{subst}
use alientek.World.{Platform, ok, err}
use alientek.Discover.{
  parse_listing_html, pick_best_swu_name, extract_build_stamp, is_unversioned_update_swu,
  is_update_swu,
}
use alientek.Discover.Pick.{IsPick, plain_link, pick_best_swu_name-IsPick}
use alientek.Discover.Listing.{IsListing, parse_listing_html-IsListing}
use alientek.Discover.Resolve.{choose_url}

-- A property of all names is one of the name picked.
All_at :
    (P : Bytes → Type 0) (front : List Bytes) (b : Bytes) (back : List Bytes)
    → All P (front ++ (b ∷ back))
    → P b
All_at P [] b back h = h.0
All_at P (x ∷ front) b back h = All_at P front b back h.1

plain_link_all :
    (P : Bytes → Type 0) (names : List Bytes) (first : Bytes)
    → P first
    → All P names
    → P (elim (plain_link names) [ some link ↦ link | none ↦ first ])
plain_link_all P [] first f h = f
plain_link_all P (x ∷ names) first f h = elim (Option-cases (extract_build_stamp x)) [
  | inl e ↦
      rw (e, plain_link)
        (elim (Bool-cases (is_unversioned_update_swu x)) [
          | inl u ↦ rw u h.0
          | inr u ↦ rw u (plain_link_all P names first f h.1)
        ])
  | inr (s, e) ↦ rw (e, plain_link) (plain_link_all P names first f h.1)
]

IsPick_all :
    (P : Bytes → Type 0) (first : Bytes) (names : List Bytes) (b : Bytes)
    → IsPick (first ∷ names) first b
    → All P (first ∷ names)
    → P b
IsPick_all P first names b (inl (s, n)) h = All_at P n.front b n.back (subst (All P) n.splits h)
IsPick_all P first names b (inr (u, e)) h =
    subst P (sym e) (plain_link_all P (first ∷ names) first h.0 h)

module _ (p : Platform) (error_size url_size : ℕ) (base html : Bytes) where
  abbrev package_url : Bytes → Bytes
  package_url name = base ++ (text "/" ++ name)

  -- An error if the page names no package, and else the URL of the package to be picked.
  abbrev pub ChoosesUrl : Type 0
  ChoosesUrl =
      ((parse_listing_html html ≡ [])
        × (choose_url p error_size url_size 256 base html
            ≡ err (fit error_size (text "目录中未找到 alientek-image-update*.swu"))))
      ⊎ ((first : Bytes) × (names : List Bytes) × (name : Bytes) × (parse_listing_html html
            ≡ first ∷ names)
          × IsPick (first ∷ names) first name
          × (is_update_swu name ≡ true)
          × (choose_url p error_size url_size 256 base html ≡ (
              if leb url_size (length (package_url name))
              then err (fit error_size (text "固件 URL 过长"))
              else ok (package_url name, name))))

  -- What is made of a page: an error if it names no package; else, for the package that is to be
  -- picked among its names, the URL `base/name` with the whole name, or an error if that URL does not
  -- fit its buffer. The package is one that isUpdateSwu accepts.
  pub choose_url_lem : ChoosesUrl
  unfolding choose_url
  choose_url_lem = by_names (parse_listing_html html) refl
    where
      picked :
          (first : Bytes) (names : List Bytes)
          → parse_listing_html html ≡ first ∷ names
          → (name : Bytes) × IsPick (first ∷ names) first name
            × (is_update_swu name ≡ true)
            × (pick_best_swu_name 256 (first ∷ names) ≡ some name)
            × (fit 256 name ≡ name)
      picked first names e =
          let l = subst IsListing e (parse_listing_html-IsListing html) in
          let (name, q, pick) = pick_best_swu_name-IsPick 256 first names (omega arith) in
          let short : length name < 256 =
            IsPick_all (λ n. length n < 256) first names name pick l.fits in
          let whole = take_all 255 name (omega arith) in
          (
            name,
            pick,
            IsPick_all (λ n. is_update_swu n ≡ true) first names name pick l.packages,
            q ∙ ap some whole,
            whole,
          )

      by_names : (all : List Bytes) → parse_listing_html html ≡ all → ChoosesUrl
      by_names [] e = inl (e, rw (e, choose_url))
      by_names (first ∷ names) e =
          let (name, pick, update, q, whole) = picked first names e in
          inr (first, names, name, e, pick, update, rw (e, choose_url) (rw q (rw whole)))
