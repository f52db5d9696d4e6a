-- ===== src/Discover/Names.antt =====
-- isUpdateSwu of ota-discover.cpp: what the name of an update package looks like.
use alientek.Prelude.{
  ◌-◌, true, [], ◌∷◌, ◌++◌, ◌≡◌, inl, inr, ap, ◌∙◌, arith, Bool-cases, length, take, drop, Bytes,
  text, starts_with, str_str, has, str_eq,
}
use alientek.Prelude.CLaws.{str_eq_iff, starts_with-split, take-drop}
use alientek.Discover.{ends_with, is_update_swu}

-- The text stands somewhere in the name.
abbrev pub Holds : Bytes → Bytes → Type 0
Holds word name = (before : Bytes) × (after : Bytes) × (name ≡ before ++ (word ++ after))

-- The name of an update package.
pub record IsPackageName (name : Bytes) : Type 0 where
  pub holds : Holds (text "alientek-image-update") name
  pub stem : Bytes
  pub ends : name ≡ stem ++ text ".swu"

has-Holds : (s : Bytes) (word : Bytes) → has s word ≡ true → Holds word s
unfolding has str_str
has-Holds [] word h = elim (Bool-cases (starts_with [] word)) [
  | inl e ↦ ([], drop (length word) [], starts_with-split [] word e)
  | inr e ↦ absurd (ground (arith, h, e))
]
has-Holds (c ∷ s) word h = elim (Bool-cases (starts_with (c ∷ s) word)) [
  | inl e ↦ ([], drop (length word) (c ∷ s), starts_with-split (c ∷ s) word e)
  | inr e ↦
      let g : has s word ≡ true = ground (arith, h, e) in
      let (before, after, k) = has-Holds s word g in (c ∷ before, after, ap (λ z. c ∷ z) k)
]

ends_with-Ends :
    (s suffix : Bytes) → ends_with s suffix ≡ true → (stem : Bytes) × (s ≡ stem ++ suffix)
unfolding ends_with
ends_with-Ends s suffix h =
    let n = length s - length suffix in
    let k : str_eq (drop n s) suffix ≡ true = ground (arith, h) in
    (take n s, take-drop n s ∙ ap (λ z. take n s ++ z) ((str_eq_iff (drop n s) suffix).0 k))

pub is_update_swu-IsPackageName : (name : Bytes) → is_update_swu name ≡ true → IsPackageName name
unfolding is_update_swu
is_update_swu-IsPackageName name h =
    let e = ends_with-Ends name (text ".swu") (ground (arith, h)) in
    record {
      holds = has-Holds name (text "alientek-image-update") (ground (arith, h));
      stem = e.0;
      ends = e.1;
    }
