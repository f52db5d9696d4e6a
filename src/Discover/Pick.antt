-- ===== src/Discover/Pick.antt =====
-- pickBestSwuName and the build stamps of names.
use mathlib.Core.Path.{subst}
use alientek.Prelude.{
  ℕ, suc, ◌≤◌, ◌<◌, Option, none, some, List, [], ◌∷◌, ◌++◌, ◌≡◌, ◌≢◌, ◌⊎◌, refl, inl, inr, arith,
  ltb, Bool-cases, Option-cases, if◌then◌else◌, All, All-append, append_assoc, append-nil, Bytes,
  fit,
}
use alientek.Discover.{
  extract_build_stamp, is_unversioned_update_swu, Choice, no_choice, newer, first_link, choose,
  choose_all, decide_best, pick_best_swu_name,
}

abbrev pub IsUnstamped : Bytes → Type 0
IsUnstamped name = extract_build_stamp name ≡ none

-- The stamp of the name, if it has one, is below `limit`.
abbrev Below : ℕ → Option ℕ → Type 0
Below limit none = Unit
Below limit (some stamp) = stamp < limit

abbrev pub IsOlder : ℕ → Bytes → Type 0
IsOlder limit name = Below limit (extract_build_stamp name)

-- `name` is the first of the names with the largest stamp.
pub record IsNewest (names : List Bytes) (stamp : ℕ) (name : Bytes) : Type 0 where
  pub front : List Bytes
  pub back : List Bytes
  pub splits : names ≡ front ++ (name ∷ back)
  pub stamp_is : extract_build_stamp name ≡ some stamp
  pub front_older : All (IsOlder stamp) front
  pub back_not_newer : All (IsOlder (suc stamp)) back

abbrev BestInv : List Bytes → Option (ℕ × Bytes) → Type 0
BestInv names none = All IsUnstamped names
BestInv names (some (stamp, name)) = IsNewest names stamp name

Below-mono : (a b : ℕ) (o : Option ℕ) → a ≤ b → Below a o → Below b o
Below-mono a b none h k = tt
Below-mono a b (some s) h k = omega arith

IsOlder-mono : (a b : ℕ) (xs : List Bytes) → a ≤ b → All (IsOlder a) xs → All (IsOlder b) xs
IsOlder-mono a b [] h k = tt
IsOlder-mono a b (x ∷ xs) h k =
    (Below-mono a b (extract_build_stamp x) h k.0, IsOlder-mono a b xs h k.1)

unstamped-IsOlder : (a : ℕ) (xs : List Bytes) → All IsUnstamped xs → All (IsOlder a) xs
unstamped-IsOlder a [] h = tt
unstamped-IsOlder a (x ∷ xs) h = (rw h.0 tt, unstamped-IsOlder a xs h.1)

-- All the names so far are older than a stamp above the best one.
newest-IsOlder :
    (names : List Bytes) (best stamp : ℕ) (name : Bytes)
    → best < stamp
    → IsNewest names best name
    → All (IsOlder stamp) names
newest-IsOlder names best stamp name h n = rw n.splits (
    All-append (IsOlder stamp) n.front (name ∷ n.back)
      (IsOlder-mono best stamp n.front (omega arith) n.front_older)
      (rw n.stamp_is h, IsOlder-mono (suc best) stamp n.back h n.back_not_newer))

IsNewest-append :
    (names : List Bytes) (stamp : ℕ) (name x : Bytes)
    → IsOlder (suc stamp) x
    → IsNewest names stamp name
    → IsNewest (names ++ (x ∷ [])) stamp name
IsNewest-append names stamp name x h n = record {
  front = n.front;
  back = n.back ++ (x ∷ []);
  splits = rw n.splits (append_assoc n.front (name ∷ n.back) (x ∷ []));
  stamp_is = n.stamp_is;
  front_older = n.front_older;
  back_not_newer = All-append (IsOlder (suc stamp)) n.back (x ∷ []) n.back_not_newer (h, tt);
}

IsNewest-last :
    (names : List Bytes) (stamp : ℕ) (x : Bytes)
    → extract_build_stamp x ≡ some stamp
    → All (IsOlder stamp) names
    → IsNewest (names ++ (x ∷ [])) stamp x
IsNewest-last names stamp x e h = record {
  front = names;
  back = [];
  splits = refl;
  stamp_is = e;
  front_older = h;
  back_not_newer = tt;
}

newer-BestInv :
    (names : List Bytes) (best : Option (ℕ × Bytes)) (stamp : ℕ) (x : Bytes)
    → extract_build_stamp x ≡ some stamp
    → BestInv names best
    → BestInv (names ++ (x ∷ [])) (newer best stamp x)
unfolding newer
newer-BestInv names none stamp x e h =
    IsNewest-last names stamp x e (unstamped-IsOlder stamp names h)
newer-BestInv names (some (best, old)) stamp x e h = elim (Bool-cases (ltb best stamp)) [
  | inl up ↦
      rw up (IsNewest-last names stamp x e (newest-IsOlder names best stamp old (ground arith) h))
  | inr down ↦ rw down (IsNewest-append names best old x (rw e (ground arith)) h)
]

unstamped-BestInv :
    (names : List Bytes) (best : Option (ℕ × Bytes)) (x : Bytes)
    → extract_build_stamp x ≡ none
    → BestInv names best
    → BestInv (names ++ (x ∷ [])) best
unstamped-BestInv names none x e h = All-append IsUnstamped names (x ∷ []) h (e, tt)
unstamped-BestInv names (some (best, old)) x e h = IsNewest-append names best old x (rw e tt) h

choose-BestInv :
    (seen : List Bytes) (c : Choice) (x : Bytes)
    → BestInv seen c.best
    → BestInv (seen ++ (x ∷ [])) (choose c x).best
unfolding choose
choose-BestInv seen c x h = elim (Option-cases (extract_build_stamp x)) [
  | inl e ↦ rw (e, choose) (unstamped-BestInv seen c.best x e h)
  | inr (stamp, e) ↦ rw (e, choose) (newer-BestInv seen c.best stamp x e h)
]

choose_all-BestInv :
    (names seen : List Bytes) (c : Choice)
    → BestInv seen c.best
    → BestInv (seen ++ names) (choose_all c names).best
unfolding choose_all
choose_all-BestInv [] seen c h = rw append-nil h
choose_all-BestInv (x ∷ names) seen c h =
    rw (append_assoc seen (x ∷ []) names) at
      (choose_all-BestInv names (seen ++ (x ∷ [])) (choose c x) (choose-BestInv seen c x h))

-- The first name that has no build stamp and is the plain link.
abbrev pub plain_link : List Bytes → Option Bytes
plain_link [] = none
plain_link (x ∷ names) = elim (extract_build_stamp x) [
  | some stamp ↦ plain_link names
  | none ↦ if is_unversioned_update_swu x then some x else plain_link names
]

or_else : Option Bytes → Option Bytes → Option Bytes
or_else none b = b
or_else (some a) b = some a

choose_all-link :
    (names : List Bytes) (c : Choice)
    → (choose_all c names).link ≡ or_else c.link (plain_link names)
unfolding choose_all choose or_else first_link
choose_all-link [] c = elim (Option-cases c.link) [ inl e ↦ rw e | inr (a, e) ↦ rw e ]
choose_all-link (x ∷ names) c = ground (arith, choose_all-link names (choose c x))

-- What pickBestSwuName is to find: the first name with the largest stamp; if no name has a stamp,
-- the first plain link; if there is none, the first name.
abbrev pub IsPick : List Bytes → Bytes → Bytes → Type 0
IsPick names first b =
    ((stamp : ℕ) × IsNewest names stamp b)
    ⊎ (All IsUnstamped names × (b ≡ (elim (plain_link names) [ some link ↦ link | none ↦ first ])))

decide_best-IsPick :
    (names : List Bytes) (first : Bytes) (c : Choice)
    → BestInv names c.best
    → c.link ≡ plain_link names
    → IsPick names first (decide_best c first)
unfolding decide_best
decide_best-IsPick names first c h l = elim (Option-cases c.best) [
  | inl e ↦ inr (subst (BestInv names) e h, rw (e, l, decide_best))
  | inr ((stamp, name), e) ↦ inl (stamp, rw (e, decide_best) (subst (BestInv names) e h))
]

-- For a list that is not empty and a buffer of any size but 0, pickBestSwuName gives what fits the
-- buffer of the name that it is to find: the first name with the largest build stamp; if no name has
-- a stamp, the first plain link, and if there is no link either, the first name.
pub pick_best_swu_name-IsPick :
    (size : ℕ) (first : Bytes) (names : List Bytes)
    → size ≢ 0
    → (b : Bytes) × (pick_best_swu_name size (first ∷ names) ≡ some (fit size b))
      × IsPick (first ∷ names) first b
unfolding pick_best_swu_name or_else
pick_best_swu_name-IsPick size first names h =
    let c = choose_all no_choice (first ∷ names) in
    (
      decide_best c first,
      ground arith,
      decide_best-IsPick (first ∷ names) first c
          (choose_all-BestInv (first ∷ names) [] no_choice tt)
          (choose_all-link (first ∷ names) no_choice),
    )
