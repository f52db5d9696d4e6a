-- ===== src/Defaults/Trim.antt =====
-- otaTrimInPlace and the blanks of its text.
use alientek.Prelude.{
  true, false, [], ◌∷◌, ◌++◌, ◌≡◌, refl, ap, inl, inr, Bool-cases, All, Bytes, is_space,
}
use alientek.Defaults.{trim_end, trim}

abbrev pub IsBlank : Bytes → Type 0
IsBlank = All (λ c. is_space c ≡ true)

-- The first byte, if there is one, is no blank.
abbrev pub StartsSolid : Bytes → Type 0
StartsSolid [] = Unit
StartsSolid (c ∷ cs) = is_space c ≡ false

-- The last byte, if there is one, is no blank.
abbrev pub EndsSolid : Bytes → Type 0
EndsSolid [] = Unit
EndsSolid (c ∷ []) = is_space c ≡ false
EndsSolid (c ∷ d ∷ ds) = EndsSolid (d ∷ ds)

pub record TrimsTo (s t : Bytes) : Type 0 where
  pub lead : Bytes
  pub trail : Bytes
  pub splits : s ≡ lead ++ (t ++ trail)
  pub lead_blank : IsBlank lead
  pub trail_blank : IsBlank trail
  pub starts : StartsSolid t
  pub ends : EndsSolid t

abbrev Ends : Bytes → Bytes → Type 0
Ends s t = (trail : Bytes) × (s ≡ t ++ trail) × IsBlank trail × EndsSolid t

trim_end-cons :
    (c : _) (cs t : Bytes) → trim_end cs ≡ t → Ends cs t → Ends (c ∷ cs) (trim_end (c ∷ cs))
unfolding trim_end
trim_end-cons c cs [] e (trail, p, blank, solid) = elim (Bool-cases (is_space c)) [
  | inl h ↦ rw (e, trim_end, h) (c ∷ trail, ap (◌∷◌ c) p, (h, blank), tt)
  | inr h ↦ rw (e, trim_end, h) (trail, ap (◌∷◌ c) p, blank, h)
]
trim_end-cons c cs (d ∷ ds) e (trail, p, blank, solid) =
    rw (e, trim_end) (trail, ap (◌∷◌ c) p, blank, solid)

pub trim_end-Ends : (s : Bytes) → Ends s (trim_end s)
unfolding trim_end
trim_end-Ends [] = ([], refl, tt, tt)
trim_end-Ends (c ∷ cs) = trim_end-cons c cs (trim_end cs) refl (trim_end-Ends cs)

EndsSolid-cons : (c : _) (t : Bytes) → is_space c ≡ false → EndsSolid t → EndsSolid (c ∷ t)
EndsSolid-cons c [] h e = h
EndsSolid-cons c (d ∷ ds) h e = e

trim-cons : (c : _) (cs : Bytes) → is_space c ≡ false → TrimsTo (c ∷ cs) (c ∷ trim_end cs)
trim-cons c cs h =
    let (trail, p, blank, solid) = trim_end-Ends cs in
    record {
      lead = [];
      trail = trail;
      splits = ap (◌∷◌ c) p;
      lead_blank = tt;
      trail_blank = blank;
      starts = h;
      ends = EndsSolid-cons c (trim_end cs) h solid;
    }

TrimsTo-cons : (c : _) (s t : Bytes) → is_space c ≡ true → TrimsTo s t → TrimsTo (c ∷ s) t
TrimsTo-cons c s t h r = record {
  lead = c ∷ r.lead;
  trail = r.trail;
  splits = ap (◌∷◌ c) r.splits;
  lead_blank = (h, r.lead_blank);
  trail_blank = r.trail_blank;
  starts = r.starts;
  ends = r.ends;
}

-- The result of otaTrimInPlace is what stands between a blank beginning and a blank end of the
-- text, and it neither begins nor ends with a blank.
pub trim-TrimsTo : (s : Bytes) → TrimsTo s (trim s)
unfolding trim
trim-TrimsTo [] = record {
  lead = [];
  trail = [];
  splits = refl;
  lead_blank = tt;
  trail_blank = tt;
  starts = tt;
  ends = tt;
}
trim-TrimsTo (c ∷ cs) = elim (Bool-cases (is_space c)) [
  | inl h ↦ rw h (TrimsTo-cons c cs _ h (trim-TrimsTo cs))
  | inr h ↦ rw h (trim-cons c cs h)
]

trim_end_solid : (t : Bytes) → EndsSolid t → trim_end t ≡ t
unfolding trim_end
trim_end_solid [] e = refl
trim_end_solid (c ∷ []) e = rw e
trim_end_solid (c ∷ d ∷ ds) e = rw (trim_end_solid (d ∷ ds) e, trim_end)

trim_end_tail : (c : _) (t : Bytes) → EndsSolid (c ∷ t) → trim_end t ≡ t
trim_end_tail c [] e = unfold trim_end in refl
trim_end_tail c (d ∷ ds) e = trim_end_solid (d ∷ ds) e

-- Text with no blank at its ends is left alone.
pub trim_solid : (t : Bytes) → StartsSolid t → EndsSolid t → trim t ≡ t
unfolding trim
trim_solid [] s e = refl
trim_solid (c ∷ cs) s e = rw s (ap (◌∷◌ c) (trim_end_tail c cs e))
