-- ===== src/Web/Form.antt =====
-- Forms as a browser sends them, and the file that extractSwuFromMime of webserver-upgrade.c finds.
use mathlib.Core.Option.{none-ne-some}
use alientek.Prelude.CLaws.{starts_with-append, take_append, drop_append}
use alientek.Prelude.{
  ℕ, suc, ◌-◌, ◌≤◌, Bool, true, false, ◌&&◌, Bool-cases, none, some, [], ◌∷◌, ◌++◌, ◌≡◌, ◌≢◌, refl,
  sym, ap, ◌∙◌, inl, inr, arith, append_assoc, ◌==◌, leb, ltb, Bytes, length, length-append, take,
  drop, text, All, str_str, starts_with, has, str_eq,
}
use alientek.Web.Upload.{strip_crlf, skip_crlf, swu, part_body, part_of, extract_loop, swu_of}

-- The search stands on the pattern, or goes on behind a byte.
str_str_here : (s pat : Bytes) → starts_with s pat ≡ true → str_str s pat ≡ some s
unfolding str_str
str_str_here [] pat h = rw h refl
str_str_here (y ∷ s) pat h = rw h refl

str_str_step :
    (y : ℕ) (s pat : Bytes) → starts_with (y ∷ s) pat ≡ false → str_str (y ∷ s) pat ≡ str_str s pat
unfolding str_str
str_str_step y s pat h = rw h refl

no_start : (s pat : Bytes) → str_str s pat ≡ none → starts_with s pat ≡ false
no_start s pat e = elim (Bool-cases (starts_with s pat)) [
  | inr f ↦ f
  | inl f ↦ absurd (none-ne-some s (sym e ∙ str_str_here s pat f))
]

-- A pattern without the byte `c` does not reach over it.
starts_with_apart :
    (s pat t : Bytes) (c : ℕ)
    → All (λ x. x ≢ c) pat
    → starts_with (s ++ (c ∷ t)) pat ≡ starts_with s pat
unfolding starts_with
starts_with_apart [] [] t c h = refl
starts_with_apart [] (x ∷ pat) t c h = ground (arith, h.0)
starts_with_apart (y ∷ s) [] t c h = refl
starts_with_apart (y ∷ s) (x ∷ pat) t c h =
    ap (λ (b : Bool). (y == x) && b) (starts_with_apart s pat t c h.1)

nothing_starts : (x : ℕ) (pat : Bytes) → starts_with [] (x ∷ pat) ≡ false
unfolding starts_with
nothing_starts x pat = refl

str_str_apart :
    (s pat t : Bytes) (x c : ℕ)
    → All (λ y. y ≢ c) (x ∷ pat)
    → str_str s (x ∷ pat) ≡ none
    → str_str (s ++ (c ∷ t)) (x ∷ pat) ≡ str_str t (x ∷ pat)
str_str_apart [] pat t x c h e =
    str_str_step c t (x ∷ pat) (starts_with_apart [] (x ∷ pat) t c h ∙ nothing_starts x pat)
str_str_apart (y ∷ s) pat t x c h e =
    let f = no_start (y ∷ s) (x ∷ pat) e in
    str_str_step y (s ++ (c ∷ t)) (x ∷ pat) (starts_with_apart (y ∷ s) (x ∷ pat) t c h ∙ f)
    ∙ str_str_apart s pat t x c h (sym (str_str_step y s (x ∷ pat) f) ∙ e)

-- What stands behind a long enough text does not count.
starts_with_long :
    (s pat t : Bytes) → length pat ≤ length s → starts_with (s ++ t) pat ≡ starts_with s pat
unfolding starts_with
starts_with_long [] [] [] h = refl
starts_with_long [] [] (y ∷ t) h = refl
starts_with_long [] (x ∷ pat) t h = absurd (omega arith)
starts_with_long (y ∷ s) [] t h = refl
starts_with_long (y ∷ s) (x ∷ pat) t h =
    ap (λ (b : Bool). (y == x) && b) (starts_with_long s pat t (omega arith))

-- A search finds the first pattern: the pattern without its last byte, behind `s`, holds none.
str_str_first :
    (s q t : Bytes) (l : ℕ)
    → str_str (s ++ q) (q ++ (l ∷ [])) ≡ none
    → str_str (s ++ (q ++ (l ∷ t))) (q ++ (l ∷ [])) ≡ some (q ++ (l ∷ t))
str_str_first [] q t l e =
    str_str_here (q ++ (l ∷ t)) (q ++ (l ∷ []))
      (rw (sym (append_assoc q (l ∷ []) t)) (starts_with-append (q ++ (l ∷ [])) t))
str_str_first (y ∷ s) q t l e =
    let f = no_start (y ∷ (s ++ q)) (q ++ (l ∷ [])) e in
    let long : length (q ++ (l ∷ [])) ≤ length (y ∷ (s ++ q)) =
      omega (arith, length-append q (l ∷ []), length-append s q) in
    str_str_step y (s ++ (q ++ (l ∷ t))) (q ++ (l ∷ [])) (
      ap (λ z. starts_with (y ∷ z) (q ++ (l ∷ []))) (sym (append_assoc s q (l ∷ t)))
      ∙ (starts_with_long (y ∷ (s ++ q)) (q ++ (l ∷ [])) (l ∷ t) long ∙ f))
    ∙ str_str_first s q t l (sym (str_str_step y (s ++ q) (q ++ (l ∷ [])) f) ∙ e)

-- What stands in front of a text that a search has found.
front_of : (a b : Bytes) → take (length (a ++ b) - length b) (a ++ b) ≡ a
front_of a b =
    let e : length (a ++ b) - length b ≡ length a = omega (arith, length-append a b) in
    ap (λ n. take n (a ++ b)) e ∙ take_append a b

strip_crlf-append : (s : Bytes) → strip_crlf (s ++ text "\r\n") ≡ s
unfolding strip_crlf str_eq
strip_crlf-append s =
    let e : length (s ++ text "\r\n") - 2 ≡ length s =
      omega (arith, length-append s (text "\r\n")) in
    let n : leb 2 (length (s ++ text "\r\n")) ≡ true =
      ground (arith, length-append s (text "\r\n")) in
    rw e (rw n (rw (drop_append s (text "\r\n")) (take_append s (text "\r\n"))))

-- The text of a file in a form, with the boundary behind it.
abbrev pub file_part : Bytes → Bytes → Bytes → Bytes
file_part b image tail = image ++ (text "\r\n" ++ ((text "--" ++ b) ++ tail))

-- The body of a form whose first part is a file.
abbrev pub form : Bytes → Bytes → Bytes → Bytes → Bytes
form b head image tail =
    (text "--" ++ b) ++ (text "\r\n" ++ (head ++ (text "\r\n\r\n" ++ file_part b image tail)))

strip_part :
    (b image tail : Bytes)
    → strip_crlf (
        take
          (length (file_part b image tail) - length ((text "--" ++ b) ++ tail))
          (file_part b image tail))
      ≡ image
strip_part b image tail =
    let rest = (text "--" ++ b) ++ tail in
    ap (λ z. strip_crlf (take (length z - length rest) z))
      (sym (append_assoc image (text "\r\n") rest))
    ∙ (ap strip_crlf (front_of (image ++ text "\r\n") rest) ∙ strip_crlf-append image)

no_dash : (b s : Bytes) → starts_with (b'\n' ∷ s) (text "--" ++ b) ≡ false
unfolding starts_with
no_dash b s = refl

-- The next boundary is the one behind the file.
next_boundary :
    (b image tail : Bytes)
    → All (λ x. x ≢ b'\r') b
    → str_str image (text "--" ++ b) ≡ none
    → str_str (file_part b image tail) (text "--" ++ b) ≡ some ((text "--" ++ b) ++ tail)
next_boundary b image tail a e =
    let d : b'-' ≢ b'\r' = λ (z : b'-' ≡ b'\r'). absurd (omega (arith, z)) in
    str_str_apart image (b'-' ∷ b) (b'\n' ∷ ((text "--" ++ b) ++ tail)) b'-' b'\r' (d, (d, a)) e
    ∙ (str_str_step b'\n' ((text "--" ++ b) ++ tail) (text "--" ++ b)
          (no_dash b ((text "--" ++ b) ++ tail))
        ∙ str_str_here ((text "--" ++ b) ++ tail) (text "--" ++ b)
            (starts_with-append (text "--" ++ b) tail))

part_body_found :
    (boundary head body next : Bytes)
    → str_str body boundary ≡ some next
    → has head (text "name=\"swu\"") ≡ true
    → part_body boundary head body ≡ swu (strip_crlf (take (length body - length next) body))
unfolding part_body
part_body_found boundary head body next e h = rw (e, part_body) (rw h refl)

part_of_found :
    (boundary part rest : Bytes)
    → str_str part (text "\r\n\r\n") ≡ some rest
    → part_of boundary part
      ≡ part_body boundary (take (length part - length rest) part) (drop 4 rest)
unfolding part_of
part_of_found boundary part rest e = rw (e, part_of) refl

part_of-file :
    (b head image tail : Bytes)
    → All (λ x. x ≢ b'\r') b
    → str_str image (text "--" ++ b) ≡ none
    → str_str (head ++ text "\r\n\r") (text "\r\n\r\n") ≡ none
    → has head (text "name=\"swu\"") ≡ true
    → part_of (text "--" ++ b) (head ++ (text "\r\n\r\n" ++ file_part b image tail)) ≡ swu image
part_of-file b head image tail a e f h =
    let rest = text "\r\n\r\n" ++ file_part b image tail in
    part_of_found (text "--" ++ b) (head ++ rest) rest
      (str_str_first head (text "\r\n\r") (file_part b image tail) b'\n' f)
    ∙ (ap (λ z. part_body (text "--" ++ b) z (file_part b image tail)) (front_of head rest)
        ∙ (part_body_found (text "--" ++ b) head (file_part b image tail) ((text "--" ++ b) ++ tail)
              (next_boundary b image tail a e) h
            ∙ ap swu (strip_part b image tail)))

-- One round of the loop, on a boundary with a line end behind it.
extract_loop_first :
    (fuel : ℕ) (boundary part image : Bytes)
    → part_of boundary part ≡ swu image
    → extract_loop (suc fuel) boundary (boundary ++ (text "\r\n" ++ part)) ≡ some image
unfolding extract_loop skip_crlf starts_with
extract_loop_first fuel boundary part image e =
    let cursor = boundary ++ (text "\r\n" ++ part) in
    let n : ltb (length boundary) (length cursor) ≡ true =
      ground (arith, length-append boundary (text "\r\n" ++ part)) in
    let f = str_str_here cursor boundary (starts_with-append boundary (text "\r\n" ++ part)) in
    rw n (rw f (rw (drop_append boundary (text "\r\n" ++ part)) (rw e refl)))

-- extractSwuFromMime finds the file of a form as it is, line ends of its own included: where the
-- boundary holds no carriage return, the file does not hold the boundary, and the headers of the
-- first part name it swu and hold no empty line.
pub swu_of-form :
    (b head image tail : Bytes)
    → All (λ x. x ≢ b'\r') b
    → str_str image (text "--" ++ b) ≡ none
    → str_str (head ++ text "\r\n\r") (text "\r\n\r\n") ≡ none
    → has head (text "name=\"swu\"") ≡ true
    → swu_of (text "--" ++ b) (form b head image tail) ≡ some image
unfolding swu_of
swu_of-form b head image tail a e f h =
    let part = head ++ (text "\r\n\r\n" ++ file_part b image tail) in
    extract_loop_first (length (b'-' ∷ (b ++ (text "\r\n" ++ part)))) (text "--" ++ b) part image
      (part_of-file b head image tail a e f h)
