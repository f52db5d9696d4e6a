-- ===== src/Web/Answers.antt =====
-- What sendAll and sendResponse of webserver-http.c get to the peer.
use mathlib.Core.Path.{subst}
use alientek.Prelude.CLaws.{take-drop}
use alientek.Prelude.{
  ℕ, zero, suc, ◌<◌, Bool, true, false, Bool-cases, List, [], ◌∷◌, ◌++◌, ◌≡◌, refl, sym, ap, ◌∙◌,
  inl, inr, arith, ◌==◌, leb, Bytes, length, take, drop, append_assoc,
}
use alientek.Web.{
  Web, Sent, took, refused, try_again, send_loop, send_all, response_header, send_body,
  send_response,
}

-- All of `s`, or a part of it in front of a byte that is missing.
pub data Delivery (s : Bytes) : Bool × Bytes → Type 0 where
  all : Delivery s (true, s)
  cut : (part : Bytes) (c : ℕ) (rest : Bytes) → s ≡ part ++ (c ∷ rest) → Delivery s (false, part)

deliver_more :
    (n : ℕ) (s : Bytes) (r : Bool × Bytes)
    → Delivery (drop n s) r
    → Delivery s (r.0, take n s ++ r.1)
deliver_more n s _ all = subst (λ z. Delivery s (true, z)) (take-drop n s) all
deliver_more n s _ (cut part c rest e) =
    cut (take n s ++ part) c rest
      (take-drop n s ∙ (ap (λ z. take n s ++ z) e ∙ sym (append_assoc (take n s) part (c ∷ rest))))

send_loop-Delivery :
    (answers : List Sent) (s : Bytes)
    → Delivery s ((send_loop answers s).0, (send_loop answers s).1)
unfolding send_loop
send_loop-Delivery [] s = all
send_loop-Delivery (a ∷ more) [] = all
send_loop-Delivery (took n ∷ more) (c ∷ s) = elim (Bool-cases (n == 0)) [
  | inl z ↦ rw z (cut [] c s refl)
  | inr z ↦ rw z (deliver_more n (c ∷ s) _ (send_loop-Delivery more (drop n (c ∷ s))))
]
send_loop-Delivery (refused ∷ more) (c ∷ s) = cut [] c s refl
send_loop-Delivery (try_again ∷ more) (c ∷ s) = send_loop-Delivery more (c ∷ s)

-- What the calls of send have given up to `left`, and whether none of them has failed: a call fails
-- that is refused or takes nothing. Behind the answers everything is taken.
pub data Uses : List Sent → Bool → List Sent → Type 0 where
  stops : {answers : List Sent} → Uses answers true answers
  takes :
      {answers left : List Sent} {b : Bool} (n : ℕ)
      → Uses answers b left
      → Uses (took (suc n) ∷ answers) b left
  interrupted :
      {answers left : List Sent} {b : Bool}
      → Uses answers b left
      → Uses (try_again ∷ answers) b left
  fails : {answers : List Sent} → Uses (refused ∷ answers) false answers
  takes_nothing : {answers : List Sent} → Uses (took 0 ∷ answers) false answers

Uses-trans :
    {a m l : List Sent} {b : Bool} (c : Bool) → Uses a c m → c ≡ true → Uses m b l → Uses a b l
Uses-trans c stops e v = v
Uses-trans c (takes n u) e v = takes n (Uses-trans c u e v)
Uses-trans c (interrupted u) e v = interrupted (Uses-trans c u e v)
Uses-trans c fails e v = absurd (ground (arith, e))
Uses-trans c takes_nothing e v = absurd (ground (arith, e))

send_loop-Uses :
    (answers : List Sent) (s : Bytes) → Uses answers (send_loop answers s).0 (send_loop answers s).2
unfolding send_loop
send_loop-Uses [] s = stops
send_loop-Uses (a ∷ more) [] = stops
send_loop-Uses (took zero ∷ more) (c ∷ s) = takes_nothing
send_loop-Uses (took (suc n) ∷ more) (c ∷ s) =
    let e : (suc n == 0) ≡ false = ground arith in
    rw e (takes n (send_loop-Uses more (drop (suc n) (c ∷ s))))
send_loop-Uses (refused ∷ more) (c ∷ s) = fails
send_loop-Uses (try_again ∷ more) (c ∷ s) = interrupted (send_loop-Uses more (c ∷ s))

send_all-Delivery :
    (s : Bytes) (w : Web)
    → (part : Bytes) × Delivery s ((send_all s w).0, part)
      × ((send_all s w).1.sent ≡ w.sent ++ part)
unfolding send_all
send_all-Delivery s w = ((send_loop w.answers s).1, send_loop-Delivery w.answers s, refl)

-- What the peer has got of a response: all of it, unless a call of send has failed, and then the part in
-- front of a byte that is missing.
pub record Answered (response : Bytes) (w v : Web) : Type 0 where
  pub whole : Bool
  pub part : Bytes
  pub delivery : Delivery response (whole, part)
  pub got_part : v.sent ≡ w.sent ++ part
  pub uses : Uses w.answers whole v.answers

cut_append : (h b : Bytes) (r : Bool × Bytes) → r.0 ≡ false → Delivery h r → Delivery (h ++ b) r
cut_append h b _ e all = absurd (ground (arith, e))
cut_append h b _ e (cut part c rest f) =
    cut part c (rest ++ b) (ap (λ z. z ++ b) f ∙ append_assoc part (c ∷ rest) b)

all_append :
    (h b : Bytes) (r q : Bool × Bytes)
    → r.0 ≡ true
    → Delivery h r
    → Delivery b q
    → Delivery (h ++ b) (q.0, r.1 ++ q.1)
all_append h b _ q e (cut part c rest f) d = absurd (ground (arith, e))
all_append h b _ _ e all all = all
all_append h b _ _ e all (cut part c rest f) =
    cut (h ++ part) c rest (ap (λ z. h ++ z) f ∙ sym (append_assoc h part (c ∷ rest)))

-- The header has been sent, and then the body.
answer_body :
    (header body part : Bytes) (w : Web) (r : Bool × Web)
    → Delivery header (r.0, part)
    → r.1.sent ≡ w.sent ++ part
    → Uses w.answers r.0 r.1.answers
    → Answered (header ++ body) w (send_body body r)
unfolding send_body send_all
answer_body header body part w (false, v) d e u = record {
  whole = false;
  part = part;
  delivery = cut_append header body (false, part) refl d;
  got_part = e;
  uses = u;
}
answer_body header body part w (true, v) d e u =
    let (more, f, g) = send_all-Delivery body v in
    record {
      whole = (send_all body v).0;
      part = part ++ more;
      delivery = all_append header body (true, part) ((send_all body v).0, more) refl d f;
      uses = Uses-trans true u refl (send_loop-Uses v.answers body);
      got_part = g ∙ (ap (λ z. z ++ more) e ∙ append_assoc w.sent part more);
    }

-- Where the header is shorter than its buffer, sendResponse gives the peer the header with the length of
-- the body and then the body: all of it, however much each call of send takes and however often it is
-- interrupted, unless a call is refused or takes nothing, and then a part of it in front of a byte
-- that is missing, with no call of send behind that one.
pub send_response-Answered :
    (status : ℕ) (reason ctype body : Bytes) (w : Web)
    → length (response_header status reason ctype (length body)) < 256
    → Answered
        (response_header status reason ctype (length body) ++ body)
        w
        (send_response status reason ctype body w)
unfolding send_response send_all
send_response-Answered status reason ctype body w h =
    let header = response_header status reason ctype (length body) in
    let n : leb 256 (length header) ≡ false = ground arith in
    let (part, d, e) = send_all-Delivery header w in
    rw n (answer_body header body part w (send_all header w) d e (send_loop-Uses w.answers header))
