-- ===== src/Web/Transfer.antt =====
-- What recvBodyToFile of webserver-upgrade.c takes from the peer.
use alientek.Prelude.CLaws.{str_eq_refl}
use alientek.Prelude.{
  ℕ, zero, suc, ◌-◌, ◌≤◌, Bool, true, false, not, Bool-cases, some, List, [], ◌∷◌, ◌++◌, ◌≡◌, refl,
  sym, ap, ◌∙◌, inl, inr, arith, ◌==◌, ltb, min, if◌then◌else◌, Bytes, length, length-append, take,
  append_assoc, append-nil,
}
use alientek.World.{World, Platform}
use alientek.Web.{Web, Recv, got, broken_off, again}
use alientek.Web.Upload.{append_file, body_loop, recv_rest, recv_body_to_file}

-- What the calls of recv give one after the other, each at most the 8192 bytes of its buffer.
unfoldable pub peer : List Recv → Bytes
peer [] = []
peer (got s ∷ calls) = take 8192 s ++ peer calls
peer (broken_off ∷ calls) = peer calls
peer (again ∷ calls) = peer calls

length-take_le : (n : ℕ) (s : Bytes) → length (take n s) ≤ n
length-take_le zero [] = omega arith
length-take_le zero (c ∷ s) = omega arith
length-take_le (suc n) [] = omega arith
length-take_le (suc n) (c ∷ s) = omega (arith, length-take_le n s)

take_nil : (n : ℕ) → take {A = ℕ} n [] ≡ []
take_nil zero = refl
take_nil (suc n) = refl

take_zero : (s : Bytes) → take 0 s ≡ []
take_zero [] = refl
take_zero (c ∷ s) = refl

split_nothing :
    (n k : ℕ) (s t : Bytes) → take k s ≡ [] → take k s ++ take (n - length (take k s)) t ≡ take n t
split_nothing n k s t e = ap (λ z. z ++ take (n - length z) t) e ∙ ap (λ x. take x t) (omega arith)

take_piece :
    (m n : ℕ) (s t : Bytes)
    → take (min m n) s ++ take (n - length (take (min m n) s)) t ≡ take n (take m s ++ t)
take_piece zero n s t =
    let e : min 0 n ≡ 0 = omega arith in
    split_nothing n (min 0 n) s t (ap (λ k. take k s) e ∙ take_zero s)
    ∙ ap (λ z. take n (z ++ t)) (sym (take_zero s))
take_piece (suc m) zero s t =
    let e : min (suc m) 0 ≡ 0 = omega arith in
    split_nothing 0 (min (suc m) 0) s t (ap (λ k. take k s) e ∙ take_zero s)
    ∙ (take_zero t ∙ sym (take_zero (take (suc m) s ++ t)))
take_piece (suc m) (suc n) [] t = split_nothing (suc n) (min (suc m) (suc n)) [] t (take_nil _)
take_piece (suc m) (suc n) (c ∷ s) t =
    let e : min (suc m) (suc n) ≡ suc (min m n) = omega arith in
    let r = take (min m n) s in
    let f : suc n - suc (length r) ≡ n - length r = omega arith in
    ap (λ k. take k (c ∷ s) ++ take (suc n - length (take k (c ∷ s))) t) e
    ∙ (ap (λ k. c ∷ (r ++ take k t)) f ∙ ap (λ z. c ∷ z) (take_piece m n s t))

module _ (p : Platform) where
  -- The file holds `old` and `need` more bytes, that the calls have given.
  pub record Grown (path : Bytes) (calls : List Recv) (need : ℕ) (old : Bytes) (v : World)
      : Type 0 where
    pub more : Bytes
    pub length_more : length more ≡ need
    pub reads : more ≡ take need (peer calls)
    pub stored : v.files path ≡ some (old ++ more)

  append_file-stored :
      (path old s : Bytes) (w : World)
      → (append_file p path old s w).0 ≡ true
      → (append_file p path old s w).1.files path ≡ some (old ++ s)
  unfolding append_file
  append_file-stored path old s w h = ground (arith, str_eq_refl path)

  grow :
      (path : Bytes) (calls : List Recv) (need : ℕ) (old s : Bytes) (v : World)
      → Grown path calls (need - length (take (min 8192 need) s)) (old ++ take (min 8192 need) s) v
      → Grown path (got s ∷ calls) need old v
  unfolding peer
  grow path calls need old s v g =
      let x = take (min 8192 need) s in
      record {
        more = x ++ g.more;
        length_more =
            omega (arith, length-append x g.more, length-take_le (min 8192 need) s, g.length_more);
        reads = ap (λ z. x ++ z) g.reads ∙ take_piece 8192 need s (peer calls);
        stored = g.stored ∙ ap some (append_assoc old x g.more);
      }

  -- Lines 75 to 82 that go on have read and written something.
  went_on :
      (a b : Bool) (w v : World) (calls : List Recv) (r : Bool × World × List Recv)
      → (if a then (false, w, calls) else if not b then (false, v, calls) else r).0 ≡ true
      → (b ≡ true)
        × (r.0 ≡ true)
        × ((if a then (false, w, calls) else if not b then (false, v, calls) else r) ≡ r)
  went_on true b w v calls r h = absurd (ground arith)
  went_on false false w v calls r h = absurd (ground arith)
  went_on false true w v calls r h = (refl, h, refl)

  body_loop-Grown :
      (path : Bytes) (calls : List Recv) (need : ℕ) (old : Bytes) (w : World)
      → w.files path ≡ some old
      → (body_loop p path calls need old w).0 ≡ true
      → Grown path calls need old (body_loop p path calls need old w).1
  unfolding body_loop peer
  body_loop-Grown path calls zero old w f h = record {
    more = [];
    length_more = refl;
    reads = sym (take_zero (peer calls));
    stored = f ∙ ap some (sym (append-nil old));
  }
  body_loop-Grown path [] (suc need) old w f h = absurd (ground arith)
  body_loop-Grown path (broken_off ∷ calls) (suc need) old w f h = absurd (ground arith)
  body_loop-Grown path (again ∷ calls) (suc need) old w f h =
      let g = body_loop-Grown path calls (suc need) old w f h in
      record { more = g.more; length_more = g.length_more; reads = g.reads; stored = g.stored }
  body_loop-Grown path (got s ∷ calls) (suc need) old w f h =
      let n = min 8192 (suc need) in
      let x = take n s in
      let r = append_file p path old x w in
      let t = body_loop p path calls (suc need - length x) (old ++ x) r.1 in
      let (a, b, e) = went_on (length x == 0) r.0 w r.1 calls t h in
      rw e (
        grow path calls (suc need) old s t.1 (
          body_loop-Grown path calls (suc need - length x) (old ++ x) r.1
            (append_file-stored path old x w a) b))

  recv_rest-Grown :
      (path pref : Bytes) (size : ℕ) (r : Bool × World) (w : Web)
      → (r.0 ≡ true → r.1.files path ≡ some pref)
      → (recv_rest p path pref size r w).0 ≡ true
      → Grown path w.calls (size - length pref) pref (recv_rest p path pref size r w).1.world
  unfolding recv_rest
  recv_rest-Grown path pref size (false, v) w f h = absurd (ground (arith, h))
  recv_rest-Grown path pref size (true, v) w f h =
      body_loop-Grown path w.calls (size - length pref) pref v (f refl) h

  start_stored :
      (path pref : Bytes) (w : World)
      → w.files path ≡ some []
      → (if length pref == 0 then (true, w) else append_file p path [] pref w).0 ≡ true
      → (if length pref == 0 then (true, w) else append_file p path [] pref w).1.files path
        ≡ some pref
  start_stored path [] w f h = f
  start_stored path (c ∷ pref) w f h = ground (arith, h, append_file-stored path [] (c ∷ pref) w)

  -- Where recvBodyToFile succeeds, the file that was empty holds as many bytes as the length says: what
  -- came with the headers, and then the first bytes that the calls of recv give.
  pub recv_body_to_file-Grown :
      (path pref : Bytes) (size : ℕ) (w : Web)
      → w.world.files path ≡ some []
      → (recv_body_to_file p path pref size w).0 ≡ true
      → (length pref ≤ size)
        × Grown path w.calls
            (size - length pref)
            pref
            (recv_body_to_file p path pref size w).1.world
  unfolding recv_body_to_file
  recv_body_to_file-Grown path pref size w f h = elim (Bool-cases (ltb size (length pref))) [
    | inl n ↦ absurd (ground (arith, h))
    | inr n ↦ (
      ground arith,
      rw n (
          recv_rest-Grown path pref size
            (if length pref == 0 then (true, w.world) else append_file p path [] pref w.world) w
            (start_stored path pref w.world f) (ground (arith, h))),
    )
  ]
