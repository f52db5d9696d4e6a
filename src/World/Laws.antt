-- ===== src/World/Laws.antt =====
-- How the chains of calls in World go on after a call.
use alientek.Prelude.{arith, ◌≡◌, refl, ◌∙◌, ap, Bytes}
use alientek.World.{World, Result, ok, err, Io, ◌>>=◌}

-- What a chain makes of the outcome of its first call.
abbrev pub next : {A B : Type 0} → (A → Io B) → Result A × World → Result B × World
next f (ok a, w) = f a w
next f (err message, w) = (err message, w)

pub bind-next : {A B : Type 0} (m : Io A) (f : A → Io B) (w : World) → (m >>= f) w ≡ next f (m w)
bind-next m f w = by_result f (m w)
  where
    by_result :
        {A B : Type 0} (f : A → Io B) (r : Result A × World)
        → (elim (r.0) [ ok a ↦ f a r.1 | err message ↦ (err message, r.1) ]) ≡ next f r
    by_result f (ok a, v) = refl
    by_result f (err message, v) = refl

-- After a success the next call is run on its value, in the world that it leaves.
pub bind_ok :
    {A B : Type 0} (m : Io A) (f : A → Io B) (w : World) {a : A} {w1 : World}
    → m w ≡ (ok a, w1)
    → (m >>= f) w ≡ f a w1
bind_ok m f w h = bind-next m f w ∙ ap (next f) h

-- The same, where only the value of the first call is known.
pub bind_ran :
    {A B : Type 0} (m : Io A) (f : A → Io B) (w : World) {a : A}
    → (m w).0 ≡ ok a
    → (m >>= f) w ≡ f a (m w).1
bind_ran m f w h = bind_ok m f w (ap (λ r. (r, (m w).1)) h)

-- A failure ends the chain.
pub bind_err :
    {A B : Type 0} (m : Io A) (f : A → Io B) (w : World) {message : Bytes} {w1 : World}
    → m w ≡ (err message, w1)
    → (m >>= f) w ≡ (err message, w1)
bind_err m f w h = bind-next m f w ∙ ap (next f) h

-- A chain that succeeds has succeeded in its first call, and goes on from there.
pub bind_success :
    {A B : Type 0} (m : Io A) (f : A → Io B) (w : World) {b : B}
    → ((m >>= f) w).0 ≡ ok b
    → (a : A) × (w1 : World) × (m w ≡ (ok a, w1)) × ((f a w1).0 ≡ ok b)
bind_success m f w {b} h = by_result m f w (m w) refl h
  where
    by_result :
        {A B : Type 0} (m : Io A) (f : A → Io B) (w : World) {b : B} (r : Result A × World)
        → m w ≡ r
        → ((m >>= f) w).0 ≡ ok b
        → (a : A) × (w1 : World) × (m w ≡ (ok a, w1)) × ((f a w1).0 ≡ ok b)
    by_result m f w (ok a, w1) e h = (a, w1, e, rw (bind_ok m f w e) at h)
    by_result m f w (err message, w1) e h = absurd (ground (arith, bind_err m f w e))

pub ok-injective : {A : Type 0} {a b : A} → ok a ≡ ok b → a ≡ b
ok-injective {A} {a} {b} h = ap value h
  where
    value : Result A → A
    value (ok x) = x
    value (err message) = a
