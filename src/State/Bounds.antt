-- ===== src/State/Bounds.antt =====
-- The lengths of the texts that readState stores.
use mathlib.Core.Path.{subst}
use alientek.Prelude.{
  ℕ, ◌+◌, ◌<◌, Bool, true, false, Option, none, some, [], ◌∷◌, arith, leb, ◌==◌, Bool-cases,
  Option-cases, inl, inr, if◌then◌else◌, length, Bytes, has, skip_while, is_space, fgets,
}
use alientek.State.{OtaState}
use alientek.State.Json.{
  ◌>>=◌, ◌>>◌, guard, push, decode_escaped_character, decode_from, decode_string, after_colon,
  read_string_field, read_auto_reboot, read_brace, read_state,
}

-- A property of the value, if there is one.
abbrev pub OnSome {ℓ} : {A : Type ℓ} → (A → Type 0) → Option A → Type 0
OnSome P none = Unit
OnSome P (some a) = P a

bind-OnSome :
    {A B : Type 0} (Q : A → Type 0) (P : B → Type 0) (m : Option A) (f : A → Option B)
    → OnSome Q m
    → ((a : A) → Q a → OnSome P (f a))
    → OnSome P (m >>= f)
bind-OnSome Q P none f h k = tt
bind-OnSome Q P (some a) f h k = k a h

any_OnSome : {A : Type 0} (m : Option A) → OnSome (λ a. Unit {0}) m
any_OnSome none = tt
any_OnSome (some a) = tt

guard-OnSome :
    {A : Type 0} (P : A → Type 0) (b : Bool) (m : Option A) → OnSome P m → OnSome P (guard b >> m)
guard-OnSome P true m h = h
guard-OnSome P false m h = tt

if-OnSome :
    {A : Type 0} (P : A → Type 0) (b : Bool) (x y : Option A)
    → OnSome P x
    → OnSome P y
    → OnSome P (if b then x else y)
if-OnSome P true x y h k = h
if-OnSome P false x y h k = k

push-OnSome :
    (size n c : ℕ) (more : Option Bytes)
    → (n + 1 < size → OnSome (λ v. n + 1 + length v < size) more)
    → OnSome (λ v. n + length v < size) (push size n c more)
unfolding push
push-OnSome size n c more h = elim (Bool-cases (leb size (n + 1))) [
  | inl full ↦ rw full tt
  | inr room ↦ rw room (
      bind-OnSome (λ v. n + 1 + length v < size) (λ v. n + length v < size) more _
        (h (ground arith)) (λ v k. omega arith))
]

decode_from-OnSome :
    (size n : ℕ) (s : Bytes) → n < size → OnSome (λ v. n + length v < size) (decode_from size n s)
unfolding decode_from
decode_from-OnSome size n [] b = tt
decode_from-OnSome size n (c ∷ []) b = ground arith
decode_from-OnSome size n (c ∷ d ∷ s) b =
    let escape = decode_from-OnSome size (n + 1) s in
    let plain = decode_from-OnSome size (n + 1) (d ∷ s) in
    if-OnSome _ (c == b'"') _ _ (omega arith) (
      if-OnSome _ (c == b'\\') _ _
        (bind-OnSome (λ e. Unit {0}) _ (decode_escaped_character d) _ (any_OnSome _)
          (λ e u. push-OnSome size n e _ escape))
        (push-OnSome size n c _ plain))

decode_string-OnSome :
    (size : ℕ) (s : Bytes) → 0 < size → OnSome (λ v. length v < size) (decode_string size s)
unfolding decode_string
decode_string-OnSome size [] b = tt
decode_string-OnSome size (c ∷ s) b =
    if-OnSome _ (c == b'"') _ _
      (elim (Option-cases (decode_from size 0 s)) [
        | inl e ↦ rw e tt
        | inr (v, e) ↦ rw e (
            omega
              (arith, subst (OnSome (λ v. 0 + length v < size)) e (decode_from-OnSome size 0 s b)))
      ])
      tt

module _ (P : OtaState → Type 0) where
  field-OnSome :
      (size : ℕ) (key file : Bytes) (f : Bytes × Bytes → Option OtaState)
      → 0 < size
      → ((v rest : Bytes) → length v < size → OnSome P (f (v, rest)))
      → OnSome P (read_string_field size key file >>= f)
  unfolding read_string_field
  field-OnSome size key file f b h =
      bind-OnSome (λ (r : Bytes × Bytes). length r.0 < size) P (read_string_field size key file) f
        (bind-OnSome (λ r. Unit {0}) _ (fgets 1024 file) _ (any_OnSome _)
          λ r u. guard-OnSome _ (has r.0 _) _ (
            bind-OnSome (λ v. Unit {0}) _ (after_colon r.0) _ (any_OnSome _)
              λ value u.
                bind-OnSome (λ (v : Bytes). length v < size) _
                  (decode_string size (skip_while is_space value)) _ (decode_string-OnSome size _ b)
                  (λ v k. k)))
        (λ r k. h r.0 r.1 k)

-- Every text of the state is shorter than its array.
pub record IsBounded (s : OtaState) : Type 0 where
  pub request_id_bound : length s.request_id < 64
  pub version_bound : length s.version < 32
  pub target_slot_bound : length s.target_slot < 8
  pub phase_bound : length s.phase < 32
  pub result_bound : length s.result < 16
  pub detail_bound : length s.detail < 256

-- Whatever the file holds, a state that readState gives has room for a terminator in each array.
pub read_state-IsBounded : (file : Bytes) → OnSome IsBounded (read_state file)
unfolding read_state
read_state-IsBounded file =
    bind-OnSome (λ r. Unit {0}) IsBounded (read_brace b'{' file) _ (any_OnSome _)
      λ f0 u. field-OnSome IsBounded 64 _ f0 _ (omega arith) λ v1 f1 b1.
        field-OnSome IsBounded 32 _ f1 _ (omega arith) λ v2 f2 b2.
          field-OnSome IsBounded 8 _ f2 _ (omega arith) λ v3 f3 b3.
            field-OnSome IsBounded 32 _ f3 _ (omega arith) λ v4 f4 b4.
              field-OnSome IsBounded 16 _ f4 _ (omega arith) λ v5 f5 b5.
                field-OnSome IsBounded 256 _ f5 _ (omega arith) λ v6 f6 b6.
                  bind-OnSome (λ r. Unit {0}) IsBounded (read_auto_reboot f6) _ (any_OnSome _)
                    λ r u.
                      bind-OnSome (λ r. Unit {0}) IsBounded (read_brace b'}' r.1) _ (any_OnSome _)
                        λ f8 u. record {
                          request_id_bound = b1;
                          version_bound = b2;
                          target_slot_bound = b3;
                          phase_bound = b4;
                          result_bound = b5;
                          detail_bound = b6;
                        }
