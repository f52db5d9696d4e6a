-- ===== src/Download/Checksum.antt =====
-- otaVerifySha256 of ota-download.cpp.
use alientek.Prelude.{
  ℕ, Bool, true, not, ◌&&◌, ◌⊎◌, inl, inr, none, some, List, [], ◌∷◌, ◌++◌, ◌==◌, ==_iff, ◌≡◌, ◌≢◌,
  refl, ap, ◌∙◌, arith, Bool-cases, Option-cases, if◌then◌else◌, length, take, map, All, Bytes, fit,
  text, is_xdigit, to_lower, starts_with_case,
}
use alientek.World.{
  World, Platform, Errno, einval, ebadmsg, Ran, Exit, Spawned, failed, started, Result, ok, Io,
  ◌>>=◌, pure, fail, after_child,
}
use alientek.World.Laws.{bind_success, ok-injective}
use alientek.Exec.{wait_for_command, succeeded, child_ended, is_eintr}
use alientek.Download.{read_command_output}

-- The loop of isValidSha256.
all_xdigits : Bytes → Bool
unfolding is_xdigit
all_xdigits [] = true
all_xdigits (c ∷ s) = is_xdigit c && all_xdigits s

-- isValidSha256
unfoldable pub is_valid_sha256 : Bytes → Bool
unfolding all_xdigits
is_valid_sha256 s = length s == 64 && all_xdigits s

abbrev pub sum_args : Bytes → List Bytes
sum_args path = text "sha256sum" ∷ text "--" ∷ path ∷ []

module _ (p : Platform) (error_size : ℕ) where
  unfoldable pub sum_failed : Errno → Io Bytes
  sum_failed e = fail e (fit error_size (text "执行 sha256sum 失败: " ++ p.strerror e))

  -- Lines 259 to 268. The child is waited for only after its output has been read.
  unfoldable pub read_sum : Ran → Io Bytes
  unfolding sum_failed
  read_sum r w = elim (read_command_output 80 r) [
    | inl e ↦ sum_failed e w
    | inr output ↦
        (do
          ended ← wait_for_command p error_size (text "sha256sum") r.wait_errors r.exit
          pure output)
          w
  ]

  -- calculateSha256
  unfoldable pub calculate_sha256 : Bytes → Io Bytes
  unfolding sum_failed after_child
  calculate_sha256 path w = elim (p.pipe_error w) [
    | some e ↦ fail e (fit error_size (text "创建 sha256sum 管道失败: " ++ p.strerror e)) w
    | none ↦ elim (p.spawn w (sum_args path)) [
      | failed e ↦ sum_failed e w
      | started r ↦ read_sum r (after_child (sum_args path) r w)
    ]
  ]

  -- Lines 299 to 305. The expected text has 64 bytes, so strncasecmp over 64 compares all of it.
  unfoldable pub compare_sha256 : Bytes → Bytes → Io (Unit {0})
  compare_sha256 expected actual w =
      if not (starts_with_case actual expected)
      then fail ebadmsg
          (fit error_size
            (text "SHA256 校验失败: 期望=" ++ (expected ++ (text "，实际=" ++ take 64 actual))))
          w
      else (ok tt, w)

  -- otaVerifySha256
  unfoldable pub verify_sha256 : Bytes → Bytes → Io (Unit {0})
  verify_sha256 [] expected w = fail einval (fit error_size (text "路径不能为空且 SHA256 必须为 64 位十六进制")) w
  verify_sha256 (c ∷ path) expected w =
      if not (is_valid_sha256 expected)
      then fail einval (fit error_size (text "路径不能为空且 SHA256 必须为 64 位十六进制")) w
      else (calculate_sha256 (c ∷ path) >>= compare_sha256 expected) w

-- 64 hexadecimal digits.
abbrev pub IsSha256 : Bytes → Type 0
IsSha256 s = (length s ≡ 64) × All (λ c. is_xdigit c ≡ true) s

all_xdigits-All : (s : Bytes) → all_xdigits s ≡ true → All (λ c. is_xdigit c ≡ true) s
unfolding all_xdigits
all_xdigits-All [] h = tt
all_xdigits-All (c ∷ s) h = (ground arith, all_xdigits-All s (ground arith))

is_valid_sha256-IsSha256 : (s : Bytes) → is_valid_sha256 s ≡ true → IsSha256 s
unfolding is_valid_sha256
is_valid_sha256-IsSha256 s h = (ground arith, all_xdigits-All s (ground arith))

-- strncasecmp over a whole text compares the texts in lower case.
starts_with_case_lem :
    (s t : Bytes) → starts_with_case s t ≡ true → map to_lower (take (length t) s) ≡ map to_lower t
unfolding starts_with_case
starts_with_case_lem s [] h = refl
starts_with_case_lem [] (c ∷ t) h = ground arith
starts_with_case_lem (x ∷ s) (c ∷ t) h =
    let same : to_lower x ≡ to_lower c = (==_iff (to_lower x) (to_lower c)).0 (ground arith) in
    rw same (ap (◌∷◌ (to_lower c)) (starts_with_case_lem s t (ground arith)))

module _ (p : Platform) (error_size : ℕ) where
  -- sha256sum has run on the file to a good end, and this is the C string of its output.
  abbrev pub Sums : Bytes → World → Bytes → Type 0
  Sums path w output =
      (r : Ran) × (p.spawn w (sum_args path) ≡ started r)
      × (read_command_output 80 r ≡ inr output)
      × (succeeded r.exit ≡ true)

  wait_good :
      (name : Bytes) (errors : List Errno) (end : Exit) (w : World)
      → (wait_for_command p error_size name errors end w).0 ≡ ok tt
      → succeeded end ≡ true
  unfolding wait_for_command child_ended
  wait_good name [] end w h = elim (Bool-cases (succeeded end)) [
    | inl e ↦ e
    | inr e ↦ absurd (ground arith)
  ]
  wait_good name (e ∷ errors) end w h = elim (Bool-cases (is_eintr e)) [
    | inl t ↦ wait_good name errors end _ (rw (t, wait_for_command) at h)
    | inr t ↦ absurd (ground arith)
  ]

  read_sum_sound :
      (r : Ran) (w : World) {output : Bytes}
      → (read_sum p error_size r w).0 ≡ ok output
      → (read_command_output 80 r ≡ inr output) × (succeeded r.exit ≡ true)
  unfolding read_sum
  read_sum_sound r w {output} h = by_output (read_command_output 80 r) refl
    where
      by_output :
          (o : Errno ⊎ Bytes)
          → read_command_output 80 r ≡ o
          → (read_command_output 80 r ≡ inr output) × (succeeded r.exit ≡ true)
      by_output (inl e) q = absurd (ground (arith, rw (q, read_sum) at h))
      by_output (inr out) q =
          let (ended, w1, m, k) =
            bind_success (wait_for_command p error_size (text "sha256sum") r.wait_errors r.exit)
              (λ ended. pure out) w (rw (q, read_sum) at h) in
          (
            q ∙ ap inr (ok-injective k),
            wait_good (text "sha256sum") r.wait_errors r.exit w
                (ap (λ (x : Result (Unit {0}) × World). x.0) m),
          )

  calculate_sha256_sound :
      (path : Bytes) (w : World) {output : Bytes}
      → (calculate_sha256 p error_size path w).0 ≡ ok output
      → Sums path w output
  unfolding calculate_sha256
  calculate_sha256_sound path w {output} h = elim (Option-cases (p.pipe_error w)) [
    | inr (e, q) ↦ absurd (ground arith)
    | inl q ↦ by_spawn (p.spawn w (sum_args path)) refl (rw (q, calculate_sha256) at h)
  ]
    where
      Spawned_sum : Spawned → Result Bytes × World
      Spawned_sum s = elim s [
        | failed e ↦ sum_failed p error_size e w
        | started r ↦ read_sum p error_size r (after_child (sum_args path) r w)
      ]

      by_spawn :
          (s : Spawned)
          → p.spawn w (sum_args path) ≡ s
          → (Spawned_sum s).0 ≡ ok output
          → Sums path w output
      by_spawn (failed e) q k = absurd (ground arith)
      by_spawn (started r) q k = let (o, g) = read_sum_sound r _ k in (r, q, o, g)

  -- What an accepted package has: a checksum to compare with, and sha256sum's agreement with it.
  abbrev pub Verified : Bytes → Bytes → World → Type 0
  Verified path expected w =
      (path ≢ [])
      × IsSha256 expected
      × ((output : Bytes) × Sums path w output
          × (map to_lower (take 64 output) ≡ map to_lower expected))

  compare_sha256_sound :
      (expected actual : Bytes) (w : World)
      → IsSha256 expected
      → (compare_sha256 p error_size expected actual w).0 ≡ ok tt
      → map to_lower (take 64 actual) ≡ map to_lower expected
  unfolding compare_sha256
  compare_sha256_sound expected actual w v h =
      elim (Bool-cases (starts_with_case actual expected)) [
        | inl e ↦ rw v.0 at (starts_with_case_lem actual expected e)
        | inr e ↦ absurd (ground arith)
      ]

  -- otaVerifySha256 accepts a package only if the expected text is 64 hexadecimal digits and
  -- sha256sum has run on the file of that path, has ended with status 0, and has printed a text whose
  -- first 64 bytes are the expected digits up to the case of letters.
  pub verify_sha256-Verified :
      (path expected : Bytes) (w : World)
      → (verify_sha256 p error_size path expected w).0 ≡ ok tt
      → Verified path expected w
  unfolding verify_sha256
  verify_sha256-Verified [] expected w h = absurd (ground arith)
  verify_sha256-Verified (c ∷ path) expected w h = elim (Bool-cases (is_valid_sha256 expected)) [
    | inr e ↦ absurd (ground arith)
    | inl e ↦
        let (output, w1, m, k) =
          bind_success (calculate_sha256 p error_size (c ∷ path))
            (compare_sha256 p error_size expected) w (rw (e, verify_sha256) at h) in
        let v = is_valid_sha256-IsSha256 expected e in
        let sums = calculate_sha256_sound (c ∷ path) w (ap (λ (x : Result Bytes × World). x.0) m) in
        (ground arith, v, (output, sums, compare_sha256_sound expected output w1 v k))
  ]
