-- ===== src/Download/Percents.antt =====
-- The percentages that otaDownloadPackageWithProgress reports.
use alientek.Prelude.{
  ℕ, ◌≤◌, ◌<◌, some, List, [], ◌∷◌, ◌==◌, ltb, ltb→lt, if◌then◌else◌, ◌≡◌, ◌≢◌, refl, ◌⊎◌, inl, inr,
  arith, Bool-cases, Option-cases, Bytes, fit, text, ◌++◌,
}
use alientek.World.{
  World, Platform, Errno, Exit, Result, ok, err, set_errno, unlink, Ran, Spawned, started,
  after_child,
}
use alientek.State.Int.{print_int}
use alientek.Exec.{is_eintr, succeeded, exit_status}
use alientek.Download.{
  Rounds, Round, percent_of, report_size, curl_ended, poll_loop, fetch_content_length, curl_args,
  download_by, download_package_with_progress,
}

percent_of-le : (got total : ℕ) → percent_of got total ≤ 99
unfolding percent_of
percent_of-le got total = ground arith

module _ (f : ℕ → World → World) where
  -- From one world to another by calls of `f` on numbers that rise above `last` and stay below 100;
  -- errno may change between them.
  pub data Rises : ℕ → World → ℕ → World → Type 0 where
    stays : {last : ℕ} {w : World} → Rises last w last w
    calls :
        {last n m : ℕ} {w v : World} → last < n → n ≤ 99 → Rises n (f n w) m v → Rises last w m v
    sets :
        {last m : ℕ} {w v : World} (e : Errno) → Rises last (set_errno e w) m v → Rises last w m v

  report_size-Rises :
      (total got last : ℕ) (w : World) {m : ℕ} {v : World}
      → Rises
          (report_size (some f) total got last w).0
          (report_size (some f) total got last w).1
          m
          v
      → Rises last w m v
  unfolding report_size
  report_size-Rises total got last w h = elim (Bool-cases (total == 0)) [
    | inl t ↦ rw t at h
    | inr t ↦ elim (Bool-cases (ltb last (percent_of got total))) [
      | inl l ↦
          calls (ltb→lt last (percent_of got total) l) (percent_of-le got total) (rw (t, l) at h)
      | inr l ↦ rw (t, l) at h
    ]
  ]

  Rises-le : {last m : ℕ} {w v : World} → Rises last w m v → last ≤ 99 → m ≤ 99
  Rises-le stays b = b
  Rises-le (calls l n h) b = Rises-le h n
  Rises-le (sets e h) b = Rises-le h b

module _ (p : Platform) (error_size : ℕ) (rounds : World → List Bytes → Rounds)
    (f : ℕ → World → World) (path : Bytes) where
  -- How the loop over waitpid ends after the reports from `last` on: with a report of 100 and a
  -- success, with a failure of curl, or with one of waitpid.
  abbrev pub Reports : ℕ → World → Result (Unit {0}) × World → Type 0
  Reports last w got =
      (m : ℕ) × (v : World) × Rises f last w m v
      × ((got ≡ (ok tt, f 100 v))
          ⊎ ((why : Bytes) × ((got ≡ (err why, unlink p path v))
                ⊎ ((e : Errno) × (got ≡ (err why, set_errno e v))))))

  curl_ended-Reports :
      (end : Exit) (last m : ℕ) (w v : World)
      → Rises f last w m v
      → last ≤ 99
      → Reports last w (curl_ended p error_size rounds (some f) path end m v)
  unfolding curl_ended
  curl_ended-Reports end last m w v h b = elim (Bool-cases (succeeded end)) [
    | inl t ↦ (m, v, h, inl (rw t (in_range m (Rises-le f h b))))
    | inr t ↦ (
      m,
      v,
      h,
      inr (fit error_size (text "curl 执行失败，退出状态=" ++ print_int (exit_status end)), inl (rw t refl)),
    )
  ]
    where
      in_range :
          (n : ℕ)
          → n ≤ 99
          → ◌≡◌ {A = Result (Unit {0}) × World}
              (ok tt, if ltb n 100 then f 100 v else v)
              (ok tt, f 100 v)
      in_range n k = ground arith

  poll_loop-Reports :
      (total : ℕ) (end : Exit) (last_size : ℕ) (rest : List Round) (last : ℕ) (w : World)
      → last ≤ 99
      → Reports last w (poll_loop p error_size rounds (some f) path total end last_size rest last w)
  unfolding poll_loop
  poll_loop-Reports total end last_size [] last w b =
      curl_ended-Reports end last _ w _ (report_size-Rises f total last_size last w stays) b
  poll_loop-Reports total end last_size (round ∷ rest) last w b =
      let seen = report_size (some f) total round.size last w in
      let short = Rises-le f (report_size-Rises f total round.size last w stays) b in
      elim (Option-cases round.error) [
        | inl q ↦
            let (m, v, h, o) = poll_loop-Reports total end last_size rest seen.0 seen.1 short in
            rw (q, poll_loop) (m, v, report_size-Rises f total round.size last w h, o)
        | inr (e, q) ↦ elim (Bool-cases (is_eintr e)) [
          | inl t ↦
              let (m, v, h, o) =
                poll_loop-Reports total end last_size rest seen.0 (set_errno e seen.1) short in
              rw (q, t, poll_loop) (m, v, report_size-Rises f total round.size last w (sets e h), o)
          | inr t ↦
              rw (q, t, poll_loop)
                (
                  seen.0,
                  seen.1,
                  report_size-Rises f total round.size last w stays,
                  inr (_, inr (e, refl)),
                )
        ]
      ]

  download_by-Reports :
      (url : Bytes) (total : ℕ) (s : Spawned) (r : Ran) (w : World)
      → s ≡ started r
      → Reports 0
          (f 0 (after_child (curl_args path url) r w))
          (download_by p error_size rounds (some f) url path total s w)
  unfolding download_by
  download_by-Reports url total s r w e = rw e (
      poll_loop-Reports total r.exit _ _ 0 (f 0 (after_child (curl_args path url) r w))
        (omega arith))

-- A download whose curl has been started reports 0 first, then percentages that rise and stay below
-- 100, and last, exactly if it succeeds, 100. If it fails, the last call is that of unlink on the file,
-- or waitpid has failed.
pub download_package_with_progress-Reports :
    (p : Platform) (error_size : ℕ) (rounds : World → List Bytes → Rounds) (f : ℕ → World → World)
    (url path : Bytes) (w : World) {r : Ran}
    → url ≢ []
    → path ≢ []
    → p.spawn (fetch_content_length p url (unlink p path w)).1 (curl_args path url) ≡ started r
    → Reports p error_size rounds f path 0
        (f 0 (after_child (curl_args path url) r (fetch_content_length p url (unlink p path w)).1))
        (download_package_with_progress p error_size rounds (some f) url path w)
unfolding download_package_with_progress
download_package_with_progress-Reports p error_size rounds f [] path w a b e = absurd (a refl)
download_package_with_progress-Reports p error_size rounds f (u ∷ url) [] w a b e = absurd (b refl)
download_package_with_progress-Reports p error_size rounds f (u ∷ url) (c ∷ path) w {r} a b e =
    download_by-Reports p error_size rounds f (c ∷ path) (u ∷ url) _ _ r _ e
