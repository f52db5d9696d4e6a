-- ===== src/Agent/Quiet/Downloads.antt =====
-- otaDownloadPackageWithProgress and the log of the world.
use alientek.Prelude.{
  ℕ, none, some, List, [], ◌∷◌, ◌≡◌, refl, ◌∙◌, ◌⊎◌, inl, inr, arith, Bool-cases, Option-cases,
  Bytes, str_eq,
}
use alientek.World.{
  World, Platform, Errno, Ran, Exit, Spawned, failed, started, after_child, unlink, set_errno,
}
use alientek.Exec.{is_eintr}
use alientek.Download.{
  Rounds, Round, Progress, fetch_content_length, wait_out, poll_loop, curl_ended, report_size,
  report, percent_of, read_command_output, fetched, fetch_by, download_by,
  download_package_with_progress, head_args, curl_args,
}
use alientek.Agent.Quiet.{applies, is_apply, Quiet}

module _ (p : Platform) (error_size : ℕ) (rounds : World → List Bytes → Rounds) where
  wait_out-Quiet :
      (errors : List Errno) (w : World) → applies (wait_out errors w).log ≡ applies w.log
  unfolding wait_out
  wait_out-Quiet [] w = refl
  wait_out-Quiet (e ∷ errors) w = ground (arith, wait_out-Quiet errors (set_errno e w))

  fetched-Quiet : (r : Ran) (w : World) → applies (fetched r w).1.log ≡ applies w.log
  unfolding fetched
  fetched-Quiet r w = by_output (read_command_output 4096 r) refl
    where
      by_output :
          (o : Errno ⊎ Bytes)
          → read_command_output 4096 r ≡ o
          → applies (fetched r w).1.log ≡ applies w.log
      by_output (inl e) q = rw (q, fetched) (wait_out-Quiet r.wait_errors w)
      by_output (inr s) q = rw (q, fetched) (wait_out-Quiet r.wait_errors w)

  fetch_by-Quiet :
      (url : Bytes) (s : Spawned) (w : World) → applies (fetch_by url s w).1.log ≡ applies w.log
  unfolding fetch_by applies is_apply str_eq after_child
  fetch_by-Quiet url (failed e) w = refl
  fetch_by-Quiet url (started r) w = fetched-Quiet r (after_child (head_args url) r w)

  fetch-Quiet :
      (url : Bytes) (w : World) → applies (fetch_content_length p url w).1.log ≡ applies w.log
  unfolding fetch_content_length
  fetch-Quiet url w = elim (Option-cases (p.pipe_error w)) [
    | inr (e, q) ↦ rw (q, fetch_content_length)
    | inl q ↦ rw (q, fetch_content_length) (fetch_by-Quiet url (p.spawn w (head_args url)) w)
  ]

  -- A callback that starts nothing.
  abbrev pub CallsQuiet : Progress → Type 0
  CallsQuiet none = Unit
  CallsQuiet (some f) = (n : ℕ) (w : World) → applies (f n w).log ≡ applies w.log

  report_size-Quiet :
      (progress : Progress) (total got last : ℕ) (w : World)
      → CallsQuiet progress
      → applies (report_size progress total got last w).1.log ≡ applies w.log
  unfolding report_size
  report_size-Quiet none total got last w h = refl
  report_size-Quiet (some f) total got last w h = ground (arith, h (percent_of got total) w)

  curl_ended-Quiet :
      (progress : Progress) (path : Bytes) (end : Exit) (last : ℕ)
      → CallsQuiet progress
      → Quiet (curl_ended p error_size rounds progress path end last)
  unfolding curl_ended unlink
  curl_ended-Quiet none path end last h w = ground arith
  curl_ended-Quiet (some f) path end last h w = ground (arith, h 100 w)

  poll_loop-Quiet :
      (progress : Progress) (path : Bytes) (total : ℕ) (end : Exit) (last_size : ℕ)
      (rest : List Round) (last : ℕ)
      → CallsQuiet progress
      → Quiet (poll_loop p error_size rounds progress path total end last_size rest last)
  unfolding poll_loop
  poll_loop-Quiet progress path total end last_size [] last h w =
      curl_ended-Quiet progress path end _ h _ ∙ report_size-Quiet progress total last_size last w h
  poll_loop-Quiet progress path total end last_size (round ∷ rest) last h w =
      let seen = report_size progress total round.size last w in
      let again = poll_loop-Quiet progress path total end last_size rest seen.0 h in
      let same = report_size-Quiet progress total round.size last w h in
      elim (Option-cases round.error) [
        | inl q ↦ rw (q, poll_loop) (again seen.1 ∙ same)
        | inr (e, q) ↦ elim (Bool-cases (is_eintr e)) [
          | inl t ↦ rw (q, t, poll_loop) (again (set_errno e seen.1) ∙ same)
          | inr t ↦ rw (q, t, poll_loop) same
        ]
      ]

  report-Quiet :
      (progress : Progress) (n : ℕ) (w : World)
      → CallsQuiet progress
      → applies (report progress n w).log ≡ applies w.log
  report-Quiet none n w h = refl
  report-Quiet (some f) n w h = h n w

  download_by-Quiet :
      (progress : Progress) (url path : Bytes) (total : ℕ) (s : Spawned)
      → CallsQuiet progress
      → Quiet (download_by p error_size rounds progress url path total s)
  unfolding download_by applies is_apply str_eq after_child
  download_by-Quiet progress url path total (failed e) h w = refl
  download_by-Quiet progress url path total (started r) h w =
      poll_loop-Quiet progress path total r.exit _ _ 0 h _
      ∙ report-Quiet progress 0 (after_child (curl_args path url) r w) h

  unlink-Quiet : (path : Bytes) (w : World) → applies (unlink p path w).log ≡ applies w.log
  unfolding unlink
  unlink-Quiet path w = ground arith

  pub download-Quiet :
      (progress : Progress) (url path : Bytes)
      → CallsQuiet progress
      → Quiet (download_package_with_progress p error_size rounds progress url path)
  unfolding download_package_with_progress
  download-Quiet progress [] path h w = refl
  download-Quiet progress (u ∷ url) [] h w = refl
  download-Quiet progress (u ∷ url) (c ∷ path) h w =
      download_by-Quiet progress (u ∷ url) (c ∷ path) _ _ h _
      ∙ fetch-Quiet (u ∷ url) (unlink p (c ∷ path) w)
      ∙ unlink-Quiet (c ∷ path) w
