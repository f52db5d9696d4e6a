-- ===== src/Download.antt =====
-- ota-download.cpp: the download by curl with its progress, and the check of the package by sha256sum.
-- waitForCommand of this file is the same text as that of ota-exec.cpp, and its model is Exec's.
pub mod Checksum
pub mod Percents
use alientek.Prelude.{
  ℕ, zero, suc, ◌+◌, ◌-◌, ◌*◌, ◌/◌, ◌%◌, ◌^◌, min, Bool, true, false, not, ◌&&◌, ◌||◌, ◌⊎◌, inl,
  inr, Option, none, some, List, [], ◌∷◌, ◌++◌, ◌==◌, ltb, leb, if◌then◌else◌, length, take, drop,
  Bytes, fit, text, c_str, before, str_chr, skip_while, is_space, is_digit, is_xdigit,
  starts_with_case,
}
use alientek.World.{
  World, Platform, Errno, einval, ebadmsg, Ran, Exit, Spawned, failed, started, Result, ok, err, Io,
  ◌>>=◌, ◌>>◌, pure, fail, set_errno, unlink, after_child,
}
use alientek.State.Int.{print_int}
use alientek.Exec.{is_eintr, exit_status, succeeded, wait_for_command}

-- The digits of strtoll, and the number before them.
digits : ℕ → Bytes → ℕ
unfolding is_digit
digits n [] = n
digits n (c ∷ s) = let more = digits (n * 10 + (c - b'0')) s in if is_digit c then more else n

unsigned_ll : Bytes → ℕ
unfolding digits
unsigned_ll [] = 0
unsigned_ll (c ∷ s) =
    if c == b'-' then 0 else min (2 ^ 63 - 1) (digits 0 (if c == b'+' then s else c ∷ s))

-- strtoll(s, NULL, 10) where it is positive, and 0 where it is not
unfoldable pub positive_ll : Bytes → ℕ
unfolding skip_while is_space unsigned_ll
positive_ll s = unsigned_ll (skip_while is_space s)

-- Lines 113 to 120: the length after one line of the headers.
content_length_line : Bytes → ℕ → ℕ
unfolding starts_with_case positive_ll skip_while
content_length_line line best =
    if starts_with_case line (text "content-length:")
    then (let v = positive_ll (skip_while (λ c. c == b' ' || c == b'\t') (drop 15 line)) in
        if v == 0 then best else v)
    else best

-- Lines 100 to 122, on fuel: every round takes a line off.
unfoldable pub content_length : ℕ → Bytes → ℕ → ℕ
unfolding content_length_line str_chr before
content_length zero s best = best
content_length (suc fuel) [] best = best
content_length (suc fuel) (c ∷ s) best =
    let best' = content_length_line (before (λ x. x == b'\n') (c ∷ s)) best in
    elim (str_chr (c ∷ s) b'\n') [
      | none ↦ best'
      | some rest ↦ content_length fuel (drop 1 rest) best'
    ]

-- readCommandOutput: the C string that the buffer holds at the end of the output
unfoldable pub read_command_output : ℕ → Ran → Errno ⊎ Bytes
unfolding c_str
read_command_output size r = elim (r.read_error) [
  | some e ↦ inl e
  | none ↦ inr (c_str (take (size - 1) r.output))
]

-- Lines 97 and 98: the errors of waitpid up to the first that is no EINTR.
unfoldable pub wait_out : List Errno → World → World
unfolding is_eintr
wait_out [] w = w
wait_out (e ∷ errors) w =
    let rest = wait_out errors (set_errno e w) in if is_eintr e then rest else set_errno e w

abbrev pub head_args : Bytes → List Bytes
head_args url =
    text "curl"
    ∷ text "--fail"
    ∷ text "--silent"
    ∷ text "--location"
    ∷ text "--head"
    ∷ text "--"
    ∷ url
    ∷ []

abbrev pub curl_args : Bytes → Bytes → List Bytes
curl_args path url =
    text "curl"
    ∷ text "--fail"
    ∷ text "--location"
    ∷ text "--silent"
    ∷ text "--show-error"
    ∷ text "--output"
    ∷ path
    ∷ text "--"
    ∷ url
    ∷ []

-- What one round of the loop over waitpid finds before the last: an error of waitpid, if it is not
-- 0, and the size of the file.
pub record Round : Type 0 where
  pub error : Option Errno
  pub size : ℕ

-- The rounds of a download, and the size of the file in the last round.
pub record Rounds : Type 0 where
  pub before_end : List Round
  pub last_size : ℕ

-- Lines 187 to 192: (int)((got * 100LL) / total), held between 0 and 99. The product is taken not
-- to overflow, for files below 2^56 bytes.
unfoldable pub percent_of : ℕ → ℕ → ℕ
percent_of got total =
    let n = (got * 100 / total) % 2 ^ 32 in if leb (2 ^ 31) n then 0 else if ltb 99 n then 99 else n

abbrev pub Progress : Type 0
Progress = Option (ℕ → World → World)

abbrev pub report : Progress → ℕ → World → World
report none percent w = w
report (some f) percent w = f percent w

-- Lines 185 to 197: `last` after them, and the world.
unfoldable pub report_size : Progress → ℕ → ℕ → ℕ → World → ℕ × World
unfolding percent_of
report_size none total got last w = (last, w)
report_size (some f) total got last w =
    if total == 0
    then (last, w)
    else (let percent = percent_of got total in
        if ltb last percent then (percent, f percent w) else (last, w))

-- Lines 92 to 122: what curl has printed.
unfoldable pub fetched : Ran → World → ℕ × World
fetched r w =
    let w1 = wait_out r.wait_errors w in
    elim (read_command_output 4096 r) [
      | inl e ↦ (0, w1)
      | inr headers ↦ (content_length (length headers) headers 0, w1)
    ]

-- Lines 73 to 122, behind pipe.
unfoldable pub fetch_by : Bytes → Spawned → World → ℕ × World
fetch_by url (failed e) w = (0, set_errno e w)
fetch_by url (started r) w = fetched r (after_child (head_args url) r w)

module _ (p : Platform) where
  -- fetchContentLength
  unfoldable pub fetch_content_length : Bytes → World → ℕ × World
  fetch_content_length url w = elim (p.pipe_error w) [
    | some e ↦ (0, set_errno e w)
    | none ↦ fetch_by url (p.spawn w (head_args url)) w
  ]

module _ (p : Platform) (error_size : ℕ) (rounds : World → List Bytes → Rounds) where
  -- Lines 199 to 217, with the child that has ended.
  unfoldable pub curl_ended : Progress → Bytes → Exit → ℕ → Io (Unit {0})
  curl_ended progress path end last w =
      if succeeded end then (ok tt, if ltb last 100 then report progress 100 w else w) else (
        err (fit error_size (text "curl 执行失败，退出状态=" ++ print_int (exit_status end))),
        unlink p path w,
      )

  -- The loop of lines 181 to 214.
  unfoldable pub poll_loop : Progress → Bytes → ℕ → Exit → ℕ → List Round → ℕ → Io (Unit {0})
  poll_loop progress path total end last_size [] last w =
      let (last', w1) = report_size progress total last_size last w in
      curl_ended progress path end last' w1
  poll_loop progress path total end last_size (round ∷ rest) last w =
      let (last', w1) = report_size progress total round.size last w in
      let again = poll_loop progress path total end last_size rest last' in
      elim (round.error) [
        | none ↦ again w1
        | some e ↦
            if is_eintr e
            then again (set_errno e w1)
            else fail e (fit error_size (text "等待 curl 失败: " ++ p.strerror e)) w1
      ]

  -- Lines 161 to 217. The rounds are those that the child goes on to have.
  unfoldable pub download_by : Progress → Bytes → Bytes → ℕ → Spawned → Io (Unit {0})
  download_by progress url path total (failed e) w =
      fail e (fit error_size (text "启动 curl 失败: " ++ p.strerror e)) w
  download_by progress url path total (started r) w =
      let seen = rounds w (curl_args path url) in
      poll_loop progress path total r.exit seen.last_size seen.before_end 0
        (report progress 0 (after_child (curl_args path url) r w))

  -- otaDownloadPackageWithProgress. Without a function for the progress, `last` stands for lastPct
  -- and is not looked at.
  unfoldable pub download_package_with_progress : Progress → Bytes → Bytes → Io (Unit {0})
  download_package_with_progress progress [] path w =
      fail einval (fit error_size (text "下载参数不能为空")) w
  download_package_with_progress progress (u ∷ url) [] w =
      fail einval (fit error_size (text "下载参数不能为空")) w
  download_package_with_progress progress (u ∷ url) (c ∷ path) w =
      let r = fetch_content_length p (u ∷ url) (unlink p (c ∷ path) w) in
      download_by progress (u ∷ url) (c ∷ path) r.0 (p.spawn r.1 (curl_args (c ∷ path) (u ∷ url)))
        r.1

  -- otaDownloadPackage
  unfoldable pub download_package : Bytes → Bytes → Io (Unit {0})
  download_package = download_package_with_progress none
