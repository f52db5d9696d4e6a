-- ===== src/Discover/Resolve.antt =====
-- downloadListing and otaResolveLatestSwuUrl. Memory for the page and seeking in it never fail here.
use alientek.Prelude.{
  ℕ, ◌*◌, none, some, List, [], ◌∷◌, ◌++◌, ◌==◌, ltb, leb, if◌then◌else◌, length, Bytes, fit, text,
  c_str,
}
use alientek.World.{
  World, Platform, Exit, exited, killed, failed, started, Result, ok, err, Io, put_file, unlink,
  after_child,
}
use alientek.State.Int.{ℤ, pos, negsuc, print_int}
use alientek.Discover.{trim_url_base, parse_listing_html, pick_best_swu_name, max_name_len}

-- The wait status that system returns.
wait_status : Exit → ℕ
wait_status (exited status) = status * 256
wait_status (killed signal) = signal

abbrev listing_command : Bytes → Bytes → Bytes
listing_command path url = fit 512 (
    text "curl --fail --silent --show-error --max-time 30 --output '"
    ++ (path ++ (text "' -- '" ++ (url ++ text "'"))))

abbrev pub shell : Bytes → List Bytes
shell command = text "/bin/sh" ∷ text "-c" ∷ command ∷ []

module _ (p : Platform) (error_size : ℕ) where
  message : Bytes → Bytes
  message = fit error_size

  -- A failure behind mkstemp: the temporary file goes.
  drop_listing : Bytes → Bytes → World → Result Bytes × World
  unfolding unlink message
  drop_listing path why w = (err (message why), unlink p path w)

  -- Lines 248 to 280, on the page that curl has left.
  read_listing : Bytes → Bytes → World → Result Bytes × World
  unfolding drop_listing c_str
  read_listing path content w =
      if ltb 2_097_152 (length content)
      then drop_listing path (text "目录页过大或无效") w
      else elim (p.read_error w path) [
        | some e ↦ drop_listing path (text "读目录页不完整") w
        | none ↦ (ok (c_str content), unlink p path w)
      ]

  -- Lines 242 to 247.
  open_listing : Bytes → World → Result Bytes × World
  unfolding read_listing drop_listing
  open_listing path w = elim (w.files path) [
    | none ↦ drop_listing path (text "打开目录页失败") w
    | some content ↦ elim (p.open_error w path) [
      | some e ↦ drop_listing path (text "打开目录页失败") w
      | none ↦ read_listing path content w
    ]
  ]

  curl_failed : Bytes → ℤ → World → Result Bytes × World
  unfolding drop_listing print_int
  curl_failed path status w =
      drop_listing path (text "下载目录页失败（curl exit=" ++ (print_int status ++ text "）")) w

  run_curl : Bytes → List Bytes → World → Result Bytes × World
  unfolding curl_failed open_listing after_child wait_status
  run_curl path args w = elim (p.spawn w args) [
    | failed e ↦ curl_failed path (negsuc 0) w
    | started r ↦
        let w1 = after_child args r w in
        if wait_status r.exit == 0
        then open_listing path w1
        else curl_failed path (pos (wait_status r.exit)) w1
  ]

  -- downloadListing
  unfoldable pub download_listing : Bytes → Io Bytes
  unfolding run_curl message
  download_listing list_url w = elim (p.mkstemp w (text "/var/tmp/ota-listing-XXXXXX")) [
    | none ↦ (err (message (text "创建临时文件失败")), w)
    | some path ↦ run_curl path (shell (listing_command path list_url)) (put_file path (some []) w)
  ]

  -- Lines 314 to 321: the URL and the name for the caller.
  give_url : ℕ → ℕ → Bytes → Bytes → Result (Bytes × Bytes)
  unfolding message
  give_url url_size name_size base best =
      let url = base ++ (text "/" ++ best) in
      if leb url_size (length url)
      then err (message (text "固件 URL 过长"))
      else ok (url, fit name_size best)

  -- Lines 303 to 321: what is made of the page.
  unfoldable pub choose_url : ℕ → ℕ → Bytes → Bytes → Result (Bytes × Bytes)
  unfolding give_url message
  choose_url url_size name_size base html = elim (parse_listing_html html) [
    | [] ↦ err (message (text "目录中未找到 alientek-image-update*.swu"))
    | first ∷ names ↦ elim (pick_best_swu_name max_name_len (first ∷ names)) [
      | none ↦ err (message (text "无法选择最新固件"))
      | some best ↦ give_url url_size name_size base best
    ]
  ]

  on_listing : ℕ → ℕ → Bytes → Result Bytes × World → Result (Bytes × Bytes) × World
  unfolding choose_url
  on_listing url_size name_size base (err why, w) = (err why, w)
  on_listing url_size name_size base (ok html, w) = (choose_url url_size name_size base html, w)

  -- otaResolveLatestSwuUrl: the URL and the name of the package
  unfoldable pub resolve_latest_swu_url : ℕ → ℕ → Bytes → Io (Bytes × Bytes)
  unfolding download_listing on_listing message
  resolve_latest_swu_url url_size name_size [] w = (err (message (text "固件目录 URL 无效")), w)
  resolve_latest_swu_url url_size name_size (c ∷ base_url) w =
      if url_size == 0
      then (err (message (text "固件目录 URL 无效")), w)
      else let base = trim_url_base 256 (c ∷ base_url) in
        on_listing url_size name_size base (download_listing (fit 288 (base ++ text "/")) w)
