-- ===== src/Web/Idle.antt =====
-- gUpgradeBusy of webserver-upgrade.c over the requests that main of webserver.c serves.
use alientek.Prelude.{
  ℕ, Bool, true, false, ◌&&◌, Bool-cases, Option-cases, c_str, drop, str_eq, Option, none, some,
  List, [], ◌∷◌, ◌≡◌, refl, ◌∙◌, inl, inr, arith, Bytes, text,
}
use alientek.World.{World, Platform, Errno}
use alientek.State.Int.{ℤ}
use alientek.Web.Parse.{parse_request_line}
use alientek.Web.{
  Web, Recv, Sent, WebserverCfg, send_json, send_response, read_whole_file, recv_http_headers,
}
use alientek.Web.Upload.{
  check_upgrade_auth, UpgradeHeaders, good, no_headers, bad_size, no_boundary,
  parse_upgrade_headers,
}
use alientek.Web.Upgrade.{
  answer_applied, apply_file, apply_uploaded, extracted_by, received_by, upload_opened, upload,
  headers_by, handle_upgrade,
}
use alientek.Web.Samples.{
  Database, parse_query_time, query_samples_json, query_icm_samples_json, handle_samples_request,
  answer_samples, handle_icm_page_request, handle_icm_samples_request, answer_icm_samples,
}
use alientek.Web.Server.{handle_index, handle_get, handle_request, received, handle_client, serve}
use alientek.Web.Quiet.{send_response_same, send_json_same}

-- No upload is under way.
abbrev pub IsIdle : Web → Type 0
IsIdle w = w.busy ≡ false

json_busy :
    (status : ℕ) (reason json : Bytes) (w : Web) → (send_json status reason json w).busy ≡ w.busy
json_busy status reason json w = (send_json_same status reason json w).1

text_busy :
    (status : ℕ) (reason ctype body : Bytes) (w : Web)
    → (send_response status reason ctype body w).busy ≡ w.busy
text_busy status reason ctype body w = (send_response_same status reason ctype body w).1

module _ (p : Platform) (cfg : WebserverCfg) where
  answer_applied-IsIdle : (r : (Bool × Bytes) × World) (w : Web) → IsIdle (answer_applied p cfg r w)
  unfolding answer_applied
  answer_applied-IsIdle ((false, detail), v) w = json_busy _ _ _ _
  answer_applied-IsIdle ((true, detail), v) w = refl

  apply_file-IsIdle : (o : Option Bytes) (w : Web) → IsIdle (apply_file p cfg o w)
  unfolding apply_file
  apply_file-IsIdle (some (c ∷ s)) w = answer_applied-IsIdle _ w
  apply_file-IsIdle (some []) w = json_busy _ _ _ _
  apply_file-IsIdle none w = json_busy _ _ _ _

  extracted_by-IsIdle : (r : Bool × World) (w : Web) → IsIdle (extracted_by p cfg r w)
  unfolding extracted_by apply_uploaded
  extracted_by-IsIdle (false, v) w = json_busy _ _ _ _
  extracted_by-IsIdle (true, v) w = apply_file-IsIdle _ _

  received_by-IsIdle : (boundary : Bytes) (r : Bool × Web) → IsIdle (received_by p cfg boundary r)
  unfolding received_by
  received_by-IsIdle boundary (false, w) = json_busy _ _ _ _
  received_by-IsIdle boundary (true, w) = extracted_by-IsIdle _ _

  upload_opened-IsIdle :
      (pref boundary : Bytes) (size : ℕ) (o : Option Errno) (w : Web)
      → IsIdle (upload_opened p cfg pref boundary size o w)
  unfolding upload_opened
  upload_opened-IsIdle pref boundary size (some e) w = json_busy _ _ _ _
  upload_opened-IsIdle pref boundary size none w = received_by-IsIdle boundary _

  headers_by-IsIdle :
      (pref : Bytes) (h : UpgradeHeaders) (w : Web) → IsIdle w → IsIdle (headers_by p cfg pref h w)
  unfolding headers_by upload
  headers_by-IsIdle pref no_headers w i = json_busy _ _ _ w ∙ i
  headers_by-IsIdle pref bad_size w i = json_busy _ _ _ w ∙ i
  headers_by-IsIdle pref no_boundary w i = json_busy _ _ _ w ∙ i
  headers_by-IsIdle pref (good boundary size) w i = upload_opened-IsIdle pref boundary size _ w

  handle_upgrade-IsIdle :
      (headers pref : Bytes) (w : Web) → IsIdle w → IsIdle (handle_upgrade p cfg headers pref w)
  unfolding handle_upgrade
  handle_upgrade-IsIdle headers pref w i =
      elim (Bool-cases (check_upgrade_auth cfg.upgrade_token headers)) [
        | inr e ↦ rw e (json_busy _ _ _ w ∙ i)
        | inl e ↦ simp (e, i) (headers_by-IsIdle pref (parse_upgrade_headers headers) w i)
      ]

module _ (p : Platform) (cfg : WebserverCfg) (db : Database) where
  answer_samples_busy : (ends : ℤ × ℤ) (w : Web) → (answer_samples p cfg db ends w).busy ≡ w.busy
  unfolding answer_samples
  answer_samples_busy ends w = elim (Bool-cases (db.open_v2 w.world cfg.db_path)) [
    | inr n ↦ rw n (text_busy _ _ _ _ w)
    | inl n ↦ elim (Option-cases (query_samples_json p cfg db ends w.world)) [
      | inl e ↦ rw n (rw e (text_busy _ _ _ _ w))
      | inr (body, e) ↦ rw n (rw e (text_busy _ _ _ _ w))
    ]
  ]

  handle_samples_request_busy :
      (query : Bytes) (w : Web) → (handle_samples_request p cfg db query w).busy ≡ w.busy
  unfolding handle_samples_request
  handle_samples_request_busy query w =
      elim (Option-cases (parse_query_time p cfg db query w.world)) [
        | inl e ↦ rw (e, handle_samples_request) (text_busy _ _ _ _ w)
        | inr (ends, e) ↦ rw (e, handle_samples_request) (answer_samples_busy ends w)
      ]

  answer_icm_samples_busy :
      (ends : ℤ × ℤ) (w : Web) → (answer_icm_samples p cfg db ends w).busy ≡ w.busy
  unfolding answer_icm_samples
  answer_icm_samples_busy ends w = elim (Bool-cases (db.open_v2 w.world cfg.icm_db_path)) [
    | inr n ↦ rw n (json_busy _ _ _ w)
    | inl n ↦ elim (Option-cases (query_icm_samples_json p cfg db ends w.world)) [
      | inl e ↦ rw n (rw e (json_busy _ _ _ w))
      | inr (body, e) ↦ rw n (rw e (text_busy _ _ _ _ w))
    ]
  ]

  handle_icm_samples_request_busy :
      (query : Bytes) (w : Web) → (handle_icm_samples_request p cfg db query w).busy ≡ w.busy
  unfolding handle_icm_samples_request
  handle_icm_samples_request_busy query w =
      elim (Option-cases (parse_query_time p cfg db query w.world)) [
        | inl e ↦ rw (e, handle_icm_samples_request) (json_busy _ _ _ w)
        | inr (ends, e) ↦ rw (e, handle_icm_samples_request) (answer_icm_samples_busy ends w)
      ]

  handle_icm_page_request_busy : (w : Web) → (handle_icm_page_request p cfg db w).busy ≡ w.busy
  unfolding handle_icm_page_request
  handle_icm_page_request_busy w =
      elim (Option-cases (read_whole_file p cfg.icm_index_path w.world)) [
        | inl e ↦ rw (e, handle_icm_page_request) (text_busy _ _ _ _ w)
        | inr (body, e) ↦ rw (e, handle_icm_page_request) (text_busy _ _ _ _ w)
      ]

  handle_index_busy : (w : Web) → (handle_index p cfg db w).busy ≡ w.busy
  unfolding handle_index
  handle_index_busy w = elim (Option-cases (read_whole_file p cfg.index_path w.world)) [
    | inl e ↦ rw (e, handle_index) (text_busy _ _ _ _ w)
    | inr (body, e) ↦ rw (e, handle_index) (text_busy _ _ _ _ w)
  ]

  handle_get_busy :
      (path query : Bytes) (w : Web) → (handle_get p cfg db path query w).busy ≡ w.busy
  unfolding handle_get
  handle_get_busy path query w = ground (
    arith,
    handle_index_busy w,
    handle_samples_request_busy query w,
    handle_icm_page_request_busy w,
    handle_icm_samples_request_busy query w,
    text_busy 404 (text "Not Found") (text "text/plain") (text "not found") w,
  )

  handle_request-IsIdle :
      (head pref : Bytes) (parts : Bytes × Bytes × Bytes) (w : Web)
      → IsIdle w
      → IsIdle (handle_request p cfg db head pref parts w)
  unfolding handle_request
  handle_request-IsIdle head pref (method, path, query) w i =
      elim (Bool-cases (str_eq method (text "POST") && str_eq path (text "/api/upgrade"))) [
        | inl e ↦ rw e (handle_upgrade-IsIdle p cfg head pref w i)
        | inr e ↦ elim (Bool-cases (str_eq method (text "GET"))) [
          | inl g ↦ rw e (rw g (handle_get_busy path query w ∙ i))
          | inr g ↦ rw e (rw g (text_busy _ _ _ _ w ∙ i))
        ]
      ]

  received-IsIdle : (r : Option (ℕ × Bytes) × Web) → IsIdle r.1 → IsIdle (received p cfg db r)
  unfolding received
  received-IsIdle (none, w) i = json_busy _ _ _ w ∙ i
  received-IsIdle (some (n, buf), w) i =
      elim (Option-cases (parse_request_line 16 256 256 (c_str buf))) [
        | inl e ↦ rw (e, received) (text_busy _ _ _ _ w ∙ i)
        | inr (parts, e) ↦
            rw (e, received) (handle_request-IsIdle (c_str buf) (drop n buf) parts w i)
      ]

  -- Every request leaves the flag of an upload down, whatever comes on the connections and whichever
  -- call fails, so that no upload is refused for the sake of an earlier one.
  pub serve-IsIdle :
      (connections : List (List Recv × List Sent)) (w : Web)
      → IsIdle w
      → IsIdle (serve p cfg db connections w)
  unfolding serve handle_client recv_http_headers
  serve-IsIdle [] w i = i
  serve-IsIdle ((calls, answers) ∷ connections) w i = serve-IsIdle connections _ (
      received-IsIdle
        (recv_http_headers 16384 (record w { calls = calls; answers = answers; sent = [] })) i)
