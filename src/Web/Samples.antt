-- ===== src/Web/Samples.antt =====
-- webserver-samples.c, webserver-icm.c and parseQueryTime of webserver-http.c: the samples of the
-- sensors as JSON. The database is a parameter, and so is the text that printf makes of a double.
use alientek.Prelude.{
  ℕ, ◌-◌, Bool, true, false, not, Option, none, some, List, [], ◌∷◌, ◌++◌, ltb, if◌then◌else◌,
  Bytes, text, fit,
}
use alientek.World.{World, Platform}
use alientek.State.Int.{ℤ, pos, negsuc, print_int}
use alientek.Web.{Web, WebserverCfg, send_response, send_json, read_whole_file}
use alientek.Web.Parse.{Lookup, found, missing, wrong, get_query_value, parse_ulong}

-- A row of the samples of the AP3216C.
pub record Sample : Type 0 where
  pub ts : ℤ
  pub ir : ℤ
  pub als : ℤ
  pub ps : ℤ

-- A row of the samples of the ICM20608, with the texts of its doubles.
pub record IcmSample : Type 0 where
  pub ts : ℤ
  pub ax : ℤ
  pub ay : ℤ
  pub az : ℤ
  pub gx : ℤ
  pub gy : ℤ
  pub gz : ℤ
  pub temp_raw : ℤ
  pub ax_g : Bytes
  pub ay_g : Bytes
  pub az_g : Bytes
  pub gx_dps : Bytes
  pub gy_dps : Bytes
  pub gz_dps : Bytes
  pub temp_c : Bytes

-- The clock, the conversion of an unsigned long to time_t, whether a database opens, and the rows of
-- a query from one time to another, `none` where it fails.
pub record Database : Type 0 where
  pub time : World → Option ℕ
  pub to_time : ℕ → ℤ
  pub open_v2 : World → Bytes → Bool
  pub samples : World → Bytes → ℤ → ℤ → Option (List Sample)
  pub icm_samples : World → Bytes → ℤ → ℤ → Option (List IcmSample)

-- a > b
unfoldable pub is_above : ℤ → ℤ → Bool
is_above (pos a) (pos b) = ltb b a
is_above (pos a) (negsuc b) = true
is_above (negsuc a) (pos b) = false
is_above (negsuc a) (negsuc b) = ltb a b

-- now - DEFAULT_RANGE_SEC
unfoldable pub day_before : ℕ → ℤ
day_before now = if ltb now 86400 then negsuc (86399 - now) else pos (now - 86400)

-- Lines 137 to 148 of parseQueryTime for one end: a time that is given, or the default.
unfoldable pub query_end : (ℕ → ℤ) → Lookup → ℤ → Option ℤ
query_end to_time missing default = some default
query_end to_time wrong default = none
query_end to_time (found s) default = elim (parse_ulong s) [
  | none ↦ none
  | some n ↦ some (to_time n)
]

-- Lines 149 to 151.
unfoldable pub ordered : Option ℤ → Option ℤ → Option (ℤ × ℤ)
ordered (some a) (some b) = if is_above a b then none else some (a, b)
ordered (some a) none = none
ordered none b = none

module _ (p : Platform) (cfg : WebserverCfg) (db : Database) where
  -- parseQueryTime
  unfoldable pub parse_query_time : Bytes → World → Option (ℤ × ℤ)
  parse_query_time query w = elim (db.time w) [
    | none ↦ none
    | some now ↦
        ordered (query_end db.to_time (get_query_value query (text "from") 32) (day_before now))
          (query_end db.to_time (get_query_value query (text "to") 32) (pos now))
  ]

  unfoldable pub sample_json : Sample → Bytes
  sample_json s = fit 128 (
      text "{\"ts\":"
      ++ (print_int s.ts
          ++ (text ",\"ir\":"
              ++ (print_int s.ir
                  ++ (text ",\"als\":"
                      ++ (print_int s.als ++ (text ",\"ps\":" ++ (print_int s.ps ++ text "}"))))))))

  unfoldable pub icm_json : IcmSample → Bytes
  icm_json s = fit 384 (
      text "{\"ts\":"
      ++ (print_int s.ts
          ++ (text ",\"ax\":"
              ++ (print_int s.ax
                  ++ (text ",\"ay\":"
                      ++ (print_int s.ay
                          ++ (text ",\"az\":"
                              ++ (print_int s.az
                                  ++ (text ",\"gx\":"
                                      ++ (print_int s.gx
                                          ++ (text ",\"gy\":"
                                              ++ (print_int s.gy
                                                  ++ (text ",\"gz\":"
                                                      ++ (print_int s.gz
                                                          ++ (text ",\"temp_raw\":"
                                                            ++ (print_int s.temp_raw
                                                            ++ (text ",\"ax_g\":"
                                                            ++ (s.ax_g
                                                            ++ (text ",\"ay_g\":"
                                                            ++ (s.ay_g
                                                            ++ (text ",\"az_g\":"
                                                            ++ (s.az_g
                                                            ++ (text ",\"gx_dps\":"
                                                            ++ (s.gx_dps
                                                            ++ (text ",\"gy_dps\":"
                                                            ++ (s.gy_dps
                                                            ++ (text ",\"gz_dps\":"
                                                            ++ (s.gz_dps
                                                            ++ (text ",\"temp_c\":"
                                                            ++ (s.temp_c
                                                            ++ text
                                                            "}"))))))))))))))))))))))))))))))

  -- The loop of querySamplesJson, behind the first row.
  unfoldable pub more_items : List Bytes → Bytes → Bytes
  more_items [] close = close
  more_items (item ∷ items) close = text "," ++ (item ++ more_items items close)

  -- The items with commas between them.
  unfoldable pub items_json : Bytes → List Bytes → Bytes → Bytes
  items_json start [] close = start ++ close
  items_json start (item ∷ items) close = start ++ (item ++ more_items items close)

  unfoldable pub sample_items : List Sample → List Bytes
  sample_items [] = []
  sample_items (s ∷ rest) = sample_json s ∷ sample_items rest

  unfoldable pub icm_items : List IcmSample → List Bytes
  icm_items [] = []
  icm_items (s ∷ rest) = icm_json s ∷ icm_items rest

  -- querySamplesJson
  unfoldable pub query_samples_json : ℤ × ℤ → World → Option Bytes
  query_samples_json ends w = elim (db.samples w cfg.db_path ends.0 ends.1) [
    | none ↦ none
    | some rows ↦ some (items_json (text "[") (sample_items rows) (text "]"))
  ]

  -- queryIcmSamplesJson
  unfoldable pub query_icm_samples_json : ℤ × ℤ → World → Option Bytes
  query_icm_samples_json ends w = elim (db.icm_samples w cfg.icm_db_path ends.0 ends.1) [
    | none ↦ none
    | some rows ↦ some (items_json (text "{\"ok\":true,\"samples\":[") (icm_items rows) (text "]}"))
  ]

  abbrev internal_error : Web → Web
  internal_error =
      send_response 500 (text "Internal Server Error") (text "text/plain") (text "internal error")

  -- Lines 127 to 140 of handleSamplesRequest.
  unfoldable pub answer_samples : ℤ × ℤ → Web → Web
  answer_samples ends w =
      if not (db.open_v2 w.world cfg.db_path)
      then internal_error w
      else elim (query_samples_json ends w.world) [
        | none ↦ internal_error w
        | some body ↦ send_response 200 (text "OK") (text "application/json") body w
      ]

  -- handleSamplesRequest
  unfoldable pub handle_samples_request : Bytes → Web → Web
  handle_samples_request query w = elim (parse_query_time query w.world) [
    | none ↦ send_response 400 (text "Bad Request") (text "text/plain") (text "bad request") w
    | some ends ↦ answer_samples ends w
  ]

  -- handleIcmPageRequest
  unfoldable pub handle_icm_page_request : Web → Web
  handle_icm_page_request w = elim (read_whole_file p cfg.icm_index_path w.world) [
    | none ↦ internal_error w
    | some body ↦ send_response 200 (text "OK") (text "text/html; charset=utf-8") body w
  ]

  -- Lines 157 to 170 of handleIcmSamplesRequest.
  unfoldable pub answer_icm_samples : ℤ × ℤ → Web → Web
  answer_icm_samples ends w =
      if not (db.open_v2 w.world cfg.icm_db_path)
      then send_json 500 (text "Internal Server Error")
          (text "{\"ok\":false,\"message\":\"无法打开 ICM20608 数据库\"}") w
      else elim (query_icm_samples_json ends w.world) [
        | none ↦
            send_json 500 (text "Internal Server Error")
              (text "{\"ok\":false,\"message\":\"查询失败\"}") w
        | some body ↦ send_response 200 (text "OK") (text "application/json") body w
      ]

  -- handleIcmSamplesRequest
  unfoldable pub handle_icm_samples_request : Bytes → Web → Web
  handle_icm_samples_request query w = elim (parse_query_time query w.world) [
    | none ↦ send_json 400 (text "Bad Request") (text "{\"ok\":false,\"message\":\"时间范围无效\"}") w
    | some ends ↦ answer_icm_samples ends w
  ]
