-- ===== src/Web/Server.antt =====
-- webserver.c: the settings, the requests and main.
use alientek.Prelude.{
  ℕ, not, ◌&&◌, ◌||◌, Option, none, some, List, [], ◌∷◌, ◌==◌, ltb, if◌then◌else◌, Bytes, drop,
  text, c_str, str_eq,
}
use alientek.World.{Platform}
use alientek.Defaults.{Environment, read_path_setting}
use alientek.Web.{
  Web, Recv, Sent, WebserverCfg, send_response, send_json, read_whole_file, recv_http_headers,
}
use alientek.Web.Parse.{parse_ulong, parse_request_line}
use alientek.Web.Samples.{
  Database, handle_samples_request, handle_icm_page_request, handle_icm_samples_request,
}
use alientek.Web.Upgrade.{handle_upgrade}

-- Lines 38 to 42 of webserverCfgInit.
unfoldable pub port_setting : Option Bytes → ℕ
port_setting none = 8080
port_setting (some s) = elim (parse_ulong s) [
  | none ↦ 8080
  | some n ↦ if n == 0 || ltb 65535 n then 8080 else n
]

-- webserverCfgInit; envOrDefault is otaReadPathSetting again
unfoldable pub webserver_cfg_init : Environment → WebserverCfg
unfolding read_path_setting
webserver_cfg_init env = record {
  port = port_setting (env (text "WEBSERVER_PORT"));
  db_path = read_path_setting env (text "WEBSERVER_DB_PATH") (text "/var/lib/ap3216c/ap3216c.db");
  index_path =
      read_path_setting env (text "WEBSERVER_INDEX") (text "/usr/share/webserver/index.html");
  icm_db_path =
      read_path_setting env (text "WEBSERVER_ICM_DB_PATH") (text "/var/lib/icm20608/icm20608.db");
  icm_index_path =
      read_path_setting env (text "WEBSERVER_ICM_INDEX")
        (text "/usr/share/webserver/icm20608.html");
  apply_path = read_path_setting env (text "WEBSERVER_APPLY") (text "/usr/sbin/ota-apply");
  swu_path = read_path_setting env (text "WEBSERVER_SWU_PATH") (text "/var/tmp/web-upgrade.swu");
  mime_path = read_path_setting env (text "WEBSERVER_MIME_PATH") (text "/var/tmp/web-upgrade.mime");
  log_path = read_path_setting env (text "WEBSERVER_LOG_PATH") (text "/var/tmp/web-upgrade.log");
  reboot_cmd = read_path_setting env (text "WEBSERVER_REBOOT_CMD") (text "reboot");
  upgrade_token = elim (env (text "WEBSERVER_UPGRADE_TOKEN")) [ none ↦ [] | some s ↦ s ];
}

module _ (p : Platform) (cfg : WebserverCfg) (db : Database) where
  -- Lines 113 to 122 of handleClient.
  unfoldable pub handle_index : Web → Web
  handle_index w = elim (read_whole_file p cfg.index_path w.world) [
    | none ↦
        send_response 500 (text "Internal Server Error") (text "text/plain") (text "internal error")
          w
    | some body ↦ send_response 200 (text "OK") (text "text/html; charset=utf-8") body w
  ]

  -- Lines 112 to 136.
  unfoldable pub handle_get : Bytes → Bytes → Web → Web
  unfolding str_eq
  handle_get path query w =
      if str_eq path (text "/")
      then handle_index w
      else if str_eq path (text "/api/samples")
      then handle_samples_request p cfg db query w
      else if str_eq path (text "/icm20608")
      then handle_icm_page_request p cfg db w
      else if str_eq path (text "/api/icm20608/samples")
      then handle_icm_samples_request p cfg db query w
      else send_response 404 (text "Not Found") (text "text/plain") (text "not found") w

  -- Lines 102 to 136, on the parts of the request line; `head` is the buffer as a text and `pref` what
  -- stands behind the headers.
  unfoldable pub handle_request : Bytes → Bytes → Bytes × Bytes × Bytes → Web → Web
  unfolding str_eq
  handle_request head pref (method, path, query) w =
      if str_eq method (text "POST") && str_eq path (text "/api/upgrade")
      then handle_upgrade p cfg head pref w
      else if not (str_eq method (text "GET"))
      then send_response 405 (text "Method Not Allowed") (text "text/plain")
          (text "method not allowed") w
      else handle_get path query w

  -- Lines 91 to 136, on what recvHttpHeaders gives.
  unfoldable pub received : Option (ℕ × Bytes) × Web → Web
  received (none, w) =
      send_json 400 (text "Bad Request") (text "{\"ok\":false,\"message\":\"请求头无效\"}") w
  received (some (n, buf), w) = elim (parse_request_line 16 256 256 (c_str buf)) [
    | none ↦ send_response 400 (text "Bad Request") (text "text/plain") (text "bad request") w
    | some parts ↦ handle_request (c_str buf) (drop n buf) parts w
  ]

  -- handleClient
  unfoldable pub handle_client : Web → Web
  handle_client w = received (recv_http_headers 16384 w)

  -- The loop of main over the connections that accept gives, with what recv and send give on each,
  -- until the stop. A connection starts with nothing sent.
  unfoldable pub serve : List (List Recv × List Sent) → Web → Web
  serve [] w = w
  serve ((calls, answers) ∷ connections) w =
      serve connections (handle_client (record w { calls = calls; answers = answers; sent = [] }))
