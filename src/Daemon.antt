-- ===== src/Daemon.antt =====
-- The daemon mqtt-agent, mqtt-agent.cpp: its globals, the system that it runs on, and its settings,
-- lines 24 to 81 and 562 to 596.
pub mod Network
pub mod Broker
pub mod Lines
pub mod Child
pub mod Loop
pub mod Running
pub mod Rounds
use alientek.Prelude.{
  ℕ, min, ◌+◌, Bool, true, false, not, ◌||◌, Option, none, some, List, [], ◌∷◌, ltb, leb,
  if◌then◌else◌, Bytes, fit, text, str_eq,
}
use alientek.World.{World, Platform, Errno}
use alientek.Defaults.{Environment, read_path_setting, load_default_file}
use alientek.State.Int.{ℤ, pos, negsuc, scan_int}
use alientek.Backend.{Backend}

-- `pipe` is g_otaPipeFd >= 0, `child` is g_otaPid > 0, and `line` the bytes of g_otaLineBuf up to
-- g_otaLineLen. The world has the rest of the process.
pub record Daemon : Type 0 where
  pub port : ℕ
  pub auto_mode : Bool
  pub heartbeat_sec : ℤ
  pub busy : Bool
  pub pipe : Bool
  pub child : Bool
  pub client_id : Bytes
  pub command_topic : Bytes
  pub status_topic : Bytes
  pub heartbeat_topic : Bytes
  pub fixed_host : Bytes
  pub ota_bin : Bytes
  pub download_path : Bytes
  pub line : Bytes
  pub last_discover_at : ℕ
  pub last_heartbeat_at : ℕ
  pub world : World

-- An entry of getifaddrs that has an address and a mask, in host order: whether its family is
-- AF_INET, its name, the address and the mask.
pub record Interface : Type 0 where
  pub is_inet : Bool
  pub name : Bytes
  pub address : ℕ
  pub mask : ℕ

-- What a call of read on the pipe gives before the last one: some bytes, or EINTR.
pub data Piece : Type 0 where
  chunk : Bytes → Piece
  interrupted : Piece

-- The call of read after which pollOtaOutput returns: the end of the file, EAGAIN or EWOULDBLOCK, or
-- another error.
pub data Last : Type 0 where
  closed again broken : Last

pub record Reads : Type 0 where
  pub pieces : List Piece
  pub last : Last

-- The calls of the system that mqtt-agent makes beside those of Platform, as functions of the whole
-- world.
pub record Host : Type 0 where
  pub time : World → ℕ
  -- `none` where getifaddrs fails
  pub interfaces : World → Option (List Interface)
  pub pton : Bytes → Bool
  -- whether socket, F_GETFL and F_SETFL succeed
  pub socket : World → Bool
  pub get_flags : World → Bool
  pub set_flags : World → Bool
  -- the errno of connect, if it fails
  pub connect : World → Bytes → ℕ → Option Errno
  -- whether select gives a ready descriptor in that time
  pub select : World → ℕ → Bool
  -- SO_ERROR, `none` where getsockopt fails
  pub so_error : World → Option ℕ
  pub fork : World → List Bytes → Option Errno
  pub fdopen : World → Bool
  pub reads : World → Reads
  -- g_stopRequested, which the handler of SIGINT and SIGTERM sets
  pub stop_requested : World → Bool

-- The globals at the start.
abbrev pub start_daemon : World → Daemon
start_daemon w = record {
  port = 1883;
  auto_mode = true;
  heartbeat_sec = pos 30;
  busy = false;
  pipe = false;
  child = false;
  client_id = text "ota-agent";
  command_topic = text "device/ota/command";
  status_topic = text "device/ota/status";
  heartbeat_topic = text "device/heartbeat";
  fixed_host = [];
  ota_bin = text "/usr/bin/ota-agent";
  download_path = text "/var/tmp/ota-download.swu";
  line = [];
  last_discover_at = 0;
  last_heartbeat_at = 0;
  world = w;
}

abbrev pub put_world : (World → World) → Daemon → Daemon
put_world f d = record d { world = f d.world }

-- loadConfigs: the environment with both settings files
unfoldable pub load_configs :
    (Bytes → Bytes → Bool) → (Bytes → Option Bytes) → Environment → Environment
load_configs room open_file env =
    let env1 =
      load_default_file room open_file
        (read_path_setting env (text "MQTT_AGENT_CONFIG_FILE") (text "/etc/default/mqtt-agent"))
        env in
    load_default_file room open_file
      (read_path_setting env1 (text "OTA_AGENT_CONFIG_FILE") (text "/etc/default/ota-agent")) env1

-- isAutoMqttHost
unfoldable pub is_auto_mqtt_host : Bytes → Bool
unfolding str_eq
is_auto_mqtt_host host = str_eq host [] || str_eq host (text "auto") || str_eq host (text "AUTO")

-- The tests of lines 68 and 69 on the value and on what is behind it.
unfoldable pub port_of : ℤ × Bytes → Option ℕ
port_of (pos n, []) = if ltb n 1 || ltb 65535 n then none else some n
port_of (pos n, c ∷ rest) = none
port_of (negsuc n, rest) = none

-- parsePort; a value that strtol cuts to the range of long is no port either
unfoldable pub parse_port : Bytes → Option ℕ
unfolding port_of
parse_port s = elim (scan_int s) [ none ↦ none | some found ↦ port_of found ]

-- Lines 587 to 589. strtol cuts to the range of long, which is that of int on the board.
unfoldable pub heartbeat_of : Option (ℤ × Bytes) → ℤ
heartbeat_of none = pos 0
heartbeat_of (some (negsuc n, rest)) = pos 0
heartbeat_of (some (pos n, rest)) = pos (min n 0x7fffffff)

-- Lines 571 to 594, with the port.
unfoldable pub load_settings : Environment → ℕ → Daemon → Daemon
unfolding read_path_setting
load_settings env port d =
    let host = read_path_setting env (text "OTA_MQTT_HOST") (text "auto") in
    let is_auto = is_auto_mqtt_host host in
    record d {
      port = port;
      client_id = fit 96 (read_path_setting env (text "OTA_MQTT_CLIENT_ID") (text "ota-agent"));
      command_topic =
          fit 192
            (read_path_setting env (text "OTA_MQTT_COMMAND_TOPIC") (text "device/ota/command"));
      status_topic =
          fit 192 (read_path_setting env (text "OTA_MQTT_STATUS_TOPIC") (text "device/ota/status"));
      heartbeat_topic =
          fit 192
            (read_path_setting env (text "OTA_MQTT_HEARTBEAT_TOPIC") (text "device/heartbeat"));
      ota_bin = fit 256 (read_path_setting env (text "OTA_AGENT_BIN") (text "/usr/bin/ota-agent"));
      download_path =
          fit 256
            (read_path_setting env (text "OTA_DOWNLOAD_PATH") (text "/var/tmp/ota-download.swu"));
      heartbeat_sec =
          heartbeat_of
            (scan_int (read_path_setting env (text "OTA_MQTT_HEARTBEAT_SEC") (text "30")));
      auto_mode = is_auto;
      fixed_host = if is_auto then [] else fit 64 host;
    }

-- loadRuntimeSettings; `none` is the refusal of the port
unfoldable pub load_runtime_settings : Environment → Daemon → Option Daemon
unfolding read_path_setting
load_runtime_settings env d =
    elim (parse_port (read_path_setting env (text "OTA_MQTT_PORT") (text "1883"))) [
      | none ↦ none
      | some port ↦ some (load_settings env port d)
    ]
