-- ===== src/World/Globals.antt =====
-- The globals of ota-mqtt.cpp, lines 570 to 576.
use alientek.Prelude.{Bool, false, Option, none, [], Bytes}

-- `client` is g_mqttClient != NULL, and `pending` the bytes of g_mqttPending up to the length that
-- arrived, where g_mqttHasPending is set.
pub record Session : Type 0 where
  pub client : Bool
  pub connected : Bool
  pub pending : Option Bytes
  pub server_uri : Bytes
  pub client_id : Bytes
  pub command_topic : Bytes

-- The session of a process that starts.
abbrev pub no_session : Session
no_session = record {
  client = false;
  connected = false;
  pending = none;
  server_uri = [];
  client_id = [];
  command_topic = [];
}
