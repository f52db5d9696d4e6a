-- ===== src/Backend.antt =====
-- The MQTT backends of ota-mqtt.cpp: the functions of ota-mqtt.hpp that reach the broker as an
-- interface, and the stub, lines 840 to 904. The build chooses one of the two backends.
pub mod Pending
pub mod Paho
pub mod Sound
pub mod Keeps
pub mod Steps
pub mod Mailbox
pub mod Alive
pub mod Report
pub mod Printed
use alientek.Prelude.{
  ℕ, Bool, true, false, not, ◌&&◌, ◌||◌, [], ◌∷◌, ◌==◌, leb, ltb, if◌then◌else◌, Bytes,
}
use alientek.World.{World, Errno, einval, eagain, enosys, waited, Io, pure, fail, put_log}
use alientek.State.Int.{ℤ, pos, negsuc}

pub record Backend : Type 0 where
  pub connect : Bytes → ℤ → Bytes → Io (Unit {0})
  pub subscribe_command : Bytes → Io (Unit {0})
  pub publish_status : Bytes → Bytes → Io (Unit {0})
  pub yield : ℤ → Io (Unit {0})
  pub pop_command : ℕ → Io Bytes
  pub is_connected : World → Bool

-- A text that is NULL or empty.
unfoldable pub is_blank : Bytes → Bool
is_blank [] = true
is_blank (c ∷ s) = false

-- port >= 1 && port <= 65535
unfoldable pub is_port : ℤ → Bool
is_port (pos n) = leb 1 n && leb n 65535
is_port (negsuc n) = false

-- validateMqttEndpoint: whether it returns 0
unfoldable pub validate_mqtt_endpoint : Bytes → ℤ → Bytes → Bool
validate_mqtt_endpoint host port client_id =
    not (is_blank host || not (is_port port) || is_blank client_id)

-- usleep((useconds_t)timeoutMs * 1000U), where timeoutMs > 0
unfoldable pub wait_ms : ℕ → World → World
wait_ms ms w = if ltb 0 ms then put_log (waited ms) w else w

-- The stub's otaMqttConnect
unfoldable pub stub_connect : Bytes → ℤ → Bytes → Io (Unit {0})
stub_connect host port client_id =
    if not (validate_mqtt_endpoint host port client_id) then fail einval [] else fail enosys []

-- The stub's otaMqttSubscribeCommand
unfoldable pub stub_subscribe : Bytes → Io (Unit {0})
stub_subscribe topic = if is_blank topic then fail einval [] else fail enosys []

-- The stub's otaMqttPublishStatus
unfoldable pub stub_publish : Bytes → Bytes → Io (Unit {0})
stub_publish topic payload =
    if is_blank topic || is_blank payload then fail einval [] else fail enosys []

-- The stub's otaMqttYield
unfoldable pub stub_yield : ℤ → Io (Unit {0})
stub_yield (negsuc n) w = fail einval [] w
stub_yield (pos ms) w = pure tt (wait_ms ms w)

-- The stub's otaMqttPopCommand
unfoldable pub stub_pop : ℕ → Io Bytes
stub_pop size = if size == 0 then fail einval [] else fail eagain []

unfoldable pub stub : Backend
stub = record {
  connect = stub_connect;
  subscribe_command = stub_subscribe;
  publish_status = stub_publish;
  yield = stub_yield;
  pop_command = stub_pop;
  is_connected = λ w. false;
}
