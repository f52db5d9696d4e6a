-- ===== src/Backend/Paho.antt =====
-- ota-mqtt.cpp, lines 623 to 838: the backend on the Paho client. The client library is a parameter,
-- the record Paho: functions of the whole world, so the same call may be answered differently each
-- time.
use alientek.Prelude.{
  ℕ, Bool, true, false, not, ◌&&◌, ◌||◌, ◌+◌, none, some, List, [], ◌++◌, ◌==◌, ltb, leb,
  if◌then◌else◌, Bytes, length, text, fit, c_str,
}
use alientek.World.{
  World, einval, eagain, eio, enospc, enotconn, econnrefused, enametoolong, etimedout, dialled,
  disconnected, subscribed, published, Io, ◌>>◌, pure, fail, put_log,
}
use alientek.World.Globals.{Session}
use alientek.State.Int.{ℤ, pos, negsuc, print_int}
use alientek.Backend.{Backend, is_blank, validate_mqtt_endpoint, wait_ms}
use alientek.Backend.Pending.{Callback, call_back_all, clear_mqtt_pending}

-- Whether a call gives MQTTCLIENT_SUCCESS, and the callbacks that come while it runs.
pub record Reply : Type 0 where
  pub success : Bool
  pub callbacks : List Callback

-- MQTTClient_create, _setCallbacks, _connect, _subscribe, _publishMessage, _waitForCompletion,
-- _disconnect and _yield. A client that is not created leaves the handle NULL. `meanwhile` are the
-- callbacks of the client's thread while clearMqttPending runs.
pub record Paho : Type 0 where
  pub create : World → Bytes → Bytes → Bool
  pub set_callbacks : World → Bool
  pub connect : World → Reply
  pub subscribe : World → Bytes → Reply
  pub publish : World → Bytes → Bytes → Reply
  pub wait : World → Reply
  pub disconnect : World → List Callback
  pub yield : World → List Callback
  pub meanwhile : World → List Callback

abbrev pub put_session : (Session → Session) → World → World
put_session f w = record w { mqtt = f w.mqtt }

abbrev pub set_client : Bool → Session → Session
set_client b s = record s { client = b }

abbrev pub set_connected : Bool → Session → Session
set_connected b s = record s { connected = b }

abbrev pub set_uri : Bytes → Session → Session
set_uri uri s = record s { server_uri = uri }

abbrev pub set_id : Bytes → Session → Session
set_id id s = record s { client_id = id }

abbrev pub set_topic : Bytes → Session → Session
set_topic topic s = record s { command_topic = topic }

abbrev pub deliver : List Callback → World → World
deliver callbacks w = put_session (call_back_all callbacks) w

-- buildMqttServerUri
unfoldable pub build_mqtt_server_uri : Bytes → ℤ → Io (Unit {0})
build_mqtt_server_uri host port w =
    let uri = text "tcp://" ++ (host ++ (text ":" ++ print_int port)) in
    (if leb 160 (length uri) then fail enametoolong [] else pure tt)
      (put_session (set_uri (fit 160 uri)) w)

-- Lines 715 to 721 of otaMqttConnect.
unfoldable pub keep_client_id : Bytes → Io (Unit {0})
keep_client_id client_id w =
    (if leb 96 (length client_id) then fail enametoolong [] else pure tt)
      (put_session (set_id (fit 96 client_id)) w)

module _ (paho : Paho) where
  -- Lines 649 to 652.
  unfoldable pub hang_up : World → World
  hang_up w =
      let v = put_log disconnected w in
      if w.mqtt.connected
      then put_session (set_connected false) (deliver (paho.disconnect v) v)
      else w

  -- destroyMqttClient
  unfoldable pub destroy_mqtt_client : World → World
  destroy_mqtt_client w =
      if not w.mqtt.client then w else put_session (set_client false) (hang_up w)

  -- Lines 669 to 674, with the client created.
  unfoldable pub with_callbacks : Io (Unit {0})
  with_callbacks w = if paho.set_callbacks w then pure tt w else fail eio [] (destroy_mqtt_client w)

  -- Lines 663 to 674.
  unfoldable pub create_fresh : Io (Unit {0})
  create_fresh w =
      if paho.create w w.mqtt.server_uri w.mqtt.client_id
      then with_callbacks (put_session (set_client true) w)
      else fail eio [] w

  -- createMqttClient
  unfoldable pub create_mqtt_client : Io (Unit {0})
  create_mqtt_client w = create_fresh (destroy_mqtt_client w)

  -- Lines 687 to 693, on the answer of MQTTClient_connect.
  unfoldable pub connected_by : Bool → Io (Unit {0})
  connected_by true w = pure tt (put_session (set_connected true) w)
  connected_by false w = fail econnrefused [] (put_session (set_connected false) w)

  -- attemptMqttConnect
  unfoldable pub attempt_mqtt_connect : Io (Unit {0})
  attempt_mqtt_connect w =
      if not w.mqtt.client
      then fail einval [] w
      else let v = put_log (dialled w.mqtt.server_uri w.mqtt.client_id) w in
        connected_by (paho.connect v).success (deliver (paho.connect v).callbacks v)

  -- resubscribeCommandTopic
  unfoldable pub resubscribe_command_topic : Io (Unit {0})
  resubscribe_command_topic w =
      if is_blank w.mqtt.command_topic
      then pure tt w
      else let v = put_log (subscribed w.mqtt.command_topic) w in
        let r = paho.subscribe v w.mqtt.command_topic in
        (if r.success then pure tt else fail eio []) (deliver r.callbacks v)

  -- Lines 722 to 730.
  unfoldable pub open_session : Io (Unit {0})
  open_session w =
      (create_mqtt_client >> attempt_mqtt_connect)
        (put_session (clear_mqtt_pending (paho.meanwhile w)) w)

  -- otaMqttConnect
  unfoldable pub connect : Bytes → ℤ → Bytes → Io (Unit {0})
  connect host port client_id =
      if not (validate_mqtt_endpoint host port client_id)
      then fail einval []
      else build_mqtt_server_uri host port >> (keep_client_id client_id >> open_session)

  -- otaMqttSubscribeCommand. snprintf gives no negative value, so a longer topic is cut.
  unfoldable pub subscribe_command : Bytes → Io (Unit {0})
  subscribe_command topic w =
      if is_blank topic
      then fail einval [] w
      else let v = put_session (set_topic (fit 192 topic)) w in
        if not v.mqtt.connected then fail enotconn [] v else resubscribe_command_topic v

  -- Lines 770 to 775, behind MQTTClient_publishMessage.
  unfoldable pub confirm : Io (Unit {0})
  confirm w =
      let r = paho.wait w in
      (if r.success then pure tt else fail etimedout []) (deliver r.callbacks w)

  -- Lines 761 to 775.
  unfoldable pub send : Bytes → Bytes → Io (Unit {0})
  send topic payload w =
      let v = put_log (published topic payload) w in
      let r = paho.publish v topic payload in
      (if r.success then confirm else fail eio []) (deliver r.callbacks v)

  -- otaMqttPublishStatus
  unfoldable pub publish_status : Bytes → Bytes → Io (Unit {0})
  publish_status topic payload w =
      if is_blank topic || is_blank payload
      then fail einval [] w
      else if not w.mqtt.connected || not w.mqtt.client
      then fail enotconn [] w
      else send topic payload w

  -- Lines 783 to 790.
  unfoldable pub restore_client : Io (Unit {0})
  restore_client w =
      if w.mqtt.client
      then pure tt w
      else if is_blank w.mqtt.server_uri || is_blank w.mqtt.client_id
      then fail einval [] w
      else create_mqtt_client w

  -- reconnectMqttIfNeeded
  unfoldable pub reconnect_mqtt_if_needed : Io (Unit {0})
  reconnect_mqtt_if_needed w =
      if w.mqtt.connected
      then pure tt w
      else (restore_client >> (attempt_mqtt_connect >> resubscribe_command_topic)) w

  -- Lines 806 to 808.
  unfoldable pub run_client : World → World
  run_client w = if w.mqtt.client then deliver (paho.yield w) w else w

  -- Lines 809 to 812.
  unfoldable pub throttle : ℕ → World → World
  throttle ms w = if w.mqtt.connected then w else wait_ms ms w

  -- otaMqttYield
  unfoldable pub yield : ℤ → Io (Unit {0})
  yield (negsuc n) w = fail einval [] w
  yield (pos ms) w =
      if not w.mqtt.client && is_blank w.mqtt.server_uri
      then fail einval [] w
      else pure tt (throttle ms (run_client (reconnect_mqtt_if_needed w).1))

  -- otaMqttPopCommand, into a buffer of `size` bytes. strlen ends at a byte 0 of the payload.
  unfoldable pub pop_command : ℕ → Io Bytes
  pop_command size w = if size == 0 then fail einval [] w else elim (w.mqtt.pending) [
    | none ↦ fail eagain [] w
    | some payload ↦
        if ltb size (length (c_str payload) + 1)
        then fail enospc [] w
        else pure (c_str payload) (put_session (clear_mqtt_pending (paho.meanwhile w)) w)
  ]

  unfoldable pub paho_backend : Backend
  paho_backend = record {
    connect = connect;
    subscribe_command = subscribe_command;
    publish_status = publish_status;
    yield = yield;
    pop_command = pop_command;
    is_connected = λ w. w.mqtt.connected;
  }
