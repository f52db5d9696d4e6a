-- ===== src/Backend/Keeps.antt =====
-- The operations of the Paho backend of ota-mqtt.cpp on the session.
use alientek.Prelude.{
  ℕ, true, false, ◌≡◌, inl, inr, arith, Bytes, length-take-le, Bool-cases, Option-cases, ◌||◌, take,
}
use alientek.World.{World, put_log, ◌>>◌, disconnected, dialled, subscribed, published}
use alientek.State.Int.{ℤ, pos, negsuc}
use alientek.Backend.{is_blank, validate_mqtt_endpoint, wait_ms}
use alientek.Backend.Pending.{clear_mqtt_pending}
use alientek.Backend.Paho.{
  Paho, put_session, set_topic, set_client, deliver, connect, subscribe_command, publish_status,
  yield, pop_command, hang_up, destroy_mqtt_client, with_callbacks, create_fresh,
  create_mqtt_client, connected_by, attempt_mqtt_connect, resubscribe_command_topic, open_session,
  build_mqtt_server_uri, keep_client_id, confirm, send, restore_client, reconnect_mqtt_if_needed,
  run_client, throttle,
}
use alientek.Backend.Sound.{
  SameEnds, call_back_all_ends, IsSound, call_back_all-IsSession, Keeps, bind-IsSound, bind-Keeps,
  build_mqtt_server_uri-Keeps, build_mqtt_server_uri_named, keep_client_id-Keeps,
  keep_client_id_named, clear_mqtt_pending-IsSession, clear_mqtt_pending_ends,
}

module _ (paho : Paho) where
  hang_up-IsSound : (w : World) → IsSound w → IsSound (hang_up paho w)
  unfolding hang_up
  hang_up-IsSound w h = elim (Bool-cases (w.mqtt.connected)) [
    | inl e ↦
        let v = put_log disconnected w in
        let g = call_back_all-IsSession (paho.disconnect v) w.mqtt h in simp e (ground arith)
    | inr e ↦ simp e h
  ]

  hang_up_ends : (w : World) → SameEnds w.mqtt (hang_up paho w).mqtt
  unfolding hang_up
  hang_up_ends w = elim (Bool-cases (w.mqtt.connected)) [
    | inl e ↦ simp e (call_back_all_ends (paho.disconnect (put_log disconnected w)) w.mqtt)
    | inr e ↦ simp e (ground arith)
  ]

  hang_up_down : (w : World) → (hang_up paho w).mqtt.connected ≡ false
  unfolding hang_up
  hang_up_down w = ground arith

  destroy_mqtt_client-IsSound : (w : World) → IsSound w → IsSound (destroy_mqtt_client paho w)
  unfolding destroy_mqtt_client
  destroy_mqtt_client-IsSound w h = ground (arith, hang_up-IsSound w h, hang_up_down w)

  destroy_mqtt_client_ends :
      (w : World)
      → ((destroy_mqtt_client paho w).mqtt.client ≡ false)
        × ((destroy_mqtt_client paho w).mqtt.server_uri ≡ w.mqtt.server_uri)
        × ((destroy_mqtt_client paho w).mqtt.client_id ≡ w.mqtt.client_id)
  unfolding destroy_mqtt_client
  destroy_mqtt_client_ends w = ground (arith, hang_up_ends w)

  with_callbacks-Keeps : Keeps (with_callbacks paho)
  unfolding with_callbacks
  with_callbacks-Keeps w h = ground (arith, destroy_mqtt_client-IsSound w h)

  -- The address and the name that a client is created with.
  abbrev HasEnds : World → Type 0
  HasEnds w = (is_blank w.mqtt.server_uri ≡ false) × (is_blank w.mqtt.client_id ≡ false)

  create_fresh-IsSound : (w : World) → IsSound w → HasEnds w → IsSound (create_fresh paho w).1
  unfolding create_fresh
  create_fresh-IsSound w h e =
      let v = put_session (set_client true) w in
      let g : IsSound v = ground arith in ground (arith, with_callbacks-Keeps v g)

  create_mqtt_client-IsSound :
      (w : World) → IsSound w → HasEnds w → IsSound (create_mqtt_client paho w).1
  unfolding create_mqtt_client
  create_mqtt_client-IsSound w h e =
      create_fresh-IsSound (destroy_mqtt_client paho w) (destroy_mqtt_client-IsSound w h)
        (ground (arith, destroy_mqtt_client_ends w))

  attempt_mqtt_connect-Keeps : Keeps (attempt_mqtt_connect paho)
  unfolding attempt_mqtt_connect connected_by
  attempt_mqtt_connect-Keeps w h =
      let v = put_log (dialled w.mqtt.server_uri w.mqtt.client_id) w in
      let cs = (paho.connect v).callbacks in
      elim (Bool-cases ((paho.connect v).success)) [
        | inl e ↦
            ground (arith, e, call_back_all_ends cs w.mqtt, call_back_all-IsSession cs w.mqtt h)
        | inr e ↦
            ground (arith, e, call_back_all_ends cs w.mqtt, call_back_all-IsSession cs w.mqtt h)
      ]

  resubscribe_command_topic-Keeps : Keeps (resubscribe_command_topic paho)
  unfolding resubscribe_command_topic
  resubscribe_command_topic-Keeps w h =
      let v = put_log (subscribed w.mqtt.command_topic) w in
      let cs = (paho.subscribe v w.mqtt.command_topic).callbacks in
      ground (arith, call_back_all-IsSession cs w.mqtt h)

  open_session-IsSound : (w : World) → IsSound w → HasEnds w → IsSound (open_session paho w).1
  unfolding open_session
  open_session-IsSound w h e =
      let cs = paho.meanwhile w in
      let v = put_session (clear_mqtt_pending cs) w in
      let g : IsSound v = clear_mqtt_pending-IsSession cs w.mqtt h in
      bind-IsSound (λ u. Unit {0}) (create_mqtt_client paho) (attempt_mqtt_connect paho) v
        (create_mqtt_client-IsSound v g (ground (arith, clear_mqtt_pending_ends cs w.mqtt))) tt
        (λ u k t. attempt_mqtt_connect-Keeps u k)

  pub connect-Keeps : (host : Bytes) (port : ℤ) (id : Bytes) → Keeps (connect paho host port id)
  unfolding connect validate_mqtt_endpoint
  connect-Keeps host port id w h = elim (Bool-cases (validate_mqtt_endpoint host port id)) [
    | inr e ↦ rw e h
    | inl e ↦
        let named : is_blank id ≡ false = ground arith in
        rw e (
          bind-IsSound (λ v. is_blank v.mqtt.server_uri ≡ false) (build_mqtt_server_uri host port)
            (keep_client_id id >> open_session paho) w (build_mqtt_server_uri-Keeps host port w h)
            (build_mqtt_server_uri_named host port w)
            (λ v g u.
              bind-IsSound HasEnds (keep_client_id id) (open_session paho) v
                (keep_client_id-Keeps id named v g)
                (ground (arith, keep_client_id_named id v named)) open_session-IsSound))
  ]

  pub subscribe_command-Keeps : (topic : Bytes) → Keeps (subscribe_command paho topic)
  unfolding subscribe_command
  subscribe_command-Keeps topic w h =
      let v = put_session (set_topic (take 191 topic)) w in
      let fits = length-take-le 191 topic in
      let g : IsSound v = ground arith in ground (arith, resubscribe_command_topic-Keeps v g)

  confirm-Keeps : Keeps (confirm paho)
  unfolding confirm
  confirm-Keeps w h = ground (arith, call_back_all-IsSession (paho.wait w).callbacks w.mqtt h)

  send-Keeps : (topic payload : Bytes) → Keeps (send paho topic payload)
  unfolding send
  send-Keeps topic payload w h =
      let v = put_log (published topic payload) w in
      let r = paho.publish v topic payload in
      let g = call_back_all-IsSession r.callbacks w.mqtt h in
      ground (arith, g, confirm-Keeps (deliver r.callbacks v) g)

  pub publish_status-Keeps : (topic payload : Bytes) → Keeps (publish_status paho topic payload)
  unfolding publish_status
  publish_status-Keeps topic payload w h = ground (arith, send-Keeps topic payload w h)

  restore_client-Keeps : Keeps (restore_client paho)
  unfolding restore_client
  restore_client-Keeps w h =
      elim (Bool-cases (is_blank w.mqtt.server_uri || is_blank w.mqtt.client_id)) [
        | inl e ↦ ground (arith, e)
        | inr e ↦ ground (arith, e, create_mqtt_client-IsSound w h (ground arith))
      ]

  pub reconnect_mqtt_if_needed-Keeps : Keeps (reconnect_mqtt_if_needed paho)
  unfolding reconnect_mqtt_if_needed
  reconnect_mqtt_if_needed-Keeps w h = ground (
    arith,
    bind-Keeps (restore_client paho) (attempt_mqtt_connect paho >> resubscribe_command_topic paho)
        restore_client-Keeps
        (bind-Keeps (attempt_mqtt_connect paho) (resubscribe_command_topic paho)
          attempt_mqtt_connect-Keeps resubscribe_command_topic-Keeps)
        w h,
  )

  run_client-IsSound : (w : World) → IsSound w → IsSound (run_client paho w)
  unfolding run_client
  run_client-IsSound w h = ground (arith, call_back_all-IsSession (paho.yield w) w.mqtt h)

  pub yield-Keeps : (t : ℤ) → Keeps (yield paho t)
  unfolding yield throttle wait_ms
  yield-Keeps (negsuc n) w h = h
  yield-Keeps (pos ms) w h =
      let g = reconnect_mqtt_if_needed-Keeps w h in
      ground (arith, h, run_client-IsSound (reconnect_mqtt_if_needed paho w).1 g)

  pub pop_command-Keeps : (size : ℕ) → Keeps (pop_command paho size)
  unfolding pop_command
  pop_command-Keeps size w h = elim (Option-cases (w.mqtt.pending)) [
    | inl e ↦ ground (arith, e)
    | inr (p, e) ↦ ground (arith, e, clear_mqtt_pending-IsSession (paho.meanwhile w) w.mqtt h)
  ]
