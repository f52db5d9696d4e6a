-- ===== src/Backend/Alive.antt =====
-- otaMqttYield of ota-mqtt.cpp on a broker that can be reached.
use alientek.Prelude.{
  ℕ, zero, suc, Bool, true, false, Bool-cases, none, some, List, [], ◌∷◌, if◌then◌else◌, ◌≡◌, inl,
  inr, refl, ◌∙◌, All, arith, Bytes,
}
use alientek.World.{World, Event, dialled, subscribed, put_log, ok, ◌>>◌}
use alientek.World.Laws.{bind_ran}
use alientek.World.Globals.{Session}
use alientek.State.Int.{pos}
use alientek.Backend.{is_blank}
use alientek.Backend.Pending.{
  Callback, arrived, lost, call_back, call_back_all, store_mqtt_pending_payload,
  on_mqtt_message_arrived,
}
use alientek.Backend.Paho.{
  Paho, put_session, set_client, yield, destroy_mqtt_client, with_callbacks, create_fresh,
  create_mqtt_client, connected_by, attempt_mqtt_connect, resubscribe_command_topic, restore_client,
  reconnect_mqtt_if_needed, run_client, throttle,
}
use alientek.Backend.Sound.{call_back_all_ends}

-- The callbacks of a connection that lasts: messages.
abbrev pub IsMessage : Callback → Type 0
IsMessage (arrived message) = Unit
IsMessage lost = ⊥

-- A client that can be created, and a broker that accepts every connection and does not lose it. A
-- subscription may fail.
pub record IsReachable (paho : Paho) : Type 0 where
  pub creates : (w : World) (uri id : Bytes) → paho.create w uri id ≡ true
  pub sets_callbacks : (w : World) → paho.set_callbacks w ≡ true
  pub connects : (w : World) → (paho.connect w).success ≡ true
  pub connect_lasts : (w : World) → All IsMessage (paho.connect w).callbacks
  pub subscribe_lasts :
      (w : World) (topic : Bytes) → All IsMessage (paho.subscribe w topic).callbacks
  pub yield_lasts : (w : World) → All IsMessage (paho.yield w)

-- So many rounds of otaMqttYield, each with the answers of the client in that round.
unfoldable pub rounds : (ℕ → Paho) → ℕ → ℕ → World → World
rounds pahos ms zero w = w
rounds pahos ms (suc n) w = rounds (λ i. pahos (suc i)) ms n (yield (pahos 0) (pos ms) w).1

-- What a connection from a session sends: the topic is asked for, if there is one.
abbrev pub sends : Session → List Event → List Event
sends s log =
    if is_blank s.command_topic
    then dialled s.server_uri s.client_id ∷ log
    else subscribed s.command_topic ∷ dialled s.server_uri s.client_id ∷ log

call_back_all_lasts :
    (cs : List Callback) (s : Session)
    → All IsMessage cs
    → (call_back_all cs s).connected ≡ s.connected
unfolding call_back_all call_back on_mqtt_message_arrived store_mqtt_pending_payload
call_back_all_lasts [] s h = refl
call_back_all_lasts (arrived none ∷ cs) s h = call_back_all_lasts cs s h.1
call_back_all_lasts (arrived (some p) ∷ cs) s h =
    call_back_all_lasts cs (on_mqtt_message_arrived (some p) s) h.1 ∙ ground arith
call_back_all_lasts (lost ∷ cs) s h = absurd h.0

-- What a session with an address, a name and a topic has.
record Has (w : World) (uri id topic : Bytes) (connected : Bool) (log : List Event) : Type 0 where
  has_client : w.mqtt.client ≡ true
  has_uri : w.mqtt.server_uri ≡ uri
  has_id : w.mqtt.client_id ≡ id
  has_topic : w.mqtt.command_topic ≡ topic
  is_connected : w.mqtt.connected ≡ connected
  has_log : w.log ≡ log

module _ (paho : Paho) (h : IsReachable paho) (uri id topic : Bytes) (named : is_blank uri ≡ false)
    (called : is_blank id ≡ false) where
  abbrev asks : List Event → List Event
  asks log = if is_blank topic then log else subscribed topic ∷ log

  destroy_mqtt_client_none : (w : World) → w.mqtt.client ≡ false → destroy_mqtt_client paho w ≡ w
  unfolding destroy_mqtt_client
  destroy_mqtt_client_none w e = simp e refl

  create_mqtt_client_works :
      (w : World)
      → w.mqtt.client ≡ false
      → create_mqtt_client paho w ≡ (ok tt, put_session (set_client true) w)
  unfolding create_mqtt_client create_fresh with_callbacks
  create_mqtt_client_works w e =
      simp (destroy_mqtt_client_none w e, h.creates, h.sets_callbacks) refl

  restores :
      (w : World)
      → w.mqtt.server_uri ≡ uri
      → w.mqtt.client_id ≡ id
      → w.mqtt.command_topic ≡ topic
      → w.mqtt.connected ≡ false
      → ((restore_client paho w).0 ≡ ok tt) × Has (restore_client paho w).1 uri id topic false w.log
  unfolding restore_client
  restores w u i t c = elim (Bool-cases (w.mqtt.client)) [
    | inl e ↦ ground arith
    | inr e ↦ ground (arith, create_mqtt_client_works w e)
  ]

  attempts :
      (w : World) (log : List Event)
      → Has w uri id topic false log
      → ((attempt_mqtt_connect paho w).0 ≡ ok tt)
        × Has (attempt_mqtt_connect paho w).1 uri id topic true (dialled uri id ∷ log)
  unfolding attempt_mqtt_connect connected_by
  attempts w log k =
      let v = put_log (dialled w.mqtt.server_uri w.mqtt.client_id) w in
      ground (arith, h.connects v, call_back_all_ends (paho.connect v).callbacks w.mqtt)

  subscribes :
      (w : World) (log : List Event)
      → Has w uri id topic true log
      → Has (resubscribe_command_topic paho w).1 uri id topic true (asks log)
  unfolding resubscribe_command_topic
  subscribes w log k =
      let v = put_log (subscribed w.mqtt.command_topic) w in
      let cs = (paho.subscribe v w.mqtt.command_topic).callbacks in
      ground (
        arith,
        call_back_all_ends cs w.mqtt,
        call_back_all_lasts cs w.mqtt (h.subscribe_lasts v w.mqtt.command_topic),
      )

  -- A round on a session without a connection connects and subscribes.
  reconnects :
      (w : World)
      → w.mqtt.server_uri ≡ uri
      → w.mqtt.client_id ≡ id
      → w.mqtt.command_topic ≡ topic
      → w.mqtt.connected ≡ false
      → Has (reconnect_mqtt_if_needed paho w).1 uri id topic true (asks (dialled uri id ∷ w.log))
  unfolding reconnect_mqtt_if_needed
  reconnects w u i t c =
      let m = attempt_mqtt_connect paho >> resubscribe_command_topic paho in
      let (r, k) = restores w u i t c in
      let v = (restore_client paho w).1 in
      let (a, l) = attempts v w.log k in
      let x = (attempt_mqtt_connect paho v).1 in
      simp
        (
          c,
          bind_ran (restore_client paho) (λ y. m) w r,
          bind_ran (attempt_mqtt_connect paho) (λ y. resubscribe_command_topic paho) v a,
        )
        (subscribes x (dialled uri id ∷ w.log) l)

  -- The rest of the round, and a round on a session with a connection, send nothing.
  settles :
      (ms : ℕ) (w : World) (log : List Event)
      → Has w uri id topic true log
      → Has (throttle paho ms (run_client paho w)) uri id topic true log
  unfolding throttle run_client
  settles ms w log k = ground (
    arith,
    call_back_all_ends (paho.yield w) w.mqtt,
    call_back_all_lasts (paho.yield w) w.mqtt (h.yield_lasts w),
  )

  first_round :
      (ms : ℕ) (w : World)
      → w.mqtt.server_uri ≡ uri
      → w.mqtt.client_id ≡ id
      → w.mqtt.command_topic ≡ topic
      → w.mqtt.connected ≡ false
      → Has (yield paho (pos ms) w).1 uri id topic true (asks (dialled uri id ∷ w.log))
  unfolding yield
  first_round ms w u i t c =
      let log = asks (dialled uri id ∷ w.log) in
      let k = settles ms (reconnect_mqtt_if_needed paho w).1 log (reconnects w u i t c) in
      ground (arith, k)

  later_round :
      (ms : ℕ) (w : World) (log : List Event)
      → Has w uri id topic true log
      → Has (yield paho (pos ms) w).1 uri id topic true log
  unfolding yield reconnect_mqtt_if_needed
  later_round ms w log k = ground (arith, settles ms w log k)

later_rounds :
    (pahos : ℕ → Paho) (uri id topic : Bytes) (ms n : ℕ) (w : World) (log : List Event)
    → ((i : ℕ) → IsReachable (pahos i))
    → is_blank uri ≡ false
    → is_blank id ≡ false
    → Has w uri id topic true log
    → Has (rounds pahos ms n w) uri id topic true log
unfolding rounds
later_rounds pahos uri id topic ms zero w log h u c k = k
later_rounds pahos uri id topic ms (suc n) w log h u c k =
    later_rounds (λ i. pahos (suc i)) uri id topic ms n (yield (pahos 0) (pos ms) w).1 log
      (λ i. h (suc i)) u c (later_round (pahos 0) (h 0) uri id topic u c ms w log k)

-- On a client that can be created and a broker that accepts every connection and keeps it, one round
-- of otaMqttYield or more, from a session that has lost its connection and has an address and a
-- name, connects exactly once, and the connection is up at the end. The topic of the session, if it
-- has one, is asked for exactly once, also where that fails; and without a topic none is asked for.
pub rounds_alive :
    (pahos : ℕ → Paho) (ms n : ℕ) (w : World)
    → ((i : ℕ) → IsReachable (pahos i))
    → is_blank w.mqtt.server_uri ≡ false
    → is_blank w.mqtt.client_id ≡ false
    → w.mqtt.connected ≡ false
    → ((rounds pahos ms (suc n) w).mqtt.connected ≡ true)
      × ((rounds pahos ms (suc n) w).log ≡ sends w.mqtt w.log)
unfolding rounds
rounds_alive pahos ms n w h u i c =
    let s = w.mqtt in
    let k =
      later_rounds (λ j. pahos (suc j)) s.server_uri s.client_id s.command_topic ms n
        (yield (pahos 0) (pos ms) w).1 (sends s w.log) (λ j. h (suc j)) u i
        (first_round (pahos 0) (h 0) s.server_uri s.client_id s.command_topic u i ms w refl refl
          refl c) in
    (k.is_connected, k.has_log)
