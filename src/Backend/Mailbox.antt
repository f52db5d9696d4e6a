-- ===== src/Backend/Mailbox.antt =====
-- The command that waits, g_mqttPending of ota-mqtt.cpp, as a queue of the commands that came.
use mathlib.Core.List.{map-append}
use alientek.Prelude.{
  ℕ, Option-cases, Option, none, some, List, [], ◌∷◌, ◌++◌, ◌≡◌, inl, inr, ap, sym, ◌∙◌, map,
  append-nil, append_assoc, arith, refl, Bytes, c_str,
}
use alientek.World.{World, Errno, Result, ok, err}
use alientek.World.Globals.{Session}
use alientek.Backend.Pending.{
  Callback, arrived, lost, call_back, store_mqtt_pending_payload, on_mqtt_message_arrived,
  on_mqtt_connection_lost, clear_mqtt_pending, call_back_all, wiped, wipe_buffer,
}
use alientek.Backend.Paho.{Paho, put_session, pop_command}

-- A callback of the client, or otaMqttPopCommand with a buffer of so many bytes.
pub data Action : Type 0 where
  comes : Callback → Action
  takes : ℕ → Action

abbrev pub waiting : Option Bytes → List Bytes
waiting none = []
waiting (some p) = p ∷ []

abbrev kept : Bytes → Option Errno → List Bytes
kept p none = p ∷ []
kept p (some e) = []

abbrev value : Result Bytes → List Bytes
value (ok s) = s ∷ []
value (err message) = []

-- The payload that a callback puts in.
unfoldable pub accepts : Callback → Session → List Bytes
accepts (arrived (some p)) s = kept p (store_mqtt_pending_payload p s).0
accepts (arrived none) s = []
accepts lost s = []

unfoldable pub all_accepts : List Callback → Session → List Bytes
all_accepts [] s = []
all_accepts (c ∷ cs) s = accepts c s ++ all_accepts cs (call_back c s)

call_back_queue :
    (c : Callback) (s : Session)
    → waiting s.pending ++ accepts c s ≡ waiting (call_back c s).pending
unfolding accepts call_back on_mqtt_message_arrived on_mqtt_connection_lost
    store_mqtt_pending_payload
call_back_queue (arrived (some p)) s = elim (Option-cases (s.pending)) [
  | inl e ↦ ground arith
  | inr (q, e) ↦ ground arith
]
call_back_queue (arrived none) s = append-nil (waiting s.pending)
call_back_queue lost s = append-nil (waiting s.pending)

call_back_all_queue :
    (cs : List Callback) (s : Session)
    → waiting s.pending ++ all_accepts cs s ≡ waiting (call_back_all cs s).pending
unfolding all_accepts call_back_all
call_back_all_queue [] s = append-nil (waiting s.pending)
call_back_all_queue (c ∷ cs) s =
    sym (append_assoc (waiting s.pending) (accepts c s) (all_accepts cs (call_back c s)))
    ∙ (ap (λ t. t ++ all_accepts cs (call_back c s)) (call_back_queue c s)
        ∙ call_back_all_queue cs (call_back c s))

wipe_buffer_queue : (s : Session) → waiting (wipe_buffer s).pending ≡ map wiped (waiting s.pending)
unfolding wipe_buffer
wipe_buffer_queue s = elim (Option-cases (s.pending)) [
  | inl e ↦ rw (e, wipe_buffer) refl
  | inr (q, e) ↦ rw (e, wipe_buffer) refl
]

-- What comes while the slot is cleared is accepted, and then its first byte is lost.
clear_mqtt_pending_queue :
    (cs : List Callback) (s : Session)
    → waiting (clear_mqtt_pending cs s).pending
      ≡ map wiped (all_accepts cs (record s { pending = none }))
unfolding clear_mqtt_pending
clear_mqtt_pending_queue cs s =
    wipe_buffer_queue (call_back_all cs (record s { pending = none }))
    ∙ ap (map wiped) (sym (call_back_all_queue cs (record s { pending = none })))

module _ (paho : Paho) where
  -- The command that a call gives.
  unfoldable pub gives : Action → World → List Bytes
  gives (comes c) w = []
  gives (takes size) w = value (pop_command paho size w).0

  unfoldable pub act : Action → World → World
  act (comes c) w = put_session (call_back c) w
  act (takes size) w = (pop_command paho size w).1

  unfoldable pub run : List Action → World → World
  run [] w = w
  run (a ∷ l) w = run l (act a w)

  -- The payloads that are accepted while a step runs, as the buffer then holds them.
  unfoldable pub takes_in : Action → World → List Bytes
  takes_in (comes c) w = accepts c w.mqtt
  takes_in (takes size) w = elim ((pop_command paho size w).0) [
    | err message ↦ []
    | ok s ↦ map wiped (all_accepts (paho.meanwhile w) (record w.mqtt { pending = none }))
  ]

  unfoldable pub all_accepted : List Action → World → List Bytes
  all_accepted [] w = []
  all_accepted (a ∷ l) w = takes_in a w ++ all_accepted l (act a w)

  unfoldable pub all_given : List Action → World → List Bytes
  all_given [] w = []
  all_given (a ∷ l) w = gives a w ++ all_given l (act a w)

  pop_queue :
      (size : ℕ) (w : World)
      → map c_str (waiting w.mqtt.pending ++ takes_in (takes size) w)
        ≡ value (pop_command paho size w).0
          ++ map c_str (waiting (pop_command paho size w).1.mqtt.pending)
  unfolding takes_in pop_command
  pop_queue size w = elim (Option-cases (w.mqtt.pending)) [
    | inl e ↦ ground (arith, append-nil (waiting w.mqtt.pending))
    | inr (q, e) ↦
        let c = clear_mqtt_pending_queue (paho.meanwhile w) w.mqtt in
        ground (arith, e, c, append-nil (waiting w.mqtt.pending))
  ]

  act_queue :
      (a : Action) (w : World)
      → map c_str (waiting w.mqtt.pending ++ takes_in a w)
        ≡ gives a w ++ map c_str (waiting (act a w).mqtt.pending)
  unfolding act gives takes_in
  act_queue (comes c) w = ap (map c_str) (call_back_queue c w.mqtt)
  act_queue (takes size) w = pop_queue size w

  -- Whatever callbacks and calls of otaMqttPopCommand come in which order, with more callbacks between
  -- the two stores of each clearMqttPending: the commands given, with the one that waits at the end
  -- behind them, are the one that waited at the start and the payloads accepted, each once, in the order
  -- of arrival and up to its first byte 0, where a payload accepted between the two stores is given as
  -- an empty text.
  pub run-IsQueue :
      (l : List Action) (w : World)
      → map c_str (waiting w.mqtt.pending ++ all_accepted l w)
        ≡ all_given l w ++ map c_str (waiting (run l w).mqtt.pending)
  unfolding run all_accepted all_given
  run-IsQueue [] w = ap (map c_str) (append-nil (waiting w.mqtt.pending))
  run-IsQueue (a ∷ l) w =
      let v = act a w in
      let before = waiting w.mqtt.pending ++ takes_in a w in
      ap (map c_str) (sym (append_assoc (waiting w.mqtt.pending) (takes_in a w) (all_accepted l v)))
      ∙ (map-append c_str before (all_accepted l v)
          ∙ (ap (λ t. t ++ map c_str (all_accepted l v)) (act_queue a w)
              ∙ (append_assoc (gives a w) (map c_str (waiting v.mqtt.pending))
                    (map c_str (all_accepted l v))
                  ∙ (ap (λ t. gives a w ++ t)
                        (sym (map-append c_str (waiting v.mqtt.pending) (all_accepted l v))
                          ∙ run-IsQueue l v)
                      ∙ sym (
                          append_assoc (gives a w) (all_given l v)
                            (map c_str (waiting (run l v).mqtt.pending)))))))
