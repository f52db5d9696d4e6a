-- ===== src/Backend/Pending.antt =====
-- ota-mqtt.cpp, lines 578 to 621: the callbacks of the Paho client, and the command that waits.
use alientek.Prelude.{
  false, Option, none, some, List, [], ◌∷◌, ◌||◌, ltb, leb, if◌then◌else◌, Bytes, length,
}
use alientek.World.{Errno, emsgsize, ebusy}
use alientek.World.Globals.{Session}

-- What the client calls back for: a message, with its payload unless the message is NULL, and the
-- loss of the connection.
pub data Callback : Type 0 where
  arrived : Option Bytes → Callback
  lost : Callback

-- storeMqttPendingPayload, with the errno of its failure. It runs on the client's own thread, whose
-- errno is not that of the caller.
unfoldable pub store_mqtt_pending_payload : Bytes → Session → Option Errno × Session
store_mqtt_pending_payload payload s =
    if ltb (length payload) 1 || leb 4096 (length payload)
    then (some emsgsize, s)
    else elim (s.pending) [
      | some waiting ↦ (some ebusy, s)
      | none ↦ (none, record s { pending = some payload })
    ]

-- onMqttMessageArrived
unfoldable pub on_mqtt_message_arrived : Option Bytes → Session → Session
on_mqtt_message_arrived none s = s
on_mqtt_message_arrived (some payload) s = (store_mqtt_pending_payload payload s).1

-- onMqttConnectionLost
unfoldable pub on_mqtt_connection_lost : Session → Session
on_mqtt_connection_lost s = record s { connected = false }

-- A callback as a whole. It runs on the client's own thread at any time; here it comes while a call of the
-- client runs, between two operations, or between the two stores of clearMqttPending. At any other time
-- it has the effect that it has at one of these: storeMqttPendingPayload changes nothing unless
-- g_mqttHasPending is 0, and the buffer is read only while it is 1.
unfoldable pub call_back : Callback → Session → Session
unfolding on_mqtt_message_arrived on_mqtt_connection_lost
call_back (arrived message) s = on_mqtt_message_arrived message s
call_back lost s = on_mqtt_connection_lost s

-- The callbacks that come while a call of the client runs, in their order.
unfoldable pub call_back_all : List Callback → Session → Session
call_back_all [] s = s
call_back_all (c ∷ cs) s = call_back_all cs (call_back c s)

-- A payload whose first byte is made 0.
unfoldable pub wiped : Bytes → Bytes
wiped [] = []
wiped (c ∷ s) = 0 ∷ s

-- g_mqttPending[0] = '\0', which stays without effect where no command waits.
unfoldable pub wipe_buffer : Session → Session
unfolding wiped
wipe_buffer s = record s { pending = elim (s.pending) [ none ↦ none | some p ↦ some (wiped p) ] }

-- clearMqttPending: g_mqttHasPending is cleared, then the buffer, with the callbacks that come between
-- the two stores.
unfoldable pub clear_mqtt_pending : List Callback → Session → Session
unfolding call_back_all wipe_buffer
clear_mqtt_pending callbacks s = wipe_buffer (call_back_all callbacks (record s { pending = none }))
