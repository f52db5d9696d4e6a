-- ===== src/Backend/Sound.antt =====
-- The session of ota-mqtt.cpp, and what the callbacks and the texts of otaMqttConnect make of it.
use alientek.Prelude.{
  ◌≤◌, ◌<◌, true, false, Option, none, some, List, [], ◌∷◌, ◌++◌, ◌≡◌, inl, inr, refl, arith, Bytes,
  length, length-take-le, Bool-cases, leb, take, text,
}
use alientek.World.{World, Io, ◌>>=◌, Result, ok, err}
use alientek.World.Laws.{bind-next, next}
use alientek.World.Globals.{Session}
use alientek.State.Int.{ℤ, print_int}
use alientek.Backend.{is_blank}
use alientek.Backend.Pending.{
  Callback, arrived, lost, call_back, call_back_all, store_mqtt_pending_payload,
  on_mqtt_message_arrived, on_mqtt_connection_lost, wiped, wipe_buffer, clear_mqtt_pending,
}
use alientek.Backend.Paho.{set_uri, set_id, build_mqtt_server_uri, keep_client_id}

abbrev pub Waits : Option Bytes → Type 0
Waits none = Unit
Waits (some p) = (1 ≤ length p) × (length p < 4096)

-- A command that waits is not empty and leaves room for its terminator; a connection has a client,
-- and a client the address and the name to connect with; the texts fit their arrays.
pub record IsSession (s : Session) : Type 0 where
  pub waiting : Waits s.pending
  pub has_client : s.connected ≡ true → s.client ≡ true
  pub has_uri : s.client ≡ true → is_blank s.server_uri ≡ false
  pub has_id : s.client ≡ true → is_blank s.client_id ≡ false
  pub uri_fits : length s.server_uri < 160
  pub id_fits : length s.client_id < 96
  pub topic_fits : length s.command_topic < 192

abbrev pub IsSound : World → Type 0
IsSound w = IsSession w.mqtt

pub call_back-IsSession : (c : Callback) (s : Session) → IsSession s → IsSession (call_back c s)
unfolding call_back on_mqtt_message_arrived on_mqtt_connection_lost store_mqtt_pending_payload
call_back-IsSession (arrived (some p)) s h = ground arith
call_back-IsSession (arrived none) s h = h
call_back-IsSession lost s h = ground arith

pub call_back_all-IsSession :
    (cs : List Callback) (s : Session) → IsSession s → IsSession (call_back_all cs s)
unfolding call_back_all
call_back_all-IsSession [] s h = h
call_back_all-IsSession (c ∷ cs) s h =
    call_back_all-IsSession cs (call_back c s) (call_back-IsSession c s h)

-- What no callback changes.
abbrev pub SameEnds : Session → Session → Type 0
SameEnds s t =
    (t.client ≡ s.client)
    × (t.server_uri ≡ s.server_uri)
    × (t.client_id ≡ s.client_id)
    × (t.command_topic ≡ s.command_topic)

call_back_ends : (c : Callback) (s : Session) → SameEnds s (call_back c s)
unfolding call_back on_mqtt_message_arrived on_mqtt_connection_lost store_mqtt_pending_payload
call_back_ends (arrived (some p)) s = ground arith
call_back_ends (arrived none) s = ground arith
call_back_ends lost s = ground arith

pub call_back_all_ends : (cs : List Callback) (s : Session) → SameEnds s (call_back_all cs s)
unfolding call_back_all
call_back_all_ends [] s = ground arith
call_back_all_ends (c ∷ cs) s =
    ground (arith, call_back_ends c s, call_back_all_ends cs (call_back c s))

wipe_buffer-IsSession : (s : Session) → IsSession s → IsSession (wipe_buffer s)
unfolding wipe_buffer wiped
wipe_buffer-IsSession s h = record {
  waiting = by_pending s.pending h.waiting;
  has_client = h.has_client;
  has_uri = h.has_uri;
  has_id = h.has_id;
  uri_fits = h.uri_fits;
  id_fits = h.id_fits;
  topic_fits = h.topic_fits;
}
  where
    by_pending :
        (o : Option Bytes) → Waits o → Waits (elim o [ none ↦ none | some p ↦ some (wiped p) ])
    by_pending none k = tt
    by_pending (some []) k = k
    by_pending (some (c ∷ p)) k = k

pub clear_mqtt_pending-IsSession :
    (cs : List Callback) (s : Session) → IsSession s → IsSession (clear_mqtt_pending cs s)
unfolding clear_mqtt_pending
clear_mqtt_pending-IsSession cs s h =
    wipe_buffer-IsSession (call_back_all cs (record s { pending = none }))
      (call_back_all-IsSession cs (record s { pending = none }) (ground arith))

pub clear_mqtt_pending_ends :
    (cs : List Callback) (s : Session) → SameEnds s (clear_mqtt_pending cs s)
unfolding clear_mqtt_pending wipe_buffer
clear_mqtt_pending_ends cs s = call_back_all_ends cs (record s { pending = none })

-- An operation that leaves a sound session sound.
abbrev pub Keeps : {A : Type 0} → Io A → Type 0
Keeps m = (w : World) → IsSound w → IsSound (m w).1

pub bind-IsSound :
    {A B : Type 0} (P : World → Type 0) (m : Io A) (k : Io B) (w : World)
    → IsSound (m w).1
    → P (m w).1
    → ((v : World) → IsSound v → P v → IsSound (k v).1)
    → IsSound ((m >>= λ a. k) w).1
bind-IsSound P m k w h p g = rw (bind-next m (λ a. k) w) (by_result P k g (m w) h p)
  where
    by_result :
        {A B : Type 0} (P : World → Type 0) (k : Io B)
        → ((v : World) → IsSound v → P v → IsSound (k v).1)
        → (r : Result A × World) → IsSound r.1
        → P r.1
        → IsSound (next (λ (a : A). k) r).1
    by_result P k g (ok a, v) h p = g v h p
    by_result P k g (err message, v) h p = h

pub bind-Keeps : {A B : Type 0} (m : Io A) (k : Io B) → Keeps m → Keeps k → Keeps (m >>= λ a. k)
bind-Keeps m k hm hk w h = bind-IsSound (λ v. Unit {0}) m k w (hm w h) tt (λ v g u. hk v g)

set_uri-IsSession :
    (uri : Bytes) (s : Session)
    → is_blank uri ≡ false
    → length uri < 160
    → IsSession s
    → IsSession (set_uri uri s)
set_uri-IsSession uri s b l h = ground arith

set_id-IsSession :
    (id : Bytes) (s : Session)
    → is_blank id ≡ false
    → length id < 96
    → IsSession s
    → IsSession (set_id id s)
set_id-IsSession id s b l h = ground arith

pub build_mqtt_server_uri-Keeps :
    (host : Bytes) (port : ℤ) → Keeps (build_mqtt_server_uri host port)
unfolding build_mqtt_server_uri is_blank
build_mqtt_server_uri-Keeps host port w h =
    let uri = text "tcp://" ++ (host ++ (text ":" ++ print_int port)) in
    let g =
      set_uri-IsSession (take 159 uri) w.mqtt refl (omega (arith, length-take-le 159 uri)) h in
    elim (Bool-cases (leb 160 (length uri))) [ inl e ↦ rw e g | inr e ↦ rw e g ]

pub build_mqtt_server_uri_named :
    (host : Bytes) (port : ℤ) (w : World)
    → is_blank (build_mqtt_server_uri host port w).1.mqtt.server_uri ≡ false
unfolding build_mqtt_server_uri is_blank
build_mqtt_server_uri_named host port w = ground arith

pub keep_client_id-Keeps : (id : Bytes) → is_blank id ≡ false → Keeps (keep_client_id id)
unfolding keep_client_id is_blank
keep_client_id-Keeps (c ∷ id) e w h =
    let g =
      set_id-IsSession (take 95 (c ∷ id)) w.mqtt refl (omega (arith, length-take-le 95 (c ∷ id)))
        h in
    elim (Bool-cases (leb 96 (length (c ∷ id)))) [ inl e ↦ rw e g | inr e ↦ rw e g ]
keep_client_id-Keeps [] e w h = absurd (ground arith)

pub keep_client_id_named :
    (id : Bytes) (w : World)
    → is_blank id ≡ false
    → (is_blank (keep_client_id id w).1.mqtt.client_id ≡ false)
      × ((keep_client_id id w).1.mqtt.server_uri ≡ w.mqtt.server_uri)
unfolding keep_client_id is_blank
keep_client_id_named (c ∷ id) w e = ground arith
keep_client_id_named [] w e = absurd (ground arith)
