-- ===== src/Backend/Steps.antt =====
-- Runs of the Paho backend of ota-mqtt.cpp: its operations in any order, and callbacks between them.
use alientek.Prelude.{ℕ, ◌≡◌, arith, Bytes}
use alientek.World.{World}
use alientek.World.Globals.{no_session}
use alientek.State.Int.{ℤ}
use alientek.Backend.Pending.{Callback, call_back}
use alientek.Backend.Paho.{
  Paho, put_session, connect, subscribe_command, publish_status, yield, pop_command,
}
use alientek.Backend.Sound.{IsSound, call_back-IsSession}
use alientek.Backend.Keeps.{
  connect-Keeps, subscribe_command-Keeps, publish_status-Keeps, yield-Keeps, pop_command-Keeps,
}

-- An operation of the backend, with any answers of the client, a callback between two operations, or
-- a step of the rest of the program, which does not touch the session.
pub data Step : World → World → Type 0 where
  connects :
      (paho : Paho) (w : World) (host : Bytes) (port : ℤ) (id : Bytes)
      → Step w (connect paho host port id w).1
  subscribes : (paho : Paho) (w : World) (topic : Bytes) → Step w (subscribe_command paho topic w).1
  publishes :
      (paho : Paho) (w : World) (topic payload : Bytes)
      → Step w (publish_status paho topic payload w).1
  yields : (paho : Paho) (w : World) (ms : ℤ) → Step w (yield paho ms w).1
  pops : (paho : Paho) (w : World) (size : ℕ) → Step w (pop_command paho size w).1
  calls_back : (w : World) (c : Callback) → Step w (put_session (call_back c) w)
  elsewhere : (w v : World) → v.mqtt ≡ w.mqtt → Step w v

pub data Reach (w : World) : World → Type 0 where
  here : Reach w w
  next_step : {u v : World} → Reach w u → Step u v → Reach w v

Step-IsSound : {w v : World} → Step w v → IsSound w → IsSound v
Step-IsSound (connects paho w host port id) h = connect-Keeps paho host port id w h
Step-IsSound (subscribes paho w topic) h = subscribe_command-Keeps paho topic w h
Step-IsSound (publishes paho w topic payload) h = publish_status-Keeps paho topic payload w h
Step-IsSound (yields paho w ms) h = yield-Keeps paho ms w h
Step-IsSound (pops paho w size) h = pop_command-Keeps paho size w h
Step-IsSound (calls_back w c) h = call_back-IsSession c w.mqtt h
Step-IsSound (elsewhere w v e) h = rw e h

-- Whatever operations and callbacks come in which order: from the start of the process on, a command
-- that waits has 1 to 4095 bytes, a connection has a client, a client has an address and a name to
-- connect with, and the texts of the session fit their arrays.
pub Reach-IsSound : {w v : World} → w.mqtt ≡ no_session → Reach w v → IsSound v
Reach-IsSound e here = rw e (ground arith)
Reach-IsSound e (next_step r s) = Step-IsSound s (Reach-IsSound e r)
