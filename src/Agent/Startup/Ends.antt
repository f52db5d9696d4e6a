-- ===== src/Agent/Startup/Ends.antt =====
-- What an attempt of the recovery at the start of the system finds, and how it can end.
use alientek.Prelude.{Bool, true, false, ◌≡◌, ◌≢◌, ◌⊎◌, Bytes, text}
use alientek.World.{World, Platform, enoent, enodev, Result, ok, err, Io}
use alientek.Defaults.{Environment}
use alientek.State.{OtaState}
use alientek.State.Store.{save, load}
use alientek.State.Environment.{load_from_environment, save_to_environment}
use alientek.Exec.Recovery.{recover_pending_state}
use alientek.Agent.Startup.{Attempt, done, retry}

-- The phases in which an update has no outcome yet, and those that are an outcome.
abbrev pub IsOpen : OtaState → Type 0
IsOpen s = (s.phase ≡ text "upgrading") ⊎ (s.phase ≡ text "installing")

abbrev pub IsOver : OtaState → Type 0
IsOver s = (s.phase ≡ text "committed") ⊎ (s.phase ≡ text "failed")

module _ (p : Platform) (getenv : Environment) (report_final : OtaState → Io (Unit {0}))
    (path : Bytes) where
  -- The record of an update that an attempt in the world `w` finds: the one in the state file, unless
  -- that is open and the environment has an outcome, or without a state file the one in the
  -- environment.
  pub data Found (w : World) : OtaState → World → Type 0 where
    closed_file :
        {s : OtaState} {v : World} → load p path w ≡ (ok s, v) → (IsOpen s → ⊥) → Found w s v
    open_file :
        {s env : OtaState} {loaded : Bool} {v u : World}
        → load p path w ≡ (ok s, v)
        → IsOpen s
        → load_from_environment p v ≡ (loaded, env, u)
        → (loaded ≡ true → IsOver env → ⊥)
        → Found w s u
    only_environment :
        {s : OtaState} {why : Bytes} {v u : World}
        → load p path w ≡ (err why, v)
        → v.errno ≡ enoent
        → load_from_environment p v ≡ (true, s, u)
        → Found w s u

  -- How an attempt in the world `w` ends.
  pub data Ends (w : World) : Attempt × World → Type 0 where
    unreadable :
        {why : Bytes} {v : World}
        → load p path w ≡ (err why, v)
        → v.errno ≢ enoent
        → Ends w (retry, v)
    unreadable_environment :
        {why : Bytes} {s : OtaState} {v u : World}
        → load p path w ≡ (err why, v)
        → v.errno ≡ enoent
        → load_from_environment p v ≡ (false, s, u)
        → u.errno ≢ enoent
        → Ends w (retry, u)
    no_record :
        {why : Bytes} {s : OtaState} {v u : World}
        → load p path w ≡ (err why, v)
        → v.errno ≡ enoent
        → load_from_environment p v ≡ (false, s, u)
        → u.errno ≡ enoent
        → Ends w (done, u)
    stale :
        {s env : OtaState} {v u x : World} {r : Result (Unit {0})}
        → load p path w ≡ (ok s, v)
        → IsOpen s
        → load_from_environment p v ≡ (true, env, u)
        → IsOver env
        → save p path env u ≡ (r, x)
        → Ends w (elim r [ ok _ ↦ done | err _ ↦ retry ], x)
    closed : {s : OtaState} {v : World} → Found w s v → (IsOpen s → ⊥) → Ends w (done, v)
    undecided :
        {s : OtaState} {why : Bytes} {v u : World}
        → Found w s v
        → IsOpen s
        → recover_pending_state p getenv s v ≡ (err why, u)
        → u.errno ≢ enodev
        → Ends w (retry, u)
    no_slots :
        {s : OtaState} {why : Bytes} {v u : World}
        → Found w s v
        → IsOpen s
        → recover_pending_state p getenv s v ≡ (err why, u)
        → u.errno ≡ enodev
        → Ends w (done, u)
    unreported :
        {s final : OtaState} {why : Bytes} {v u x : World}
        → Found w s v
        → IsOpen s
        → recover_pending_state p getenv s v ≡ (ok final, u)
        → report_final final u ≡ (err why, x)
        → Ends w (retry, x)
    unsaved :
        {s final : OtaState} {why : Bytes} {v u x y : World}
        → Found w s v
        → IsOpen s
        → recover_pending_state p getenv s v ≡ (ok final, u)
        → report_final final u ≡ (ok tt, x)
        → save p path final x ≡ (err why, y)
        → Ends w (retry, y)
    recovered :
        {s final : OtaState} {v u x y z : World} {r : Result (Unit {0})}
        → Found w s v
        → IsOpen s
        → recover_pending_state p getenv s v ≡ (ok final, u)
        → report_final final u ≡ (ok tt, x)
        → save p path final x ≡ (ok tt, y)
        → save_to_environment p final y ≡ (r, z)
        → Ends w (elim r [ ok _ ↦ done | err _ ↦ retry ], z)
