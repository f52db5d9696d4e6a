-- ===== src/Agent/Commands/Applied.antt =====
-- The exit code of ota-agent --apply.
use alientek.Prelude.{
  Bool, true, false, List, [], ◌∷◌, ◌≡◌, refl, sym, ap, ◌∙◌, ◌⊎◌, inl, inr, arith, Bytes,
  if◌then◌else◌, text, str_eq,
}
use alientek.World.{World, Platform, Result, ok, err}
use alientek.Defaults.{Environment}
use alientek.State.{OtaState}
use alientek.State.Int.{pos}
use alientek.State.Store.{acquire_lock, release_lock}
use alientek.Download.{Rounds}
use alientek.Agent.{load_state_for_apply, execute_apply_pipeline}
use alientek.Agent.Pipeline.{Reaches, Stops, execute_apply_pipeline-Reaches}
use alientek.Agent.Commands.{
  lock_path, state_path, exit_code, apply_locked, apply_acquired, apply_package, run_apply,
}

-- The arguments of the command.
abbrev pub apply_command : Bytes → Bytes → Bytes → Bool → List Bytes
apply_command url sha256 swu_path reboot =
    url ∷ sha256 ∷ swu_path ∷ (if reboot then text "--reboot" ∷ [] else [])

module _ (p : Platform) (getenv : Environment) (rounds : World → List Bytes → Rounds)
    (url sha256 swu_path : Bytes) (reboot : Bool) where
  abbrev pub flagged : OtaState → OtaState
  flagged state = record state { auto_reboot = pos (if reboot then 1 else 0) }

  abbrev pub pipeline : OtaState → World → Result (Unit {0}) × World
  pipeline state =
      execute_apply_pipeline p rounds url sha256 swu_path (state_path getenv) (flagged state)

  -- The whole update has gone well, and the lock is free again.
  pub record Applies (w v : World) : Type 0 where
    pub locked : World
    pub state : OtaState
    pub loaded : World
    pub locks : acquire_lock p (lock_path getenv) w ≡ (ok tt, locked)
    pub loads : load_state_for_apply p (state_path getenv) locked ≡ (ok state, loaded)
    pub reaches :
        Reaches p rounds url sha256 swu_path
          (state_path getenv)
          (flagged state)
          loaded
          (pipeline state loaded)
    pub succeeds : (pipeline state loaded).0 ≡ ok tt
    pub ends : v ≡ release_lock (lock_path getenv) (pipeline state loaded).1

  by_outcome :
      (w locked : World) (state : OtaState) (loaded : World)
      → acquire_lock p (lock_path getenv) w ≡ (ok tt, locked)
      → load_state_for_apply p (state_path getenv) locked ≡ (ok state, loaded)
      → exit_code (pipeline state loaded).0 ≡ 0
      → Applies w (release_lock (lock_path getenv) (pipeline state loaded).1)
  by_outcome w locked state loaded a l z = by_reaches (
      execute_apply_pipeline-Reaches p rounds url sha256 swu_path (state_path getenv)
        (flagged state) loaded)
    where
      succeeded : (r : Result (Unit {0})) → exit_code r ≡ 0 → r ≡ ok tt
      succeeded (ok done) k = refl
      succeeded (err why) k = absurd (ground arith)

      by_reaches :
          Reaches p rounds url sha256 swu_path
              (state_path getenv)
              (flagged state)
              loaded
              (pipeline state loaded)
            ⊎ Stops loaded (pipeline state loaded)
          → Applies w (release_lock (lock_path getenv) (pipeline state loaded).1)
      by_reaches (inr (q, (why, e))) = absurd (ground (arith, sym (ap exit_code e) ∙ z))
      by_reaches (inl r) = record {
        locked = locked;
        state = state;
        loaded = loaded;
        locks = a;
        loads = l;
        reaches = r;
        succeeds = succeeded _ z;
        ends = refl;
      }

  by_load :
      (w locked : World) (r : Result OtaState × World)
      → acquire_lock p (lock_path getenv) w ≡ (ok tt, locked)
      → load_state_for_apply p (state_path getenv) locked ≡ r
      → (apply_locked p getenv rounds url sha256 swu_path reboot r).0 ≡ 0
      → Applies w (apply_locked p getenv rounds url sha256 swu_path reboot r).1
  unfolding apply_locked
  by_load w locked (err why, v) a l z = absurd (ground arith)
  by_load w locked (ok state, v) a l z = by_outcome w locked state v a l z

  by_lock :
      (w : World) (r : Result (Unit {0}) × World)
      → acquire_lock p (lock_path getenv) w ≡ r
      → (apply_acquired p getenv rounds url sha256 swu_path reboot r).0 ≡ 0
      → Applies w (apply_acquired p getenv rounds url sha256 swu_path reboot r).1
  unfolding apply_acquired
  by_lock w (err why, v) a z = absurd (ground arith)
  by_lock w (ok done, v) a z = by_load w v (load_state_for_apply p (state_path getenv) v) a refl z

  package-Applies :
      (w : World)
      → (apply_package p getenv rounds url sha256 swu_path reboot w).0 ≡ 0
      → Applies w (apply_package p getenv rounds url sha256 swu_path reboot w).1
  unfolding apply_package
  package-Applies w z = by_lock w (acquire_lock p (lock_path getenv) w) refl z

-- With the three arguments, and with --reboot behind them or not: `ota-agent --apply` gives the exit
-- code 0 only if it has got the lock, has loaded a state, every step of the pipeline up to ota-apply
-- has succeeded, the check of the SHA256 among them, and ota-apply itself has succeeded; the lock
-- has been released at the end.
pub run_apply-Applies :
    (p : Platform) (getenv : Environment) (rounds : World → List Bytes → Rounds)
    (url sha256 swu_path : Bytes) (reboot : Bool) (w : World)
    → (run_apply p getenv rounds (apply_command url sha256 swu_path reboot) w).0 ≡ 0
    → Applies p getenv rounds url sha256 swu_path reboot w
        (run_apply p getenv rounds (apply_command url sha256 swu_path reboot) w).1
unfolding run_apply str_eq
run_apply-Applies p getenv rounds url sha256 swu_path false w z =
    package-Applies p getenv rounds url sha256 swu_path false w z
run_apply-Applies p getenv rounds url sha256 swu_path true w z =
    package-Applies p getenv rounds url sha256 swu_path true w z
