-- ===== src/Agent/Startup/Settled.antt =====
-- completeStartupRecovery: how many attempts it makes, and how the last one ends.
use alientek.Prelude.{ℕ, zero, suc, ◌+◌, ◌≤◌, ◌≡◌, ◌⊎◌, inl, inr, refl, Bytes, arith}
use alientek.World.{World, Platform, slept, put_log, Io}
use alientek.Defaults.{Environment}
use alientek.State.{OtaState}
use alientek.Agent.Startup.{Attempt, done, retry, retry_loop, complete_startup_recovery}
use alientek.Agent.Startup.Ends.{Ends}
use alientek.Agent.Startup.Attempts.{attempt-Ends}

module _ (p : Platform) (getenv : Environment) (report_final : OtaState → Io (Unit {0}))
    (path : Bytes) where
  -- The world in which an attempt begins, after a number of attempts that have ended in a retry, with a
  -- second of sleep behind each.
  pub data Retries (w : World) : ℕ → World → Type 0 where
    first : Retries w 0 w
    again :
        {n : ℕ} {u v : World}
        → Retries w n u
        → Ends p getenv report_final path u (retry, v)
        → Retries w (suc n) (put_log slept v)

  -- A recovery that ends in the world `v`.
  pub record Settles (w v : World) : Type 0 where
    pub retries : ℕ
    pub few : retries ≤ 30
    pub begin : World
    pub reached : Retries w retries begin
    pub attempt : Attempt
    pub ends : Ends p getenv report_final path begin (attempt, v)
    pub last : (attempt ≡ done) ⊎ ((attempt ≡ retry) × (retries ≡ 30))

  retry_loop-Settles :
      (w : World) (left n : ℕ) {u : World} (r : Attempt × World)
      → n + left ≡ 30
      → Retries w n u
      → Ends p getenv report_final path u r
      → Settles w (retry_loop p getenv report_final left path r).1
  unfolding retry_loop
  retry_loop-Settles w left n (done, v) e h k = record {
    retries = n;
    few = omega arith;
    begin = _;
    reached = h;
    attempt = done;
    ends = k;
    last = inl refl;
  }
  retry_loop-Settles w zero n (retry, v) e h k = record {
    retries = n;
    few = omega arith;
    begin = _;
    reached = h;
    attempt = retry;
    ends = k;
    last = inr (refl, omega arith);
  }
  retry_loop-Settles w (suc left) n (retry, v) e h k =
      retry_loop-Settles w left (suc n) _ (omega arith) (again h k)
        (attempt-Ends p getenv report_final path (put_log slept v))

  -- Whatever the state file, the U-Boot environment and the calls give, the recovery at the start
  -- makes one attempt and at most 30 more, each a second after one that asks for it, and ends with
  -- the first attempt that is done or with the 31st. An attempt is done where no state is recorded,
  -- the state recorded has no update under way, the environment has the outcome of the update in
  -- the file and it is saved to the file, the machine has no slots, or the outcome is found,
  -- reported and saved to the file and the environment; it asks for another where the file or the
  -- environment cannot be read, the outcome cannot be found, or the report or a save fails.
  pub complete_startup_recovery-Settles :
      (w : World) → Settles w (complete_startup_recovery p getenv report_final path w)
  unfolding complete_startup_recovery
  complete_startup_recovery-Settles w =
      retry_loop-Settles w 30 0 _ refl first (attempt-Ends p getenv report_final path w)
