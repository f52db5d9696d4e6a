-- ===== src/Agent/Commands/Checked.antt =====
-- The checks that every MQTT command passes before anything is done for it.
use alientek.Prelude.{
  ℕ, Bool, true, false, Option, none, some, ◌≡◌, refl, sym, ap, ◌∙◌, ◌⊎◌, inl, inr, arith,
  Bool-cases, Bytes, text,
}
use mathlib.Core.Option
use alientek.World.{Errno, World, Platform, Result, ok, err, set_errno}
use alientek.Defaults.{Environment}
use alientek.State.{OtaState, request_seen, blank}
use alientek.Mqtt.Utf8.{Parsed}
use alientek.Mqtt.Command.{OtaMqttCommand, parse_command_json}
use alientek.Exec.{read_current_version}
use alientek.Agent.{load_state_for_apply}
use alientek.Agent.Versions.{Order, less, equal, greater, compare_loop, compare_versions}
use alientek.Agent.Versions.Endless.{compare_versions-none}
use alientek.Agent.Quiet.{applies}
use alientek.Agent.Quiet.Loads.{load_state_for_apply-Quiet, read_current_version-Quiet}
use alientek.Agent.Commands.{
  state_path, report_state, reject_mqtt_command, is_not_above, blocks_by, version_blocks,
  on_version, on_previous, check_command,
}

report_state-Quiet :
    (state : OtaState) (w : World) → applies (report_state state w).1.log ≡ applies w.log
unfolding report_state applies
report_state-Quiet state w = ground arith

reject-Quiet :
    (state : OtaState) (detail : Bytes) (code : ℕ) (w : World)
    → applies (reject_mqtt_command state detail code w).1.log ≡ applies w.log
unfolding reject_mqtt_command
reject-Quiet state detail code w = report_state-Quiet _ w

module _ (p : Platform) (getenv : Environment) where
  -- The version is above that of the system, or the system's cannot be read.
  abbrev pub IsAbove : Bytes → World → World → Type 0
  IsAbove version w1 w2 =
      ((why : Bytes) × (read_current_version p getenv 32 w1 ≡ (err why, w2)))
      ⊎ ((current : Bytes) × (read_current_version p getenv 32 w1 ≡ (ok current, w2))
          × (compare_versions version current ≡ some greater))

  -- The version is not above that of the system.
  abbrev pub IsNotAbove : Bytes → World → World → Type 0
  IsNotAbove version w1 w2 =
      (current : Bytes) × (read_current_version p getenv 32 w1 ≡ (ok current, w2))
      × ((compare_versions version current ≡ some less)
          ⊎ (compare_versions version current ≡ some equal))

  -- No number of rounds ends the comparison of the version with that of the system.
  abbrev pub Hangs : Bytes → World → World → Type 0
  Hangs version w1 w2 =
      (current : Bytes) × (read_current_version p getenv 32 w1 ≡ (ok current, w2))
      × ((fuel : ℕ) → compare_loop fuel version current ≡ none)

  abbrev Judges : Bytes → World → Option Bool × World → Type 0
  Judges version w1 (none, w2) = Hangs version w1 w2
  Judges version w1 (some true, w2) = IsNotAbove version w1 w2 × (applies w2.log ≡ applies w1.log)
  Judges version w1 (some false, w2) = IsAbove version w1 w2 × (applies w2.log ≡ applies w1.log)

  version_blocks-Judges :
      (version : Bytes) (w : World) → Judges version w (version_blocks p getenv version w)
  unfolding version_blocks blocks_by
  version_blocks-Judges version w = by_result (read_current_version p getenv 32 w) refl
    where
      quiet :
          (r : Result Bytes × World)
          → read_current_version p getenv 32 w ≡ r
          → applies r.1.log ≡ applies w.log
      quiet r e =
          sym (ap (λ (x : Result Bytes × World). applies x.1.log) e)
          ∙ read_current_version-Quiet p getenv 32 w

      by_order :
          (current : Bytes) (v : World) (o : Option Order)
          → read_current_version p getenv 32 w ≡ (ok current, v)
          → compare_versions version current ≡ o
          → Judges version w (Option.map is_not_above o, v)
      by_order current v none e q = (current, e, compare_versions-none version current q)
      by_order current v (some less) e q = ((current, e, inl q), quiet _ e)
      by_order current v (some equal) e q = ((current, e, inr q), quiet _ e)
      by_order current v (some greater) e q = (inr (current, e, q), quiet _ e)

      by_result :
          (r : Result Bytes × World)
          → read_current_version p getenv 32 w ≡ r
          → Judges version w (blocks_by p getenv version r)
      by_result (err why, v) e = (inl (why, e), quiet _ e)
      by_result (ok current, v) e = by_order current v (compare_versions version current) e refl

  module _ (json : Bytes) (go : OtaState → OtaMqttCommand → World → Option (ℕ × World))
      (w : World) where
    -- A command that has passed all checks, and what is then done for it.
    pub record Accepts (got : Option (ℕ × World)) : Type 0 where
      pub state : OtaState
      pub command : OtaMqttCommand
      pub previous : OtaState
      pub loaded : World
      pub checked : World
      pub parses : parse_command_json json ≡ Parsed.ok (state, command)
      pub loads : load_state_for_apply p (state_path getenv) w ≡ (ok previous, loaded)
      pub is_new : request_seen previous state.request_id ≡ false
      pub is_above : IsAbove state.version loaded checked
      pub goes : got ≡ go state command checked
      pub started_none : applies checked.log ≡ applies w.log

    -- A command that is parsed and new, but whose version is compared without end.
    pub record Stalls (got : Option (ℕ × World)) : Type 0 where
      pub state : OtaState
      pub command : OtaMqttCommand
      pub previous : OtaState
      pub loaded : World
      pub checked : World
      pub parses : parse_command_json json ≡ Parsed.ok (state, command)
      pub loads : load_state_for_apply p (state_path getenv) w ≡ (ok previous, loaded)
      pub is_new : request_seen previous state.request_id ≡ false
      pub hangs : Hangs state.version loaded checked
      pub gives_none : got ≡ none

    -- Why a command is refused with an exit code.
    pub data Cause : ℕ → Type 0 where
      invalid : {e : Errno} → parse_command_json json ≡ Parsed.bad e → Cause 2
      unloaded :
          {state : OtaState} {command : OtaMqttCommand} {why : Bytes} {w1 : World}
          → parse_command_json json ≡ Parsed.ok (state, command)
          → load_state_for_apply p (state_path getenv) w ≡ (err why, w1)
          → Cause 1
      repeated :
          {state previous : OtaState} {command : OtaMqttCommand} {w1 : World}
          → parse_command_json json ≡ Parsed.ok (state, command)
          → load_state_for_apply p (state_path getenv) w ≡ (ok previous, w1)
          → request_seen previous state.request_id ≡ true
          → Cause 1
      not_above :
          {state previous : OtaState} {command : OtaMqttCommand} {w1 w2 : World}
          → parse_command_json json ≡ Parsed.ok (state, command)
          → load_state_for_apply p (state_path getenv) w ≡ (ok previous, w1)
          → IsNotAbove state.version w1 w2
          → Cause 1

    -- A run that gives the exit code of its cause and has not started ota-apply.
    abbrev pub Refuses : Option (ℕ × World) → Type 0
    Refuses got =
        (code : ℕ) × (v : World) × Cause code
        × (got ≡ some (code, v))
        × (applies v.log ≡ applies w.log)

    abbrev pub Outcome : Option (ℕ × World) → Type 0
    Outcome got = Accepts got ⊎ (Refuses got ⊎ Stalls got)

    refuses :
        (state : OtaState) (detail : Bytes) (code : ℕ) (v : World)
        → Cause code
        → applies v.log ≡ applies w.log
        → Outcome (some (reject_mqtt_command state detail code v))
    unfolding reject_mqtt_command
    refuses state detail code v n e =
        inr (inl (code, _, n, refl, reject-Quiet state detail code v ∙ e))

    by_version :
        (state : OtaState) (command : OtaMqttCommand) (previous : OtaState) (w1 : World)
        → parse_command_json json ≡ Parsed.ok (state, command)
        → load_state_for_apply p (state_path getenv) w ≡ (ok previous, w1)
        → request_seen previous state.request_id ≡ false
        → applies w1.log ≡ applies w.log
        → (r : Option Bool × World) → Judges state.version w1 r
        → Outcome (on_version p getenv state (go state command) r)
    unfolding on_version
    by_version state command previous w1 e l n q (none, w2) j = inr (
        inr (record {
          state = state;
          command = command;
          previous = previous;
          loaded = w1;
          checked = w2;
          parses = e;
          loads = l;
          is_new = n;
          hangs = j;
          gives_none = refl;
        }))
    by_version state command previous w1 e l n q (some true, w2) j =
        refuses state (text "目标版本不高于当前版本，拒绝执行") 1 w2 (not_above e l j.0) (j.1 ∙ q)
    by_version state command previous w1 e l n q (some false, w2) j = inl (record {
      state = state;
      command = command;
      previous = previous;
      loaded = w1;
      checked = w2;
      parses = e;
      loads = l;
      is_new = n;
      is_above = j.0;
      goes = refl;
      started_none = j.1 ∙ q;
    })

    by_load :
        (state : OtaState) (command : OtaMqttCommand)
        → parse_command_json json ≡ Parsed.ok (state, command)
        → (r : Result OtaState × World) → load_state_for_apply p (state_path getenv) w ≡ r
        → applies r.1.log ≡ applies w.log
        → Outcome (on_previous p getenv state (go state command) r)
    unfolding on_previous
    by_load state command e (err why, w1) l q = refuses state why 1 w1 (unloaded e l) q
    by_load state command e (ok previous, w1) l q =
        elim (Bool-cases (request_seen previous state.request_id)) [
          | inl seen ↦ rw seen (refuses state (text "重复 requestId，拒绝执行") 1 w1 (repeated e l seen) q)
          | inr new ↦ rw new (
              by_version state command previous w1 e l new q
                (version_blocks p getenv state.version w1) (version_blocks-Judges state.version w1))
        ]

    -- A command for which something is done has been parsed and validated, is not the request of the
    -- previous update, and has a version above that of the system, unless the latter cannot be read.
    -- Otherwise ota-apply is not started, and the exit code is 2 for a text that is no command, and 1
    -- where the state cannot be loaded, the request is that of the previous update or the version is not
    -- above that of the system; or the command gives no result, is a new one, and no number of rounds
    -- ends the comparison of its version with that of the system.
    pub check_command-Outcome : Outcome (check_command p getenv json go w)
    unfolding check_command
    check_command-Outcome = by_parse (parse_command_json json) refl
      where
        by_parse :
            (m : Parsed (OtaState × OtaMqttCommand))
            → parse_command_json json ≡ m
            → Outcome (check_command p getenv json go w)
        by_parse (Parsed.bad e) q =
            rw (q, check_command)
              (refuses blank (text "MQTT OTA 命令 JSON 无效") 2 (set_errno e w) (invalid q) refl)
        by_parse (Parsed.ok (state, command)) q =
            rw (q, check_command)
              (by_load state command q (load_state_for_apply p (state_path getenv) w) refl
                (load_state_for_apply-Quiet p (state_path getenv) w))
