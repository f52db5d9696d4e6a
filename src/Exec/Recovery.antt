-- ===== src/Exec/Recovery.antt =====
-- otaRecoverPendingState of ota-exec.cpp: what an agent that starts with a pending update finds.
use alientek.Prelude.{
  Bool, true, ◌&&◌, ◌||◌, not, none, some, [], ◌≡◌, ◌≢◌, ◌∙◌, ◌⊎◌, arith, if◌then◌else◌, Bytes,
  text, before, str_eq,
}
use alientek.Prelude.CLaws.{str_eq_iff}
use alientek.World.{
  World, Platform, einval, enodata, eagain, eoverflow, Result, ok, err, Io, ◌>>=◌, pure, fail,
  set_errno,
}
use alientek.World.Laws.{bind_ok}
use alientek.Defaults.{Environment}
use alientek.State.{OtaState, set_result}
use alientek.State.Environment.{is_line_end}
use alientek.Exec.{read_environment_value}
use alientek.Exec.Cmdline.{read_current_slot}

-- One of the two slots.
unfoldable pub is_slot : Bytes → Bool
unfolding str_eq
is_slot s = str_eq s (text "A") || str_eq s (text "B")

unfoldable pub is_flag : Bytes → Bool
unfolding str_eq
is_flag s = str_eq s (text "0") || str_eq s (text "1")

-- normalizeEnvironmentValue: the value without its line end
unfoldable pub normalize_environment_value : Bytes → Bytes → Io Bytes
unfolding before str_eq is_slot is_flag
normalize_environment_value name raw w =
    let value = before is_line_end raw in
    let flag = str_eq name (text "upgrade_available") in
    if str_eq value []
    then fail enodata [] w
    else if (flag && not (is_flag value)) || (not flag && not (is_slot value))
    then fail einval [] w
    else (ok value, w)

module _ (p : Platform) where
  unfoldable pub read_normal : Bytes → Io Bytes
  read_normal name = read_environment_value p 128 name 8 >>= normalize_environment_value name

  -- readRecoveryEnvironment: active_slot, last_good_slot and upgrade_available
  unfoldable pub read_recovery_environment : Io (Bytes × Bytes × Bytes)
  read_recovery_environment = do
    active_slot ← read_normal (text "active_slot")
    last_good_slot ← read_normal (text "last_good_slot")
    upgrade_available ← read_normal (text "upgrade_available")
    pure (active_slot, last_good_slot, upgrade_available)

-- otaStateSetResult as a call that may fail
abbrev pub store_result : OtaState → Bytes → Bytes → Bytes → Io OtaState
store_result state phase result detail w = elim (set_result state phase result detail) [
  | none ↦ fail eoverflow [] w
  | some state' ↦ (ok state', w)
]

-- Lines 353 to 366.
unfoldable pub judge_update : OtaState → Bytes → Bytes × Bytes × Bytes → Io OtaState
unfolding str_eq set_result
judge_update state current (active, last_good, available) w =
    let target = state.target_slot in
    if str_eq current target
      && (str_eq active target && (str_eq last_good target && str_eq available (text "0")))
    then store_result state (text "committed") (text "success") (text "升级已提交") w
    else if str_eq current target && str_eq active target
    then fail eagain [] w
    else store_result state (text "failed") (text "error") (text "升级后未运行在目标槽位") w

module _ (p : Platform) (getenv : Environment) where
  -- Lines 348 to 366.
  unfoldable pub judge_machine : OtaState → Io OtaState
  judge_machine state w =
      (read_current_slot p getenv >>= λ current.
      (read_recovery_environment p >>= judge_update state current))
        w

  -- otaRecoverPendingState: the state with the outcome, or a failure, which leaves it alone
  unfoldable pub recover_pending_state : OtaState → Io OtaState
  unfolding is_slot
  recover_pending_state state w =
      if not (is_slot state.target_slot) then fail einval [] w else judge_machine state w

-- The verdict on an update, from the slot that runs and the three variables.
abbrev pub Committed : OtaState → OtaState
Committed state = record state {
  phase = text "committed";
  result = text "success";
  detail = text "升级已提交";
}

abbrev pub Failed : OtaState → OtaState
Failed state = record state {
  phase = text "failed";
  result = text "error";
  detail = text "升级后未运行在目标槽位";
}

-- The slot and the variables that the machine gives, and the world after the reads.
abbrev pub Reads : Platform → Environment → World → Bytes → Bytes × Bytes × Bytes → World → Type 0
Reads p getenv w current values w2 =
    (w1 : World) × (read_current_slot p getenv w ≡ (ok current, w1))
    × (read_recovery_environment p w1 ≡ (ok values, w2))

-- The three verdicts, and what of the machine leads to each.
abbrev pub IsVerdict :
    OtaState → Bytes → Bytes × Bytes × Bytes → Result OtaState × World → World → Type 0
IsVerdict state current (active, last_good, available) got w2 =
    let target = state.target_slot in
    ((current ≡ target)
      × (active ≡ target)
      × (last_good ≡ target)
      × (available ≡ text "0")
      × (got ≡ (ok (Committed state), w2)))
    ⊎ (((current ≡ target)
          × (active ≡ target)
          × ((last_good ≢ target) ⊎ (available ≢ text "0"))
          × (got ≡ (err [], set_errno eagain w2)))
        ⊎ (((current ≢ target) ⊎ (active ≢ target)) × (got ≡ (ok (Failed state), w2))))

judge_update-IsVerdict :
    (state : OtaState) (current : Bytes) (values : Bytes × Bytes × Bytes) (w : World)
    → IsVerdict state current values (judge_update state current values w) w
unfolding judge_update set_result
judge_update-IsVerdict state current (active, last_good, available) w = ground (
  arith,
  str_eq_iff current state.target_slot,
  str_eq_iff active state.target_slot,
  str_eq_iff last_good state.target_slot,
  str_eq_iff available (text "0"),
)

judge_machine_lem :
    (p : Platform) (getenv : Environment) (state : OtaState) (w : World)
    → {current : Bytes} {values : Bytes × Bytes × Bytes} {w2 : World}
    → Reads p getenv w current values w2
    → judge_machine p getenv state w ≡ judge_update state current values w2
unfolding judge_machine
judge_machine_lem p getenv state w {current} (w1, r, v) =
    bind_ok (read_current_slot p getenv)
      (λ current. (read_recovery_environment p >>= judge_update state current)) w r
    ∙ bind_ok (read_recovery_environment p) (judge_update state current) w1 v

-- With a target slot A or B and all four reads good, the start of an agent settles a pending update
-- so: it is committed exactly if the machine runs on the target slot and active_slot, last_good_slot
-- and upgrade_available=0 all confirm it; it has failed exactly if the running slot or active_slot
-- is not the target; between the two the call fails with EAGAIN and writes no field. The fields of
-- the request, the version and the slot are kept in every case.
pub recover_pending_state-IsVerdict :
    (p : Platform) (getenv : Environment) (state : OtaState) (w : World)
    → is_slot state.target_slot ≡ true
    → {current : Bytes} {values : Bytes × Bytes × Bytes} {w2 : World}
    → Reads p getenv w current values w2
    → IsVerdict state current values (recover_pending_state p getenv state w) w2
unfolding recover_pending_state
recover_pending_state-IsVerdict p getenv state w slot {current} {values} {w2} reads =
    rw slot (
      rw (judge_machine_lem p getenv state w reads)
        (judge_update-IsVerdict state current values w2))
