-- ===== src/Exec/Checks.antt =====
-- The two checks before an update: otaPrepareTargetSlot and otaRunUpgrade of ota-exec.cpp.
use alientek.Prelude.{
  ℕ, not, ◌&&◌, [], ◌∷◌, ◌++◌, ◌≡◌, ◌≢◌, ◌∙◌, ap, ◌⊎◌, inl, inr, refl, arith, Bool-cases, Bytes,
  fit, text, before, str_eq,
}
use alientek.Prelude.CLaws.{str_eq_iff}
use alientek.World.{World, Platform, einval, ebusy, Result, ok, err, set_errno}
use alientek.World.Laws.{bind_ok, bind_err}
use alientek.State.{OtaState}
use alientek.State.Environment.{is_line_end}
use alientek.Exec.{
  read_environment_value, set_target_slot, prepare_target_slot, judge_pending,
  check_upgrade_allowed, run_command, apply_args, run_upgrade,
}

module _ (p : Platform) (error_size : ℕ) where
  -- What becomes of the active slot: the other slot, or a refusal.
  abbrev pub SetsTarget : OtaState → Bytes → Result OtaState × World → World → Type 0
  SetsTarget state active got w =
      ((active ≡ text "A") × (got ≡ (ok (record state { target_slot = text "B" }), w)))
      ⊎ (((active ≡ text "B") × (got ≡ (ok (record state { target_slot = text "A" }), w)))
          ⊎ ((active ≢ text "A")
              × (active ≢ text "B")
              × (got ≡ (
                err (fit error_size (text "active_slot 值无效: " ++ active)),
                set_errno einval w,
              ))))

  set_target_slot-SetsTarget :
      (state : OtaState) (value : Bytes) (w : World)
      → SetsTarget state (before is_line_end value) (set_target_slot p error_size state value w) w
  unfolding set_target_slot
  set_target_slot-SetsTarget state value w = ground (
    arith,
    str_eq_iff (before is_line_end value) (text "A"),
    str_eq_iff (before is_line_end value) (text "B"),
  )

  -- Where fw_printenv gives a value for active_slot, the target slot is B for A and A for B (up to
  -- the line end), and no other field changes; any other value is refused with EINVAL.
  pub prepare_target_slot-SetsTarget :
      (state : OtaState) (w : World) {value : Bytes} {w1 : World}
      → read_environment_value p error_size (text "active_slot") 8 w ≡ (ok value, w1)
      → SetsTarget state (before is_line_end value) (prepare_target_slot p error_size state w) w1
  unfolding prepare_target_slot
  prepare_target_slot-SetsTarget state w {value} {w1} h =
      rw
        (bind_ok (read_environment_value p error_size (text "active_slot") 8)
          (set_target_slot p error_size state) w h)
        (set_target_slot-SetsTarget state value w1)

  after_check :
      (path : Bytes) (w : World) {w1 : World}
      → path ≢ []
      → check_upgrade_allowed p error_size w ≡ (ok tt, w1)
      → run_upgrade p error_size path w
        ≡ run_command p error_size (apply_args path) (text "ota-apply") w1
  unfolding run_upgrade
  after_check [] w ne h = absurd (ne refl)
  after_check (c ∷ path) w ne h =
      bind_ok (check_upgrade_allowed p error_size)
        (λ _. run_command p error_size (apply_args (c ∷ path)) (text "ota-apply")) w h

  refused :
      (path : Bytes) (w : World) {why : Bytes} {w1 : World}
      → path ≢ []
      → check_upgrade_allowed p error_size w ≡ (err why, w1)
      → run_upgrade p error_size path w ≡ (err why, w1)
  unfolding run_upgrade
  refused [] w ne h = absurd (ne refl)
  refused (c ∷ path) w ne h =
      bind_err (check_upgrade_allowed p error_size)
        (λ _. run_command p error_size (apply_args (c ∷ path)) (text "ota-apply")) w h

  -- The verdict on the value of ota_pending.
  abbrev pub Judges : Bytes → Result (Unit {0}) × World → World → Type 0
  Judges value got w1 =
      (((value ≡ text "0") ⊎ (value ≡ [])) × (got ≡ (ok tt, w1)))
      ⊎ (((value ≡ text "1") × ((why : Bytes) × (got ≡ (err why, set_errno ebusy w1))))
          ⊎ ((value ≢ text "0")
              × (value ≢ [])
              × (value ≢ text "1")
              × ((why : Bytes) × (got ≡ (err why, set_errno einval w1)))))

  judge_pending-Judges :
      (pending : Bytes) (w : World)
      → Judges (before is_line_end pending) (judge_pending p error_size pending w) w
  unfolding judge_pending
  judge_pending-Judges pending w =
      let value = before is_line_end pending in
      elim (Bool-cases (str_eq value (text "1"))) [
        | inl one ↦ inr (
            inl (
              (str_eq_iff value (text "1")).0 one,
              (fit error_size (text "ota_pending=1，上次升级尚未提交，拒绝再次升级"), rw one),
            ))
        | inr more ↦ elim (Bool-cases (not (str_eq value (text "0")) && not (str_eq value []))) [
          | inl bad ↦ inr (
              inr (
                ground (arith, str_eq_iff value (text "0")),
                ground (arith, str_eq_iff value []),
                ground (arith, str_eq_iff value (text "1")),
                (fit error_size (text "ota_pending 值无效: " ++ value), rw more (rw bad)),
              ))
          | inr good ↦
              inl (
                ground (arith, str_eq_iff value (text "0"), str_eq_iff value []),
                rw more (rw good),
              )
        ]
      ]

  check-judge :
      (w : World) {pending : Bytes} {w1 : World}
      → read_environment_value p error_size (text "ota_pending") 16 w ≡ (ok pending, w1)
      → check_upgrade_allowed p error_size w ≡ judge_pending p error_size pending w1
  unfolding check_upgrade_allowed
  check-judge w {pending} h =
      rw (h, check_upgrade_allowed)
        (ap (λ (r : Result Bytes × World). judge_pending p error_size pending r.1) h)

  -- The attempt to install a package: the run of ota-apply on it, or the refusal.
  abbrev pub Installs : Bytes → Bytes → Result (Unit {0}) × World → World → Type 0
  Installs path value got w1 =
      (((value ≡ text "0") ⊎ (value ≡ []))
        × (got ≡ run_command p error_size (apply_args path) (text "ota-apply") w1))
      ⊎ (((value ≡ text "1") × ((why : Bytes) × (got ≡ (err why, set_errno ebusy w1))))
          ⊎ ((value ≢ text "0")
              × (value ≢ [])
              × (value ≢ text "1")
              × ((why : Bytes) × (got ≡ (err why, set_errno einval w1)))))

  -- Where the path of the package is not empty and ota_pending can be read, otaRunUpgrade runs ota-apply
  -- on the package exactly if the value, up to its line end, is 0 or empty; with 1 it fails with EBUSY
  -- and with any other value with EINVAL, and starts no further program.
  pub run_upgrade-Installs :
      (path : Bytes) (w : World) {pending : Bytes} {w1 : World}
      → path ≢ []
      → read_environment_value p error_size (text "ota_pending") 16 w ≡ (ok pending, w1)
      → Installs path (before is_line_end pending) (run_upgrade p error_size path w) w1
  run_upgrade-Installs path w {pending} {w1} ne h =
      let e = check-judge w h in
      elim (judge_pending-Judges pending w1) [
        | inl (good, j) ↦ inl (good, after_check path w ne (e ∙ j))
        | inr (inl (one, (why, j))) ↦ inr (inl (one, (why, refused path w ne (e ∙ j))))
        | inr (inr (a, b, c, (why, j))) ↦ inr (inr (a, b, c, (why, refused path w ne (e ∙ j))))
      ]
