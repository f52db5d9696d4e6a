-- ===== src/Agent/Startup/Attempts.antt =====
-- How an attempt of the recovery at the start of the system ends.
use mathlib.Core.Path.{subst}
use alientek.Prelude.{
  Bool, true, false, ◌≡◌, inl, inr, refl, sym, Bytes, text, Bool-cases, if◌then◌else◌, not, none,
  arith,
}
use alientek.Prelude.CLaws.{str_eq_iff}
use alientek.World.{World, Platform, Errno, enoent, enodev, is_enoent, Result, ok, err, Io, ◌>>=◌}
use alientek.World.Laws.{next, bind-next}
use alientek.Defaults.{Environment}
use alientek.State.{OtaState}
use alientek.State.Store.{save, load}
use alientek.State.Environment.{load_from_environment, save_to_environment}
use alientek.Exec.Recovery.{recover_pending_state}
use alientek.Agent.Startup.Ends.{
  IsOpen, IsOver, Found, closed_file, open_file, only_environment, Ends, unreadable,
  unreadable_environment, no_record, stale, closed, undecided, no_slots, unreported, unsaved,
  recovered,
}
use alientek.Agent.Startup.{
  is_enodev, is_pending_recovery, is_final_recovery_phase, load_state_for_recovery, loaded_by,
  loaded_from, stored, clear_by, clear_stale_pending, cleared, recover_state, judged, attempt_of,
  report_and_save_recovery, recover_loaded, recover_pending_at_startup,
}

abbrev Tells : Bool → Type 0 → Type 0
Tells true A = A
Tells false A = A → ⊥

is_pending_recovery-IsOpen : (s : OtaState) → Tells (is_pending_recovery s) (IsOpen s)
unfolding is_pending_recovery
is_pending_recovery-IsOpen s =
    ground (arith, str_eq_iff s.phase (text "upgrading"), str_eq_iff s.phase (text "installing"))

is_final_recovery_phase-IsOver : (s : OtaState) → Tells (is_final_recovery_phase s.phase) (IsOver s)
unfolding is_final_recovery_phase
is_final_recovery_phase-IsOver s =
    ground (arith, str_eq_iff s.phase (text "committed"), str_eq_iff s.phase (text "failed"))

is_enoent-Tells : (e : Errno) → Tells (is_enoent e) (e ≡ enoent)
unfolding is_enoent
is_enoent-Tells e = ground arith

is_enodev-Tells : (e : Errno) → Tells (is_enodev e) (e ≡ enodev)
unfolding is_enodev
is_enodev-Tells e = ground arith

module _ (p : Platform) (getenv : Environment) (report_final : OtaState → Io (Unit {0}))
    (path : Bytes) where
  module _ (w : World) where
    by_stored :
        {s env : OtaState} {v u : World} (r : Result (Unit {0}) × World)
        → load p path w ≡ (ok s, v)
        → IsOpen s
        → load_from_environment p v ≡ (true, env, u)
        → IsOver env
        → save p path env u ≡ r
        → Ends p getenv report_final path w
            (cleared p getenv report_final path s (stored p getenv report_final r))
    unfolding cleared stored
    by_stored (ok _, x) l o e k q = stale l o e k q
    by_stored (err why, x) l o e k q = stale l o e k q

    by_store :
        {s final : OtaState} {v u x y : World}
        → Found p getenv report_final path w s v
        → IsOpen s
        → recover_pending_state p getenv s v ≡ (ok final, u)
        → report_final final u ≡ (ok tt, x)
        → save p path final x ≡ (ok tt, y)
        → (r : Result (Unit {0}) × World) → save_to_environment p final y ≡ r
        → Ends p getenv report_final path w (attempt_of p getenv report_final r)
    unfolding attempt_of
    by_store f o e e1 e2 (ok _, z) e3 = recovered f o e e1 e2 e3
    by_store f o e e1 e2 (err why, z) e3 = recovered f o e e1 e2 e3

    by_save :
        {s final : OtaState} {v u x : World}
        → Found p getenv report_final path w s v
        → IsOpen s
        → recover_pending_state p getenv s v ≡ (ok final, u)
        → report_final final u ≡ (ok tt, x)
        → (r : Result (Unit {0}) × World) → save p path final x ≡ r
        → Ends p getenv report_final path w
            (attempt_of p getenv report_final (next (λ _. save_to_environment p final) r))
    unfolding attempt_of
    by_save f o e e1 (err why, y) e2 = unsaved f o e e1 e2
    by_save {final = final} f o e e1 (ok _, y) e2 =
        by_store f o e e1 e2 (save_to_environment p final y) refl

    by_recovery :
        {s : OtaState} {v : World} (r : Result OtaState × World)
        → Found p getenv report_final path w s v
        → IsOpen s
        → recover_pending_state p getenv s v ≡ r
        → Ends p getenv report_final path w (judged p getenv report_final path r)
    unfolding judged report_and_save_recovery attempt_of
    by_recovery (err why, u) f o e = elim (Bool-cases (is_enodev u.errno)) [
      | inl t ↦
          rw t
            (no_slots f o e (subst (λ b. Tells b (u.errno ≡ enodev)) t (is_enodev-Tells u.errno)))
      | inr t ↦
          rw t
            (undecided f o e (subst (λ b. Tells b (u.errno ≡ enodev)) t (is_enodev-Tells u.errno)))
    ]
    by_recovery (ok final, u) f o e =
        subst (λ x. Ends p getenv report_final path w (attempt_of p getenv report_final x))
          (sym (bind-next (report_final final) _ u)) (by_report (report_final final u) refl)
      where
        by_report :
            (r : Result (Unit {0}) × World)
            → report_final final u ≡ r
            → Ends p getenv report_final path w (
                attempt_of p getenv report_final
                  (next (λ _. (save p path final >>= λ _. save_to_environment p final)) r))
        by_report (err why, x) e1 = unreported f o e e1
        by_report (ok _, x) e1 =
            subst (λ y. Ends p getenv report_final path w (attempt_of p getenv report_final y))
              (sym (bind-next (save p path final) _ x))
              (by_save f o e e1 (save p path final x) refl)

    on_record :
        {s : OtaState} {v : World}
        → Found p getenv report_final path w s v
        → Ends p getenv report_final path w (recover_state p getenv report_final path s v)
    unfolding recover_state
    on_record {s} {v} f = elim (Bool-cases (is_pending_recovery s)) [
      | inl t ↦ rw t (
          by_recovery (recover_pending_state p getenv s v) f
            (subst (λ b. Tells b (IsOpen s)) t (is_pending_recovery-IsOpen s)) refl)
      | inr t ↦ rw t (closed f (subst (λ b. Tells b (IsOpen s)) t (is_pending_recovery-IsOpen s)))
    ]

    by_stale :
        {s : OtaState} {v : World} (r : Bool × OtaState × World)
        → load p path w ≡ (ok s, v)
        → IsOpen s
        → load_from_environment p v ≡ r
        → Ends p getenv report_final path w
            (cleared p getenv report_final path s (clear_by p getenv report_final path r))
    unfolding cleared clear_by
    by_stale (false, env, u) l o e = on_record (open_file l o e (λ t. cc))
    by_stale (true, env, u) l o e = elim (Bool-cases (is_final_recovery_phase env.phase)) [
      | inl t ↦ rw t (
          by_stored (save p path env u) l o e
            (subst (λ b. Tells b (IsOver env)) t (is_final_recovery_phase-IsOver env)) refl)
      | inr t ↦ rw t (
          on_record (
            open_file l o e
              (λ h. subst (λ b. Tells b (IsOver env)) t (is_final_recovery_phase-IsOver env))))
    ]

    on_file :
        {s : OtaState} {v : World}
        → load p path w ≡ (ok s, v)
        → Ends p getenv report_final path w (
            cleared p getenv report_final path s
              (clear_stale_pending p getenv report_final path s v))
    unfolding cleared clear_stale_pending
    on_file {s} {v} l = elim (Bool-cases (is_pending_recovery s)) [
      | inl t ↦ rw t (
          by_stale (load_from_environment p v) l
            (subst (λ b. Tells b (IsOpen s)) t (is_pending_recovery-IsOpen s)) refl)
      | inr t ↦
          subst
            (λ b. Ends p getenv report_final path w (
              cleared p getenv report_final path s (
                if not b
                then (none, v)
                else clear_by p getenv report_final path (load_from_environment p v))))
            (sym t)
            (on_record
              (closed_file l (subst (λ b. Tells b (IsOpen s)) t (is_pending_recovery-IsOpen s))))
    ]

    by_environment :
        {why : Bytes} {v : World} (r : Bool × OtaState × World)
        → load p path w ≡ (err why, v)
        → v.errno ≡ enoent
        → load_from_environment p v ≡ r
        → Ends p getenv report_final path w
            (recover_loaded p getenv report_final path (loaded_from p getenv report_final r))
    unfolding recover_loaded loaded_from
    by_environment (true, s, u) l n e = on_record (only_environment l n e)
    by_environment (false, s, u) l n e = elim (Bool-cases (is_enoent u.errno)) [
      | inl t ↦
          rw t
            (no_record l n e (subst (λ b. Tells b (u.errno ≡ enoent)) t (is_enoent-Tells u.errno)))
      | inr t ↦ rw t (
          unreadable_environment l n e
            (subst (λ b. Tells b (u.errno ≡ enoent)) t (is_enoent-Tells u.errno)))
    ]

    by_load :
        (r : Result OtaState × World)
        → load p path w ≡ r
        → Ends p getenv report_final path w
            (recover_loaded p getenv report_final path (loaded_by p getenv report_final r))
    unfolding recover_loaded loaded_by
    by_load (ok s, v) l = on_file l
    by_load (err why, v) l = elim (Bool-cases (is_enoent v.errno)) [
      | inl t ↦ rw t (
          by_environment (load_from_environment p v) l
            (subst (λ b. Tells b (v.errno ≡ enoent)) t (is_enoent-Tells v.errno)) refl)
      | inr t ↦
          rw t (unreadable l (subst (λ b. Tells b (v.errno ≡ enoent)) t (is_enoent-Tells v.errno)))
    ]

    pub attempt-Ends :
        Ends p getenv report_final path w (recover_pending_at_startup p getenv report_final path w)
    unfolding recover_pending_at_startup load_state_for_recovery
    attempt-Ends = by_load (load p path w) refl
