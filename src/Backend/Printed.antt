-- ===== src/Backend/Printed.antt =====
-- What comes of the reports of ota-mqtt.cpp on either backend.
use alientek.Prelude.{
  ◌<◌, Bool, true, false, Option, none, some, [], ◌∷◌, ◌++◌, ◌≡◌, refl, ap, ◌∙◌, arith, leb,
  if◌then◌else◌, Bytes, text, length,
}
use alientek.World.{World, eio, enosys, enotconn, printed, ok, err, put_log, set_errno}
use alientek.Defaults.{Environment}
use alientek.State.{OtaState, set_result}
use alientek.Mqtt.Utf8.{ok}
use alientek.Mqtt.Payload.{validate_status_utf8, build_status_payload}
use alientek.Mqtt.Payload.Built.{status_json, build_status_payload_lem}
use alientek.Backend.{stub, stub_publish, is_blank}
use alientek.Backend.Paho.{Paho, paho_backend, publish_status}
use alientek.Backend.Report.{
  is_enosys, status_topic, put_payload, published_by, publish_payload, publish_final_state,
  report_by, report_result, report_committed_state,
}

status_topic_named : (getenv : Environment) → is_blank (status_topic getenv) ≡ false
unfolding status_topic is_blank
status_topic_named getenv = by_value (getenv (text "OTA_MQTT_STATUS_TOPIC"))
  where
    by_value :
        (o : Option Bytes)
        → is_blank (elim o [
          | none ↦ text "device/ota/status"
          | some [] ↦ text "device/ota/status"
          | some (c ∷ cs) ↦ c ∷ cs
        ])
          ≡ false
    by_value none = refl
    by_value (some []) = refl
    by_value (some (c ∷ cs)) = refl

builds :
    (s : OtaState)
    → validate_status_utf8 s ≡ true
    → length (status_json s) < 512
    → build_status_payload 512 s ≡ ok (status_json s)
builds s v l =
    let e : leb 512 (length (status_json s)) ≡ false = ground arith in
    build_status_payload_lem 512 s ∙ simp (v, e) refl

module _ (getenv : Environment) (puts_error : World → Bool) (s : OtaState) (w : World)
    (valid : validate_status_utf8 s ≡ true) (fits : length (status_json s) < 512) where
  publishes_stub :
      publish_final_state stub getenv puts_error s w
      ≡ put_payload stub getenv puts_error (status_json s) (set_errno enosys w)
  unfolding publish_final_state publish_payload published_by stub stub_publish is_blank is_enosys
  publishes_stub = simp (builds s valid fits, status_topic_named getenv) refl

  publishes_paho :
      (paho : Paho)
      → w.mqtt.connected ≡ false
      → publish_final_state (paho_backend paho) getenv puts_error s w
        ≡ (err [], set_errno enotconn w)
  unfolding publish_final_state publish_payload published_by paho_backend publish_status is_blank
      is_enosys
  publishes_paho paho down = simp (builds s valid fits, status_topic_named getenv, down) refl

-- The state that otaReportCommittedState reports.
abbrev pub committed_detail : Bytes → Bytes
committed_detail detail = if is_blank detail then text "升级已提交" else detail

abbrev pub committed_state : OtaState → OtaState
committed_state s = record s {
  phase = text "committed";
  result = text "success";
  detail = committed_detail s.detail;
}

committed_detail_fits :
    (detail : Bytes) → length detail < 256 → length (committed_detail detail) < 256
unfolding is_blank
committed_detail_fits [] h = omega arith
committed_detail_fits (c ∷ d) h = h

set_result_committed :
    (s : OtaState)
    → length s.detail < 256
    → set_result s (text "committed") (text "success") (committed_detail s.detail)
      ≡ some (committed_state s)
unfolding set_result
set_result_committed s h =
    let fits = committed_detail_fits s.detail h in
    let e : leb 256 (length (committed_detail s.detail)) ≡ false = ground arith in simp e refl

-- Where the committed state is accepted as UTF-8 and its JSON with a terminator fits 512 bytes,
-- otaReportCommittedState succeeds with the stub exactly by printing that JSON as a line, and fails
-- with EIO if puts does; with the Paho client and no connection it fails with ENOTCONN and prints
-- and sends nothing.
pub report_committed_state_lem :
    (getenv : Environment) (puts_error : World → Bool) (s : OtaState) (w : World)
    → length s.detail < 256
    → validate_status_utf8 (committed_state s) ≡ true
    → length (status_json (committed_state s)) < 512
    → (report_committed_state stub getenv puts_error s w ≡ (
        if puts_error (set_errno enosys w) then (err [], set_errno eio w) else (
          ok tt,
          put_log (printed (status_json (committed_state s) ++ text "\n")) (set_errno enosys w),
        )))
      × ((paho : Paho)
          → w.mqtt.connected ≡ false
          → report_committed_state (paho_backend paho) getenv puts_error s w
            ≡ (err [], set_errno enotconn w))
unfolding report_committed_state report_result report_by put_payload
report_committed_state_lem getenv puts_error s w h v l =
    let e = set_result_committed s h in
    (
      ap (λ o. report_by stub getenv puts_error o w) e
          ∙ publishes_stub getenv puts_error (committed_state s) w v l,
      λ paho down.
          ap (λ o. report_by (paho_backend paho) getenv puts_error o w) e
          ∙ publishes_paho getenv puts_error (committed_state s) w v l paho down,
    )
