-- ===== src/Backend/Report.antt =====
-- ota-mqtt.cpp, lines 906 to 963: the report of the outcome of an update.
use alientek.Prelude.{
  Bool, true, false, not, [], ◌++◌, Option, none, some, if◌then◌else◌, Bytes, text,
}
use alientek.World.{
  World, Errno, einval, eio, enosys, eoverflow, printed, Result, ok, err, Io, pure, fail, put_log,
}
use alientek.Defaults.{Environment, read_path_setting}
use alientek.State.{OtaState, set_result}
use alientek.Mqtt.Utf8.{Parsed, ok, bad}
use alientek.Mqtt.Payload.{build_status_payload}
use alientek.Backend.{Backend, is_blank}

unfoldable pub is_enosys : Errno → Bool
is_enosys enosys = true
is_enosys _ = false

-- statusTopic
unfoldable pub status_topic : Environment → Bytes
unfolding read_path_setting
status_topic getenv =
    read_path_setting getenv (text "OTA_MQTT_STATUS_TOPIC") (text "device/ota/status")

-- `puts_error` tells whether puts gives EOF.
module _ (backend : Backend) (getenv : Environment) (puts_error : World → Bool) where
  -- Lines 927 to 931.
  unfoldable pub put_payload : Bytes → Io (Unit {0})
  put_payload payload w =
      if puts_error w then fail eio [] w else pure tt (put_log (printed (payload ++ text "\n")) w)

  -- Lines 920 to 931, on what otaMqttPublishStatus gives.
  unfoldable pub published_by : Bytes → Result (Unit {0}) × World → Result (Unit {0}) × World
  published_by payload (ok u, w) = (ok tt, w)
  published_by payload (err message, w) =
      if not (is_enosys w.errno) then (err [], w) else put_payload payload w

  -- Lines 917 to 931, with the payload.
  unfoldable pub publish_payload : Parsed Bytes → Io (Unit {0})
  publish_payload (bad e) w = fail e [] w
  publish_payload (ok payload) w =
      published_by payload (backend.publish_status (status_topic getenv) payload w)

  -- publishFinalState
  unfoldable pub publish_final_state : OtaState → Io (Unit {0})
  publish_final_state state = publish_payload (build_status_payload 512 state)

  -- The end of both reports, on what otaStateSetResult makes of the copy of the state.
  unfoldable pub report_by : Option OtaState → Io (Unit {0})
  report_by none = fail eoverflow []
  report_by (some report_state) = publish_final_state report_state

  -- Lines 941 to 948 and 958 to 962.
  unfoldable pub report_result : OtaState → Bytes → Bytes → Bytes → Io (Unit {0})
  report_result state phase result detail = report_by (set_result state phase result detail)

  -- otaReportCommittedState
  unfoldable pub report_committed_state : OtaState → Io (Unit {0})
  report_committed_state state =
      report_result state (text "committed") (text "success")
        (if is_blank state.detail then text "升级已提交" else state.detail)

  -- otaReportFailureState
  unfoldable pub report_failure_state : OtaState → Bytes → Io (Unit {0})
  report_failure_state state reason =
      if is_blank reason
      then fail einval []
      else report_result state (text "failed") (text "error") reason
