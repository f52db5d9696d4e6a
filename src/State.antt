-- ===== src/State.antt =====
-- ota-state.hpp: the record of an update, and the operations of ota-state.cpp that touch no file.
-- A char array holds the C string before its terminator, so a valid one is shorter than the array.
pub mod Int
pub mod Json
pub mod RoundTrip
pub mod SetResult
pub mod Bounds
pub mod Store
pub mod Environment
pub mod Saved
use alientek.Prelude.{
  ℕ, ◌<◌, ◌≢◌, Bool, true, false, ◌||◌, Option, none, some, [], ◌∷◌, leb, if◌then◌else◌, length,
  All, Bytes, str_eq,
}
use alientek.State.Int.{ℤ, pos, IsInt}

-- OtaState
pub record OtaState : Type 0 where
  pub request_id : Bytes
  pub version : Bytes
  pub target_slot : Bytes
  pub phase : Bytes
  pub result : Bytes
  pub detail : Bytes
  pub auto_reboot : ℤ

-- memset(state, 0, sizeof(*state))
abbrev pub blank : OtaState
blank = record {
  request_id = [];
  version = [];
  target_slot = [];
  phase = [];
  result = [];
  detail = [];
  auto_reboot = pos 0;
}

-- A C string that fits an array of `size` bytes.
abbrev pub Fits : ℕ → Bytes → Type 0
Fits size s = (length s < size) × All (λ c. c ≢ 0) s

-- What the arrays of an OtaState can hold.
pub record IsState (s : OtaState) : Type 0 where
  pub request_id_fits : Fits 64 s.request_id
  pub version_fits : Fits 32 s.version
  pub target_slot_fits : Fits 8 s.target_slot
  pub phase_fits : Fits 32 s.phase
  pub result_fits : Fits 16 s.result
  pub detail_fits : Fits 256 s.detail
  pub auto_reboot_fits : IsInt s.auto_reboot

-- otaStateRequestSeen; a null pointer is not a text, and cannot be passed here.
unfoldable pub request_seen : OtaState → Bytes → Bool
request_seen state [] = false
request_seen state (c ∷ id) = str_eq state.request_id (c ∷ id)

-- otaStateSetResult: `none` is the refusal with EOVERFLOW.
unfoldable pub set_result : OtaState → Bytes → Bytes → Bytes → Option OtaState
set_result state phase result detail =
    if leb 32 (length phase) || leb 16 (length result) || leb 256 (length detail)
    then none
    else some (record state { phase = phase; result = result; detail = detail })
