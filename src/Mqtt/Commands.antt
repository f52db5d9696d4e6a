-- ===== src/Mqtt/Commands.antt =====
-- The commands that otaMqttParseCommandJson accepts.
use alientek.Prelude.{
  ℕ, zero, suc, true, Option, none, some, [], ◌∷◌, ◌≡◌, ◌⊎◌, refl, inl, inr, arith, ◌==◌,
  Bool-cases, if◌then◌else◌, length, All, Bytes, text, starts_with, is_xdigit,
}
use alientek.World.{ebadmsg}
use alientek.State.{OtaState, blank}
use alientek.State.Int.{ℤ, pos}
use alientek.Mqtt.Utf8.{Parsed, ok, bad}
use alientek.Mqtt.Text.{parse_json_string}
use alientek.Mqtt.Sound.{OnOk, bind-OnOk, IsText, GivesText, parse_json_string-IsText}
use alientek.Mqtt.Command.{
  OtaMqttCommand, no_fields, has_all, CommandField, Parse, command_field_for_key,
  parse_json_boolean, parse_value, parse_new_field, parse_command_member, expect_colon,
  expect_comma, finish_object, starts_brace, skip_json_space, object_loop, parse_command_object,
  all_xdigits, is_valid_sha256, validate_command, parse_command_json,
}

-- autoReboot is 0 or 1.
abbrev pub IsFlag : ℤ → Type 0
IsFlag i = (i ≡ pos 0) ⊎ (i ≡ pos 1)

-- What is known of the values of the fields that have been seen; no other field of the state is touched.
record ParseInv (p : Parse) : Type 0 where
  request_id_text : p.fields.request_id ≡ true → IsText 64 p.state.request_id
  version_text : p.fields.version ≡ true → IsText 32 p.state.version
  url_text : p.fields.url ≡ true → IsText 512 p.command.url
  sha256_text : p.fields.sha256 ≡ true → IsText 65 p.command.sha256
  flag : IsFlag p.state.auto_reboot
  no_slot : p.state.target_slot ≡ []
  no_phase : p.state.phase ≡ []
  no_result : p.state.result ≡ []
  no_detail : p.state.detail ≡ []

abbrev GivesFlag : ℤ × Bytes → Type 0
GivesFlag r = IsFlag r.0

parse_json_boolean-OnOk : (s : Bytes) → OnOk GivesFlag (parse_json_boolean s)
unfolding parse_json_boolean
parse_json_boolean-OnOk s = elim (Bool-cases (starts_with s (text "true"))) [
  | inl e ↦ rw e (inr refl)
  | inr e ↦ rw e (elim (Bool-cases (starts_with s (text "false"))) [
    | inl u ↦ rw u (inl refl)
    | inr u ↦ rw u tt
  ])
]

parse_new_field-OnOk :
    (field : CommandField) (s : Bytes) (p : Parse)
    → ParseInv p
    → OnOk ParseInv (parse_new_field field s p)
unfolding parse_new_field parse_value
parse_new_field-OnOk CommandField.request_id s p h = elim (Bool-cases p.fields.request_id) [
  | inl e ↦ rw e tt
  | inr e ↦ rw e (
      bind-OnOk (GivesText 64) ParseInv (parse_json_string 64 s) _ (parse_json_string-IsText 64 s)
        (λ r k. ground arith))
]
parse_new_field-OnOk CommandField.version s p h = elim (Bool-cases p.fields.version) [
  | inl e ↦ rw e tt
  | inr e ↦ rw e (
      bind-OnOk (GivesText 32) ParseInv (parse_json_string 32 s) _ (parse_json_string-IsText 32 s)
        (λ r k. ground arith))
]
parse_new_field-OnOk CommandField.url s p h = elim (Bool-cases p.fields.url) [
  | inl e ↦ rw e tt
  | inr e ↦ rw e (
      bind-OnOk (GivesText 512) ParseInv (parse_json_string 512 s) _
        (parse_json_string-IsText 512 s) (λ r k. ground arith))
]
parse_new_field-OnOk CommandField.sha256 s p h = elim (Bool-cases p.fields.sha256) [
  | inl e ↦ rw e tt
  | inr e ↦ rw e (
      bind-OnOk (GivesText 65) ParseInv (parse_json_string 65 s) _ (parse_json_string-IsText 65 s)
        (λ r k. ground arith))
]
parse_new_field-OnOk CommandField.auto_reboot s p h = elim (Bool-cases p.fields.auto_reboot) [
  | inl e ↦ rw e tt
  | inr e ↦ rw e (
      bind-OnOk GivesFlag ParseInv (parse_json_boolean s) _ (parse_json_boolean-OnOk s)
        (λ r k. ground arith))
]

any_OnOk : {A : Type 0} (m : Parsed A) → OnOk (λ a. Unit {0}) m
any_OnOk (ok a) = tt
any_OnOk (bad e) = tt

parse_command_member-OnOk : (p : Parse) → ParseInv p → OnOk ParseInv (parse_command_member p)
unfolding parse_command_member
parse_command_member-OnOk p h =
    bind-OnOk (λ r. Unit {0}) ParseInv (parse_json_string 32 p.rest) _ (any_OnOk _)
      λ r u.
        bind-OnOk (λ v. Unit {0}) ParseInv (expect_colon (skip_json_space r.1)) _ (any_OnOk _)
          λ v u. by_key (command_field_for_key r.0) (skip_json_space v)
  where
    by_key :
        (field : Option CommandField) (s : Bytes)
        → OnOk ParseInv (elim field [ none ↦ bad ebadmsg | some field ↦ parse_new_field field s p ])
    by_key none s = tt
    by_key (some field) s = parse_new_field-OnOk field s p h

abbrev Complete : Parse → Type 0
Complete p = ParseInv p × (has_all p.fields ≡ true)

finish_object-OnOk : (s : Bytes) (p : Parse) → ParseInv p → OnOk Complete (finish_object s p)
unfolding finish_object
finish_object-OnOk [] p h = elim (Bool-cases (has_all p.fields)) [
  | inl e ↦ rw e (h, e)
  | inr e ↦ rw e tt
]
finish_object-OnOk (c ∷ s) p h = tt

rest-ParseInv : (p : Parse) (s : Bytes) → ParseInv p → ParseInv (record p { rest = s })
rest-ParseInv p s h = record {
  request_id_text = h.request_id_text;
  version_text = h.version_text;
  url_text = h.url_text;
  sha256_text = h.sha256_text;
  flag = h.flag;
  no_slot = h.no_slot;
  no_phase = h.no_phase;
  no_result = h.no_result;
  no_detail = h.no_detail;
}

object_loop-OnOk : (f : ℕ) (p : Parse) → ParseInv p → OnOk Complete (object_loop f p)
unfolding object_loop
object_loop-OnOk zero p h = tt
object_loop-OnOk (suc f) p h = elim (Bool-cases (starts_brace (skip_json_space p.rest))) [
  | inl e ↦ rw e tt
  | inr e ↦ rw e (
      bind-OnOk ParseInv Complete (parse_command_member _) _
        (parse_command_member-OnOk (record p { rest = skip_json_space p.rest })
          (rest-ParseInv p _ h))
        (λ q k. elim (Bool-cases (starts_brace (skip_json_space q.rest))) [
          | inl u ↦ rw u (finish_object-OnOk _ q k)
          | inr u ↦ rw u (
              bind-OnOk (λ v. Unit {0}) Complete (expect_comma (skip_json_space q.rest)) _
                (any_OnOk _)
                (λ v t. object_loop-OnOk f (record q { rest = v }) (rest-ParseInv q v k)))
        ]))
]

parse_command_object-OnOk : (json : Bytes) → OnOk Complete (parse_command_object json)
unfolding parse_command_object
parse_command_object-OnOk json = by_start (skip_json_space json)
  where
    start : Bytes → Parse
    start s = record {
      rest = s;
      state = blank;
      command = record { url = []; sha256 = [] };
      fields = no_fields;
    }

    start-ParseInv : (s : Bytes) → ParseInv (start s)
    start-ParseInv s = record {
      request_id_text = λ e. cc;
      version_text = λ e. cc;
      url_text = λ e. cc;
      sha256_text = λ e. cc;
      flag = inl refl;
      no_slot = refl;
      no_phase = refl;
      no_result = refl;
      no_detail = refl;
    }

    by_start :
        (t : Bytes)
        → OnOk Complete (elim t [
          | [] ↦ bad ebadmsg
          | c ∷ s ↦ if c == b'{' then object_loop (suc (length s)) (start s) else bad ebadmsg
        ])
    by_start [] = tt
    by_start (c ∷ s) = elim (Bool-cases (c == b'{')) [
      | inl e ↦ rw e (object_loop-OnOk (suc (length s)) (start s) (start-ParseInv s))
      | inr e ↦ rw e tt
    ]

-- What an accepted command is.
pub record IsCommand (r : OtaState × OtaMqttCommand) : Type 0 where
  pub request_id_text : IsText 64 r.0.request_id
  pub version_text : IsText 32 r.0.version
  pub url_text : IsText 512 r.1.url
  pub scheme :
      (starts_with r.1.url (text "https://") ≡ true) ⊎ (starts_with r.1.url (text "http://") ≡ true)
  pub sha256_length : length r.1.sha256 ≡ 64
  pub sha256_hex : All (λ c. is_xdigit c ≡ true) r.1.sha256
  pub flag : IsFlag r.0.auto_reboot
  pub others_blank : r.0 ≡ record blank {
    request_id = r.0.request_id;
    version = r.0.version;
    auto_reboot = r.0.auto_reboot;
  }

all_xdigits-All : (s : Bytes) → all_xdigits s ≡ true → All (λ c. is_xdigit c ≡ true) s
all_xdigits-All [] h = tt
all_xdigits-All (c ∷ s) h = (ground arith, all_xdigits-All s (ground arith))

validated-IsCommand :
    (p : Parse) → Complete p → validate_command p.command ≡ true → IsCommand (p.state, p.command)
unfolding validate_command is_valid_sha256
validated-IsCommand p (h, all) v = record {
  request_id_text = h.request_id_text (ground arith);
  version_text = h.version_text (ground arith);
  url_text = h.url_text (ground arith);
  scheme = ground arith;
  sha256_length = ground arith;
  sha256_hex = all_xdigits-All p.command.sha256 (ground arith);
  flag = h.flag;
  others_blank = ground arith;
}

-- A command that is accepted, whatever the JSON is, has all of its five members: an id, a version and
-- a URL that are UTF-8 text, not empty and within their buffers, a URL that begins with https:// or
-- http://, a SHA256 of 64 hexadecimal digits, and an autoReboot of 0 or 1; all else of the state is
-- blank.
pub parse_command_json-IsCommand : (json : Bytes) → OnOk IsCommand (parse_command_json json)
unfolding parse_command_json
parse_command_json-IsCommand json =
    bind-OnOk Complete IsCommand (parse_command_object json) _ (parse_command_object-OnOk json)
      λ p k. elim (Bool-cases (validate_command p.command)) [
        | inl e ↦ rw e (validated-IsCommand p k e)
        | inr e ↦ rw e tt
      ]
