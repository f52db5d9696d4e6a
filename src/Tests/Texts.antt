-- ===== src/Tests/Texts.antt =====
-- The theorems on texts at concrete inputs.
use alientek.Prelude.{
  is_digit, ◌↔◌, true, Option, none, some, [], ◌∷◌, ◌++◌, ◌≡◌, refl, inl, arith, Bytes, text, fit,
  read_lines, is_space, length, if◌then◌else◌, leb, not, ◌==◌,
}
use alientek.World.{einval, ebadmsg, enospc}
use alientek.Defaults.{parse_assignment, load_default_file}
use alientek.Defaults.Assign.{parse_assignment_quoted}
use alientek.Defaults.Load.{after_lines, roomy, load_default_file-after_lines}
use alientek.Discover.{pick_best_swu_name, parse_listing_html}
use alientek.Discover.Pick.{IsPick, pick_best_swu_name-IsPick}
use alientek.Discover.Listing.{IsListing, parse_listing_html-IsListing}
use alientek.Exec.Cmdline.{has_cmdline_token}
use alientek.Exec.Cmdline.Word.{IsWord, has_cmdline_token-IsWord}
use alientek.Mqtt.Utf8.{ok, bad, encode_utf8}
use alientek.Mqtt.Text.{parse_json_string}
use alientek.Mqtt.Strings.{IsUtf8, nil, scalar, json_escaped, parse_json_string-json_escaped}
use alientek.Mqtt.Sound.{OnOk, GivesText, parse_json_string-IsText}
use alientek.Mqtt.Command.{parse_command_json}
use alientek.Mqtt.Commands.{IsCommand, parse_command_json-IsCommand}
use alientek.Mqtt.Payload.{validate_status_utf8, build_status_payload}
use alientek.Mqtt.Payload.Built.{status_json, build_status_payload_lem}
use alientek.Agent.Versions.{
  Order, compare_versions, compare_loop, compare_versions_ends, compare_loop_stuck,
}
use alientek.Agent.Versions.Dotted.{dotted, compare_numbers, compare_versions-dotted}
use alientek.Mqtt.Text.{validate_utf8_text}
use alientek.Mqtt.Valid.{validate_utf8_text-IsUtf8}
use alientek.Tests.Machine.{pending}

quoted_example :
    (parse_assignment (text "URL=\"http://h/a b\"") ≡ some (text "URL", text "http://h/a b"))
    × (parse_assignment (text "export URL=\"http://h/a b\"")
        ≡ some (text "URL", text "http://h/a b"))
unfolding is_space
quoted_example =
    parse_assignment_quoted b'"' (text "http://h/a b") (inl refl) (text "URL") (ground arith)

abbrev settings_file : Bytes → Option Bytes
settings_file path = some (text "# note\nA='1'\nA=2\nB=3")

after_lines_example :
    load_default_file roomy settings_file (text "/etc/default/x") (λ name. none) (text "A")
    ≡ after_lines (text "A") none (read_lines 100 512 (text "# note\nA='1'\nA=2\nB=3"))
after_lines_example =
    load_default_file-after_lines settings_file (text "/etc/default/x")
      (text "# note\nA='1'\nA=2\nB=3") (λ name. none) (text "A") 100 (ground arith) refl
      (omega arith)

pick_best_swu_name-IsPick_example :
    (b : Bytes) × (pick_best_swu_name 256
        (text "alientek-image-update-1.swu" ∷ text "alientek-image-update.swu" ∷ [])
      ≡ some (fit 256 b))
    × IsPick
        (text "alientek-image-update-1.swu" ∷ text "alientek-image-update.swu" ∷ [])
        (text "alientek-image-update-1.swu")
        b
pick_best_swu_name-IsPick_example =
    pick_best_swu_name-IsPick 256 (text "alientek-image-update-1.swu")
      (text "alientek-image-update.swu" ∷ []) (ground arith)

abbrev page : Bytes
page = text "<a href=\"alientek-image-update-20240101120000.swu\">x</a>"

parse_listing_html-IsListing_example : IsListing (parse_listing_html page)
parse_listing_html-IsListing_example = parse_listing_html-IsListing page

token_example :
    (has_cmdline_token (text "console=tty1 rw root=x") (text "rw") ≡ true)
    ↔ IsWord (text "rw") (text "console=tty1 rw root=x")
token_example =
    has_cmdline_token-IsWord (text "console=tty1 rw root=x") b'r' (text "w") (refl, (refl, tt))

a_IsUtf8 : IsUtf8 (text "\n")
unfolding encode_utf8
a_IsUtf8 = scalar 10 (omega arith, inl (omega arith)) refl (nil refl)

text_example : OnOk (GivesText 16) (parse_json_string 16 (text "\"a\\u20acb\","))
text_example = parse_json_string-IsText 16 (text "\"a\\u20acb\",")

escaped_example :
    parse_json_string 8 (b'"' ∷ json_escaped (text "\n") (b'"' ∷ text ","))
    ≡ ok (text "\n", text ",")
escaped_example =
    parse_json_string-json_escaped 8 (text "\n") (text ",") a_IsUtf8 (ground arith) (omega arith)

abbrev command_text : Bytes
command_text =
    text "{\"requestId\":\"r1\",\"version\":\"1.2\",\"url\":\"http://h/p.swu\",\"autoReboot\":true,"
    ++ text "\"sha256\":\"0123456789abcdef0123456789abcdef0123456789abcdef0123456789abcdef\"}"

command_example : OnOk IsCommand (parse_command_json command_text)
command_example = parse_command_json-IsCommand command_text

payload_example : build_status_payload 512 pending ≡ (
    if 512 == 0
    then bad einval
    else if not (validate_status_utf8 pending)
    then bad ebadmsg
    else if leb 512 (length (status_json pending))
    then bad enospc
    else ok (status_json pending))
payload_example = build_status_payload_lem 512 pending

compare_example : (o : Order) × (compare_versions (text "1.10") (text "1.9.2") ≡ some o)
unfolding is_digit
compare_example = compare_versions_ends (text "1.10") (text "1.9.2") (ground arith) (ground arith)

stuck_example : compare_loop 1000 (text "-rc1") (text "-rc2") ≡ none
unfolding is_digit
stuck_example = compare_loop_stuck 1000 b'-' b'-' (text "rc1") (text "rc2") refl refl refl refl

dotted_example :
    compare_versions (dotted (1 ∷ 10 ∷ [])) (dotted (1 ∷ 9 ∷ 2 ∷ []))
    ≡ some (compare_numbers (1 ∷ 10 ∷ []) (1 ∷ 9 ∷ 2 ∷ []))
dotted_example =
    compare_versions-dotted (1 ∷ 10 ∷ []) (1 ∷ 9 ∷ 2 ∷ []) (omega arith, (omega arith, tt))
      (omega arith, (omega arith, (omega arith, tt)))

validate_example : (validate_utf8_text (text "升") ≡ true) ↔ IsUtf8 (text "升")
validate_example = validate_utf8_text-IsUtf8 (text "升") (ground arith)
