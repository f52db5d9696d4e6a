-- ===== src/Tests/Webs.antt =====
-- Requests to the web server on concrete inputs.
use alientek.Prelude.{
  true, false, some, List, [], ◌∷◌, ◌++◌, ◌≡◌, ◌⊎◌, refl, arith, Bytes, text, length, str_str,
  starts_with, has,
}
use alientek.State.Int.{pos, print_nat}
use alientek.Web.{
  Web, Recv, got, again, Sent, took, refused, try_again, WebserverCfg, send_response,
  response_header,
}
use alientek.Web.Upload.{swu_of}
use alientek.Web.Upgrade.{handle_upgrade}
use alientek.Web.Samples.{Database}
use alientek.Web.Server.{webserver_cfg_init, serve}
use alientek.Web.Answers.{Answered, send_response-Answered}
use alientek.Web.Applies.{Applies, handle_upgrade-Applies}
use alientek.Web.Idle.{IsIdle, serve-IsIdle}
use alientek.Web.Form.{form, swu_of-form}
use alientek.Tests.Machine.{machine, booted, no_settings}

abbrev settings : WebserverCfg
settings = webserver_cfg_init no_settings

abbrev dashes : Bytes
dashes = text "-----7d2"

abbrev part_head : Bytes
part_head =
    text "Content-Disposition: form-data; name=\"swu\"; filename=\"a.swu\"\r\nContent-Type: a/b"

abbrev image : Bytes
image = text "one\r\ntwo\r\n"

abbrev body : Bytes
body = form dashes part_head image (text "--\r\n")

abbrev upload_headers : Bytes
upload_headers =
    text "POST /api/upgrade HTTP/1.1\r\nContent-Type: multipart/form-data; boundary=-----7d2\r\n"
    ++ (text "Content-Length: " ++ (print_nat (length body) ++ text "\r\n\r\n"))

-- A connection that gives `calls` and takes `answers`.
abbrev connected : List Recv → List Sent → Web
connected calls answers = record {
  world = booted;
  calls = calls;
  answers = answers;
  sent = [];
  busy = false;
}

abbrev page : Bytes
page = text "<html></html>"

form_example : swu_of (text "--" ++ dashes) body ≡ some image
unfolding str_str starts_with has
form_example = swu_of-form dashes part_head image (text "--\r\n") (ground arith) refl refl refl

abbrev uploading : Web
uploading = connected (again ∷ got body ∷ []) []

web_upgrade_example :
    ((handle_upgrade machine settings upload_headers [] uploading).world.log ≡ booted.log)
    ⊎ Applies machine settings upload_headers [] uploading
        (handle_upgrade machine settings upload_headers [] uploading)
web_upgrade_example = handle_upgrade-Applies machine settings upload_headers [] uploading

answer_example :
    Answered
      (response_header 200 (text "OK") (text "text/html") (length page) ++ page)
      (connected [] (took 20 ∷ try_again ∷ refused ∷ []))
      (send_response 200
        (text "OK")
        (text "text/html")
        page
        (connected [] (took 20 ∷ try_again ∷ refused ∷ [])))
unfolding print_nat response_header
answer_example =
    send_response-Answered 200 (text "OK") (text "text/html") page
      (connected [] (took 20 ∷ try_again ∷ refused ∷ [])) (omega arith)

-- Databases without rows.
abbrev empty : Database
empty = record {
  time = λ w. some 100;
  to_time = λ n. pos n;
  open_v2 = λ w path. true;
  samples = λ w path a b. some [];
  icm_samples = λ w path a b. some [];
}

abbrev requests : List (List Recv × List Sent)
requests =
    ((got upload_headers ∷ got body ∷ []), [])
    ∷ ((got (text "GET /api/samples?from=1&to=2 HTTP/1.1\r\n\r\n") ∷ []), [])
    ∷ []

serve_example : IsIdle (serve machine settings empty requests (connected [] []))
serve_example = serve-IsIdle machine settings empty requests (connected [] []) refl
