-- ===== src/Web.antt =====
-- The web server of the board, webserver.c, webserver.h and the sending and receiving of
-- webserver-http.c. On the board long and size_t have 32 bits.
pub mod Parse
pub mod Upload
pub mod Upgrade
pub mod Samples
pub mod Server
pub mod Answers
pub mod Transfer
pub mod Quiet
pub mod Taken
pub mod Applies
pub mod Idle
pub mod Form
use alientek.Prelude.{
  ℕ, zero, suc, ◌-◌, ◌+◌, Bool, true, false, ◌&&◌, ◌||◌, Option, none, some, List, [], ◌∷◌, ◌++◌,
  ◌==◌, ltb, leb, if◌then◌else◌, Bytes, length, take, drop, text, c_str, str_str,
}
use alientek.World.{World, Platform, put_file}
use alientek.Defaults.{Environment, read_path_setting}
use alientek.State.Int.{print_nat}

-- What a call of recv gives: bytes (none where the peer has closed), EINTR, or another error.
pub data Recv : Type 0 where
  got : Bytes → Recv
  broken_off again : Recv

-- What a call of send gives: the number of bytes it took, EINTR, or another error.
pub data Sent : Type 0 where
  took : ℕ → Sent
  refused try_again : Sent

-- `calls` are the results of the calls of recv on the connection, in their order, where no call gives
-- more bytes than it asks for; behind them the peer has closed. `answers` are those of send; behind
-- them everything is taken. `sent` is what the peer has got, and `busy` is gUpgradeBusy.
pub record Web : Type 0 where
  pub world : World
  pub calls : List Recv
  pub answers : List Sent
  pub sent : Bytes
  pub busy : Bool

abbrev pub on_world : (World → World) → Web → Web
on_world f w = record w { world = f w.world }

-- The loop of sendAll: whether all is sent, what is, and the answers that are left.
unfoldable pub send_loop : List Sent → Bytes → Bool × Bytes × List Sent
send_loop [] s = (true, s, [])
send_loop (a ∷ more) [] = (true, [], a ∷ more)
send_loop (took n ∷ more) (c ∷ s) =
    let rest = send_loop more (drop n (c ∷ s)) in
    if n == 0 then (false, [], more) else (rest.0, take n (c ∷ s) ++ rest.1, rest.2)
send_loop (refused ∷ more) (c ∷ s) = (false, [], more)
send_loop (try_again ∷ more) (c ∷ s) = send_loop more (c ∷ s)

-- sendAll: whether it returns 0
unfoldable pub send_all : Bytes → Web → Bool × Web
send_all s w =
    let r = send_loop w.answers s in (r.0, record w { sent = w.sent ++ r.1; answers = r.2 })

unfoldable pub response_header : ℕ → Bytes → Bytes → ℕ → Bytes
response_header status reason ctype size =
    text "HTTP/1.1 "
    ++ (print_nat status
        ++ (text " "
            ++ (reason
                ++ (text "\r\nContent-Type: "
                    ++ (ctype
                        ++ (text "\r\nContent-Length: "
                            ++ (print_nat size ++ text "\r\nConnection: close\r\n\r\n")))))))

-- Lines 54 to 56 of sendResponse, behind the header.
unfoldable pub send_body : Bytes → Bool × Web → Web
send_body body (false, w) = w
send_body body (true, w) = (send_all body w).1

-- sendResponse, whose result no caller looks at
unfoldable pub send_response : ℕ → Bytes → Bytes → Bytes → Web → Web
send_response status reason ctype body w =
    let header = response_header status reason ctype (length body) in
    if leb 256 (length header) then w else send_body body (send_all header w)

-- sendJson
unfoldable pub send_json : ℕ → Bytes → Bytes → Web → Web
send_json status reason json =
    send_response status reason (text "application/json; charset=utf-8") json

-- A file that stat, fopen and fread can read whole: readWholeFile
unfoldable pub read_whole_file : Platform → Bytes → World → Option Bytes
read_whole_file p path w = elim (w.files path) [
  | none ↦ none
  | some content ↦ elim (p.open_error w path) [
    | some e ↦ none
    | none ↦ elim (p.read_error w path) [ some e ↦ none | none ↦ some content ]
  ]
]

-- The length of the headers with the empty line that ends them, if it is there.
unfoldable pub headers_end : Bytes → Option ℕ
headers_end buf = elim (str_str (c_str buf) (text "\r\n\r\n")) [
  | none ↦ none
  | some rest ↦ some (length (c_str buf) - length rest + 4)
]

-- The loop of recvHttpHeaders with `buf` read: the length of the headers and the buffer, if they end
-- in it, and the calls that are left.
unfoldable pub recv_loop : ℕ → List Recv → Bytes → Option (ℕ × Bytes) × List Recv
recv_loop size [] buf = (none, [])
recv_loop size (broken_off ∷ calls) buf = (none, calls)
recv_loop size (again ∷ calls) buf = recv_loop size calls buf
recv_loop size (got s ∷ calls) buf =
    let piece = take (size - length buf - 1) s in
    let rest = recv_loop size calls (buf ++ piece) in
    if length piece == 0 then (none, calls) else elim (headers_end (buf ++ piece)) [
      | some n ↦ (some (n, buf ++ piece), calls)
      | none ↦ rest
    ]

-- recvHttpHeaders, into a buffer of `size` bytes
unfoldable pub recv_http_headers : ℕ → Web → Option (ℕ × Bytes) × Web
recv_http_headers size w = let r = recv_loop size w.calls [] in (r.0, record w { calls = r.1 })

-- WebserverCfg
pub record WebserverCfg : Type 0 where
  pub port : ℕ
  pub db_path : Bytes
  pub index_path : Bytes
  pub icm_db_path : Bytes
  pub icm_index_path : Bytes
  pub apply_path : Bytes
  pub swu_path : Bytes
  pub mime_path : Bytes
  pub log_path : Bytes
  pub reboot_cmd : Bytes
  pub upgrade_token : Bytes
