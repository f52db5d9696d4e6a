-- ===== src/Web/Quiet.antt =====
-- What the calls of the web server leave alone: the log of the world, and gUpgradeBusy.
use alientek.Prelude.{
  ℕ, zero, suc, ◌-◌, Bool, true, false, List, [], ◌∷◌, ◌++◌, ◌≡◌, refl, arith, min, Bytes, length,
  take, text,
}
use alientek.World.{World, Platform, unlink}
use alientek.Web.{
  Web, Recv, got, broken_off, again, send_all, send_body, send_response, send_json, response_header,
}
use alientek.Web.Upload.{
  append_file, body_loop, recv_rest, recv_body_to_file, write_swu, extract_swu_from_mime,
}

-- The world and gUpgradeBusy are as they were.
abbrev pub SameRest : Web → Web → Type 0
SameRest w v = (v.world ≡ w.world) × (v.busy ≡ w.busy)

send_body_same : (body : Bytes) (r : Bool × Web) → SameRest r.1 (send_body body r)
unfolding send_body send_all
send_body_same body (true, w) = (refl, refl)
send_body_same body (false, w) = (refl, refl)

pub send_response_same :
    (status : ℕ) (reason ctype body : Bytes) (w : Web)
    → SameRest w (send_response status reason ctype body w)
unfolding send_response send_all
send_response_same status reason ctype body w =
    let header = response_header status reason ctype (length body) in
    ground (arith, send_body_same body (send_all header w))

pub send_json_same :
    (status : ℕ) (reason json : Bytes) (w : Web) → SameRest w (send_json status reason json w)
unfolding send_json
send_json_same status reason json w =
    send_response_same status reason (text "application/json; charset=utf-8") json w

module _ (p : Platform) where
  pub unlink_log : (path : Bytes) (w : World) → (unlink p path w).log ≡ w.log
  unfolding unlink
  unlink_log path w = ground arith

  append_file_log : (path old s : Bytes) (w : World) → (append_file p path old s w).1.log ≡ w.log
  unfolding append_file
  append_file_log path old s w = ground arith

  body_loop_log :
      (path : Bytes) (calls : List Recv) (need : ℕ) (old : Bytes) (w : World)
      → (body_loop p path calls need old w).1.log ≡ w.log
  unfolding body_loop
  body_loop_log path [] zero old w = refl
  body_loop_log path (c ∷ calls) zero old w = refl
  body_loop_log path [] (suc need) old w = refl
  body_loop_log path (broken_off ∷ calls) (suc need) old w = refl
  body_loop_log path (again ∷ calls) (suc need) old w = body_loop_log path calls (suc need) old w
  body_loop_log path (got s ∷ calls) (suc need) old w =
      let piece = take (min 8192 (suc need)) s in
      let r = append_file p path old piece w in
      ground (
        arith,
        append_file_log path old piece w,
        body_loop_log path calls (suc need - length piece) (old ++ piece) r.1,
      )

  recv_rest_same :
      (path pref : Bytes) (size : ℕ) (r : Bool × World) (w : Web)
      → ((recv_rest p path pref size r w).1.world.log ≡ r.1.log)
        × ((recv_rest p path pref size r w).1.busy ≡ w.busy)
  unfolding recv_rest
  recv_rest_same path pref size (false, v) w = (refl, refl)
  recv_rest_same path pref size (true, v) w =
      (body_loop_log path w.calls (size - length pref) pref v, refl)

  pub recv_body_to_file_same :
      (path pref : Bytes) (size : ℕ) (w : Web)
      → ((recv_body_to_file p path pref size w).1.world.log ≡ w.world.log)
        × ((recv_body_to_file p path pref size w).1.busy ≡ w.busy)
  unfolding recv_body_to_file
  recv_body_to_file_same path pref size w =
      let r = append_file p path [] pref w.world in
      ground (
        arith,
        recv_rest_same path pref size (true, w.world) w,
        recv_rest_same path pref size r w,
        append_file_log path [] pref w.world,
      )

  pub extract_swu_from_mime_log :
      (mime_path boundary path : Bytes) (w : World)
      → (extract_swu_from_mime p mime_path boundary path w).1.log ≡ w.log
  unfolding extract_swu_from_mime write_swu append_file
  extract_swu_from_mime_log mime_path boundary path w = ground arith
