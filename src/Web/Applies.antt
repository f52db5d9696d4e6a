-- ===== src/Web/Applies.antt =====
-- Which requests to handleUpgrade of webserver-upgrade.c start ota-apply, and on which image.
use mathlib.Core.Option.{some-injective}
use alientek.Prelude.{
  ℕ, Bool, true, false, Bool-cases, Option, none, some, [], ◌++◌, ◌≡◌, ◌⊎◌, refl, sym, ap, ◌∙◌, inl,
  inr, arith, ◌==◌, Bytes, length, length-append, take, ◌-◌, text,
}
use alientek.Prelude.CLaws.{str_eq_refl}
use alientek.World.{World, Platform, Errno}
use alientek.Web.{Web, WebserverCfg, read_whole_file}
use alientek.Web.Upload.{
  recv_body_to_file, swu_of, check_upgrade_auth, UpgradeHeaders, good, no_headers, bad_size,
  no_boundary, parse_upgrade_headers,
}
use alientek.Web.Upgrade.{
  run_board_apply_update, set_busy, answer_applied, upload_opened, upload, headers_by,
  handle_upgrade,
}
use alientek.Web.Transfer.{peer, recv_body_to_file-Grown}
use alientek.Web.Quiet.{send_json_same, recv_body_to_file_same}
use alientek.Web.Taken.{begun, cleared, Taken, unlink-file, received_by-Taken}

module _ (p : Platform) (cfg : WebserverCfg) where
  -- ota-apply is run on a image that came with this request.
  pub record Applies (headers pref : Bytes) (w v : Web) : Type 0 where
    pub boundary : Bytes
    pub size : ℕ
    pub content : Bytes
    pub image : Bytes
    pub u : Web
    pub authorised : check_upgrade_auth cfg.upgrade_token headers ≡ true
    pub described : parse_upgrade_headers headers ≡ good boundary size
    pub received : (recv_body_to_file p cfg.mime_path pref size (begun p cfg w)).0 ≡ true
    pub stored :
        read_whole_file p cfg.mime_path
          (cleared p cfg (recv_body_to_file p cfg.mime_path pref size (begun p cfg w)).1)
        ≡ some content
    pub whole : length content ≡ size
    pub arrived : content ≡ pref ++ take (size - length pref) (peer w.calls)
    pub extracted : swu_of boundary content ≡ some image
    pub is_there : u.world.files cfg.swu_path ≡ some image
    pub not_empty : (length image == 0) ≡ false
    pub same_log : u.world.log ≡ w.world.log
    pub answered : v ≡ answer_applied p cfg (run_board_apply_update p cfg 4096 u.world) u

  -- An upload that has been received, and what comes of it.
  abbrev Uploaded : Bytes → Bytes → ℕ → Web → Web → Type 0
  Uploaded pref boundary size w v =
      (v.world.log ≡ w.world.log)
      ⊎ (((recv_body_to_file p cfg.mime_path pref size (begun p cfg w)).0 ≡ true)
          × Taken p cfg boundary (recv_body_to_file p cfg.mime_path pref size (begun p cfg w)).1 v)

  upload_opened-Uploaded :
      (pref boundary : Bytes) (size : ℕ) (o : Option Errno) (w : Web)
      → Uploaded pref boundary size w (upload_opened p cfg pref boundary size o w)
  unfolding upload_opened
  upload_opened-Uploaded pref boundary size (some e) w =
      let answer : Bytes = text "{\"ok\":false,\"message\":\"无法创建临时文件\"}" in
      inl (
        ap (λ x. x.log)
          (send_json_same 500 (text "Internal Server Error") answer (set_busy p cfg false w)).0)
  upload_opened-Uploaded pref boundary size none w =
      let r = recv_body_to_file p cfg.mime_path pref size (begun p cfg w) in
      by_case r _ (received_by-Taken p cfg boundary r)
        (recv_body_to_file_same p cfg.mime_path pref size (begun p cfg w)).0
    where
      by_case :
          (r : Bool × Web) (v : Web)
          → ((r.0 ≡ false) × (v.world.log ≡ r.1.world.log))
            ⊎ ((r.0 ≡ true) × Taken p cfg boundary r.1 v)
          → r.1.world.log ≡ w.world.log
          → (v.world.log ≡ w.world.log) ⊎ ((r.0 ≡ true) × Taken p cfg boundary r.1 v)
      by_case r v (inl (e, n)) l = inl (n ∙ l)
      by_case r v (inr (e, t)) l = inr (e, t)

  read_whole_file-file :
      (path s : Bytes) (w : World) → read_whole_file p path w ≡ some s → w.files path ≡ some s
  unfolding read_whole_file
  read_whole_file-file path s w h = ground (arith, h)

  begun-file : (w : Web) → (begun p cfg w).world.files cfg.mime_path ≡ some []
  begun-file w = ground (arith, str_eq_refl cfg.mime_path)

  -- The file that is read is the body of the request.
  arrive :
      (pref content : Bytes) (size : ℕ) (w : Web)
      → (recv_body_to_file p cfg.mime_path pref size (begun p cfg w)).0 ≡ true
      → read_whole_file p cfg.mime_path
          (cleared p cfg (recv_body_to_file p cfg.mime_path pref size (begun p cfg w)).1)
        ≡ some content
      → (length content ≡ size) × (content ≡ pref ++ take (size - length pref) (peer w.calls))
  arrive pref content size w r s =
      let v = (recv_body_to_file p cfg.mime_path pref size (begun p cfg w)).1 in
      let (fits, g) =
        recv_body_to_file-Grown p cfg.mime_path pref size (begun p cfg w) (begun-file w) r in
      let f =
        unlink-file p cfg cfg.swu_path cfg.mime_path content v.world
          (read_whole_file-file cfg.mime_path content (cleared p cfg v) s) in
      let e : content ≡ pref ++ g.more =
        some-injective content (pref ++ g.more) (sym f ∙ g.stored) in
      (
        ap length e ∙ omega (arith, length-append pref g.more, g.length_more, fits),
        e ∙ ap (λ z. pref ++ z) g.reads,
      )

  Uploaded-Applies :
      (headers pref boundary : Bytes) (size : ℕ) (w v : Web)
      → check_upgrade_auth cfg.upgrade_token headers ≡ true
      → parse_upgrade_headers headers ≡ good boundary size
      → Uploaded pref boundary size w v
      → (v.world.log ≡ w.world.log) ⊎ Applies headers pref w v
  Uploaded-Applies headers pref boundary size w v a d (inl n) = inl n
  Uploaded-Applies headers pref boundary size w v a d (inr (r, inl n)) =
      inl (n ∙ (recv_body_to_file_same p cfg.mime_path pref size (begun p cfg w)).0)
  Uploaded-Applies headers pref boundary size w v a d
        (inr (r, inr (content, image, u, s, e, t, n, l, k))) =
      let (whole, arrived) = arrive pref content size w r s in
      inr (record {
        whole = whole;
        arrived = arrived;
        boundary = boundary;
        size = size;
        content = content;
        image = image;
        u = u;
        authorised = a;
        described = d;
        received = r;
        stored = s;
        extracted = e;
        is_there = t;
        not_empty = n;
        same_log = l ∙ (recv_body_to_file_same p cfg.mime_path pref size (begun p cfg w)).0;
        answered = k;
      })

  headers_by-Applies :
      (headers pref : Bytes) (h : UpgradeHeaders) (w : Web)
      → check_upgrade_auth cfg.upgrade_token headers ≡ true
      → parse_upgrade_headers headers ≡ h
      → ((headers_by p cfg pref h w).world.log ≡ w.world.log)
        ⊎ Applies headers pref w (headers_by p cfg pref h w)
  unfolding headers_by upload
  headers_by-Applies headers pref (good boundary size) w a e =
      Uploaded-Applies headers pref boundary size w _ a e
        (upload_opened-Uploaded pref boundary size (p.create_error w.world cfg.mime_path) w)
  headers_by-Applies headers pref no_headers w a e =
      inl (ap (λ x. x.log) (send_json_same 400 (text "Bad Request") _ w).0)
  headers_by-Applies headers pref bad_size w a e =
      inl (ap (λ x. x.log) (send_json_same 400 (text "Bad Request") _ w).0)
  headers_by-Applies headers pref no_boundary w a e =
      inl (ap (λ x. x.log) (send_json_same 400 (text "Bad Request") _ w).0)

-- handleUpgrade either runs no program, or the request has the token, if one is set, and headers that
-- describe an upload, its body is as long as they say and is what came behind the headers and then the
-- first bytes of all that the calls of recv give, of 8192 bytes at most each, in their order, the part
-- of it named swu is not empty and stands in the file of the package, and what follows is the answer to
-- a run of ota-apply on that file.
pub handle_upgrade-Applies :
    (p : Platform) (cfg : WebserverCfg) (headers pref : Bytes) (w : Web)
    → ((handle_upgrade p cfg headers pref w).world.log ≡ w.world.log)
      ⊎ Applies p cfg headers pref w (handle_upgrade p cfg headers pref w)
unfolding handle_upgrade
handle_upgrade-Applies p cfg headers pref w =
    elim (Bool-cases (check_upgrade_auth cfg.upgrade_token headers)) [
      | inr e ↦ rw e (inl (ap (λ x. x.log) (send_json_same 401 (text "Unauthorized") _ w).0))
      | inl e ↦ elim (Bool-cases (w.busy)) [
        | inl b ↦ simp (e, b) (inl (ap (λ x. x.log) (send_json_same 409 (text "Conflict") _ w).0))
        | inr b ↦
            simp (e, b)
              (headers_by-Applies p cfg headers pref (parse_upgrade_headers headers) w e refl)
      ]
    ]
