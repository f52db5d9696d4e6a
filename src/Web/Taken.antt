-- ===== src/Web/Taken.antt =====
-- What handleUpgrade of webserver-upgrade.c does with an upload that has been received.
use mathlib.Core.Option.{some-injective}
use alientek.Prelude.{
  Bool, true, false, Option, none, some, Option-cases, [], ◌∷◌, ◌≡◌, ◌⊎◌, refl, sym, ap, ◌∙◌, inl,
  inr, arith, ◌==◌, Bytes, length, text,
}
use alientek.Prelude.CLaws.{str_eq_refl}
use alientek.World.{World, Platform, unlink, put_file}
use alientek.Web.{Web, WebserverCfg, on_world, read_whole_file}
use alientek.Web.Upload.{append_file, write_swu, swu_of, extract_swu_from_mime}
use alientek.Web.Upgrade.{
  run_board_apply_update, set_busy, answer_applied, apply_file, apply_uploaded, extracted_by,
  received_by,
}
use alientek.Web.Quiet.{send_json_same, unlink_log, extract_swu_from_mime_log}

module _ (p : Platform) (cfg : WebserverCfg) where
  -- The web server with the file of the upload emptied.
  abbrev pub begun : Web → Web
  begun w = on_world (put_file cfg.mime_path (some [])) (set_busy p cfg true w)

  -- Behind the body: the image of the last upload goes.
  abbrev pub cleared : Web → World
  cleared w = unlink p cfg.swu_path w.world

  -- Either nothing has been run, or ota-apply on a file that is not empty.
  abbrev Outcome : World → Web → Web → Type 0
  Outcome w0 w v =
      (v.world.log ≡ w0.log)
      ⊎ ((image : Bytes) × (w.world.files cfg.swu_path ≡ some image)
          × ((length image == 0) ≡ false)
          × (w.world.log ≡ w0.log)
          × (v ≡ answer_applied p cfg (run_board_apply_update p cfg 4096 w.world) w))

  apply_file-Outcome :
      (o : Option Bytes) (w : Web)
      → w.world.files cfg.swu_path ≡ o
      → Outcome w.world w (apply_file p cfg o w)
  unfolding apply_file
  apply_file-Outcome none w e = inl (
      ground (
        arith,
        send_json_same 400 (text "Bad Request") (text "{\"ok\":false,\"message\":\"升级包为空\"}")
            (set_busy p cfg false w),
      ))
  apply_file-Outcome (some []) w e = inl (
      ground (
        arith,
        send_json_same 400 (text "Bad Request") (text "{\"ok\":false,\"message\":\"升级包为空\"}")
            (set_busy p cfg false w),
      ))
  apply_file-Outcome (some (c ∷ s)) w e = inr (c ∷ s, e, ground arith, refl, refl)

  pub unlink-file :
      (path k s : Bytes) (w : World) → (unlink p path w).files k ≡ some s → w.files k ≡ some s
  unfolding unlink
  unlink-file path k s w h = ground arith

  -- The file that extractSwuFromMime writes is the part of the upload.
  write_swu-file :
      (path body : Bytes) (w : World)
      → (write_swu p path body w).0 ≡ true
      → (write_swu p path body w).1.files path ≡ some body
  unfolding write_swu append_file
  write_swu-file path body w h = ground (arith, str_eq_refl path)

  extract_swu_from_mime-file :
      (mime boundary path : Bytes) (w : World)
      → (extract_swu_from_mime p mime boundary path w).0 ≡ true
      → (content : Bytes) × (image : Bytes) × (read_whole_file p mime w ≡ some content)
        × (swu_of boundary content ≡ some image)
        × ((extract_swu_from_mime p mime boundary path w).1.files path ≡ some image)
  unfolding extract_swu_from_mime
  extract_swu_from_mime-file mime boundary path w h =
      elim (Option-cases (read_whole_file p mime w)) [
        | inl e ↦ absurd (ground arith)
        | inr (content, e) ↦ elim (Option-cases (swu_of boundary content)) [
          | inl f ↦ absurd (ground arith)
          | inr (image, f) ↦ (content, image, e, f, ground (arith, write_swu-file path image w))
        ]
      ]

  -- The same for an upload that has been received into the file.
  abbrev pub Taken : Bytes → Web → Web → Type 0
  Taken boundary w v =
      (v.world.log ≡ w.world.log)
      ⊎ ((content : Bytes) × (image : Bytes) × (u : Web) × (read_whole_file p cfg.mime_path
              (cleared w)
            ≡ some content)
          × (swu_of boundary content ≡ some image)
          × (u.world.files cfg.swu_path ≡ some image)
          × ((length image == 0) ≡ false)
          × (u.world.log ≡ w.world.log)
          × (v ≡ answer_applied p cfg (run_board_apply_update p cfg 4096 u.world) u))

  take-Taken :
      (boundary : Bytes) (w u v : Web) (content image1 : Bytes)
      → read_whole_file p cfg.mime_path (cleared w) ≡ some content
      → swu_of boundary content ≡ some image1
      → ((s : Bytes) → u.world.files cfg.swu_path ≡ some s → image1 ≡ s)
      → u.world.log ≡ w.world.log
      → Outcome u.world u v
      → Taken boundary w v
  take-Taken boundary w u v content image1 r e same l (inl n) = inl (n ∙ l)
  take-Taken boundary w u v content image1 r e same l (inr (image, f, n, m, a)) =
      inr (content, image, u, r, e ∙ ap some (same image f), f, n, l, a)

  extracted_log :
      (boundary : Bytes) (w : Web) (b : Bool) (v : World)
      → extract_swu_from_mime p cfg.mime_path boundary cfg.swu_path (cleared w) ≡ (b, v)
      → v.log ≡ w.world.log
  extracted_log boundary w b v e =
      sym (ap (λ t. t.1.log) e)
      ∙ (extract_swu_from_mime_log p cfg.mime_path boundary cfg.swu_path (cleared w)
          ∙ unlink_log p cfg.swu_path w.world)

  extracted_by-Taken :
      (boundary : Bytes) (w : Web) (r : Bool × World)
      → extract_swu_from_mime p cfg.mime_path boundary cfg.swu_path (cleared w) ≡ r
      → Taken boundary w (extracted_by p cfg r (on_world (unlink p cfg.swu_path) w))
  unfolding extracted_by apply_uploaded
  extracted_by-Taken boundary w (false, v) e =
      let u = set_busy p cfg false (record w { world = unlink p cfg.mime_path v }) in
      let answer : Bytes = text "{\"ok\":false,\"message\":\"未找到 swu 文件字段\"}" in
      inl (
        ap (λ x. x.log) (send_json_same 400 (text "Bad Request") answer u).0
        ∙ (unlink_log p cfg.mime_path v ∙ extracted_log boundary w false v e))
  extracted_by-Taken boundary w (true, v) e =
      let x =
        extract_swu_from_mime-file cfg.mime_path boundary cfg.swu_path (cleared w)
          (ap (λ t. t.0) e) in
      let (content, image, r, f, g) = x in
      let u = record w { world = unlink p cfg.mime_path v } in
      take-Taken boundary w u _ content image r f
        (λ s h. some-injective image s (
          sym g
          ∙ (ap (λ t. t.1.files cfg.swu_path) e ∙ unlink-file cfg.mime_path cfg.swu_path s v h)))
        (unlink_log p cfg.mime_path v ∙ extracted_log boundary w true v e)
        (apply_file-Outcome (u.world.files cfg.swu_path) u refl)

  pub received_by-Taken :
      (boundary : Bytes) (r : Bool × Web)
      → (r.0 ≡ false × ((received_by p cfg boundary r).world.log ≡ r.1.world.log))
        ⊎ ((r.0 ≡ true) × Taken boundary r.1 (received_by p cfg boundary r))
  unfolding received_by
  received_by-Taken boundary (false, w) =
      let u = set_busy p cfg false (on_world (unlink p cfg.mime_path) w) in
      let answer : Bytes = text "{\"ok\":false,\"message\":\"接收上传失败\"}" in
      inl (
        refl,
        ap (λ x. x.log) (send_json_same 400 (text "Bad Request") answer u).0
            ∙ unlink_log p cfg.mime_path w.world,
      )
  received_by-Taken boundary (true, w) = inr (refl, extracted_by-Taken boundary w _ refl)
