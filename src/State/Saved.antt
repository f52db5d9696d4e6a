-- ===== src/State/Saved.antt =====
-- otaStateSave, and otaStateLoad after it.
use mathlib.Core.Path.{subst}
use alientek.Prelude.{
  ℕ, none, some, ◌++◌, ◌≡◌, ◌≢◌, ap, ◌∙◌, arith, if◌then◌else◌, length, length-append, Bytes, text,
  str_eq,
}
use alientek.Prelude.CLaws.{str_eq_iff, str_eq_refl}
use alientek.World.{World, Platform, Result, ok, err}
use alientek.State.{OtaState, IsState}
use alientek.State.Json.{write_state, read_state}
use alientek.State.RoundTrip.{read_state-write_state}
use alientek.State.Int.{print_nat}
use alientek.State.Store.{temp_path, save, load}

-- What a save does to the file `j`, by the value that it returns.
abbrev pub Replaces : Result (Unit {0}) → Bytes → OtaState → World → World → Bytes → Type 0
Replaces (ok _) path state w w' j =
    w'.files j ≡ (if str_eq j path then some (write_state state) else w.files j)
Replaces (err _) path state w w' j = w'.files j ≡ w.files j

-- Nothing but files and errno changes.
abbrev pub OnlyFiles : World → World → Type 0
OnlyFiles w w' = (w'.boot ≡ w.boot) × (w'.locks ≡ w.locks) × (w'.log ≡ w.log)

module _ (p : Platform) (path : Bytes) (state : OtaState) (w : World) where
  -- Whatever fails on the way, any file but the temporary one is as before the save; on success
  -- the file at `path` is the whole new text, and all other files but the temporary one are as before.
  pub save_atomic :
      (j : Bytes)
      → j ≢ temp_path p w path
      → let r = save p path state w in Replaces r.0 path state w r.1 j
  unfolding save
  save_atomic j ne = ground (arith, str_eq_iff j (temp_path p w path))

  -- A save touches nothing but files and errno.
  pub save-OnlyFiles : OnlyFiles w (save p path state w).1
  unfolding save
  save-OnlyFiles = ground arith

  path-ne-temp_path : path ≢ temp_path p w path
  unfolding temp_path
  path-ne-temp_path e = absurd (
      omega (
        arith,
        ap (length {A = ℕ}) e,
        length-append path (text ".tmp." ++ print_nat (p.pid w)),
        length-append (text ".tmp.") (print_nat (p.pid w)),
      ))

  load_content :
      (v : World) (content : Bytes) {s : OtaState}
      → v.files path ≡ some content
      → p.open_error v path ≡ none
      → p.read_error v path ≡ none
      → read_state content ≡ some s
      → load p path v ≡ (ok s, v)
  unfolding load
  load_content v content f o r e = ground arith

  -- After a save that reports success, a load from the same path gives the state that was saved, if
  -- the file can be opened and read.
  pub load-save :
      IsState state
      → (save p path state w).0 ≡ ok tt
      → p.open_error (save p path state w).1 path ≡ none
      → p.read_error (save p path state w).1 path ≡ none
      → load p path (save p path state w).1 ≡ (ok state, (save p path state w).1)
  load-save h done o r =
      load_content _ (write_state state) written o r (read_state-write_state state h)
    where
      Written : Result (Unit {0}) → Type 0
      Written r = Replaces r path state w (save p path state w).1 path

      written : (save p path state w).1.files path ≡ some (write_state state)
      written = subst Written done (save_atomic path path-ne-temp_path) ∙ rw (str_eq_refl path)
