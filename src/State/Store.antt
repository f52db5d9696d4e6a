-- ===== src/State/Store.antt =====
-- otaStateSave and otaStateLoad, and the lock of the agent.
use alientek.Prelude.{true, false, none, some, [], ◌++◌, if◌then◌else◌, Bytes, text, str_eq}
use alientek.World.{
  World, Platform, Errno, enoent, eagain, eio, einval, no_error, Result, ok, err, Io, fail,
  set_errno, put_file, unlink,
}
use alientek.State.{OtaState}
use alientek.State.Int.{print_nat}
use alientek.State.Json.{write_state, read_state}

module _ (p : Platform) where
  -- createTempPath
  unfoldable pub temp_path : World → Bytes → Bytes
  temp_path w path = path ++ (text ".tmp." ++ print_nat (p.pid w))

  -- Lines 229 to 232 of otaStateSave.
  give_up : Bytes → Errno → World → Result (Unit {0}) × World
  unfolding unlink
  give_up temp e w = (err [], set_errno e (unlink p temp w))

  -- rename(tempPath, path)
  rename_temp : Bytes → Bytes → Bytes → World → Result (Unit {0}) × World
  unfolding give_up
  rename_temp temp path content w = elim (p.rename_error w temp path) [
    | some e ↦ give_up temp e w
    | none ↦ (ok tt, put_file temp none (put_file path (some content) w))
  ]

  -- writeAndCloseState, on the file that fopen emptied
  write_temp : Bytes → Bytes → Bytes → World → Result (Unit {0}) × World
  unfolding give_up rename_temp
  write_temp temp path content w = elim (p.write_error w temp content) [
    | some (e, part) ↦ give_up temp e (put_file temp (some part) w)
    | none ↦ rename_temp temp path content (put_file temp (some content) w)
  ]

  -- otaStateSave
  unfoldable pub save : Bytes → OtaState → Io (Unit {0})
  unfolding write_temp give_up
  save path state w =
      let temp = temp_path w path in
      elim (p.create_error w temp) [
        | some e ↦ give_up temp e w
        | none ↦ write_temp temp path (write_state state) (put_file temp (some []) w)
      ]

  -- Lines 250 to 265 of otaStateLoad, on a file that is open.
  unfoldable pub load_open : Bytes → Bytes → Io OtaState
  load_open path content w = elim (p.read_error w path) [
    | some no_error ↦ fail eio [] w
    | some e ↦ fail e [] w
    | none ↦ elim (read_state content) [ none ↦ fail einval [] w | some state ↦ (ok state, w) ]
  ]

  -- otaStateLoad
  unfoldable pub load : Bytes → Io OtaState
  unfolding load_open
  load path w = elim (w.files path) [
    | none ↦ fail enoent [] w
    | some content ↦ elim (p.open_error w path) [
      | some e ↦ fail e [] w
      | none ↦ load_open path content w
    ]
  ]

  -- otaStateAcquireLock: flock with LOCK_NB fails where another process holds the lock.
  unfoldable pub acquire_lock : Bytes → Io (Unit {0})
  acquire_lock path w = elim (p.lock_error w path) [
    | some e ↦ fail e [] w
    | none ↦
        if w.locks path
        then fail eagain [] w
        else (ok tt, record w { locks = λ k. if str_eq k path then true else w.locks k })
  ]

-- otaStateReleaseLock
unfoldable pub release_lock : Bytes → World → World
release_lock path w = record w { locks = λ k. if str_eq k path then false else w.locks k }
