-- ===== src/Exec/Cmdline.antt =====
-- hasCmdlineToken and readCurrentSlot of ota-exec.cpp: which root file system the kernel has booted.
pub mod Token
pub mod Word
use alientek.Prelude.{
  ℕ, zero, suc, ◌+◌, ◌-◌, ◌≤◌, ◌<◌, Bool, true, false, ◌&&◌, ◌||◌, Option, none, some, List, [],
  ◌∷◌, ◌++◌, ◌==◌, ◌≡◌, ◌≢◌, ◌↔◌, ◌⊎◌, inl, inr, refl, sym, ap, ◌∙◌, arith, Bool-cases,
  Option-cases, if◌then◌else◌, length, take, drop, All, Bytes, fit, text, str_eq, starts_with,
  is_space, fgets,
}
use alientek.Prelude.CLaws.{length-drop-le}
use alientek.World.{
  World, Platform, Errno, eio, enodata, enodev, Result, ok, err, Io, ◌>>=◌, pure, fail, set_errno,
}
use alientek.Defaults.{Environment, read_path_setting}
use alientek.Exec.{read_environment_value, open_to_read}
use mathlib.Core.Option.{none-ne-some, some-injective}

-- match == cmdline || match[-1] == ' '; `none` is the start of the line
unfoldable pub starts_token : Option ℕ → Bool
starts_token none = true
starts_token (some c) = c == b' '

-- next == '\0' || isspace(next)
unfoldable pub ends_token : Bytes → Bool
unfolding is_space
ends_token [] = true
ends_token (c ∷ s) = is_space c

-- The last byte of a token, which is the byte before what follows it.
abbrev pub last_byte : ℕ → Bytes → ℕ
last_byte c [] = c
last_byte c (d ∷ s) = last_byte d s

module _ (c : ℕ) (cs : Bytes) where
  -- strstr for the token `c ∷ cs`, with the byte before the match
  unfoldable pub find_token : Option ℕ → Bytes → Option (Option ℕ × Bytes)
  unfolding starts_with
  find_token prev [] = none
  find_token prev (x ∷ s) =
      let rest = find_token (some x) s in
      if starts_with (x ∷ s) (c ∷ cs) then some (prev, x ∷ s) else rest

  -- The loop of hasCmdlineToken, from the position `s` behind the byte `prev`, on fuel.
  unfoldable pub token_loop : ℕ → Option ℕ → Bytes → Bool
  unfolding find_token starts_token ends_token
  token_loop zero prev s = false
  token_loop (suc fuel) prev s = elim (find_token prev s) [
    | none ↦ false
    | some (before, match) ↦
        let next = drop (suc (length cs)) match in
        let rest = token_loop fuel (some (last_byte c cs)) next in
        if starts_token before && ends_token next then true else rest
  ]

-- hasCmdlineToken. Every round moves on by the length of the token, so the length of the line is
-- fuel enough. No caller gives an empty token: for one, the source returns 1 where it gives true here,
-- and does not return elsewhere.
unfoldable pub has_cmdline_token : Bytes → Bytes → Bool
unfolding token_loop ends_token
has_cmdline_token cmdline [] = ends_token cmdline
has_cmdline_token cmdline (c ∷ cs) = token_loop c cs (suc (length cmdline)) none cmdline

module _ (p : Platform) (getenv : Environment) where
  -- Lines 315 to 322, and 323 to 330: whether the PARTUUID in the U-Boot environment is the root.
  unfoldable pub root_partuuid : Bytes → Bytes → World → Bool × World
  unfolding read_environment_value has_cmdline_token
  root_partuuid cmdline name w =
      let r = read_environment_value p 0 name 128 w in
      elim (r.0) [
        | err message ↦ (false, r.1)
        | ok [] ↦ (false, r.1)
        | ok (c ∷ uuid) ↦
            (has_cmdline_token cmdline (fit 160 (text "root=PARTUUID=" ++ (c ∷ uuid))), r.1)
      ]

  -- Lines 315 to 332.
  slot_by_uuid : Bytes → Io Bytes
  unfolding root_partuuid
  slot_by_uuid cmdline w =
      let (a, w1) = root_partuuid cmdline (text "rootfs_a_partuuid") w in
      let (b, w2) = root_partuuid cmdline (text "rootfs_b_partuuid") w1 in
      if a then (ok (text "A"), w1) else if b then (ok (text "B"), w2) else fail enodev [] w2

  -- Lines 307 to 332.
  unfoldable pub slot_of_cmdline : Bytes → Io Bytes
  unfolding has_cmdline_token slot_by_uuid
  slot_of_cmdline cmdline w =
      if has_cmdline_token cmdline (text "root=/dev/mmcblk0p2")
        || has_cmdline_token cmdline (text "root=PARTLABEL=rootfsA")
      then (ok (text "A"), w)
      else if has_cmdline_token cmdline (text "root=/dev/mmcblk0p3")
          || has_cmdline_token cmdline (text "root=PARTLABEL=rootfsB")
      then (ok (text "B"), w)
      else slot_by_uuid cmdline w

  -- Lines 299 to 306, on the content of the file.
  read_cmdline : Bytes → Bytes → Io Bytes
  unfolding fgets
  read_cmdline path content w = elim (p.read_error w path) [
    | some e ↦ fail eio [] w
    | none ↦ elim (fgets 2048 content) [
      | none ↦ fail enodata [] w
      | some (line, rest) ↦ (ok line, w)
    ]
  ]

  -- readCurrentSlot, for the buffer of 8 bytes that its caller has
  unfoldable pub read_current_slot : Io Bytes
  unfolding open_to_read read_cmdline slot_of_cmdline read_path_setting
  read_current_slot w =
      let path = read_path_setting getenv (text "BOARD_CMDLINE_FILE") (text "/proc/cmdline") in
      (open_to_read p path >>= read_cmdline path >>= slot_of_cmdline) w
