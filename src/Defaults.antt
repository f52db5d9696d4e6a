-- ===== src/Defaults.antt =====
-- ota-defaults.cpp: the settings file under /etc/default and the environment it fills in.
pub mod Trim
pub mod Assign
pub mod Load
use alientek.Prelude.{
  ℕ, zero, suc, ◌-◌, Bool, true, false, not, ◌&&◌, ◌||◌, Option, none, some, List, [], ◌∷◌, ◌==◌,
  if◌then◌else◌, Bytes, is_space, str_eq, starts_with, str_chr, before, skip_while, drop, fgets,
  length, text,
}

-- The environment of the process: getenv.
abbrev pub Environment : Type 0
Environment = Bytes → Option Bytes

-- otaReadPathSetting
unfoldable pub read_path_setting : Environment → Bytes → Bytes → Bytes
read_path_setting env name default_path = elim (env name) [
  | none ↦ default_path
  | some [] ↦ default_path
  | some (c ∷ cs) ↦ c ∷ cs
]

-- The loop of otaTrimInPlace that cuts blanks off the end.
unfoldable pub trim_end : Bytes → Bytes
trim_end [] = []
trim_end (c ∷ cs) = elim (trim_end cs) [
  | [] ↦ if is_space c then [] else c ∷ []
  | d ∷ ds ↦ c ∷ d ∷ ds
]

-- The first byte that is no blank is never cut off (`end > text`).
trim_from : Bytes → Bytes
trim_from [] = []
trim_from (c ∷ cs) = c ∷ trim_end cs

-- otaTrimInPlace
unfoldable pub trim : Bytes → Bytes
unfolding trim_from skip_while
trim s = trim_from (skip_while is_space s)

-- `value` without its last byte, if that byte is `quote`
unfoldable pub strip_last : ℕ → Bytes → Option Bytes
strip_last quote [] = none
strip_last quote (c ∷ []) = if c == quote then some [] else none
strip_last quote (c ∷ d ∷ ds) = elim (strip_last quote (d ∷ ds)) [
  | none ↦ none
  | some v ↦ some (c ∷ v)
]

-- Lines 60 to 68: a value in a pair of equal quotes loses them.
unfoldable pub unquote : Bytes → Bytes
unfolding strip_last
unquote [] = []
unquote (q ∷ v) =
    if q == b'"' || q == b'\'' then elim (strip_last q v) [ none ↦ q ∷ v | some w ↦ w ] else q ∷ v

-- Lines 69 to 71, where the key is empty.
keyed : Bytes → Bytes → Option (Bytes × Bytes)
keyed [] value = none
keyed (c ∷ key) value = some (c ∷ key, value)

-- The parts before and behind the first `=`; with nothing before it the line is ignored.
assign_parts : Bytes → Bytes → Option (Bytes × Bytes)
unfolding keyed
assign_parts [] rest = none
assign_parts (c ∷ name) rest = keyed (trim (c ∷ name)) (unquote (trim rest))

-- Lines 53 to 71.
unfoldable pub split_assignment : Bytes → Option (Bytes × Bytes)
unfolding assign_parts
split_assignment line = elim (str_chr line b'=') [
  | some (equals ∷ rest) ↦ assign_parts (before (λ c. c == b'=') line) rest
  | _ ↦ none
]

-- Lines 50 to 52.
drop_export : Bytes → Bytes
unfolding starts_with
drop_export line = if starts_with line (text "export ") then trim (drop 7 line) else line

-- What a line assigns, if it assigns anything.
unfoldable pub parse_assignment : Bytes → Option (Bytes × Bytes)
unfolding split_assignment drop_export
parse_assignment line = elim (trim line) [
  | [] ↦ none
  | c ∷ cs ↦ if c == b'#' then none else split_assignment (drop_export (c ∷ cs))
]

-- setenv(key, value, 0) of libc: a variable that is there stays as it is. `room` says whether
-- there is memory for a new one.
unfoldable pub setenv : (Bytes → Bytes → Bool) → Bytes → Bytes → Environment → Environment × Bool
setenv room key value env = elim (env key) [
  | some old ↦ (env, true)
  | none ↦
      if room key value
      then (λ k. if str_eq k key then some value else env k, true)
      else (env, false)
]

module _ (room : Bytes → Bytes → Bool) where
  -- otaApplyDefaultAssignment: the environment, and whether the function returns 0
  unfoldable pub apply_default_assignment : Bytes → Environment → Environment × Bool
  unfolding setenv
  apply_default_assignment line env = elim (parse_assignment line) [
    | none ↦ (env, true)
    | some (key, value) ↦ elim (env key) [
      | some (c ∷ cs) ↦ (env, true)
      | _ ↦ setenv room key value env
    ]
  ]

  -- The loop of otaLoadDefaultFile, with its 512-byte buffer. Each round takes a byte at least, so
  -- the length of the file is fuel enough.
  load_lines : ℕ → Bytes → Environment → Environment
  load_lines zero file env = env
  load_lines (suc fuel) file env = elim (fgets 512 file) [
    | none ↦ env
    | some (line, rest) ↦ load_lines fuel rest (apply_default_assignment line env).0
  ]

  -- otaLoadDefaultFile: `open_file` is fopen(path, "r")
  unfoldable pub load_default_file : (Bytes → Option Bytes) → Bytes → Environment → Environment
  unfolding load_lines
  load_default_file open_file [] env = env
  load_default_file open_file (c ∷ path) env = elim (open_file (c ∷ path)) [
    | none ↦ env
    | some file ↦ load_lines (length file) file env
  ]
