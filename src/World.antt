-- ===== src/World.antt =====
-- The machine that the agents run on: files, the U-Boot environment, locks, child processes, errno.
-- What the kernel, the C library and other programs decide is a `Platform`: functions of the whole
-- world, its log included, so the same call may be answered differently each time.
pub mod Globals
pub mod Laws
use alientek.World.Globals.{Session}
use alientek.Prelude.{
  ℕ, Bool, true, false, Option, none, some, List, [], ◌∷◌, if◌then◌else◌, Bytes, str_eq, text,
}

-- The values of errno that the sources set or test, and any other one.
pub data Errno : Type 0 where
  no_error enoent eagain eintr eio einval enodata enodev ebusy erange ebadmsg eoverflow enomsg
        eexist enospc emsgsize enotconn econnrefused enametoolong etimedout enosys :
      Errno
  other : ℕ → Errno

-- What leaves the process: a child with its arguments, a line on stdout, a second of sleep, a sleep
-- of so many milliseconds, the calls that reach the MQTT broker, and
-- the addresses where a broker is looked for, with the port and the time in milliseconds.
pub data Event : Type 0 where
  ran : List Bytes → Event
  printed : Bytes → Event
  slept : Event
  waited : ℕ → Event
  dialled : Bytes → Bytes → Event
  disconnected : Event
  subscribed : Bytes → Event
  published : Bytes → Bytes → Event
  probed : Bytes → ℕ → ℕ → Event

abbrev pub Store : Type 0
Store = Bytes → Option Bytes

-- The log has the newest event first.
pub record World : Type 0 where
  pub files : Store
  pub boot : Store
  pub locks : Bytes → Bool
  pub errno : Errno
  pub log : List Event
  -- g_pullProgressHighWater of ota-agent.cpp
  pub high_water : ℕ
  -- the globals of ota-mqtt.cpp
  pub mqtt : Session

-- How a child process ends: WIFEXITED with its status, or by a signal with its number.
pub data Exit : Type 0 where
  exited : ℕ → Exit
  killed : ℕ → Exit

-- A child that was started: what it leaves behind, what a pipe from its stdout delivers (or the
-- error of read), the errors of waitpid before it succeeds, and its end.
pub record Ran : Type 0 where
  pub files : Store
  pub boot : Store
  pub output : Bytes
  pub read_error : Option Errno
  pub wait_errors : List Errno
  pub exit : Exit

pub data Spawned : Type 0 where
  failed : Errno → Spawned
  started : Ran → Spawned

pub record Platform : Type 0 where
  pub pid : World → ℕ
  pub strerror : Errno → Bytes
  -- the reasons for which a call fails, `none` where it succeeds
  pub open_error : World → Bytes → Option Errno
  pub read_error : World → Bytes → Option Errno
  pub create_error : World → Bytes → Option Errno
  -- with the part of the text that reached the file
  pub write_error : World → Bytes → Bytes → Option (Errno × Bytes)
  pub rename_error : World → Bytes → Bytes → Option Errno
  pub unlink_error : World → Bytes → Option Errno
  pub lock_error : World → Bytes → Option Errno
  -- the name that mkstemp makes from a template, if it can create the file
  pub mkstemp : World → Bytes → Option Bytes
  pub pipe_error : World → Option Errno
  -- fork, exec and the run of a child
  pub spawn : World → List Bytes → Spawned

-- The result of a function: a value, or a failure with the text that its errorBuf holds.
pub data Result {ℓ} (A : Type ℓ) : Type ℓ where
  ok : A → Result A
  err : Bytes → Result A

abbrev pub Io : Type 0 → Type 0
Io A = World → Result A × World

infixl 5 ◌>>=◌ ◌>>◌
abbrev pub ◌>>=◌ : {A B : Type 0} → Io A → (A → Io B) → Io B
◌>>=◌ m f w = let r = m w in elim (r.0) [ ok a ↦ f a r.1 | err message ↦ (err message, r.1) ]

abbrev pub ◌>>◌ : {B : Type 0} → Io (Unit {0}) → Io B → Io B
m >> k = m >>= λ _. k

abbrev pub pure : {A : Type 0} → A → Io A
pure a w = (ok a, w)

abbrev pub set_errno : Errno → World → World
set_errno e w = record w { errno = e }

-- A failure that sets errno and leaves a message.
abbrev pub fail : {A : Type 0} → Errno → Bytes → Io A
fail e message w = (err message, set_errno e w)

abbrev pub update : Store → Bytes → Option Bytes → Store
update store key value k = if str_eq k key then value else store k

abbrev pub put_file : Bytes → Option Bytes → World → World
put_file path content w = record w { files = update w.files path content }

abbrev pub put_log : Event → World → World
put_log event w = record w { log = event ∷ w.log }

-- unlink, whose failure nobody looks at
unfoldable pub unlink : Platform → Bytes → World → World
unlink p path w = elim (p.unlink_error w path) [ none ↦ put_file path none w | some e ↦ w ]

-- The world after a child has been started.
unfoldable pub after_child : List Bytes → Ran → World → World
after_child args r w = record w { files = r.files; boot = r.boot; log = ran args ∷ w.log }

-- errno tests
unfoldable pub is_enoent : Errno → Bool
is_enoent enoent = true
is_enoent _ = false
