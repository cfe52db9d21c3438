-- ===== src/Cli/Background.antt =====
-- exe/src/main.rs, `mount_background`: the process that serves the mount, the process that waits for
-- it, and the pipe between them.
pub mod Tells
use puzzlefs.Prelude.{
  ℕ, ◌==◌, ◌&&◌, Bool, true, false, Bytes, Option, none, some, List, [], ◌∷◌, ◌++◌, if◌then◌else◌,
}
use puzzlefs.Reader.Mount.{PipeDescriptor, unnamed_pipe, Notice, in_pipe, write_all}
use puzzlefs.Cli.{Failure, Answer, fail, done}

-- `Daemonize::start`: the process cannot be forked, or it is; then the child goes on, unless
-- something that makes it a daemon fails.
pub data Daemon : Type 0 where
  unforked : Failure → Daemon
  forked : Answer (Unit {0}) → Daemon

-- What the command changes on the host itself.
pub data Action : Type 0 where
  created_dir : Bytes → Action
  mounted_overlay : Bytes → Bytes → Bytes → Bytes → Action

-- What the command uses of the library and of the host. `overlay` takes the lower, the upper and the
-- work directory, and the mountpoint; `reads_pipe` tells whether the pipe can be read.
pub record MountLibrary : Type 1 where
  pub Image : Type 0
  pub is_root : Bool
  pub init_syslog : Answer (Unit {0})
  pub canonicalize : Bytes → Answer Bytes
  pub image_open : Bytes → Answer Image
  pub hex_decode : Bytes → Answer Bytes
  pub os_pipe : Answer (Unit {0})
  pub try_clone : Answer (Unit {0})
  pub pipe_takes : Bool
  pub reads_pipe : Bool
  pub open_pipe : Bytes → Answer (Unit {0})
  pub named_pipe_takes : Bytes → Bool
  pub daemonize : Daemon
  pub join : Bytes → Bytes → Bytes
  pub create_dir_all : Bytes → Answer (Unit {0})
  pub overlay : Bytes → Bytes → Bytes → Bytes → Answer (Unit {0})
  pub set_handler : Answer (Unit {0})
  pub mount :
      Image
      → Bytes
      → Bytes
      → List Bytes
      → Option PipeDescriptor
      → Option Bytes
      → List Notice × Answer (Unit {0})
  pub spawn_mount :
      Image
      → Bytes
      → Bytes
      → List Bytes
      → Option PipeDescriptor
      → Option Bytes
      → List Notice × Answer (Unit {0})

-- The process that was forked from: there is none, it waits for the pipe, or it exits with this
-- code after these actions.
pub data Parent : Type 0 where
  not_forked waits : Parent
  exits : ℕ → List Action → Parent

-- The process of the mount and the one that waits for it.
pub record Background : Type 0 where
  pub notices : List Notice
  pub answer : Answer (Unit {0})
  pub parent : Parent

-- The first byte in the unnamed pipe.
abbrev pub first_byte : List Notice → Option ℕ
first_byte [] = none
first_byte (in_pipe b ∷ notices) = some b
first_byte (_ ∷ notices) = first_byte notices

-- Actions one after the other, until one fails.
abbrev pub Steps : Type 0
Steps = List Action × Answer (Unit {0})

abbrev pub and_then : Action → Answer (Unit {0}) → Steps → Steps
and_then action (fail e) next = ([], fail e)
and_then action (done _) next = (action ∷ next.0, next.1)

abbrev pub options_of : Option (List Bytes) → List Bytes
options_of none = []
options_of (some options) = options

module _ (l : MountLibrary) where
  -- `exit_action`. A byte other than `f`, and a pipe that cannot be read, lead to the action of the
  -- parent, whose error is logged.
  unfoldable pub exit_action : Option ℕ → Steps → Parent
  exit_action none parent_action = if l.reads_pipe then waits else exits 0 parent_action.0
  exit_action (some b) parent_action =
      if l.reads_pipe && (b == b'f') then exits 1 [] else exits 0 parent_action.0

  -- `init_notify.write_all(b"f")`, on a failure.
  unfoldable pub report_failure : List Notice × Answer (Unit {0}) → List Notice × Answer (Unit {0})
  report_failure (notices, done _) = (notices, done tt)
  report_failure (notices, fail e) = (notices ++ write_all l.pipe_takes (in_pipe b'f'), fail e)

  -- The process of the mount.
  unfoldable pub child :
      l.Image
      → Bytes
      → Bytes
      → Option (List Bytes)
      → Option Bytes
      → Answer (Unit {0})
      → List Notice × Answer (Unit {0})
  child image tag mountpoint options manifest_verity (fail e) = ([], fail e)
  child image tag mountpoint options manifest_verity (done _) = elim l.try_clone [
    | fail e ↦ ([], fail e)
    | done _ ↦ l.mount image tag mountpoint (options_of options) (some unnamed_pipe) manifest_verity
  ]

  -- Both processes after the fork; `run` is that of the child.
  unfoldable pub both : List Notice × Answer (Unit {0}) → Steps → Background
  unfolding exit_action report_failure
  both run parent_action =
      let (notices, answer) = report_failure run in
      record {
        notices = notices;
        answer = answer;
        parent = exit_action (first_byte notices) parent_action;
      }

  -- `mount_background`, with what its callers do when it fails.
  unfoldable pub mount_background :
      l.Image → Bytes → Bytes → Option (List Bytes) → Option Bytes → Steps → Background
  unfolding report_failure child both
  mount_background image tag mountpoint options manifest_verity parent_action = elim l.daemonize [
    | unforked e ↦
        let (notices, answer) = report_failure ([], fail e) in
        record { notices = notices; answer = answer; parent = not_forked }
    | forked start ↦ both (child image tag mountpoint options manifest_verity start) parent_action
  ]
