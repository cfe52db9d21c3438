-- ===== src/Cli/Mount.antt =====
-- exe/src/main.rs, the mount command.
pub mod Prepare
pub mod Correct
pub mod Library
use puzzlefs.Prelude.{
  ◌||◌, ◌&&◌, not, Bool, true, false, Bytes, Option, none, some, List, [], ◌∷◌, ◌++◌, if◌then◌else◌,
}
use puzzlefs.Reader.Mount.{codes, PipeDescriptor, named_pipe, Notice, in_named_pipe, write_all}
use puzzlefs.Cli.{Failure, not_root, panicked, Answer, fail, done, ◌>>=◌, ◌>>◌, parse_oci_dir}
use puzzlefs.Cli.Background.{
  Action, created_dir, mounted_overlay, MountLibrary, Background, Steps, and_then, options_of,
  mount_background,
}

pub record Mount : Type 0 where
  pub oci_dir : Bytes
  pub mountpoint : Bytes
  pub foreground : Bool
  pub init_pipe : Option Bytes
  pub options : Option (List Bytes)
  pub digest : Option Bytes
  pub writable : Bool
  pub persist : Option Bytes

abbrev pub work_name : Bytes
work_name = codes "work"

abbrev pub upper_name : Bytes
upper_name = codes "upper"

abbrev pub ro_name : Bytes
ro_name = codes "ro"

-- Why the mount is needed as root.
abbrev pub wants_overlay : Mount → Bool
wants_overlay m = m.writable || (elim m.persist [ none ↦ false | some upperdir ↦ true ])

module _ (l : MountLibrary) where
  -- What the waiting process does for a writable mount.
  unfoldable pub mount_overlay : Bytes → Bytes → Option Bytes → Steps
  mount_overlay mountpoint pfs_mountpoint persist =
      let ovl_workdir = l.join mountpoint work_name in
      let ovl_upperdir : Bytes = elim persist [
        | none ↦ l.join mountpoint upper_name
        | some upperdir ↦ upperdir
      ] in
      and_then (created_dir ovl_workdir) (l.create_dir_all ovl_workdir) (
        and_then (created_dir ovl_upperdir) (l.create_dir_all ovl_upperdir) (
          and_then (mounted_overlay pfs_mountpoint ovl_upperdir ovl_workdir mountpoint)
            (l.overlay pfs_mountpoint ovl_upperdir ovl_workdir mountpoint) ([], done tt)))

  pub record Prepared : Type 0 where
    pub image : l.Image
    pub tag : Bytes
    pub mountpoint : Bytes
    pub manifest_verity : Option Bytes

  -- `m.digest.map(hex::decode).transpose()`
  abbrev pub decoded : Option Bytes → Answer (Option Bytes)
  decoded none = done none
  decoded (some digest) = do verity ← l.hex_decode digest; done (some verity)

  abbrev pub init_log : Mount → Answer (Unit {0})
  init_log m = if m.foreground then done tt else l.init_syslog

  abbrev pub check_user : Mount → Answer (Unit {0})
  check_user m = if wants_overlay m && not l.is_root then fail not_root else done tt

  -- The command up to the mount.
  unfoldable pub prepare : Mount → Answer Prepared
  unfolding parse_oci_dir
  prepare m = do
    init_log m
    check_user m
    (oci_dir, tag) ← parse_oci_dir m.oci_dir
    path ← l.canonicalize oci_dir
    image ← l.image_open path
    mountpoint ← l.canonicalize m.mountpoint
    manifest_verity ← decoded m.digest
    done (record {
      image = image;
      tag = tag;
      mountpoint = mountpoint;
      manifest_verity = manifest_verity;
    })

  -- How the command runs: it stops; the mount is in another process; or it is in this one, which
  -- waits for its end, if it could be made.
  pub data Run : Type 0 where
    stopped : Failure → Run
    in_background : List Action → Background → Run
    in_foreground : List Notice → Answer (Unit {0}) → Run

  unfoldable pub writable_mount : Mount → Prepared → Run
  unfolding mount_background mount_overlay
  writable_mount m p = elim l.os_pipe [
    | fail e ↦ stopped e
    | done _ ↦
        let pfs_mountpoint = l.join p.mountpoint ro_name in
        elim (l.create_dir_all pfs_mountpoint) [
          | fail e ↦ stopped e
          | done _ ↦ in_background (created_dir pfs_mountpoint ∷ []) (
              mount_background l p.image p.tag pfs_mountpoint m.options p.manifest_verity
                (mount_overlay p.mountpoint pfs_mountpoint m.persist))
        ]
  ]

  -- Who waits at the named pipe is told of a failure.
  unfoldable pub tell_named_pipe : Option Bytes → List Notice
  tell_named_pipe none = []
  tell_named_pipe (some pipe) = elim (l.open_pipe pipe) [
    | fail e ↦ []
    | done _ ↦ write_all (l.named_pipe_takes pipe) (in_named_pipe pipe b'f')
  ]

  abbrev pub named : Option Bytes → Option PipeDescriptor
  named none = none
  named (some pipe) = some (named_pipe pipe)

  unfoldable pub foreground_mount : Mount → Prepared → Run
  unfolding tell_named_pipe
  foreground_mount m p = elim l.set_handler [
    | fail e ↦ stopped panicked
    | done _ ↦
        let (notices, result) =
          l.spawn_mount p.image p.tag p.mountpoint (options_of m.options) (named m.init_pipe)
            p.manifest_verity in
        elim result [
          | fail e ↦ in_foreground (notices ++ tell_named_pipe m.init_pipe) (fail e)
          | done _ ↦ in_foreground notices (done tt)
        ]
  ]

  unfoldable pub background_mount : Mount → Prepared → Run
  unfolding mount_background
  background_mount m p = elim l.os_pipe [
    | fail e ↦ stopped e
    | done _ ↦
        in_background []
          (mount_background l p.image p.tag p.mountpoint m.options p.manifest_verity ([], done tt))
  ]

  -- By `m.writable || m.persist.is_some()` and `m.foreground`.
  abbrev pub mount_by : Bool → Bool → Mount → Prepared → Run
  mount_by true foreground m p = writable_mount m p
  mount_by false true m p = foreground_mount m p
  mount_by false false m p = background_mount m p

  -- `SubCommand::Mount`
  unfoldable pub mount_command : Mount → Run
  unfolding prepare writable_mount foreground_mount background_mount
  mount_command m = elim (prepare m) [
    | fail e ↦ stopped e
    | done p ↦ mount_by (wants_overlay m) m.foreground m p
  ]
