-- ===== src/Examples/Mount.antt =====
-- Runs of the mount command.
use puzzlefs.Prelude.{◌≡◌, true, false, none, some, [], ◌∷◌, ◌++◌}
use puzzlefs.Errors.{ok}
use puzzlefs.Reader.Mount.{PipeHost, Fuser, fs_name, codes, mount, mount_option_from_str}
use puzzlefs.Reader.Mount.Options.{Known, text_of, mount_option-round_trip}
use puzzlefs.Cli.{done}
use puzzlefs.Cli.Background.{MountLibrary, forked}
use puzzlefs.Cli.Mount.{Mount}
use puzzlefs.Cli.Mount.Library.{answered}
use puzzlefs.Examples.{options, one_blob, digest_32}
use puzzlefs.Examples.Oci.{one_tag}

mount_option-round_trip_example :
    (text_of (mount_option_from_str (codes "fsname=a")) ≡ codes "fsname=a")
    × (Known (fs_name (codes "b"))
        → mount_option_from_str (text_of (fs_name (codes "b"))) ≡ fs_name (codes "b"))
mount_option-round_trip_example = mount_option-round_trip (codes "fsname=a") (fs_name (codes "b"))

abbrev pipes : PipeHost
pipes = record {
  pipe_takes = true;
  is_fifo = λ path. ok true;
  open_pipe = λ path. ok tt;
  named_pipe_takes = λ path. true;
}

-- Every mount is served and unmounted.
abbrev fuser : Fuser
fuser = record { mount2 = λ fs at options. ok (ok tt); spawn_mount2 = λ fs at options. ok tt }

-- The super user of a host where each call works.
abbrev by_root : MountLibrary
by_root = record {
  Image = Unit {0};
  is_root = true;
  init_syslog = done tt;
  canonicalize = λ path. done path;
  image_open = λ path. done tt;
  hex_decode = λ text. done digest_32;
  os_pipe = done tt;
  try_clone = done tt;
  pipe_takes = true;
  reads_pipe = true;
  open_pipe = λ path. done tt;
  named_pipe_takes = λ path. true;
  daemonize = forked (done tt);
  join = λ path name. path ++ 47 ∷ name;
  create_dir_all = λ path. done tt;
  overlay = λ lower upper work at. done tt;
  set_handler = done tt;
  mount = λ image tag at options' notify verity.
      answered (mount pipes fuser one_blob options one_tag "tag" at options' notify verity);
  spawn_mount = λ image tag at options' notify verity. ([], done tt);
}

abbrev writable : Mount
writable = record {
  oci_dir = codes "a:b";
  mountpoint = codes "m";
  foreground = false;
  init_pipe = none;
  options = none;
  digest = some (codes "00");
  writable = true;
  persist = none;
}
