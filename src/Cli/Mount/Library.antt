-- ===== src/Cli/Mount/Library.antt =====
-- exe/src/main.rs and puzzlefs-lib/src/reader.rs: the library's `mount` as the command takes it.
use Prim.Native.String.{String}
use puzzlefs.Prelude.{◌≡◌, inl, inr, refl, true, Bytes, Option, some, List}
use puzzlefs.Errors.{ok, err, panic}
use puzzlefs.Format.Wire.{Capnp}
use puzzlefs.Compression.{Host}
use puzzlefs.Oci.Rootfs.{Oci}
use puzzlefs.Reader.Mount as Reader
use puzzlefs.Reader.Mount.{PipeHost, Fuser, Notice, unnamed_pipe, mount}
use puzzlefs.Reader.Mount.Notices as Notices
use puzzlefs.Reader.Mount.Notices.{mount-Notifies}
use puzzlefs.Cli.{Answer, fail, done, of_call, panicked}
use puzzlefs.Cli.Background.Tells.{Notifies}

abbrev pub answered : Reader.Run → List Notice × Answer (Unit {0})
answered (notices, ok u) = (notices, done u)
answered (notices, err e) = (notices, fail (of_call e))
answered (notices, panic) = (notices, fail panicked)

answered-Notifies : (run : Reader.Run) → Notices.Notifies run → Notifies (answered run)
answered-Notifies (notices, ok u) (inl served) = inl served
answered-Notifies (notices, err e) (inl served) = inl served
answered-Notifies (notices, panic) (inl served) = inl served
answered-Notifies (notices, ok u) (inr (silent, failed)) = absurd (failed refl)
answered-Notifies (notices, err e) (inr (silent, failed)) = inr (silent, tt)
answered-Notifies (notices, panic) (inr (silent, failed)) = inr (silent, tt)

-- What the command relies on of `mount` holds of it.
pub library-Notifies :
    (p : PipeHost) (f : Fuser) (h : Host) (c : Capnp) (oci : Oci h c) (tag : String)
    (mountpoint : Bytes) (options : List Bytes) (manifest_verity : Option Bytes)
    → p.pipe_takes ≡ true
    → Notifies
        (answered (mount p f h c oci tag mountpoint options (some unnamed_pipe) manifest_verity))
library-Notifies p f h c oci tag mountpoint options manifest_verity takes =
    answered-Notifies _ (mount-Notifies p f h c oci tag mountpoint options manifest_verity takes)
