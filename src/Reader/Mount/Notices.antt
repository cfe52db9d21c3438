-- ===== src/Reader/Mount/Notices.antt =====
-- puzzlefs-lib/src/reader.rs, `mount`: what the unnamed pipe gets.
use Prim.Native.String.{String}
use puzzlefs.Prelude.{◌≡◌, ◌⊎◌, inl, inr, refl, true, Bytes, Option, none, some, List, [], ◌∷◌}
use puzzlefs.Errors.{Result, ok, err, panic, Result-cases}
use puzzlefs.Format.Wire.{Capnp}
use puzzlefs.Compression.{Host}
use puzzlefs.Oci.Rootfs.{Oci}
use puzzlefs.Reader.Lookup.{PuzzleFs}
use puzzlefs.Reader.Mount.{
  PipeHost, Fuser, Run, Notice, in_pipe, unnamed_pipe, new, session, open_fs, mount, init, drop,
  notify,
}

-- The file system was served, and `s` was written first; or it was not, nothing was written, and the
-- caller gets the error.
abbrev pub Notifies : Run → Type 0
Notifies (notices, result) =
    ((rest : List Notice) × (notices ≡ in_pipe b's' ∷ rest))
    ⊎ ((notices ≡ []) × (result ≡ ok tt → ⊥))

module _ (p : PipeHost) (f : Fuser) (h : Host) (c : Capnp) (oci : Oci h c) where
  session-Notifies :
      (pfs : PuzzleFs) (ended : Result (Result (Unit {0})))
      → p.pipe_takes ≡ true
      → Notifies (session p (new pfs none (some unnamed_pipe)) ended)
  unfolding session init drop notify
  session-Notifies pfs (ok ended) takes = rw takes (inl ([], refl))
  session-Notifies pfs (err e) takes = inr (refl, λ x. cc)
  session-Notifies pfs panic takes = inr (refl, λ x. cc)

  pub mount-Notifies :
      (tag : String) (mountpoint : Bytes) (options : List Bytes) (manifest_verity : Option Bytes)
      → p.pipe_takes ≡ true
      → Notifies (mount p f h c oci tag mountpoint options (some unnamed_pipe) manifest_verity)
  unfolding mount
  mount-Notifies tag mountpoint options manifest_verity takes =
      elim (Result-cases (open_fs p f h c oci tag manifest_verity)) [
        | inl (pfs, opened) ↦ rw (mount, opened) (session-Notifies pfs _ takes)
        | inr (inl (e, failed)) ↦ rw (mount, failed) (inr (refl, λ x. cc))
        | inr (inr failed) ↦ rw (mount, failed) (inr (refl, λ x. cc))
      ]
