-- ===== src/Cli/Background/Tells.antt =====
-- exe/src/main.rs, `mount_background`: the process that waits is told how the mount went.
use puzzlefs.Prelude.{
  ◌≡◌, ◌⊎◌, inl, inr, refl, sym, subst, append-nil, true, Bytes, Option, some, List, [], ◌∷◌, ◌++◌,
}
use puzzlefs.Reader.Mount.{unnamed_pipe, Notice, in_pipe, write_all}
use puzzlefs.Cli.{Failure, Answer, fail, done}
use puzzlefs.Cli.Answers.{Answer-cases}
use puzzlefs.Cli.Background.{
  Action, Daemon, unforked, forked, MountLibrary, not_forked, exits, Background, Steps, options_of,
  exit_action, report_failure, child, both, mount_background,
}

abbrev pub Failed : Answer (Unit {0}) → Type 0
Failed (fail e) = Unit
Failed (done _) = ⊥

-- `s` came first; or nothing came, and the call failed.
abbrev pub Notifies : List Notice × Answer (Unit {0}) → Type 0
Notifies (notices, answer) =
    ((rest : List Notice) × (notices ≡ in_pipe b's' ∷ rest)) ⊎ ((notices ≡ []) × Failed answer)

Daemon-cases :
    (d : Daemon)
    → ((e : Failure) × (d ≡ unforked e)) ⊎ ((start : Answer (Unit {0})) × (d ≡ forked start))
Daemon-cases (unforked e) = inl (e, refl)
Daemon-cases (forked start) = inr (start, refl)

module _ (l : MountLibrary) where
  -- What is relied on of the library's `mount`.
  abbrev pub MountNotifies : Type 0
  MountNotifies =
      (image : l.Image) (tag mountpoint : Bytes) (options : List Bytes)
      (manifest_verity : Option Bytes)
      → Notifies (l.mount image tag mountpoint options (some unnamed_pipe) manifest_verity)

  -- The run of the mount is `ran`: the file system was served, and the waiting process acts and
  -- exits with 0; it was not and the waiting process exits with 1; or there is none.
  abbrev pub Told : List Notice × Answer (Unit {0}) → (List Action → Type 0) → Background → Type 0
  Told ran Acts b =
      (((acts : List Action) × (b.parent ≡ exits 0 acts) × Acts acts)
        × (b.answer ≡ ran.1)
        × ((more : List Notice) × (b.notices ≡ ran.0 ++ more))
        × ((rest : List Notice) × (b.notices ≡ in_pipe b's' ∷ rest)))
      ⊎ (((b.parent ≡ exits 1 []) × Failed b.answer × (b.notices ≡ in_pipe b'f' ∷ []))
          ⊎ ((b.parent ≡ not_forked) × Failed b.answer))

  -- The run of the child is `ran`, and `s` came first; or nothing came, and it failed.
  abbrev Follows : List Notice × Answer (Unit {0}) → List Notice × Answer (Unit {0}) → Type 0
  Follows ran run =
      ((run ≡ ran) × ((rest : List Notice) × (run.0 ≡ in_pipe b's' ∷ rest)))
      ⊎ ((run.0 ≡ []) × Failed run.1)

  Notifies-Follows : (ran : List Notice × Answer (Unit {0})) → Notifies ran → Follows ran ran
  Notifies-Follows ran (inl first) = inl (refl, first)
  Notifies-Follows ran (inr failed) = inr failed

  child-Follows :
      (image : l.Image) (tag mountpoint : Bytes) (options : Option (List Bytes))
      (manifest_verity : Option Bytes) (start : Answer (Unit {0}))
      → MountNotifies
      → Follows
          (l.mount image tag mountpoint (options_of options) (some unnamed_pipe) manifest_verity)
          (child l image tag mountpoint options manifest_verity start)
  unfolding child
  child-Follows image tag mountpoint options verity (fail e) mounts = inr (refl, tt)
  child-Follows image tag mountpoint options verity (done _) mounts =
      elim (Answer-cases l.try_clone) [
        | inl (e, failed) ↦ rw (child, failed) (inr (refl, tt))
        | inr (u, cloned) ↦
            rw (child, cloned)
              (Notifies-Follows
                (l.mount image tag mountpoint (options_of options) (some unnamed_pipe) verity)
                (mounts image tag mountpoint (options_of options) verity))
      ]

  both-Told :
      (run ran : List Notice × Answer (Unit {0})) (parent_action : Steps)
      (Acts : List Action → Type 0)
      → l.pipe_takes ≡ true
      → l.reads_pipe ≡ true
      → Acts parent_action.0
      → Follows ran run
      → Told ran Acts (both l run parent_action)
  unfolding both exit_action report_failure
  both-Told (notices, fail e) ran parent_action Acts takes reads acts (inl (same, (rest, first))) =
      let sent = write_all l.pipe_takes (in_pipe b'f') in
      subst (λ r. Told r Acts (both l (notices, fail e) parent_action)) same
        (inl (
          (parent_action.0, rw (both, first, reads), acts),
          refl,
          (sent, refl),
          (rest ++ sent, rw (both, first)),
        ))
  both-Told (notices, done _) ran parent_action Acts takes reads acts (inl (same, (rest, first))) =
      subst (λ r. Told r Acts (both l (notices, done tt) parent_action)) same
        (inl (
          (parent_action.0, rw (both, first, reads), acts),
          refl,
          ([], sym (append-nil notices)),
          (rest, rw (both, first)),
        ))
  both-Told (notices, fail e) ran parent_action Acts takes reads acts (inr (none_sent, failed)) =
      inr (inl (rw (both, none_sent, takes, reads), tt, rw (both, none_sent, takes)))
  both-Told (notices, done _) ran parent_action Acts takes reads acts (inr (none_sent, failed)) =
      absurd failed

  -- Where the pipe can be written and read, the process that waits for a mount in the background does
  -- not wait for ever. It acts and exits with 0 exactly if the file system was served, which is when
  -- `s` came first in the pipe. Otherwise it exits with 1 and does nothing, the mount failed in the
  -- other process, and `f` is all that was sent. Where no process could be forked, the command fails.
  pub mount_background-Told :
      (image : l.Image) (tag mountpoint : Bytes) (options : Option (List Bytes))
      (manifest_verity : Option Bytes) (parent_action : Steps) (Acts : List Action → Type 0)
      → l.pipe_takes ≡ true
      → l.reads_pipe ≡ true
      → MountNotifies
      → Acts parent_action.0
      → Told
          (l.mount image tag mountpoint (options_of options) (some unnamed_pipe) manifest_verity)
          Acts
          (mount_background l image tag mountpoint options manifest_verity parent_action)
  unfolding mount_background report_failure
  mount_background-Told image tag mountpoint options verity parent_action Acts takes reads mounts
        acts =
      elim (Daemon-cases l.daemonize) [
        | inl (e, alone) ↦ rw (mount_background, alone) (inr (inr (refl, tt)))
        | inr (start, two) ↦
            rw (mount_background, two)
              (both-Told (child l image tag mountpoint options verity start)
                (l.mount image tag mountpoint (options_of options) (some unnamed_pipe) verity)
                parent_action Acts takes reads acts
                (child-Follows image tag mountpoint options verity start mounts))
      ]
