-- ===== src/Cli/Mount/Correct.antt =====
-- exe/src/main.rs, the mount command: who may change what, and how each way of mounting ends.
use puzzlefs.Prelude.{◌≡◌, ◌⊎◌, true, false, List, some, [], ◌∷◌, ◌++◌}
use puzzlefs.Reader.Mount.{unnamed_pipe, Notice}
use puzzlefs.Cli.{Answer, done}
use puzzlefs.Cli.Background.{created_dir, MountLibrary, options_of}
use puzzlefs.Cli.Background.Tells.{Failed, Told}
use puzzlefs.Cli.Mount.{
  named, ro_name, Mount, wants_overlay, Prepared, Run, stopped, in_background, in_foreground,
}
use puzzlefs.Cli.Mount.Prepare.{Named, Stops, Overlaid}

-- The mount is made in this process, at the mountpoint; more is only sent where it failed.
abbrev pub InForeground :
    (l : MountLibrary) → Mount → Prepared l → List Notice → Answer (Unit {0}) → Type 0
InForeground l m p notices answer =
    let ran =
      l.spawn_mount p.image p.tag p.mountpoint (options_of m.options) (named l m.init_pipe)
        p.manifest_verity in
    (answer ≡ ran.1)
    × (((answer ≡ done tt) × (notices ≡ ran.0))
        ⊎ (Failed answer × ((more : List Notice) × (notices ≡ ran.0 ++ more))))

module _ (l : MountLibrary) where
  -- How a run ends. `Told` is about the mount that is made in another process, at the path that it
  -- names, and about the process that waits.
  abbrev pub Mounted : Mount → Run l → Type 0
  Mounted m (stopped e) = Stops l m e
  Mounted m (in_background actions b) =
      (p : Prepared l) × Named l m p
      × (((wants_overlay m ≡ true)
            × (l.is_root ≡ true)
            × (actions ≡ created_dir (l.join p.mountpoint ro_name) ∷ [])
            × Told l
                (l.mount p.image p.tag (l.join p.mountpoint ro_name) (options_of m.options)
                  (some unnamed_pipe) p.manifest_verity)
                (Overlaid l p.mountpoint (l.join p.mountpoint ro_name) m.persist) b)
          ⊎ ((wants_overlay m ≡ false)
              × (m.foreground ≡ false)
              × (actions ≡ [])
              × Told l
                  (l.mount p.image p.tag p.mountpoint (options_of m.options) (some unnamed_pipe)
                    p.manifest_verity)
                  (λ acts. acts ≡ []) b))
  Mounted m (in_foreground notices answer) =
      (p : Prepared l) × Named l m p
      × (wants_overlay m ≡ false)
      × (m.foreground ≡ true)
      × InForeground l m p notices answer
