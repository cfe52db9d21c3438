-- ===== src/Cli/Unmount.antt =====
-- exe/src/main.rs, `SubCommand::Umount`: what a command to unmount that succeeds has done.
use puzzlefs.Prelude.{
  ◌≡◌, ◌≢◌, refl, subst, ◌⊎◌, inl, inr, Bool, true, false, Bytes, bytes_eq, bytes_eq_iff,
  Bool-cases, List, [], ◌∷◌, if◌then◌else◌,
}
use puzzlefs.Cli.{
  MountHost, MountInfo, Umount, Unmounting, umount, fusermount, ended_by, umount_overlay,
  umount_fuse, dispatch, umount_command, find_mount, get_mount_type, overlay_name, fuse_name,
  not_root, fusermount_failed, unknown_mount_type, ◌>>=◌, fail, done, Answer,
}
use puzzlefs.Cli.Answers.{>>=-eq-done}

both_done :
    (m : MountHost) (first second : Unmounting) (a b : Answer (Unit {0}))
    → (ended_by m first a (ended_by m second b ([], done tt))).1 ≡ done tt
    → (a ≡ done tt)
      × (b ≡ done tt)
      × ((ended_by m first a (ended_by m second b ([], done tt))).0 ≡ first ∷ second ∷ [])
both_done m first second (fail e) b ended = absurd (cc ended)
both_done m first second (done _) (fail e) ended = absurd (cc ended)
both_done m first second (done _) (done _) ended = (refl, refl, refl)

succeeded :
    (ran : Answer Bool)
    → ◌≡◌ {A = Answer (Unit {0})}
        (ran >>= λ success. if success then done tt else fail fusermount_failed)
        (done tt)
    → ran ≡ done true
succeeded (fail e) ended = cc
succeeded (done true) ended = refl
succeeded (done false) ended = cc

-- The first entry with the mountpoint, of those that can be parsed, has the type.
abbrev pub FirstMount : Bytes → Bytes → List (Answer MountInfo) → Type 0
FirstMount mountpoint fstype [] = ⊥
FirstMount mountpoint fstype (fail e ∷ infos) = FirstMount mountpoint fstype infos
FirstMount mountpoint fstype (done info ∷ infos) =
    ((info.mount_point ≡ mountpoint) × (info.fstype ≡ fstype))
    ⊎ ((info.mount_point ≢ mountpoint) × FirstMount mountpoint fstype infos)

module _ (m : MountHost) where
  overlay-done :
      (mp : Bytes)
      → (umount_overlay m mp).1 ≡ done tt
      → (m.is_root ≡ true)
        × (m.may_umount mp ≡ done tt)
        × (m.may_umount (m.join_ro mp) ≡ done tt)
        × ((umount_overlay m mp).0 ≡ umount mp ∷ umount (m.join_ro mp) ∷ [])
  unfolding umount_overlay
  overlay-done mp ended = elim (Bool-cases m.is_root) [
    | inl root ↦
        let (first, second, calls) =
          both_done m (umount mp) (umount (m.join_ro mp)) (m.may_umount mp)
            (m.may_umount (m.join_ro mp)) (rw root at ended) in
        (root, first, second, rw root calls)
    | inr other ↦
        let never : ◌≡◌ {A = Answer (Unit {0})} (fail not_root) (done tt) = rw other at ended in cc
  ]

  fuse-done :
      (mp : Bytes)
      → (umount_fuse m mp).1 ≡ done tt
      → (m.run_fusermount mp ≡ done true) × ((umount_fuse m mp).0 ≡ fusermount mp ∷ [])
  unfolding umount_fuse
  fuse-done mp ended = (succeeded (m.run_fusermount mp) ended, refl)

  -- The mount has this type, and these calls were made for it, in this order, all with success.
  abbrev pub Unmounts : Umount → Bytes → List Unmounting → Type 0
  Unmounts u fstype calls =
      ((fstype ≡ overlay_name)
        × (m.is_root ≡ true)
        × (m.may_umount u.mountpoint ≡ done tt)
        × (m.may_umount (m.join_ro u.mountpoint) ≡ done tt)
        × (calls ≡ umount u.mountpoint ∷ umount (m.join_ro u.mountpoint) ∷ []))
      ⊎ ((fstype ≡ fuse_name)
          × (m.run_fusermount u.mountpoint ≡ done true)
          × (calls ≡ fusermount u.mountpoint ∷ []))

  -- The end of the command, where the type of the mount is known.
  by_type :
      (u : Umount) (type : Answer Bytes)
      → (dispatch m u type).1 ≡ done tt
      → (fstype : Bytes) × (type ≡ done fstype) × Unmounts u fstype (dispatch m u type).0
  unfolding dispatch
  by_type u (fail e) ended = cc
  by_type u (done fstype) ended = elim (Bool-cases (bytes_eq fstype overlay_name)) [
    | inl overlay ↦
        let ended' : (umount_overlay m u.mountpoint).1 ≡ done tt = rw overlay at ended in
        let (root, first, second, calls) = overlay-done u.mountpoint ended' in
        (
          fstype,
          refl,
          inl ((bytes_eq_iff fstype overlay_name).0 overlay, root, first, second, rw overlay calls),
        )
    | inr other ↦ elim (Bool-cases (bytes_eq fstype fuse_name)) [
      | inl fuse ↦
          let ended' : (umount_fuse m u.mountpoint).1 ≡ done tt = rw (other, fuse) at ended in
          let (ran, calls) = fuse-done u.mountpoint ended' in
          (fstype, refl, inr ((bytes_eq_iff fstype fuse_name).0 fuse, ran, rw (other, fuse) calls))
      | inr unknown ↦
          let never : ◌≡◌ {A = Answer (Unit {0})} (fail unknown_mount_type) (done tt) =
            rw (other, unknown) at ended in
          cc
    ]
  ]

  find_mount-First :
      (mountpoint : Bytes) (infos : List (Answer MountInfo)) (info : MountInfo)
      → find_mount mountpoint infos ≡ done info
      → FirstMount mountpoint info.fstype infos
  unfolding find_mount
  find_mount-First mountpoint [] info found = absurd (cc found)
  find_mount-First mountpoint (fail e ∷ infos) info found =
      find_mount-First mountpoint infos info found
  find_mount-First mountpoint (done i ∷ infos) info found =
      elim (Bool-cases (bytes_eq i.mount_point mountpoint)) [
        | inl same ↦
            let is : ◌≡◌ {A = Answer MountInfo} (done i) (done info) =
              rw (find_mount, same) at found in
            inl ((bytes_eq_iff i.mount_point mountpoint).0 same, cc is)
        | inr other ↦ inr (
          λ e. cc (other, (bytes_eq_iff i.mount_point mountpoint).1 e),
          find_mount-First mountpoint infos info (rw (find_mount, other) at found),
        )
      ]

  -- Where the command to unmount succeeds, the first entry of the host's mounts that has the
  -- mountpoint, of those that can be parsed, is an overlay or a FUSE mount. For an overlay the user is
  -- root, and the calls made are two, that unmount first it and then the read-only mount below it, and
  -- the host answered both with success. For FUSE the one call made is `fusermount` on it, which ran
  -- and succeeded.
  pub umount_command-done :
      (u : Umount)
      → (umount_command m u).1 ≡ done tt
      → (infos : List (Answer MountInfo)) × (fstype : Bytes) × (m.mounts ≡ done infos)
        × FirstMount u.mountpoint fstype infos
        × Unmounts u fstype (umount_command m u).0
  unfolding umount_command get_mount_type
  umount_command-done u ended =
      let (fstype, typed, unmounts) = by_type u (get_mount_type m u.mountpoint) ended in
      let (infos, listed, typed1) = >>=-eq-done m.mounts _ typed in
      let (info, found, typed2) = >>=-eq-done (find_mount u.mountpoint infos) _ typed1 in
      let same : info.fstype ≡ fstype = cc typed2 in
      (
        infos,
        fstype,
        listed,
        subst (λ t. FirstMount u.mountpoint t infos) same
            (find_mount-First u.mountpoint infos info found),
        unmounts,
      )
