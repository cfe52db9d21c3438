-- ===== src/Cli/Mount/Prepare.antt =====
-- exe/src/main.rs, the mount command: what it mounts, why it stops, and what is done for a writable
-- mount.
use puzzlefs.Prelude.{
  ◌≡◌, ◌⊎◌, inl, inr, refl, sym, ap, subst, true, false, Bool-cases, Bytes, Option, none, some,
  List, [], ◌∷◌,
}
use puzzlefs.Cli.{Failure, Answer, fail, done, not_root, panicked, parse_oci_dir}
use puzzlefs.Cli.Answers.{Answer-cases, >>=-eq-done, >>=-eq-fail}
use puzzlefs.Cli.Background.{Action, created_dir, mounted_overlay, MountLibrary}
use puzzlefs.Cli.Background.Tells.{Failed}
use puzzlefs.Cli.Mount.{
  work_name, upper_name, Mount, wants_overlay, decoded, Prepared, prepare, check_user, init_log,
  mount_overlay,
}

done-injective {κ} : {T : Type κ} {a b : T} → done a ≡ done b → a ≡ b
done-injective {T = T} {a = a} e = ap (λ (x : Answer T). elim x [ done t ↦ t | fail _ ↦ a ]) e

module _ (l : MountLibrary) where
  -- The digest that was given decodes to these bytes, or there is none.
  abbrev pub Decodes : Option Bytes → Option Bytes → Type 0
  Decodes none verity = verity ≡ none
  Decodes (some digest) verity =
      (bytes : Bytes) × (l.hex_decode digest ≡ done bytes) × (verity ≡ some bytes)

  -- What is mounted is what the arguments name: the image in the directory before the colon, its tag
  -- after the colon, the mountpoint, and the digest.
  abbrev pub Named : Mount → Prepared l → Type 0
  Named m p =
      ((dir : Bytes) × (path : Bytes) × (parse_oci_dir m.oci_dir ≡ done (dir, p.tag))
        × (l.canonicalize dir ≡ done path)
        × (l.image_open path ≡ done p.image))
      × (l.canonicalize m.mountpoint ≡ done p.mountpoint)
      × Decodes m.digest p.manifest_verity

  -- Why the command stops: the user may not make a writable mount, or a call failed.
  pub data Stops (m : Mount) : Failure → Type 0 where
    no_log : (e : Failure) → m.foreground ≡ false → l.init_syslog ≡ fail e → Stops m e
    no_user : wants_overlay m ≡ true → l.is_root ≡ false → Stops m not_root
    no_names : (e : Failure) → parse_oci_dir m.oci_dir ≡ fail e → Stops m e
    no_path : (e : Failure) (path : Bytes) → l.canonicalize path ≡ fail e → Stops m e
    no_image : (e : Failure) (path : Bytes) → l.image_open path ≡ fail e → Stops m e
    no_digest :
        (e : Failure) (digest : Bytes)
        → m.digest ≡ some digest
        → l.hex_decode digest ≡ fail e
        → Stops m e
    no_pipe : (e : Failure) → l.os_pipe ≡ fail e → Stops m e
    no_dir :
        (e : Failure) (path : Bytes)
        → wants_overlay m ≡ true
        → l.create_dir_all path ≡ fail e
        → Stops m e
    no_handler :
        (e : Failure)
        → wants_overlay m ≡ false
        → m.foreground ≡ true
        → l.set_handler ≡ fail e
        → Stops m panicked

  decoded-Decodes :
      (digest verity : Option Bytes) → decoded l digest ≡ done verity → Decodes digest verity
  decoded-Decodes none verity e = cc e
  decoded-Decodes (some digest) verity e =
      let (bytes, reads, is) = >>=-eq-done (l.hex_decode digest) _ e in (bytes, reads, cc is)

  decoded-Stops :
      (m : Mount) (digest : Option Bytes) (e : Failure)
      → m.digest ≡ digest
      → decoded l digest ≡ fail e
      → Stops m e
  decoded-Stops m none e given failed = absurd (cc failed)
  decoded-Stops m (some digest) e given failed = elim (>>=-eq-fail (l.hex_decode digest) _ failed) [
    | inl why ↦ no_digest e digest given why
    | inr (bytes, reads, is) ↦ absurd (cc is)
  ]

  init_log-Stops : (m : Mount) (e : Failure) → init_log l m ≡ fail e → Stops m e
  init_log-Stops m e failed = elim (Bool-cases m.foreground) [
    | inl front ↦ absurd (cc (rw front at failed))
    | inr behind ↦ no_log e behind (rw behind at failed)
  ]

  check_user-Stops : (m : Mount) (e : Failure) → check_user l m ≡ fail e → Stops m e
  check_user-Stops m e failed = elim (Bool-cases (wants_overlay m)) [
    | inr plain ↦ absurd (cc (rw plain at failed))
    | inl wants ↦ elim (Bool-cases l.is_root) [
      | inl root ↦ absurd (cc (rw (wants, root) at failed))
      | inr other ↦
          let is : ◌≡◌ {A = Answer (Unit {0})} (fail not_root) (fail e) =
            rw (wants, other) at failed in
          let same : not_root ≡ e = cc is in subst (Stops m) same (no_user wants other)
    ]
  ]

  pub prepare-Stops : (m : Mount) (e : Failure) → prepare l m ≡ fail e → Stops m e
  unfolding prepare
  prepare-Stops m e failed = elim (>>=-eq-fail (init_log l m) _ failed) [
    | inl why ↦ init_log-Stops m e why
    | inr (_, _, h1) ↦ elim (>>=-eq-fail (check_user l m) _ h1) [
      | inl why ↦ check_user-Stops m e why
      | inr (_, _, h2) ↦ elim (>>=-eq-fail (parse_oci_dir m.oci_dir) _ h2) [
        | inl why ↦ no_names e why
        | inr ((dir, tag), _, h3) ↦ elim (>>=-eq-fail (l.canonicalize dir) _ h3) [
          | inl why ↦ no_path e dir why
          | inr (path, _, h4) ↦ elim (>>=-eq-fail (l.image_open path) _ h4) [
            | inl why ↦ no_image e path why
            | inr (image, _, h5) ↦ elim (>>=-eq-fail (l.canonicalize m.mountpoint) _ h5) [
              | inl why ↦ no_path e m.mountpoint why
              | inr (mountpoint, _, h6) ↦ elim (>>=-eq-fail (decoded l m.digest) _ h6) [
                | inl why ↦ decoded-Stops m m.digest e refl why
                | inr (verity, _, h7) ↦ absurd (cc h7)
              ]
            ]
          ]
        ]
      ]
    ]
  ]

  pub prepare-Named : (m : Mount) (p : Prepared l) → prepare l m ≡ done p → Named m p
  unfolding prepare
  prepare-Named m p prepared =
      let (_, _, h1) = >>=-eq-done (init_log l m) _ prepared in
      let (_, _, h2) = >>=-eq-done (check_user l m) _ h1 in
      let ((dir, tag), parsed, h3) = >>=-eq-done (parse_oci_dir m.oci_dir) _ h2 in
      let (path, at, h4) = >>=-eq-done (l.canonicalize dir) _ h3 in
      let (image, opened, h5) = >>=-eq-done (l.image_open path) _ h4 in
      let (mountpoint, on, h6) = >>=-eq-done (l.canonicalize m.mountpoint) _ h5 in
      let (verity, reads, h7) = >>=-eq-done (decoded l m.digest) _ h6 in
      let found : Prepared l = record {
        image = image;
        tag = tag;
        mountpoint = mountpoint;
        manifest_verity = verity;
      } in
      let same : found ≡ p = done-injective h7 in
      subst (Named m) same
        ((dir, path, parsed, at, opened), on, decoded-Decodes m.digest verity reads)

  -- The directories of the overlay, and then the overlay over the mount at `lower`, are made, unless
  -- one of the calls fails, which is the end.
  abbrev pub Overlaid : Bytes → Bytes → Option Bytes → List Action → Type 0
  Overlaid mountpoint lower persist acts =
      (work : Bytes) × (upper : Bytes) × (work ≡ l.join mountpoint work_name)
      × (((persist ≡ none) × (upper ≡ l.join mountpoint upper_name)) ⊎ (persist ≡ some upper))
      × ((acts
            ≡ created_dir work
              ∷ created_dir upper
              ∷ mounted_overlay lower upper work mountpoint
              ∷ [])
          ⊎ ((Failed (l.create_dir_all work) × (acts ≡ []))
              ⊎ ((Failed (l.create_dir_all upper) × (acts ≡ created_dir work ∷ []))
                  ⊎ (Failed (l.overlay lower upper work mountpoint)
                      × (acts ≡ created_dir work ∷ created_dir upper ∷ [])))))

  Failed-fail : (a : Answer (Unit {0})) (e : Failure) → a ≡ fail e → Failed a
  Failed-fail a e failed = subst Failed (sym failed) tt

  overlay_acts :
      (mountpoint lower upper : Bytes) (persist : Option Bytes)
      → (((persist ≡ none) × (upper ≡ l.join mountpoint upper_name)) ⊎ (persist ≡ some upper))
      → (elim persist [ none ↦ l.join mountpoint upper_name | some u ↦ u ]) ≡ upper
      → Overlaid mountpoint lower persist (mount_overlay l mountpoint lower persist).0
  unfolding mount_overlay
  overlay_acts mountpoint lower upper persist kind is =
      let work = l.join mountpoint work_name in
      (
        work,
        upper,
        refl,
        kind,
        elim (Answer-cases (l.create_dir_all work)) [
          | inl (e, failed) ↦
              inr (inl (Failed-fail (l.create_dir_all work) e failed, rw (mount_overlay, failed)))
          | inr (_, first) ↦ elim (Answer-cases (l.create_dir_all upper)) [
            | inl (e, failed) ↦ inr (
                inr (
                  inl (
                    Failed-fail (l.create_dir_all upper) e failed,
                    rw (mount_overlay, first, is, failed),
                  )))
            | inr (_, second) ↦ elim (Answer-cases (l.overlay lower upper work mountpoint)) [
              | inl (e, failed) ↦ inr (
                  inr (
                    inr (
                      Failed-fail (l.overlay lower upper work mountpoint) e failed,
                      rw (mount_overlay, first, is, second, failed),
                    )))
              | inr (_, third) ↦ inl (rw (mount_overlay, first, is, second, third))
            ]
          ]
        ],
      )

  pub mount_overlay-Overlaid :
      (mountpoint lower : Bytes) (persist : Option Bytes)
      → Overlaid mountpoint lower persist (mount_overlay l mountpoint lower persist).0
  mount_overlay-Overlaid mountpoint lower none =
      overlay_acts mountpoint lower (l.join mountpoint upper_name) none (inl (refl, refl)) refl
  mount_overlay-Overlaid mountpoint lower (some upper) =
      overlay_acts mountpoint lower upper (some upper) (inr refl) refl
