-- ===== src/Examples/Cli.antt =====
-- Command lines.
use puzzlefs.Prelude.{◌≡◌, ◌≢◌, ◌⊎◌, ◌↔◌, List, refl, true, false, Bytes, [], ◌∷◌, ◌++◌, Lacks}
use puzzlefs.Cli.{
  done, colon, parse_oci_dir, MountHost, overlay_name, umount_command, Answer, MountInfo,
}
use puzzlefs.Cli.Correct.{parse_oci_dir-Accepts}
use puzzlefs.Cli.Unmount.{FirstMount, Unmounts, umount_command-done}

-- `a:b:`, with a colon at the end.
parse_oci_dir-Accepts_example :
    (parse_oci_dir (97 ∷ 58 ∷ 98 ∷ 58 ∷ []) ≡ done (97 ∷ [], 98 ∷ [])) ↔ (
      Lacks colon (97 ∷ [])
      × Lacks colon (98 ∷ [])
      × (((◌≡◌ {A = Bytes} (97 ∷ 58 ∷ 98 ∷ 58 ∷ []) ((97 ∷ []) ++ colon ∷ 98 ∷ []))
            × (◌≢◌ {A = Bytes} (98 ∷ []) []))
          ⊎ (◌≡◌ {A = Bytes}
              (97 ∷ 58 ∷ 98 ∷ 58 ∷ [])
              ((97 ∷ []) ++ colon ∷ ((98 ∷ []) ++ colon ∷ [])))))
parse_oci_dir-Accepts_example = parse_oci_dir-Accepts (97 ∷ 58 ∷ 98 ∷ 58 ∷ []) (97 ∷ []) (98 ∷ [])

-- The super user of a host with one overlay, on `m`.
abbrev one_overlay : MountHost
one_overlay = record {
  mounts = done (done (record { mount_point = 109 ∷ []; fstype = overlay_name }) ∷ []);
  is_root = true;
  join_ro = λ p. p ++ 47 ∷ 114 ∷ 111 ∷ [];
  may_umount = λ p. done tt;
  run_fusermount = λ p. done false;
}

umount_command-done_example :
    (infos : List (Answer MountInfo)) × (fstype : Bytes) × (one_overlay.mounts ≡ done infos)
    × FirstMount (109 ∷ []) fstype infos
    × Unmounts one_overlay
        (record { mountpoint = 109 ∷ [] })
        fstype
        (umount_command one_overlay (record { mountpoint = 109 ∷ [] })).0
unfolding umount_command
umount_command-done_example =
    umount_command-done one_overlay (record { mountpoint = 109 ∷ [] }) refl
