-- ===== src/Reader/Mount/Options.antt =====
-- puzzlefs-lib/src/reader.rs, `mount_option_from_str`: no text of an option is lost.
use puzzlefs.Prelude.{
  ◌==◌, ==_iff, ◌≡◌, refl, sym, ap, ◌∙◌, Bytes, bytes_eq, bytes_eq_iff, Bool-cases, Option-cases,
  inl, inr, some, List, [], ◌∷◌, ◌++◌, All,
}
use puzzlefs.Reader.Mount.{
  MountOption, fs_name, subtype, custom, auto_unmount, allow_other, allow_root, default_permissions,
  dev, no_dev, suid, no_suid, ro, read_write, exec, no_exec, atime, no_atime, dir_sync, sync, async,
  codes, named_options, find_option, strip, mount_option_from_str,
}

-- How the documentation of `mount` writes an option.
abbrev pub text_of : MountOption → Bytes
text_of (fs_name x) = codes "fsname=" ++ x
text_of (subtype x) = codes "subtype=" ++ x
text_of (custom x) = x
text_of auto_unmount = codes "auto_unmount"
text_of allow_other = codes "allow_other"
text_of allow_root = codes "allow_root"
text_of default_permissions = codes "default_permissions"
text_of dev = codes "dev"
text_of no_dev = codes "nodev"
text_of suid = codes "suid"
text_of no_suid = codes "nosuid"
text_of ro = codes "ro"
text_of read_write = codes "rw"
text_of exec = codes "exec"
text_of no_exec = codes "noexec"
text_of atime = codes "atime"
text_of no_atime = codes "noatime"
text_of dir_sync = codes "dirsync"
text_of sync = codes "sync"
text_of async = codes "async"

-- An option that FUSE knows.
abbrev pub Known : MountOption → Type 0
Known (custom x) = ⊥
Known _ = Unit

find_option-text :
    (x : Bytes) (arms : List (Bytes × MountOption)) (o : MountOption)
    → All (λ (a : Bytes × MountOption). text_of a.1 ≡ a.0) arms
    → find_option x arms ≡ some o
    → text_of o ≡ x
unfolding find_option
find_option-text x [] o named found = cc
find_option-text x ((name, p) ∷ arms) o named found = elim (Bool-cases (bytes_eq x name)) [
  | inl same ↦
      let this : some p ≡ some o = rw (find_option, same) at found in
      let this' : p ≡ o = cc in
      ap text_of (sym this') ∙ named.0 ∙ sym ((bytes_eq_iff x name).0 same)
  | inr other ↦
      let later : find_option x arms ≡ some o = rw (find_option, other) at found in
      find_option-text x arms o named.1 later
]

strip-append : (p x y : Bytes) → strip p x ≡ some y → p ++ y ≡ x
unfolding strip
strip-append [] x y e = cc
strip-append (b ∷ p) [] y e = cc
strip-append (b ∷ p) (c ∷ x) y e = elim (Bool-cases (b == c)) [
  | inl same ↦
      let e' : strip p x ≡ some y = rw (strip, same) at e in
      let head = (==_iff b c).0 same in
      ap (λ l. b ∷ l) (strip-append p x y e') ∙ ap (λ d. d ∷ x) head
  | inr other ↦ absurd (cc (rw (strip, other) at e))
]

text_of-mount_option_from_str : (x : Bytes) → text_of (mount_option_from_str x) ≡ x
unfolding mount_option_from_str
text_of-mount_option_from_str x = elim (Option-cases (find_option x named_options)) [
  | inr (o, found) ↦
      let names : All (λ (a : Bytes × MountOption). text_of a.1 ≡ a.0) named_options = (
        refl,
        (
          refl,
          (
            refl,
            (
              refl,
              (
                refl,
                (
                  refl,
                  (
                    refl,
                    (
                      refl,
                      (refl, (refl, (refl, (refl, (refl, (refl, (refl, (refl, (refl, tt))))))))),
                    ),
                  ),
                ),
              ),
            ),
          ),
        ),
      ) in
      rw (mount_option_from_str, found) (find_option-text x named_options o names found)
  | inl unnamed ↦ elim (Option-cases (strip (codes "fsname=") x)) [
    | inr (y, of_name) ↦
        rw (mount_option_from_str, unnamed, of_name) (strip-append (codes "fsname=") x y of_name)
    | inl not_name ↦ elim (Option-cases (strip (codes "subtype=") x)) [
      | inr (y, of_type) ↦
          rw (mount_option_from_str, unnamed, not_name, of_type)
            (strip-append (codes "subtype=") x y of_type)
      | inl not_type ↦ rw (mount_option_from_str, unnamed, not_name, not_type)
    ]
  ]
]

mount_option_from_str-text : (o : MountOption) → Known o → mount_option_from_str (text_of o) ≡ o
unfolding mount_option_from_str
mount_option_from_str-text (fs_name x) known = refl
mount_option_from_str-text (subtype x) known = refl
mount_option_from_str-text (custom x) known = absurd known
mount_option_from_str-text auto_unmount known = refl
mount_option_from_str-text allow_other known = refl
mount_option_from_str-text allow_root known = refl
mount_option_from_str-text default_permissions known = refl
mount_option_from_str-text dev known = refl
mount_option_from_str-text no_dev known = refl
mount_option_from_str-text suid known = refl
mount_option_from_str-text no_suid known = refl
mount_option_from_str-text ro known = refl
mount_option_from_str-text read_write known = refl
mount_option_from_str-text exec known = refl
mount_option_from_str-text no_exec known = refl
mount_option_from_str-text atime known = refl
mount_option_from_str-text no_atime known = refl
mount_option_from_str-text dir_sync known = refl
mount_option_from_str-text sync known = refl
mount_option_from_str-text async known = refl

-- `mount_option_from_str` gives the option that has the text: written as `mount` has it, the option
-- is the text again, and a text that names an option which FUSE knows gives that option.
pub mount_option-round_trip :
    (x : Bytes) (o : MountOption)
    → (text_of (mount_option_from_str x) ≡ x) × (Known o → mount_option_from_str (text_of o) ≡ o)
mount_option-round_trip x o = (text_of-mount_option_from_str x, mount_option_from_str-text o)
