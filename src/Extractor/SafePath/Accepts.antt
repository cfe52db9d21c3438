-- ===== src/Extractor/SafePath/Accepts.antt =====
-- puzzlefs-lib/src/extractor.rs: which of the paths that a walk names `safe_path` takes as they are.
use puzzlefs.Prelude.{
  ℕ, ◌+◌, ◌≡◌, ◌⊎◌, ◌↔◌, inl, inr, refl, ap, sym, ◌∙◌, Bytes, List, [], ◌∷◌, ◌++◌, length, map,
  append_assoc, append-nil, length-append, arith,
}
use puzzlefs.Errors.{ok, ok-injective}
use puzzlefs.Reader.Lookup.{root_dir, normal}
use puzzlefs.Extractor.SafePath.{HostPath, Stat, not_link, not_found, push, path_loop, safe_path}
use puzzlefs.Extractor.SafePath.Correct.{Stat-cases}

module _ (symlink_metadata : HostPath → Stat) where
  -- Of each name before the last, the host says that it is there and is no link. Of the last it says
  -- this, or that it is not there.
  abbrev pub IsOpen : HostPath → List Bytes → Type 0
  IsOpen buf [] = Unit
  IsOpen buf (c ∷ []) =
      (symlink_metadata (push buf c) ≡ not_link) ⊎ (symlink_metadata (push buf c) ≡ not_found)
  IsOpen buf (c ∷ d ∷ cs) =
      (symlink_metadata (push buf c) ≡ not_link) × IsOpen (push buf c) (d ∷ cs)

  path_loop-ok :
      (names : List Bytes) (buf : HostPath) (level : ℕ)
      → IsOpen buf names
      → path_loop symlink_metadata (map normal names) buf level ≡ ok (buf ++ names)
  unfolding path_loop
  path_loop-ok [] buf level is_open = ap ok (sym (append-nil buf))
  path_loop-ok (c ∷ []) buf level (inl there) = rw there refl
  path_loop-ok (c ∷ []) buf level (inr new) = rw new refl
  path_loop-ok (c ∷ d ∷ cs) buf level is_open = rw is_open.0 (
      path_loop-ok (d ∷ cs) (push buf c) (level + 1) is_open.1
      ∙ ap ok (append_assoc buf (c ∷ []) (d ∷ cs)))

  path_loop-IsOpen :
      (names : List Bytes) (buf : HostPath) (level : ℕ)
      → path_loop symlink_metadata (map normal names) buf level ≡ ok (buf ++ names)
      → IsOpen buf names
  unfolding path_loop
  path_loop-IsOpen [] buf level e = tt
  path_loop-IsOpen (c ∷ []) buf level e =
      elim (Stat-cases symlink_metadata buf (symlink_metadata (push buf c))) [
        | inl (inl s) ↦ absurd (cc (rw (path_loop, s) at e))
        | inl (inr s) ↦ absurd (cc (rw (path_loop, s) at e))
        | inr s ↦ s
      ]
  path_loop-IsOpen (c ∷ d ∷ cs) buf level e =
      elim (Stat-cases symlink_metadata buf (symlink_metadata (push buf c))) [
        | inl (inl s) ↦ absurd (cc (rw (path_loop, s) at e))
        | inl (inr s) ↦ absurd (cc (rw (path_loop, s) at e))
        | inr (inl s) ↦ (
          s,
          path_loop-IsOpen (d ∷ cs) (push buf c) (level + 1)
              (rw (path_loop, s) at e ∙ ap ok (sym (append_assoc buf (c ∷ []) (d ∷ cs)))),
        )
        | inr (inr s) ↦
            let short : push buf c ≡ buf ++ c ∷ d ∷ cs = ok-injective (rw (path_loop, s) at e) in
            absurd (
              omega (
                arith,
                ap length short,
                length-append buf (c ∷ []),
                length-append buf (c ∷ d ∷ cs),
              ))
      ]

  -- An absolute path of names is taken as it is, below the target directory, exactly if the host says
  -- of each name before the last that it is there and is no symbolic link, and of the last that it is
  -- there and is no symbolic link, or that it is not there.
  pub safe_path-Accepts :
      (dir : HostPath) (names : List Bytes)
      → (safe_path symlink_metadata dir (root_dir ∷ map normal names) ≡ ok (dir ++ names))
        ↔ IsOpen dir names
  unfolding safe_path path_loop
  safe_path-Accepts dir names = (path_loop-IsOpen names dir 1, path_loop-ok names dir 1)
