-- ===== src/Examples/Extractor.antt =====
-- Runs of puzzlefs-lib/src/extractor.rs.
use puzzlefs.Prelude.{true, some, ℕ, ◌≡◌, ◌↔◌, inr, refl, List, [], ◌∷◌, ◌++◌, map}
use puzzlefs.Errors.{ok}
use puzzlefs.Format.{InodeMode}
use puzzlefs.Reader.Lookup.{Component, normal, root_dir, parent_dir}
use puzzlefs.Reader.Walk.{DirEntry}
use puzzlefs.Extractor.SafePath.{HostPath, Stat, not_link, not_found, safe_path}
use puzzlefs.Extractor.SafePath.Correct.{Under, safe_path-Under}
use puzzlefs.Extractor.SafePath.Accepts.{IsOpen, safe_path-Accepts}
use puzzlefs.Extractor.Extract.{symlinkat, chown, ExtractHost, Extracted, extract_entry}
use puzzlefs.Extractor.Extract.Correct.{Confined, extract_entry-Under}
use puzzlefs.Examples.{root_inode}
use puzzlefs.Examples.Reader.{small_fs}

-- The target directory and everything that was created in it are there.
abbrev existing : HostPath → Stat
existing (d ∷ c ∷ e ∷ []) = not_found
existing _ = not_link

abbrev dir : HostPath
dir = (116 ∷ []) ∷ []

-- `/a/../b/c`
abbrev path : List Component
path = root_dir ∷ normal (97 ∷ []) ∷ parent_dir ∷ normal (98 ∷ []) ∷ normal (99 ∷ []) ∷ []

abbrev found : HostPath
found = (116 ∷ []) ∷ (98 ∷ []) ∷ (99 ∷ []) ∷ []

path-safe : safe_path existing dir path ≡ ok found
unfolding safe_path
path-safe = refl

safe_path-Under_example : (n : ℕ) × Under existing dir n found
safe_path-Under_example = safe_path-Under existing dir path found path-safe

-- `b` is there, and `b/c` is not.
safe_path-Accepts_example :
    (safe_path existing dir (root_dir ∷ map normal ((98 ∷ []) ∷ (99 ∷ []) ∷ []))
      ≡ ok (dir ++ (98 ∷ []) ∷ (99 ∷ []) ∷ []))
    ↔ IsOpen existing dir ((98 ∷ []) ∷ (99 ∷ []) ∷ [])
safe_path-Accepts_example = safe_path-Accepts existing dir ((98 ∷ []) ∷ (99 ∷ []) ∷ [])

-- Which it takes.
path-IsOpen : IsOpen existing dir ((98 ∷ []) ∷ (99 ∷ []) ∷ [])
path-IsOpen = (refl, inr refl)

abbrev host : ExtractHost
host = record {
  symlink_metadata = λ done. existing;
  may = λ done a. ok tt;
  runs_privileged = true;
  components = λ b. path;
  copy_size = 8;
}

abbrev before : Extracted
before = record { actions = []; host_to_pfs = [] }

-- A symbolic link to `/`.
abbrev link : DirEntry
link = record {
  path = 47 ∷ [];
  inode = record root_inode {
    mode = InodeMode.lnk;
    additional = some (record { xattrs = []; symlink_target = some (47 ∷ []) });
  };
}

-- The owner of `/` is changed.
abbrev after : Extracted
after = record {
  actions = symlinkat (47 ∷ []) found ∷ chown 0 0 found ∷ [];
  host_to_pfs = (1, found) ∷ [];
}

link-extracted : extract_entry host small_fs dir link before ≡ ok after
unfolding extract_entry
link-extracted = refl

extract_entry-Under_example :
    (p : HostPath) × (n : ℕ) × Under (host.symlink_metadata before.actions) dir n p
    × Confined host p link.inode before.actions after.actions
extract_entry-Under_example = extract_entry-Under host small_fs dir link before after link-extracted
