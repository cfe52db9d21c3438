-- ===== src/Extractor/SafePath.antt =====
-- puzzlefs-lib/src/extractor.rs, `safe_path`: the host path of an entry, under the target directory.
pub mod Correct
pub mod Accepts
use puzzlefs.Prelude.{none, ℕ, ◌+◌, ◌-◌, Bytes, List, [], ◌∷◌, ◌++◌, Bool, true, false, ◌==◌}
use puzzlefs.Errors.{Result, ok, err, io_error, WireFormatError}
use puzzlefs.Reader.Lookup.{Component, prefix, root_dir, cur_dir, parent_dir, normal}

-- A host path, as its components.
abbrev pub HostPath : Type 0
HostPath = List Bytes

-- What `fs::symlink_metadata` says of a path.
pub data Stat : Type 0 where
  link not_link not_found : Stat
  problem : Stat

-- `bail!`; its message is left out.
abbrev pub bail : WireFormatError
bail = io_error none

-- `buf.push(c)` for a component that is one name.
abbrev pub push : HostPath → Bytes → HostPath
push buf c = buf ++ c ∷ []

unfoldable pub pop : HostPath → HostPath
pop [] = []
pop (c ∷ []) = []
pop (c ∷ d ∷ cs) = c ∷ pop (d ∷ cs)

module _ (symlink_metadata : HostPath → Stat) where
  -- The loop over the components. The level never goes below 0 before it is tested.
  unfoldable pub path_loop : List Component → HostPath → ℕ → Result HostPath
  unfolding pop
  path_loop [] buf level = ok buf
  path_loop (prefix ∷ cs) buf level = err bail
  path_loop (root_dir ∷ cs) buf level = path_loop cs buf level
  path_loop (cur_dir ∷ cs) buf level = path_loop cs buf level
  path_loop (normal c ∷ cs) buf level = elim (symlink_metadata (push buf c)) [
    | link ↦ err bail
    | not_link ↦ path_loop cs (push buf c) (level + 1)
    | problem ↦ err bail
    | not_found ↦ ok (push buf c)
  ]
  path_loop (parent_dir ∷ cs) buf level = elim (level - 1 == 0) [
    | true ↦ err bail
    | false ↦ path_loop cs (pop buf) (level - 1)
  ]

  unfoldable pub safe_path : HostPath → List Component → Result HostPath
  unfolding path_loop
  safe_path dir image_path = path_loop image_path dir 1
