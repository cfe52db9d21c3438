-- ===== src/Builder/Delta/Parts.antt =====
-- puzzlefs-lib/src/builder.rs, `build_delta`: what the parts of a step that returned have done.
use puzzlefs.Prelude.{
  ℕ, ◌≡◌, Option, none, some, List, [], ◌∷◌, ◌++◌, map_get, map_insert, map_modify,
}
use puzzlefs.Errors.{ok, >>=-eq-ok, ok-injective, ok_or, ok_or-eq-ok, io_error}
use puzzlefs.Format.{Ino, InodeAdditional}
use puzzlefs.Format.Additional.{new_additional}
use puzzlefs.Format.Inodes.{Metadata}
use puzzlefs.Builder.Tree.{HostPath, HostEntry, Dir, HostTree, add_entry}
use puzzlefs.Builder.Delta.{Delta, gather, render, add_to_parent}

module _ (h : HostTree) where
  -- What `render` returns is what `gather` makes of the state with the entry's number.
  pub render-gather :
      (d : HostPath) (e : HostEntry) (md : Metadata) (ino : Ino) (st st' : Delta h)
      → render h d e md ino st ≡ ok st'
      → (additional : Option InodeAdditional) × (gather h d e md ino additional md.file_type
            (record st { host_to_pfs = map_insert md.host_ino ino st.host_to_pfs })
          ≡ st')
  unfolding render
  render-gather d e md ino st st' rendered =
      let path = h.full_path (d ++ e.file_name ∷ []) in
      let (additional, _, made) = >>=-eq-ok (new_additional h.attributes path md) _ rendered in
      (additional, ok-injective made)

  -- What `add_to_parent` changes: the entries of one directory.
  pub add_to_parent-eq-ok :
      (d : HostPath) (e : HostEntry) (md : Metadata) (ino : Ino) (st st' : Delta h)
      → add_to_parent h d e md ino st ≡ ok st'
      → (parent : ℕ) × (dirs' : List (ℕ × Dir)) × (map_modify parent
            (add_entry e.file_name
              (elim (map_get md.host_ino st.host_to_pfs) [ none ↦ ino | some rendered ↦ rendered ]))
            st.dirs
          ≡ some dirs')
        × (record st { dirs = dirs' } ≡ st')
  unfolding add_to_parent
  add_to_parent-eq-ok d e md ino st st' added =
      let (parent_md, _, found) = >>=-eq-ok (h.symlink_metadata d) _ added in
      let the_ino : Ino = elim (map_get md.host_ino st.host_to_pfs) [
        | none ↦ ino
        | some rendered ↦ rendered
      ] in
      let (dirs', modified, made) =
        >>=-eq-ok
          (ok_or (map_modify parent_md.host_ino (add_entry e.file_name the_ino) st.dirs)
            (io_error none))
          _ found in
      (parent_md.host_ino, dirs', ok_or-eq-ok _ _ modified, ok-injective made)
