-- ===== src/Builder/Delta/Closed/Steps.antt =====
-- puzzlefs-lib/src/builder.rs, `build_delta`: for an image from scratch, the entries of the directories
-- name inodes that were gathered, after each step and at the end of the walk.
use puzzlefs.Prelude.{
  ℕ, ◌+◌, ◌≤◌, ◌<◌, ◌≡◌, ◌≢◌, inl, inr, refl, sym, ap, ◌∙◌, subst, ◌==◌, ==_iff, Bool-cases, false,
  none, some, List, [], ◌∷◌, arith, u64_mod, All, All-sort, All-weaken, map_get, map_insert,
  map_values, add64, sort, length, length-sort,
}
use puzzlefs.Prelude.NatMap.Laws.{count-map_insert_same}
use puzzlefs.Prelude.NatMap.Lookup.{map_get-map_insert, All-map_insert, All-map_get}
use puzzlefs.Errors.{
  Result, ok, err, panic, traverse, traverse-All, length-traverse, >>=-eq-ok, ok-injective, ok_or,
  ok_or-eq-ok, from_errno, Errno,
}
use puzzlefs.Format.{Ino, DirEnt}
use puzzlefs.Format.Additional.{new_additional}
use puzzlefs.Format.Inodes.{Metadata}
use puzzlefs.Builder.Tree.{HostPath, HostEntry, Dir, HostTree, by_name}
use puzzlefs.Builder.Delta.{
  first_ino, entries_of, Delta, initial, whiteouts, lookup_existing, cur_ino, add_dirent,
  add_dirents, add_dir, add_dirs, scan,
}
use puzzlefs.Builder.Delta.Numbers.{
  dir_ino, total, Numbered, Advanced-Numbered, add_dirent-Advanced,
}
use puzzlefs.Builder.Delta.Scan.{
  listed, entries_in, whiteouts-Numbered, add_dir-Numbered, initial-Numbered,
}
use puzzlefs.Builder.Delta.Closed.{Names, Given, Closed}
use puzzlefs.Builder.Delta.Closed.Place.{place_dirent-Closed}

module _ (h : HostTree) (root : ℕ) where
  -- The entry is not the root again: its host's inode number is another.
  abbrev pub EntryApart : Result HostEntry → Type 0
  EntryApart (ok e) = (md : Metadata) → e.metadata ≡ ok md → md.host_ino ≢ root
  EntryApart _ = Unit

  -- The root has this inode number, and no entry of a directory has it too.
  abbrev pub RootApart : Type 0
  RootApart =
      ((md : Metadata) → h.symlink_metadata [] ≡ ok md → md.host_ino ≡ root)
      × ((d : HostPath) (es : List (Result HostEntry)) → h.read_dir d ≡ ok es → All EntryApart es)

  add_dirent-Closed :
      (d : HostPath) (e : HostEntry) (st st' : Delta h)
      → EntryApart (ok e)
      → 2 ≤ st.next_ino
      → Closed h root st
      → add_dirent h none d e st ≡ ok st'
      → Closed h root st'
  unfolding add_dirent lookup_existing cur_ino
  add_dirent-Closed d e st st' apart past_root closed added =
      let (md, known, placed) = >>=-eq-ok e.metadata _ added in
      let not_root : (st.next_ino == 1) ≡ false = ground arith in
      let st1 : Delta h = record st { next_ino = add64 st.next_ino 1 } in
      let closed1 : Closed h root st1 = record {
        names = closed.names;
        links = closed.links;
        keys = closed.keys;
      } in
      place_dirent-Closed h root d e md st.next_ino (apart md known) st1 st' not_root closed1 placed

  add_dirents-Closed :
      (d : HostPath) (es : List HostEntry) (st st' : Delta h)
      → All (λ e. EntryApart (ok e)) es
      → st.next_ino + length es < u64_mod
      → Numbered h st
      → Closed h root st
      → add_dirents h none d es st ≡ ok st'
      → Closed h root st'
  unfolding add_dirents
  add_dirents-Closed d [] st st' apart small numbered closed added =
      subst (Closed h root) (ok-injective added) closed
  add_dirents-Closed d (e ∷ es) st st' apart small numbered closed added =
      let (st1, first, rest) = >>=-eq-ok (add_dirent h none d e st) _ added in
      let (numbered1, next1) =
        Advanced-Numbered h st st1 (omega arith) numbered
          (add_dirent-Advanced h d e st st1 numbered.past_root first) in
      let closed1 = add_dirent-Closed d e st st1 apart.0 numbered.past_root closed first in
      add_dirents-Closed d es st1 st' apart.1 (omega (arith, next1)) numbered1 closed1 rest

  keys_kept :
      (st : Delta h) (at host : ℕ) (dir old : Dir)
      → map_get at st.dirs ≡ some old
      → map_get host st.dirs ≡ none
      → map_get host (map_insert at dir st.dirs) ≡ none
  keys_kept st at host dir old there missing = elim (Bool-cases (at == host)) [
    | inl same ↦ absurd (cc (ap (λ k. map_get k st.dirs) ((==_iff at host).0 same), there, missing))
    | inr other ↦ map_get-map_insert host at dir st.dirs ∙ rw other missing
  ]

  whiteouts-Closed :
      (d : HostPath) (news : List HostEntry) (st st' : Delta h)
      → Closed h root st
      → whiteouts h d [] news st ≡ ok st'
      → Closed h root st'
  unfolding whiteouts
  whiteouts-Closed d news st st' closed done =
      let (md, _, done1) = >>=-eq-ok (h.symlink_metadata d) _ done in
      let (dir, found, done2) =
        >>=-eq-ok (ok_or (map_get md.host_ino st.dirs) (from_errno Errno.enoent)) _ done1 in
      let there = ok_or-eq-ok _ _ found in
      let dirs' = map_insert md.host_ino dir st.dirs in
      let st1 : Delta h = record st { dirs = dirs' } in
      let same : (k : Ino) → total h k st1 ≡ total h k st = λ k.
        omega (arith, count-map_insert_same dir_ino k md.host_ino dir dir st.dirs there refl) in
      let into : (k : Ino) → Given h root st k → Given h root st1 k =
        λ k given. omega (arith, same k, given) in
      let names : All (Names (Given h root st1)) (map_values st.dirs) =
        All-weaken (Names (Given h root st)) (Names (Given h root st1))
          (λ dir' n.
            All-weaken (λ (x : DirEnt). Given h root st x.ino)
              (λ (x : DirEnt). Given h root st1 x.ino) (λ x g. into x.ino g) dir'.dir_list.entries
              n)
          (map_values st.dirs) closed.names in
      let closed1 : Closed h root st1 = record {
        names =
            All-map_insert (Names (Given h root st1)) md.host_ino dir st.dirs
              (All-map_get (Names (Given h root st1)) md.host_ino dir st.dirs names there) names;
        links = λ host k linked. into k (closed.links host k linked);
        keys = λ host. elim (closed.keys host) [
          | inl missing ↦ inl (keys_kept st md.host_ino host dir dir there missing)
          | inr known ↦ inr known
        ];
      } in
      subst (Closed h root) (ok-injective done2) closed1

  add_dir-Closed :
      (d : HostPath) (st st' : Delta h)
      → RootApart
      → st.next_ino + listed h (ok d) < u64_mod
      → Numbered h st
      → Closed h root st
      → add_dir h none d st ≡ ok st'
      → Closed h root st'
  unfolding add_dir lookup_existing entries_of
  add_dir-Closed d st st' apart small numbered closed added =
      let (found, reads, added1) = >>=-eq-ok (h.read_dir d) _ added in
      let (new_dirents, all, added2) = >>=-eq-ok (traverse (λ e. e) found) _ added1 in
      let news = sort by_name new_dirents in
      let (st1, whites, added3) = >>=-eq-ok (whiteouts h d [] news st) _ added2 in
      let (numbered1, next1) = whiteouts-Numbered h d news st st1 numbered whites in
      let many : length news ≡ listed h (ok d) =
        length-sort by_name new_dirents
        ∙ length-traverse _ found new_dirents all
        ∙ ap (λ (r : Result (List (Result HostEntry))). elim r [ ok es ↦ length es | _ ↦ 0 ])
            (sym reads) in
      let entries = traverse-All EntryApart found new_dirents (apart.1 d found reads) all in
      add_dirents-Closed d news st1 st' (All-sort by_name _ new_dirents entries)
        (omega (arith, next1, many, small)) numbered1 (whiteouts-Closed d news st st1 closed whites)
        added3

  add_dirs-Closed :
      (ds : List (Result HostPath)) (st st' : Delta h)
      → RootApart
      → st.next_ino + entries_in h ds < u64_mod
      → Numbered h st
      → Closed h root st
      → add_dirs h none ds st ≡ ok st'
      → Closed h root st'
  unfolding add_dirs
  add_dirs-Closed [] st st' apart small numbered closed added =
      subst (Closed h root) (ok-injective added) closed
  add_dirs-Closed (panic ∷ ds) st st' apart small numbered closed added = cc
  add_dirs-Closed (err e ∷ ds) st st' apart small numbered closed added = cc
  add_dirs-Closed (ok d ∷ ds) st st' apart small numbered closed added =
      let (st1, first, rest) = >>=-eq-ok (add_dir h none d st) _ added in
      let (numbered1, next1) = add_dir-Numbered h d st st1 (omega arith) numbered first in
      let closed1 = add_dir-Closed d st st1 apart (omega arith) numbered closed first in
      add_dirs-Closed ds st1 st' apart (omega (arith, next1)) numbered1 closed1 rest

  initial-Closed : (st : Delta h) → RootApart → initial h 2 ≡ ok st → Closed h root st
  unfolding initial map_insert map_get
  initial-Closed st apart made =
      let (md, known, made1) = >>=-eq-ok (h.symlink_metadata []) _ made in
      let (additional, _, made2) =
        >>=-eq-ok (new_additional h.attributes (h.full_path []) md) _ made1 in
      let it : md.host_ino ≡ root = apart.0 md known in
      subst (Closed h root) (ok-injective made2) (record {
        names = (tt, tt);
        links = λ host k there. absurd (cc there);
        keys = λ host. elim (Bool-cases (md.host_ino == host)) [
          | inl same ↦ inr (inl (sym ((==_iff md.host_ino host).0 same) ∙ it))
          | inr other ↦ inl (rw other)
        ];
      })

  pub scan-Closed :
      (st : Delta h)
      → RootApart
      → entries_in h h.walk + 2 < u64_mod
      → scan h none ≡ ok st
      → Closed h root st
  unfolding scan first_ino
  scan-Closed st apart small scanned =
      let (st0, started, rest) = >>=-eq-ok (initial h 2) _ scanned in
      let (numbered, next) = initial-Numbered h st0 started in
      add_dirs-Closed h.walk st0 st apart (omega (arith, next)) numbered
        (initial-Closed st0 apart started) rest
