-- ===== src/Builder/Delta/Scan.antt =====
-- puzzlefs-lib/src/builder.rs, `build_delta`: the inode numbers after the tree is read for an image
-- from scratch.
use puzzlefs.Prelude.{
  ℕ, ◌+◌, ◌<◌, ◌≡◌, refl, sym, ap, ◌∙◌, subst, none, List, [], ◌∷◌, arith, u64_mod, map_get,
  map_insert, sort, length-sort, length,
}
use puzzlefs.Prelude.NatMap.Laws.{count-map_insert_same, map_insert-length}
use puzzlefs.Errors.{
  Result, ok, err, panic, traverse, length-traverse, >>=-eq-ok, ok-injective, ok_or, ok_or-eq-ok,
  from_errno, Errno,
}
use puzzlefs.Format.{Ino}
use puzzlefs.Format.Additional.{new_additional}
use puzzlefs.Builder.Tree.{HostPath, HostEntry, HostTree, by_name}
use puzzlefs.Builder.Delta.{
  first_ino, entries_of, Delta, initial, whiteouts, lookup_existing, add_dirent, add_dirents,
  add_dir, add_dirs, scan,
}
use puzzlefs.Builder.Delta.Numbers.{dir_ino, Numbered, Advanced-Numbered, add_dirent-Advanced}

module _ (h : HostTree) where
  pub add_dirents-Numbered :
      (d : HostPath) (es : List HostEntry) (st st' : Delta h)
      → st.next_ino + length es < u64_mod
      → Numbered h st
      → add_dirents h none d es st ≡ ok st'
      → Numbered h st' × (st'.next_ino ≡ st.next_ino + length es)
  unfolding add_dirents
  add_dirents-Numbered d [] st st' small numbered added =
      let same : st ≡ st' = ok-injective added in
      subst (λ s. Numbered h s × (s.next_ino ≡ st.next_ino + 0)) same (numbered, omega arith)
  add_dirents-Numbered d (e ∷ es) st st' small numbered added =
      let (st1, first, rest) = >>=-eq-ok (add_dirent h none d e st) _ added in
      let (numbered1, next1) =
        Advanced-Numbered h st st1 (omega arith) numbered
          (add_dirent-Advanced h d e st st1 numbered.past_root first) in
      let (numbered2, next2) =
        add_dirents-Numbered d es st1 st' (omega (arith, next1)) numbered1 rest in
      (numbered2, omega (arith, next1, next2))

  -- Without an image there are no whiteouts: the directory is put back as it is.
  pub whiteouts-Numbered :
      (d : HostPath) (news : List HostEntry) (st st' : Delta h)
      → Numbered h st
      → whiteouts h d [] news st ≡ ok st'
      → Numbered h st' × (st'.next_ino ≡ st.next_ino)
  unfolding whiteouts
  whiteouts-Numbered d news st st' numbered done =
      let (md, _, done1) = >>=-eq-ok (h.symlink_metadata d) _ done in
      let (dir, found, done2) =
        >>=-eq-ok (ok_or (map_get md.host_ino st.dirs) (from_errno Errno.enoent)) _ done1 in
      let there = ok_or-eq-ok _ _ found in
      let kept =
        λ (k : Ino). count-map_insert_same dir_ino k md.host_ino dir dir st.dirs there refl in
      subst (λ s. Numbered h s × (s.next_ino ≡ st.next_ino)) (ok-injective done2)
        (
          record {
            once = λ k. omega (arith, kept k, numbered.once k);
            free = λ k above. omega (arith, kept k, numbered.free k above);
            past_root = numbered.past_root;
            some_dir = map_insert-length md.host_ino dir st.dirs;
            no_whiteouts = numbered.no_whiteouts;
          },
          refl,
        )

  -- How many entries the directories of the walk have.
  abbrev pub listed : Result HostPath → ℕ
  listed (ok d) = elim (h.read_dir d) [ ok es ↦ length es | _ ↦ 0 ]
  listed _ = 0

  abbrev pub entries_in : List (Result HostPath) → ℕ
  entries_in [] = 0
  entries_in (d ∷ ds) = listed d + entries_in ds

  pub add_dir-Numbered :
      (d : HostPath) (st st' : Delta h)
      → st.next_ino + listed (ok d) < u64_mod
      → Numbered h st
      → add_dir h none d st ≡ ok st'
      → Numbered h st' × (st'.next_ino ≡ st.next_ino + listed (ok d))
  unfolding add_dir lookup_existing entries_of
  add_dir-Numbered d st st' small numbered added =
      let (found, reads, added1) = >>=-eq-ok (h.read_dir d) _ added in
      let (new_dirents, all, added2) = >>=-eq-ok (traverse (λ e. e) found) _ added1 in
      let news = sort by_name new_dirents in
      let (st1, whites, added3) = >>=-eq-ok (whiteouts h d [] news st) _ added2 in
      let (numbered1, next1) = whiteouts-Numbered d news st st1 numbered whites in
      let many : length news ≡ listed (ok d) =
        length-sort by_name new_dirents
        ∙ length-traverse _ found new_dirents all
        ∙ ap (λ (r : Result (List (Result HostEntry))). elim r [ ok es ↦ length es | _ ↦ 0 ])
            (sym reads) in
      let (numbered2, next2) =
        add_dirents-Numbered d news st1 st' (omega (arith, next1, many, small)) numbered1 added3 in
      (numbered2, omega (arith, next1, next2, many))

  add_dirs-Numbered :
      (ds : List (Result HostPath)) (st st' : Delta h)
      → st.next_ino + entries_in ds < u64_mod
      → Numbered h st
      → add_dirs h none ds st ≡ ok st'
      → Numbered h st'
  unfolding add_dirs
  add_dirs-Numbered [] st st' small numbered added =
      subst (Numbered h) (ok-injective added) numbered
  add_dirs-Numbered (panic ∷ ds) st st' small numbered added = cc
  add_dirs-Numbered (err e ∷ ds) st st' small numbered added = cc
  add_dirs-Numbered (ok d ∷ ds) st st' small numbered added =
      let (st1, first, rest) = >>=-eq-ok (add_dir h none d st) _ added in
      let (numbered1, next1) = add_dir-Numbered d st st1 (omega arith) numbered first in
      add_dirs-Numbered ds st1 st' (omega (arith, next1)) numbered1 rest

  pub initial-Numbered : (st : Delta h) → initial h 2 ≡ ok st → Numbered h st × (st.next_ino ≡ 2)
  unfolding initial map_insert
  initial-Numbered st made =
      let (md, _, made1) = >>=-eq-ok (h.symlink_metadata []) _ made in
      let (additional, _, made2) =
        >>=-eq-ok (new_additional h.attributes (h.full_path []) md) _ made1 in
      subst (λ s. Numbered h s × (s.next_ino ≡ 2)) (ok-injective made2)
        (
          record {
            once = λ k. ground arith;
            free = λ k above. ground arith;
            past_root = omega arith;
            some_dir = omega arith;
            no_whiteouts = refl;
          },
          refl,
        )

  -- After the tree is read for an image from scratch, each number is given at most once.
  pub scan-Numbered :
      (st : Delta h) → entries_in h.walk + 2 < u64_mod → scan h none ≡ ok st → Numbered h st
  unfolding scan first_ino
  scan-Numbered st small scanned =
      let (st0, started, rest) = >>=-eq-ok (initial h 2) _ scanned in
      let (numbered, next) = initial-Numbered st0 started in
      add_dirs-Numbered h.walk st0 st (omega (arith, next)) numbered rest
