-- ===== src/Builder/Delta/Numbers.antt =====
-- puzzlefs-lib/src/builder.rs, `build_delta`: an entry of an image that is built from scratch gets
-- the next inode number.
use puzzlefs.Prelude.{
  ℕ, ◌+◌, ◌≤◌, ◌<◌, ◌≡◌, refl, sym, ap, ◌∙◌, subst, ◌==◌, false, Option-cases, inl, inr, Option,
  none, [], if◌then◌else◌, arith, u64_mod, add64, add64_exact, map_get, map_insert, map_values,
  count, count-append, length,
}
use puzzlefs.Prelude.NatMap.Laws.{
  count-map_insert, count-map_modify, length-map_insert, length-map_modify,
}
use puzzlefs.Errors.{ok, ◌>>=◌, >>=-eq-ok, ok-injective}
use puzzlefs.Format.{Ino, InodeAdditional}
use puzzlefs.Format.Inodes.{FileType, is_dir, is_file, Metadata}
use puzzlefs.Builder.Chunks.{BuildFile}
use puzzlefs.Builder.Tree.{HostPath, HostEntry, Dir, Other, HostTree}
use puzzlefs.Builder.Delta.{
  Delta, lookup_existing, cur_ino, gather, render, add_to_parent, unless_rendered, place_dirent,
  add_dirent,
}
use puzzlefs.Builder.Delta.Parts.{render-gather, add_to_parent-eq-ok}

abbrev pub dir_ino : Dir → Ino
dir_ino d = d.ino

abbrev pub file_ino : BuildFile → Ino
file_ino f = f.ino

abbrev pub other_ino : Other → Ino
other_ino o = o.ino

module _ (h : HostTree) where
  -- How many of the gathered inodes have the number.
  abbrev pub total : Ino → Delta h → ℕ
  total k st =
      count dir_ino k (map_values st.dirs) + count file_ino k st.files + count other_ino k st.others

  abbrev one : Ino → Ino → ℕ
  one ino k = if ino == k then 1 else 0

  -- A number is given once, the next one is free, and there are no whiteouts.
  pub record Numbered (st : Delta h) : Type 0 where
    pub once : (k : Ino) → total k st ≤ 1
    pub free : (k : Ino) → st.next_ino ≤ k → total k st ≡ 0
    pub past_root : 2 ≤ st.next_ino
    pub some_dir : 0 < length st.dirs
    pub no_whiteouts : st.pfs_inodes ≡ []

  total-gather :
      (k : Ino) (d : HostPath) (e : HostEntry) (md : Metadata) (ino : Ino)
      (additional : Option InodeAdditional) (type : FileType) (st : Delta h)
      → total k (gather h d e md ino additional type st) ≤ one ino k + total k st
  unfolding gather
  total-gather k d e md ino additional is_dir st =
      omega (arith, count-map_insert dir_ino k md.host_ino _ st.dirs)
  total-gather k d e md ino additional is_file st =
      omega (arith, count-append file_ino k st.files _)
  total-gather k d e md ino additional _ st = omega (arith, count-append other_ino k st.others _)

  -- A step gave the next number to at most one inode.
  abbrev pub Advanced : Delta h → Delta h → Type 0
  Advanced st st' =
      ((k : Ino) → total k st' ≤ one st.next_ino k + total k st)
      × (st'.next_ino ≡ add64 st.next_ino 1)
      × (st'.pfs_inodes ≡ st.pfs_inodes)
      × (length st.dirs ≤ length st'.dirs)

  pub Advanced-Numbered :
      (st st' : Delta h)
      → st.next_ino + 1 < u64_mod
      → Numbered st
      → Advanced st st'
      → Numbered st' × (st'.next_ino ≡ st.next_ino + 1)
  Advanced-Numbered st st' small numbered (counts, next, inodes, dirs) =
      let next' : st'.next_ino ≡ st.next_ino + 1 = next ∙ add64_exact st.next_ino 1 small in
      (
        record {
          once = λ k. ground (arith, counts k, numbered.once k, numbered.free k);
          free = λ k above. ground (arith, counts k, numbered.free k, next');
          past_root = omega (arith, numbered.past_root);
          some_dir = omega (arith, numbered.some_dir);
          no_whiteouts = inodes ∙ numbered.no_whiteouts;
        },
        next',
      )

  gather-keeps :
      (d : HostPath) (e : HostEntry) (md : Metadata) (ino : Ino)
      (additional : Option InodeAdditional) (type : FileType) (st : Delta h)
      → ((gather h d e md ino additional type st).next_ino ≡ st.next_ino)
        × ((gather h d e md ino additional type st).pfs_inodes ≡ st.pfs_inodes)
        × (length st.dirs ≤ length (gather h d e md ino additional type st).dirs)
  unfolding gather
  gather-keeps d e md ino additional is_dir st =
      (refl, refl, length-map_insert md.host_ino _ st.dirs)
  gather-keeps d e md ino additional is_file st = (refl, refl, omega arith)
  gather-keeps d e md ino additional _ st = (refl, refl, omega arith)

  -- The number may not be used yet; the number itself counts once in the end, if at all.
  abbrev Placed : Ino → Delta h → Delta h → Type 0
  Placed ino st st' =
      ((k : Ino) → total k st' ≤ one ino k + total k st)
      × (st'.next_ino ≡ st.next_ino)
      × (st'.pfs_inodes ≡ st.pfs_inodes)
      × (length st.dirs ≤ length st'.dirs)

  render-Placed :
      (d : HostPath) (e : HostEntry) (md : Metadata) (ino : Ino) (st st' : Delta h)
      → render h d e md ino st ≡ ok st'
      → Placed ino st st'
  render-Placed d e md ino st st' rendered =
      let (additional, made) = render-gather h d e md ino st st' rendered in
      let st0 : Delta h = record st { host_to_pfs = map_insert md.host_ino ino st.host_to_pfs } in
      subst (Placed ino st) made (
        (λ k. total-gather k d e md ino additional md.file_type st0),
        (gather-keeps d e md ino additional md.file_type st0).0,
        (gather-keeps d e md ino additional md.file_type st0).1,
        (gather-keeps d e md ino additional md.file_type st0).2,
      )

  unless_rendered-Placed :
      (d : HostPath) (e : HostEntry) (md : Metadata) (ino : Ino) (st st' : Delta h)
      → unless_rendered h d e md ino st ≡ ok st'
      → Placed ino st st'
  unfolding unless_rendered
  unless_rendered-Placed d e md ino st st' placed =
      elim (Option-cases (map_get md.host_ino st.host_to_pfs)) [
        | inl fresh ↦
            let rendered : render h d e md ino st ≡ ok st' =
              rw (unless_rendered, fresh) at placed in
            render-Placed d e md ino st st' rendered
        | inr (ino', there) ↦
            let same : ok st ≡ ok st' = rw (unless_rendered, there) at placed in
            subst (Placed ino st) (ok-injective same) ((λ k. omega arith), refl, refl, omega arith)
      ]

  place_dirent-Placed :
      (d : HostPath) (e : HostEntry) (md : Metadata) (ino : Ino) (st st' : Delta h)
      → (ino == 1) ≡ false
      → place_dirent h d e md ino st ≡ ok st'
      → Placed ino st st'
  unfolding place_dirent
  place_dirent-Placed d e md ino st st' not_root placed =
      let placed' : (add_to_parent h d e md ino st >>= λ s. unless_rendered h d e md ino s)
          ≡ ok st' =
        rw (place_dirent, not_root) at placed in
      let (st1, parent, rest) = >>=-eq-ok (add_to_parent h d e md ino st) _ placed' in
      let (j, dirs', modified, made) = add_to_parent-eq-ok h d e md ino st st1 parent in
      let (counts, next, inodes, dirs) = unless_rendered-Placed d e md ino st1 st' rest in
      let kept = λ (k : Ino). count-map_modify dir_ino k j _ st.dirs dirs' (λ d'. refl) modified in
      let same : (k : Ino) → total k st1 ≡ total k st =
        λ k. subst (λ s. total k s ≡ total k st) made (omega (arith, kept k)) in
      (
        (λ k. omega (arith, counts k, same k)),
        next ∙ ap (λ s. s.next_ino) (sym made),
        inodes ∙ ap (λ s. s.pfs_inodes) (sym made),
        omega (
          arith,
          dirs,
          length-map_modify j _ st.dirs dirs' modified,
          ap (λ s. length s.dirs) made,
        ),
      )

  pub add_dirent-Advanced :
      (d : HostPath) (e : HostEntry) (st st' : Delta h)
      → 2 ≤ st.next_ino
      → add_dirent h none d e st ≡ ok st'
      → Advanced st st'
  unfolding add_dirent lookup_existing cur_ino
  add_dirent-Advanced d e st st' past_root added =
      let (md, _, placed) = >>=-eq-ok e.metadata _ added in
      let not_root : (st.next_ino == 1) ≡ false = ground arith in
      let st1 : Delta h = record st { next_ino = add64 st.next_ino 1 } in
      place_dirent-Placed d e md st.next_ino st1 st' not_root placed
