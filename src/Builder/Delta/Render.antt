-- ===== src/Builder/Delta/Render.antt =====
-- puzzlefs-lib/src/builder.rs, `build_delta`: the rendered inodes have the numbers that were given.
use mathlib.Core.List.{Permᴰ}
use puzzlefs.Prelude.{
  ◌+◌, ◌<◌, ◌≡◌, refl, sym, ap, subst, none, List, [], ◌∷◌, ◌++◌, arith, map_values, sort,
  length-sort, sort-IsSortedBy, IsSortedBy, count, count-append, length-append, count-sort, by_key,
  length,
}
use puzzlefs.Prelude.Sort.Ascending.{length-perm, count-perm}
use puzzlefs.Prelude.NatMap.Laws.{length-map_values}
use puzzlefs.Errors.{
  Result, ok, err, io_error, >>=-eq-ok, ok-injective, traverse, traverse-eq-ok_cons,
  traverse-eq-ok_nil, length-traverse,
}
use puzzlefs.Format.{Ino, Inode, InodeMode}
use puzzlefs.Format.Inodes.{
  FileType, is_dir, is_file, new_inode, new_dir, new_file, new_other, other_mode,
}
use puzzlefs.Format.Stack.Layers.{number}
use puzzlefs.Builder.Chunks.{BuildFile}
use puzzlefs.Builder.Chunks.Numbers.{bares}
use puzzlefs.Builder.Tree.{Dir, Other, HostTree}
use puzzlefs.Builder.Delta.{Delta, inodes}
use puzzlefs.Builder.Delta.Numbers.{dir_ino, file_ino, other_ino}

-- Rendering that keeps the numbers keeps how often each stands in the list.
count-traverse {ℓ} :
    {A : Type ℓ} (f : A → Result Inode) (key : A → Ino) (k : Ino)
    → ((a : A) (i : Inode) → f a ≡ ok i → i.ino ≡ key a)
    → (xs : List A) (is : List Inode) → traverse f xs ≡ ok is
    → count number k is ≡ count key k xs
count-traverse f key k keeps [] is done = rw (traverse-eq-ok_nil f is done)
count-traverse f key k keeps (x ∷ xs) is done =
    let (i, rest, first, others, made) = traverse-eq-ok_cons f x xs is done in
    let one : number i ≡ key x = keeps x i first in
    let more = count-traverse f key k keeps xs rest others in rw (made, one, more)

pub only_dir :
    (t : FileType) (x i : Inode)
    → ◌≡◌ {A = Result Inode} (elim t [ is_dir ↦ ok x | _ ↦ err (io_error none) ]) (ok i)
    → x ≡ i
only_dir is_dir x i made = ok-injective made
only_dir _ x i made = cc

pub only_file :
    (t : FileType) (x i : Inode)
    → ◌≡◌ {A = Result Inode} (elim t [ is_file ↦ ok x | _ ↦ err (io_error none) ]) (ok i)
    → x ≡ i
only_file is_file x i made = ok-injective made
only_file _ x i made = cc

new_dir-ino :
    (d : Dir) (i : Inode) → new_dir d.ino d.md d.dir_list d.additional ≡ ok i → i.ino ≡ d.ino
unfolding new_dir new_inode
new_dir-ino d i made =
    ap (λ (j : Inode). j.ino)
      (sym (
        only_dir d.md.file_type (new_inode d.ino d.md (InodeMode.dir d.dir_list) d.additional) i
          made))

new_file-ino :
    (f : BuildFile) (i : Inode) → new_file f.ino f.md f.chunks f.additional ≡ ok i → i.ino ≡ f.ino
unfolding new_file new_inode
new_file-ino f i made =
    ap (λ (j : Inode). j.ino)
      (sym (
        only_file f.md.file_type (new_inode f.ino f.md (InodeMode.file f.chunks) f.additional) i
          made))

new_other-ino : (o : Other) (i : Inode) → new_other o.ino o.md o.additional ≡ ok i → i.ino ≡ o.ino
unfolding new_other new_inode
new_other-ino o i made =
    let (mode, _, made1) = >>=-eq-ok (other_mode o.md) _ made in
    ap (λ (j : Inode). j.ino) (sym (ok-injective made1))

pub count-bares :
    (k : Ino) (fs : List BuildFile) → count file_ino k fs ≡ count file_ino k (bares fs)
count-bares k [] = refl
count-bares k (f ∷ fs) = omega (arith, count-bares k fs)

module _ (h : HostTree) where
  -- What the code relies on of a `HashMap`: its values are given in some order.
  abbrev pub Reorders : Type 0
  Reorders = (ds : List Dir) → Permᴰ (h.into_values ds) ds

  -- The inodes that a rendering put together.
  pub record Rendered (st : Delta h) (files : List BuildFile) (is : List Inode) : Type 0 where
    pub ds : List Inode
    pub fs : List Inode
    pub os : List Inode
    pub dirs_are :
        traverse
          (λ (d : Dir). new_dir d.ino d.md d.dir_list d.additional)
          (h.into_values (map_values st.dirs))
        ≡ ok ds
    pub files_are :
        traverse (λ (f : BuildFile). new_file f.ino f.md f.chunks f.additional) files ≡ ok fs
    pub others_are : traverse (λ (o : Other). new_other o.ino o.md o.additional) st.others ≡ ok os
    pub sorted : sort (by_key number) (((st.pfs_inodes ++ ds) ++ fs) ++ os) ≡ is

  pub inodes-Rendered :
      (st : Delta h) (files : List BuildFile) (is : List Inode)
      → inodes h st files ≡ ok is
      → Rendered st files is
  unfolding inodes
  inodes-Rendered st files is rendered =
      let (ds, dirs, rendered1) =
        >>=-eq-ok
          (traverse (λ (d : Dir). new_dir d.ino d.md d.dir_list d.additional)
            (h.into_values (map_values st.dirs)))
          _ rendered in
      let (fs, fs_are, rendered2) =
        >>=-eq-ok (traverse (λ (f : BuildFile). new_file f.ino f.md f.chunks f.additional) files) _
          rendered1 in
      let (os, os_are, rendered3) =
        >>=-eq-ok (traverse (λ (o : Other). new_other o.ino o.md o.additional) st.others) _
          rendered2 in
      record {
        ds = ds;
        fs = fs;
        os = os;
        dirs_are = dirs;
        files_are = fs_are;
        others_are = os_are;
        sorted = ok-injective rendered3;
      }

  -- Each number stands in the rendered layer as often as it was given.
  pub count-inodes :
      (k : Ino) (st : Delta h) (files : List BuildFile) (is : List Inode)
      → Reorders
      → Rendered st files is
      → count number k is
        ≡ count number k st.pfs_inodes
          + count dir_ino k (map_values st.dirs)
          + count file_ino k files
          + count other_ino k st.others
  count-inodes k st files is reorders r =
      let front = st.pfs_inodes ++ r.ds in
      omega (
        arith,
        ap (count number k) (sym r.sorted),
        count-sort number k ((front ++ r.fs) ++ r.os),
        count-traverse _ dir_ino k new_dir-ino _ r.ds r.dirs_are,
        count-traverse _ file_ino k new_file-ino _ r.fs r.files_are,
        count-traverse _ other_ino k new_other-ino _ r.os r.others_are,
        count-perm dir_ino k (reorders (map_values st.dirs)),
        count-append number k (front ++ r.fs) r.os,
        count-append number k front r.fs,
        count-append number k st.pfs_inodes r.ds,
      )

  pub inodes-IsSortedBy :
      (st : Delta h) (files : List BuildFile) (is : List Inode)
      → Rendered st files is
      → IsSortedBy number is
  inodes-IsSortedBy st files is r =
      subst (IsSortedBy number) r.sorted
        (sort-IsSortedBy number (((st.pfs_inodes ++ r.ds) ++ r.fs) ++ r.os))

  pub inodes-nonempty :
      (st : Delta h) (files : List BuildFile) (is : List Inode)
      → Reorders
      → 0 < length st.dirs
      → Rendered st files is
      → 0 < length is
  inodes-nonempty st files is reorders some_dir r =
      let front = st.pfs_inodes ++ r.ds in
      omega (
        arith,
        ap length (sym r.sorted),
        length-sort (by_key number) ((front ++ r.fs) ++ r.os),
        length-append (front ++ r.fs) r.os,
        length-append front r.fs,
        length-append st.pfs_inodes r.ds,
        length-traverse _ (h.into_values (map_values st.dirs)) r.ds r.dirs_are,
        length-perm (reorders (map_values st.dirs)),
        length-map_values st.dirs,
      )
