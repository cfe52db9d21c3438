-- ===== src/Builder/Delta/Closed.antt =====
-- puzzlefs-lib/src/builder.rs, `build_delta`: the entries of the directories name inodes that were
-- gathered.
pub mod Place
pub mod Steps
use puzzlefs.Prelude.{
  ℕ, ◌+◌, ◌≤◌, ◌<◌, ◌≡◌, ◌≢◌, ◌⊎◌, inl, inr, refl, sym, ap, ◌∙◌, subst, ◌==◌, ==_iff, Bool-cases,
  Option-cases, Bool, true, false, Bytes, Option, none, some, List, [], ◌∷◌, ◌++◌, if◌then◌else◌,
  arith, All, All-append, All-weaken, map_get, map_insert, map_modify, map_values, count,
  count-append,
}
use puzzlefs.Prelude.NatMap.Laws.{count-map_modify}
use puzzlefs.Prelude.NatMap.Lookup.{
  map_get-map_insert, count-map_insert_new, All-map_insert, All-map_modify, map_get-map_modify-none,
}
use mathlib.Core.Option.{some-injective}
use puzzlefs.Errors.{ok, ◌>>=◌, >>=-eq-ok, ok-injective}
use puzzlefs.Format.{Ino, DirEnt, InodeAdditional}
use puzzlefs.Format.Inodes.{FileType, is_dir, is_file, Metadata}
use puzzlefs.Builder.Tree.{HostPath, HostEntry, Dir, HostTree, add_entry}
use puzzlefs.Builder.Delta.{Delta, gather, render, add_to_parent, unless_rendered, place_dirent}
use puzzlefs.Builder.Delta.Parts.{render-gather, add_to_parent-eq-ok}
use puzzlefs.Builder.Delta.Numbers.{dir_ino, file_ino, other_ino, total}

-- The entries of the directory have such numbers.
abbrev pub Names : (Ino → Type 0) → Dir → Type 0
Names G d = All (λ (e : DirEnt). G e.ino) d.dir_list.entries

module _ (h : HostTree) (root : ℕ) where
  -- An inode of the number was gathered.
  abbrev pub Given : Delta h → Ino → Type 0
  Given st k = 1 ≤ total h k st

  abbrev pub Links : Delta h → Type 0
  Links st = (host : ℕ) (ino : Ino) → map_get host st.host_to_pfs ≡ some ino → Given st ino

  -- A directory was rendered, or it is the root.
  abbrev pub Keys : Delta h → Type 0
  Keys st =
      (host : ℕ)
      → (map_get host st.dirs ≡ none)
        ⊎ ((host ≡ root) ⊎ ((ino : Ino) × (map_get host st.host_to_pfs ≡ some ino)))

  pub record Closed (st : Delta h) : Type 0 where
    pub names : All (Names (Given st)) (map_values st.dirs)
    pub links : Links st
    pub keys : Keys st

  pub total-gather_new :
      (k : Ino) (d : HostPath) (e : HostEntry) (md : Metadata) (ino : Ino)
      (additional : Option InodeAdditional) (type : FileType) (st : Delta h)
      → map_get md.host_ino st.dirs ≡ none
      → total h k (gather h d e md ino additional type st)
        ≡ (if ino == k then 1 else 0) + total h k st
  unfolding gather
  total-gather_new k d e md ino additional is_dir st missing =
      omega (arith, count-map_insert_new dir_ino k md.host_ino _ st.dirs missing)
  total-gather_new k d e md ino additional is_file st missing =
      omega (arith, count-append file_ino k st.files _)
  total-gather_new k d e md ino additional _ st missing =
      omega (arith, count-append other_ino k st.others _)

  pub Names-gather :
      (G : Ino → Type 0) (d : HostPath) (e : HostEntry) (md : Metadata) (ino : Ino)
      (additional : Option InodeAdditional) (type : FileType) (st : Delta h)
      → All (Names G) (map_values st.dirs)
      → All (Names G) (map_values (gather h d e md ino additional type st).dirs)
  unfolding gather
  Names-gather G d e md ino additional is_dir st names =
      All-map_insert (Names G) md.host_ino _ st.dirs tt names
  Names-gather G d e md ino additional _ st names = names

  -- Where the map of the hard links has the entry already, so may the directories.
  pub Keys-gather :
      (d : HostPath) (e : HostEntry) (md : Metadata) (ino : Ino)
      (additional : Option InodeAdditional) (type : FileType) (st : Delta h)
      → map_get md.host_ino st.host_to_pfs ≡ some ino
      → Keys st
      → Keys (gather h d e md ino additional type st)
  unfolding gather
  Keys-gather d e md ino additional is_dir st linked keys host =
      elim (Bool-cases (md.host_ino == host)) [
        | inl same ↦
            let it = (==_iff md.host_ino host).0 same in
            inr (inr (ino, subst (λ n. map_get n st.host_to_pfs ≡ some ino) it linked))
        | inr other ↦ rw (map_get-map_insert host md.host_ino, other) (keys host)
      ]
  Keys-gather d e md ino additional _ st linked keys host = keys host

  pub gather-host_to_pfs :
      (d : HostPath) (e : HostEntry) (md : Metadata) (ino : Ino)
      (additional : Option InodeAdditional) (type : FileType) (st : Delta h)
      → (gather h d e md ino additional type st).host_to_pfs ≡ st.host_to_pfs
  unfolding gather
  gather-host_to_pfs d e md ino additional is_dir st = refl
  gather-host_to_pfs d e md ino additional is_file st = refl
  gather-host_to_pfs d e md ino additional _ st = refl

  pub links_after :
      (st : Delta h) (ino : Ino) (at host : ℕ) (k : Ino) (G : Ino → Type 0)
      → ((i : Ino) → Given st i → G i)
      → G ino
      → Links st
      → map_get host (map_insert at ino st.host_to_pfs) ≡ some k
      → G k
  links_after st ino at host k G more self links there = elim (Bool-cases (at == host)) [
    | inl same ↦
        let found : some ino ≡ some k = rw (map_get-map_insert host at, same) at there in
        subst G (some-injective ino k found) self
    | inr other ↦
        let old : map_get host st.host_to_pfs ≡ some k =
          rw (map_get-map_insert host at, other) at there in
        more k (links host k old)
  ]

  pub Keys-linked :
      (st : Delta h) (ino : Ino) (at host : ℕ)
      → Keys st
      → (map_get host st.dirs ≡ none)
        ⊎ ((host ≡ root) ⊎ ((i : Ino) × (map_get host (map_insert at ino st.host_to_pfs) ≡ some i)))
  Keys-linked st ino at host keys = elim (Bool-cases (at == host)) [
    | inl same ↦ inr (inr (ino, map_get-map_insert host at ino st.host_to_pfs ∙ rw same))
    | inr other ↦ elim (keys host) [
      | inl missing ↦ inl missing
      | inr (inl it) ↦ inr (inl it)
      | inr (inr (i, linked)) ↦
          inr (inr (i, map_get-map_insert host at ino st.host_to_pfs ∙ rw other linked))
    ]
  ]
