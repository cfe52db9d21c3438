-- ===== src/Builder/Delta/Closed/Place.antt =====
-- puzzlefs-lib/src/builder.rs, `build_delta`: an entry that is placed keeps the directories
-- closed.
use puzzlefs.Prelude.{
  ℕ, ◌+◌, ◌≡◌, ◌≢◌, ◌⊎◌, inl, inr, refl, sym, ap, ◌∙◌, subst, ◌==◌, ==_iff, Option-cases, true,
  false, none, some, if◌then◌else◌, arith, All, All-append, All-weaken, map_get, map_insert,
  map_values,
}
use puzzlefs.Prelude.NatMap.Laws.{count-map_modify}
use puzzlefs.Prelude.NatMap.Lookup.{map_get-map_insert, All-map_modify, map_get-map_modify-none}
use puzzlefs.Errors.{ok, ◌>>=◌, >>=-eq-ok, ok-injective}
use puzzlefs.Format.{Ino, DirEnt}
use puzzlefs.Format.Inodes.{Metadata}
use puzzlefs.Builder.Tree.{HostPath, HostEntry, Dir, HostTree, add_entry}
use puzzlefs.Builder.Delta.{Delta, gather, render, add_to_parent, unless_rendered, place_dirent}
use puzzlefs.Builder.Delta.Parts.{render-gather, add_to_parent-eq-ok}
use puzzlefs.Builder.Delta.Numbers.{dir_ino, total}
use puzzlefs.Builder.Delta.Closed.{
  Names, Given, Links, Keys, Closed, total-gather_new, Names-gather, Keys-gather,
  gather-host_to_pfs, links_after, Keys-linked,
}

module _ (h : HostTree) (root : ℕ) where
  -- An entry that is rendered for the first time.
  module _ (d : HostPath) (e : HostEntry) (md : Metadata) (ino : Ino)
      (apart : md.host_ino ≢ root) where
    missing_dir :
        (st : Delta h)
        → map_get md.host_ino st.host_to_pfs ≡ none
        → Keys h root st
        → map_get md.host_ino st.dirs ≡ none
    missing_dir st fresh keys = elim (keys md.host_ino) [
      | inl missing ↦ missing
      | inr (inl it) ↦ absurd (apart it)
      | inr (inr (i, linked)) ↦ absurd (cc (fresh, linked))
    ]

    render-Closed :
        (st st' : Delta h)
        → map_get md.host_ino st.host_to_pfs ≡ none
        → All (Names (λ k. Given h root st k ⊎ (k ≡ ino))) (map_values st.dirs)
        → Links h root st
        → Keys h root st
        → render h d e md ino st ≡ ok st'
        → Closed h root st'
    render-Closed st st' fresh names links keys rendered =
        let (additional, made) = render-gather h d e md ino st st' rendered in
        let st0 : Delta h = record st { host_to_pfs = map_insert md.host_ino ino st.host_to_pfs } in
        let st1 = gather h d e md ino additional md.file_type st0 in
        let missing = missing_dir st fresh keys in
        let grows : (k : Ino) → total h k st1 ≡ (if ino == k then 1 else 0) + total h k st =
          λ k. total-gather_new h root k d e md ino additional md.file_type st0 missing in
        let more : (k : Ino) → Given h root st k → Given h root st1 k =
          λ k given. omega (arith, grows k, given) in
        let own : (ino == ino) ≡ true = (==_iff ino ino).1 refl in
        let one : ◌≡◌ {A = ℕ} (if ino == ino then 1 else 0) 1 = rw own in
        let self : Given h root st1 ino = omega (arith, grows ino, one) in
        let into : (k : Ino) → Given h root st k ⊎ (k ≡ ino) → Given h root st1 k = λ k g. elim g [
          | inl given ↦ more k given
          | inr it ↦ subst (Given h root st1) (sym it) self
        ] in
        let kept = gather-host_to_pfs h root d e md ino additional md.file_type st0 in
        let linked : map_get md.host_ino st0.host_to_pfs ≡ some ino =
          let same : (md.host_ino == md.host_ino) ≡ true =
            (==_iff md.host_ino md.host_ino).1 refl in
          map_get-map_insert md.host_ino md.host_ino ino st.host_to_pfs ∙ rw same in
        subst (Closed h root) made (record {
          names = Names-gather h root (Given h root st1) d e md ino additional md.file_type st0 (
              All-weaken (Names (λ k. Given h root st k ⊎ (k ≡ ino))) (Names (Given h root st1))
                (λ dir n.
                  All-weaken (λ (x : DirEnt). Given h root st x.ino ⊎ (x.ino ≡ ino))
                    (λ (x : DirEnt). Given h root st1 x.ino) (λ x g. into x.ino g)
                    dir.dir_list.entries n)
                (map_values st.dirs) names);
          links = λ host k there.
              links_after h root st ino md.host_ino host k (Given h root st1) more self links
                (sym (ap (map_get host) kept) ∙ there);
          keys =
              Keys-gather h root d e md ino additional md.file_type st0 linked
                (λ host. Keys-linked h root st ino md.host_ino host keys);
        })

    unless_rendered-Closed :
        (st st' : Delta h)
        → All
            (Names (λ k.
              Given h root st k
              ⊎ (k ≡ (elim (map_get md.host_ino st.host_to_pfs) [
                | none ↦ ino
                | some rendered ↦ rendered
              ]))))
            (map_values st.dirs)
        → Links h root st
        → Keys h root st
        → unless_rendered h d e md ino st ≡ ok st'
        → Closed h root st'
    unfolding unless_rendered
    unless_rendered-Closed st st' names links keys placed =
        elim (Option-cases (map_get md.host_ino st.host_to_pfs)) [
          | inl fresh ↦
              let rendered : render h d e md ino st ≡ ok st' =
                rw (unless_rendered, fresh) at placed in
              render-Closed st st' fresh (rw fresh at names) links keys rendered
          | inr (i, there) ↦
              let same : ok st ≡ ok st' = rw (unless_rendered, there) at placed in
              let given = links md.host_ino i there in
              subst (Closed h root) (ok-injective same) (record {
                names =
                    All-weaken (Names (λ k. Given h root st k ⊎ (k ≡ i))) (Names (Given h root st))
                      (λ dir n.
                        All-weaken (λ (x : DirEnt). Given h root st x.ino ⊎ (x.ino ≡ i))
                          (λ (x : DirEnt). Given h root st x.ino)
                          (λ x g. elim g [
                            | inl old ↦ old
                            | inr it ↦ subst (Given h root st) (sym it) given
                          ])
                          dir.dir_list.entries n)
                      (map_values st.dirs) (rw there at names);
                links = links;
                keys = keys;
              })
        ]

    pub place_dirent-Closed :
        (st st' : Delta h)
        → (ino == 1) ≡ false
        → Closed h root st
        → place_dirent h d e md ino st ≡ ok st'
        → Closed h root st'
    unfolding place_dirent add_entry
    place_dirent-Closed st st' not_root closed placed =
        let placed' : (add_to_parent h d e md ino st >>= λ s. unless_rendered h d e md ino s)
            ≡ ok st' =
          rw (place_dirent, not_root) at placed in
        let (st1, parent, rest) = >>=-eq-ok (add_to_parent h d e md ino st) _ placed' in
        let (j, dirs', modified, made) = add_to_parent-eq-ok h d e md ino st st1 parent in
        let st2 : Delta h = record st { dirs = dirs' } in
        let rest' : unless_rendered h d e md ino st2 ≡ ok st' =
          subst (λ s. unless_rendered h d e md ino s ≡ ok st') (sym made) rest in
        let the_ino : Ino = elim (map_get md.host_ino st.host_to_pfs) [ none ↦ ino | some r ↦ r ] in
        let same : (k : Ino) → total h k st2 ≡ total h k st =
          λ k. omega (arith, count-map_modify dir_ino k j _ st.dirs dirs' (λ d'. refl) modified) in
        let old : (k : Ino) → Given h root st k → Given h root st2 k ⊎ (k ≡ the_ino) =
          λ k given. inl (omega (arith, same k, given)) in
        let wide : (dir : Dir)
            → Names (Given h root st) dir
            → Names (λ k. Given h root st2 k ⊎ (k ≡ the_ino)) dir =
          λ dir n.
            All-weaken (λ (x : DirEnt). Given h root st x.ino)
              (λ (x : DirEnt). Given h root st2 x.ino ⊎ (x.ino ≡ the_ino)) (λ x g. old x.ino g)
              dir.dir_list.entries n in
        unless_rendered-Closed st2 st'
          (All-map_modify (Names (Given h root st))
            (Names (λ k. Given h root st2 k ⊎ (k ≡ the_ino))) j (add_entry e.file_name the_ino)
            st.dirs dirs' wide
            (λ dir n.
              All-append (λ (x : DirEnt). Given h root st2 x.ino ⊎ (x.ino ≡ the_ino))
                dir.dir_list.entries _ (wide dir n) (inr refl, tt))
            modified closed.names)
          (λ host k there. omega (arith, same k, closed.links host k there))
          (λ host. elim (closed.keys host) [
            | inl missing ↦ inl (map_get-map_modify-none host j _ st.dirs dirs' modified missing)
            | inr known ↦ inr known
          ])
          rest'
