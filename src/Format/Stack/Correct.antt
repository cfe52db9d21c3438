-- ===== src/Format/Stack/Correct.antt =====
-- puzzlefs-lib/src/format/types.rs: searching the message agrees with searching the decoded layers.
use puzzlefs.Prelude.{
  ◌≡◌, Option, none, some, List, [], ◌∷◌, All, arith, ap, subst, sym, ◌∙◌, get_elem?-lt,
}
use puzzlefs.Errors.{
  Result, ok, err, panic, ◌>>=◌, >>=-eq-ok, traverse, traverse-eq-ok_cons, traverse-eq-ok_nil,
}
use puzzlefs.Format.{Ino, Inode, Rootfs}
use puzzlefs.Format.Wire.{Capnp, InodeMsg, InodeVectorMsg, VerityDataMsg, RootfsMsg}
use puzzlefs.Format.Capnp.{inode_from_capnp}
use puzzlefs.Format.RootfsCapnp.{verity_loop, inode_vector_from_capnp, rootfs_from_capnp}
use puzzlefs.Format.Search
use puzzlefs.Format.Search.{max_ino}
use puzzlefs.Format.Search.Correct.{Finds, find_inode-Finds}
use puzzlefs.Format.Stack.{finished, visible, msg_ino, find_in_layers, find_inode}
use puzzlefs.Format.Stack.Layers.{
  IsLayer, layer_find, stack_find, answer, number_at, layer_find-some, layer_find-none, Reads,
  traverse-Reads, Reads-length, Reads-ino, Reads-get, Reads-IsSorted,
}

module _ (c : Capnp) where
  -- The binary search of a layer's messages finds what the linear search of its inodes finds.
  abbrev Agrees : List Inode → Ino → Option (Result (Option (InodeMsg c))) → Type 0
  Agrees l ino (some (ok none)) = layer_find ino l ≡ none
  Agrees l ino (some (ok (some w))) =
      (i : Inode) × (inode_from_capnp c w ≡ ok i) × (layer_find ino l ≡ some i)
  Agrees l ino _ = ⊥

  Finds-Agrees :
      (ws : List (InodeMsg c)) (l : List Inode) (ino : Ino)
      → Reads c ws l
      → IsLayer l
      → (r : Option (Result (Option (InodeMsg c)))) → Finds (msg_ino c) ws ino r
      → Agrees l ino r
  Finds-Agrees ws l ino h layer none f = f
  Finds-Agrees ws l ino h layer (some (err e)) f = f
  Finds-Agrees ws l ino h layer (some panic) f = f
  Finds-Agrees ws l ino h layer (some (ok none)) f =
      layer_find-none l ino
        (λ q lt. grind (arith, Reads-ino c ws l q h, Reads-length c ws l h, f q))
  Finds-Agrees ws l ino h layer (some (ok (some w))) (p, here, e) =
      let (i, there, same, decodes) = Reads-get c ws l p w h here in
      (
        i,
        decodes,
        layer_find-some l ino p i
            (λ q lt. grind (
              arith,
              layer.ascending q p lt (get_elem?-lt l p i there),
              number_at l p i there,
              same,
              e,
            ))
            there (sym same ∙ e),
      )

  find_inode-Agrees :
      (ws : List (InodeMsg c)) (l : List Inode) (ino : Ino)
      → Reads c ws l
      → IsLayer l
      → Agrees l ino (Search.find_inode (msg_ino c) ws ino)
  find_inode-Agrees ws l ino h layer =
      let e = Reads-length c ws l h in
      Finds-Agrees ws l ino h layer _ (
        find_inode-Finds (msg_ino c) ws (Reads-IsSorted c ws l h layer) (omega (arith, layer.small))
          ino (omega (arith, layer.nonempty)))

  search_step :
      (ls : List (InodeVectorMsg c)) (l : List Inode) (rest : List (List Inode)) (ino : Ino)
      (r : Option (Result (Option (InodeMsg c))))
      → Agrees l ino r
      → find_in_layers c ls ino ≡ answer (stack_find ino rest)
      → (finished r >>= λ found. elim found [
        | none ↦ find_in_layers c ls ino
        | some w ↦ inode_from_capnp c w >>= visible
      ])
        ≡ answer (stack_find ino (l ∷ rest))
  unfolding stack_find visible
  search_step ls l rest ino none a below = absurd a
  search_step ls l rest ino (some (err e)) a below = absurd a
  search_step ls l rest ino (some panic) a below = absurd a
  search_step ls l rest ino (some (ok none)) a below = rw (a, stack_find) below
  search_step ls l rest ino (some (ok (some w))) (i, decodes, found) below =
      rw (decodes, found, stack_find)

  find_in_layers-answer :
      (ls : List (InodeVectorMsg c)) (rs : List (List Inode)) (ino : Ino)
      → traverse (inode_vector_from_capnp c) ls ≡ ok rs
      → All IsLayer rs
      → find_in_layers c ls ino ≡ answer (stack_find ino rs)
  unfolding find_in_layers inode_vector_from_capnp stack_find
  find_in_layers-answer [] rs ino h layers =
      rw (traverse-eq-ok_nil (inode_vector_from_capnp c) rs h, stack_find)
  find_in_layers-answer (l ∷ ls) rs ino h layers =
      let (r, rest, first, others, e) = traverse-eq-ok_cons (inode_vector_from_capnp c) l ls rs h in
      let (ws, got, decoded) = >>=-eq-ok (c.get (List (InodeMsg c)) [] l.inodes) _ first in
      let each = subst (All IsLayer) e layers in
      rw (got, e)
        (search_step ls r rest ino _
          (find_inode-Agrees ws r ino (traverse-Reads c ws r decoded) each.0)
          (find_in_layers-answer ls rest ino others each.1))

  -- In a message that decodes to a stack of layers as the builder writes them, `find_inode` never
  -- panics: it answers with the first inode of that number in the highest layer that has one, and
  -- with ENOENT if there is none or if that inode is a whiteout.
  pub find_inode-answer :
      (m : RootfsMsg c) (r : Rootfs) (ino : Ino)
      → rootfs_from_capnp c m ≡ ok r
      → All IsLayer r.metadatas
      → find_inode c m ino ≡ answer (stack_find ino r.metadatas)
  unfolding find_inode rootfs_from_capnp
  find_inode-answer m r ino h layers =
      let (ls, got, h1) = >>=-eq-ok (c.get (List (InodeVectorMsg c)) [] m.metadatas) _ h in
      let (rs, decoded, h2) = >>=-eq-ok (traverse (inode_vector_from_capnp c) ls) _ h1 in
      let (es, _, h3) = >>=-eq-ok (c.get (List (VerityDataMsg c)) [] m.fs_verity_data) _ h2 in
      let (vs, _, h4) = >>=-eq-ok (verity_loop c [] es) _ h3 in
      let same : rs ≡ r.metadatas =
        ap (λ (x : Result Rootfs). elim x [ ok y ↦ y.metadatas | err _ ↦ rs | panic ↦ rs ]) h4 in
      rw (got, ← same)
        (find_in_layers-answer ls rs ino decoded (subst (All IsLayer) (sym same) layers))
