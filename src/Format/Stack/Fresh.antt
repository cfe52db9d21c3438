-- ===== src/Format/Stack/Fresh.antt =====
-- puzzlefs-lib/src/format/types.rs: the largest inode number of the decoded layers.
use puzzlefs.Prelude.{
  ℕ, ◌<◌, ◌≤◌, ◌≡◌, refl, none, some, List, [], ◌∷◌, length, All, Bool-cases, leb, ◌⊎◌, inl, inr,
  max, arith, ap, subst, sym, ◌∙◌,
}
use puzzlefs.Errors.{
  Result, ok, err, panic, >>=-eq-ok, from_errno, Errno, traverse, traverse-eq-ok_cons,
  traverse-eq-ok_nil,
}
use puzzlefs.Format.{Ino, Inode, Rootfs}
use puzzlefs.Format.Wire.{Capnp, InodeMsg, InodeVectorMsg, VerityDataMsg, RootfsMsg}
use puzzlefs.Format.RootfsCapnp.{verity_loop, inode_vector_from_capnp, rootfs_from_capnp}
use puzzlefs.Format.Search.{max_ino}
use puzzlefs.Format.Search.Correct.{ino_at, max_ino_largest}
use puzzlefs.Format.Stack.{msg_ino, find_inode, max_loop, max_inode}
use puzzlefs.Format.Stack.Layers.{
  number, IsLayer, stack_find, answer, layer_find-none, Reads, traverse-Reads, Reads-length,
  Reads-ino, Reads-IsSorted,
}
use puzzlefs.Format.Stack.Correct.{find_inode-answer}

module _ (c : Capnp) where
  -- No inode of the layer has a larger number.
  abbrev pub Bounds : Ino → List Inode → Type 0
  Bounds m l = (p : ℕ) → p < length l → ino_at number l p ≤ m

  Bounds-mono : (m n : Ino) (ls : List (List Inode)) → m ≤ n → All (Bounds m) ls → All (Bounds n) ls
  Bounds-mono m n [] h b = tt
  Bounds-mono m n (l ∷ ls) h b = ((λ p lt. omega (arith, b.0 p lt)), Bounds-mono m n ls h b.1)

  max_ino_layer :
      (ws : List (InodeMsg c)) (l : List Inode)
      → Reads c ws l
      → IsLayer l
      → (m : Ino) × (max_ino (msg_ino c) ws ≡ ok (some m)) × Bounds m l
  max_ino_layer ws l h layer =
      let e = Reads-length c ws l h in
      let (m, found, largest) =
        max_ino_largest (msg_ino c) ws (Reads-IsSorted c ws l h layer) (omega (arith, layer.small))
          0 (omega (arith, layer.nonempty)) in
      (m, found, λ p lt. omega (arith, largest p, Reads-ino c ws l p h))

  max_loop-Bounds :
      (m : Ino) (ls : List (InodeVectorMsg c)) (rs : List (List Inode))
      → traverse (inode_vector_from_capnp c) ls ≡ ok rs
      → All IsLayer rs
      → (n : Ino) × (max_loop c m ls ≡ ok n) × (m ≤ n) × All (Bounds n) rs
  unfolding max_loop inode_vector_from_capnp
  max_loop-Bounds m [] rs h layers =
      (m, refl, omega arith, rw (traverse-eq-ok_nil (inode_vector_from_capnp c) rs h) tt)
  max_loop-Bounds m (l ∷ ls) rs h layers =
      let (r, rest, first, others, e) = traverse-eq-ok_cons (inode_vector_from_capnp c) l ls rs h in
      let (ws, got, decoded) = >>=-eq-ok (c.get (List (InodeMsg c)) [] l.inodes) _ first in
      let each = subst (All IsLayer) e layers in
      let (k, found, largest) = max_ino_layer ws r (traverse-Reads c ws r decoded) each.0 in
      let (n, ends, le, bounds) = max_loop-Bounds (max k m) ls rest others each.1 in
      (n, rw (got, found) ends, omega arith, rw e ((λ p lt. omega (arith, largest p)), bounds))

  stack_find-none :
      (m ino : Ino) (rs : List (List Inode))
      → m < ino
      → All (Bounds m) rs
      → stack_find ino rs ≡ none
  unfolding stack_find
  stack_find-none m ino [] h b = refl
  stack_find-none m ino (l ∷ rs) h b =
      rw (layer_find-none l ino (λ p lt. omega (arith, b.0 p lt)), stack_find)
        (stack_find-none m ino rs h b.1)

  -- In a message that decodes to a stack of layers as the builder writes them, `max_inode` returns a
  -- number that is at least 1, and any number is at most this or not taken: looking it up gives
  -- ENOENT. So the builder may hand out the numbers above it.
  pub max_inode_fresh :
      (m : RootfsMsg c) (r : Rootfs) (ino : Ino)
      → rootfs_from_capnp c m ≡ ok r
      → All IsLayer r.metadatas
      → (n : Ino) × (max_inode c m ≡ ok n)
        × (1 ≤ n)
        × ((ino ≤ n) ⊎ (find_inode c m ino ≡ err (from_errno Errno.enoent)))
  unfolding max_inode rootfs_from_capnp
  max_inode_fresh m r ino h layers =
      let (ls, got, h1) = >>=-eq-ok (c.get (List (InodeVectorMsg c)) [] m.metadatas) _ h in
      let (rs, decoded, h2) = >>=-eq-ok (traverse (inode_vector_from_capnp c) ls) _ h1 in
      let (es, _, h3) = >>=-eq-ok (c.get (List (VerityDataMsg c)) [] m.fs_verity_data) _ h2 in
      let (vs, _, h4) = >>=-eq-ok (verity_loop c [] es) _ h3 in
      let same : rs ≡ r.metadatas =
        ap (λ (x : Result Rootfs). elim x [ ok y ↦ y.metadatas | err _ ↦ rs | panic ↦ rs ]) h4 in
      let (n, ends, le, bounds) =
        max_loop-Bounds 1 ls rs decoded (subst (All IsLayer) (sym same) layers) in
      (
        n,
        rw got ends,
        le,
        elim (Bool-cases (leb ino n)) [
          | inl low ↦ inl (ground arith)
          | inr high ↦
              let lt : n < ino = ground arith in
              inr (
                find_inode-answer c m r ino h layers
                ∙ ap answer (ap (stack_find ino) (sym same) ∙ stack_find-none n ino rs lt bounds))
        ],
      )
