-- ===== src/Format/Stack/Layers.antt =====
-- puzzlefs-lib/src/format/types.rs: the layers that a message decodes to, and the specification of
-- the search in them.
use puzzlefs.Prelude.{
  ℕ, zero, suc, ◌<◌, ◌≡◌, ◌≢◌, refl, Option, none, some, List, [], ◌∷◌, get_elem?, length, find,
  ◌==◌, u32_mod, arith, ap, subst,
}
use puzzlefs.Errors.{
  Result, ok, err, panic, >>=-eq-ok, from_errno, Errno, traverse, traverse-eq-ok_cons,
  traverse-eq-ok_nil,
}
use puzzlefs.Format.{Ino, Inode, InodeMode}
use puzzlefs.Format.Wire.{InodeAdditionalMsg, Capnp, InodeMsg}
use puzzlefs.Format.Capnp.{
  inode_from_capnp, inode_mode_from_capnp, inode_additional_from_capnp, empty_additional,
}
use puzzlefs.Format.Search.Correct.{ino_at, IsSorted}
use puzzlefs.Format.Stack.{msg_ino}

abbrev pub number : Inode → ℕ
number i = i.ino

-- A layer as the builder writes it: it has an inode, a `u32` counts it, and the numbers ascend.
pub record IsLayer (l : List Inode) : Type 0 where
  pub nonempty : 0 < length l
  pub small : length l < u32_mod
  pub ascending : (p q : ℕ) → p < q → q < length l → ino_at number l p < ino_at number l q

-- The specification: the first inode with the number, in the highest layer that has one.
abbrev pub layer_find : Ino → List Inode → Option Inode
layer_find ino = find (λ (i : Inode). i.ino == ino)

unfoldable pub stack_find : Ino → List (List Inode) → Option Inode
stack_find ino [] = none
stack_find ino (l ∷ ls) = elim (layer_find ino l) [ none ↦ stack_find ino ls | some i ↦ some i ]

-- What the reader answers for it: a missing inode and a whiteout are ENOENT.
abbrev pub answer : Option Inode → Result Inode
answer none = err (from_errno Errno.enoent)
answer (some i) = elim i.mode [ InodeMode.wht ↦ err (from_errno Errno.enoent) | _ ↦ ok i ]

pub number_at :
    (l : List Inode) (p : ℕ) (i : Inode) → get_elem? l p ≡ some i → ino_at number l p ≡ i.ino
number_at l p i h = rw (h, ino_at)

-- In a list where the numbers differ, an element with the number is the one that `find` meets.
pub layer_find-some :
    (l : List Inode) (ino p : ℕ) (i : Inode)
    → ((q : ℕ) → q < p → ino_at number l q ≢ ino)
    → get_elem? l p ≡ some i
    → i.ino ≡ ino
    → layer_find ino l ≡ some i
unfolding find
layer_find-some [] ino p i others here e = cc
layer_find-some (x ∷ l) ino zero i others here e = ground arith
layer_find-some (x ∷ l) ino (suc p) i others here e =
    ground (arith, others 0, layer_find-some l ino p i (λ q h. others (suc q) (omega arith)))

pub layer_find-none :
    (l : List Inode) (ino : ℕ)
    → ((q : ℕ) → q < length l → ino_at number l q ≢ ino)
    → layer_find ino l ≡ none
unfolding find
layer_find-none [] ino others = refl
layer_find-none (x ∷ l) ino others =
    ground (arith, others 0, layer_find-none l ino (λ q h. others (suc q) (omega arith)))

module _ (c : Capnp) where
  pub inode_from_capnp-ino :
      (w : InodeMsg c) (i : Inode) → inode_from_capnp c w ≡ ok i → w.ino ≡ i.ino
  unfolding inode_from_capnp
  inode_from_capnp-ino w i h =
      let (mode, _, h1) = >>=-eq-ok (inode_mode_from_capnp c w.mode) _ h in
      let (m, _, h2) =
        >>=-eq-ok (c.get (InodeAdditionalMsg c) (empty_additional c) w.additional) _ h1 in
      let (a, _, h3) = >>=-eq-ok (inode_additional_from_capnp c m) _ h2 in
      ap (λ (r : Result Inode). elim r [ ok x ↦ x.ino | err _ ↦ w.ino | panic ↦ w.ino ]) h3

  -- The messages of a layer, one by one, read as its inodes.
  pub Reads : List (InodeMsg c) → List Inode → Type 0
  Reads [] [] = Unit
  Reads [] (i ∷ is) = ⊥
  Reads (w ∷ ws) [] = ⊥
  Reads (w ∷ ws) (i ∷ is) = (w.ino ≡ i.ino) × (inode_from_capnp c w ≡ ok i) × Reads ws is

  pub traverse-Reads :
      (ws : List (InodeMsg c)) (is : List Inode)
      → traverse (inode_from_capnp c) ws ≡ ok is
      → Reads ws is
  unfolding Reads
  traverse-Reads [] is h = rw (traverse-eq-ok_nil (inode_from_capnp c) is h) tt
  traverse-Reads (w ∷ ws) is h =
      let (i, rest, first, others, e) = traverse-eq-ok_cons (inode_from_capnp c) w ws is h in
      rw e (inode_from_capnp-ino w i first, first, traverse-Reads ws rest others)

  pub Reads-length :
      (ws : List (InodeMsg c)) (is : List Inode) → Reads ws is → length ws ≡ length is
  unfolding Reads
  Reads-length [] [] h = refl
  Reads-length [] (i ∷ is) h = absurd h
  Reads-length (w ∷ ws) [] h = absurd h
  Reads-length (w ∷ ws) (i ∷ is) h = ap suc (Reads-length ws is h.2)

  pub Reads-ino :
      (ws : List (InodeMsg c)) (is : List Inode) (p : ℕ)
      → Reads ws is
      → ino_at (msg_ino c) ws p ≡ ino_at number is p
  unfolding Reads
  Reads-ino [] [] p h = refl
  Reads-ino [] (i ∷ is) p h = absurd h
  Reads-ino (w ∷ ws) [] p h = absurd h
  Reads-ino (w ∷ ws) (i ∷ is) zero h = h.0
  Reads-ino (w ∷ ws) (i ∷ is) (suc p) h = Reads-ino ws is p h.2

  pub Reads-get :
      (ws : List (InodeMsg c)) (is : List Inode) (p : ℕ) (w : InodeMsg c)
      → Reads ws is
      → get_elem? ws p ≡ some w
      → (i : Inode) × (get_elem? is p ≡ some i) × (w.ino ≡ i.ino) × (inode_from_capnp c w ≡ ok i)
  unfolding Reads
  Reads-get [] is p w h e = cc
  Reads-get (v ∷ ws) [] p w h e = absurd h
  Reads-get (v ∷ ws) (i ∷ is) zero w h e =
      subst
        (λ (u : Option (InodeMsg c)). elim u [
          | none ↦ Unit {0}
          | some w ↦
              (j : Inode) × (some i ≡ some j) × (w.ino ≡ j.ino) × (inode_from_capnp c w ≡ ok j)
        ])
        e (i, refl, h.0, h.1)
  Reads-get (v ∷ ws) (i ∷ is) (suc p) w h e = Reads-get ws is p w h.2 e

  pub Reads-IsSorted :
      (ws : List (InodeMsg c)) (l : List Inode) → Reads ws l → IsLayer l → IsSorted (msg_ino c) ws
  Reads-IsSorted ws l h layer p q le lt =
      grind
        (arith, Reads-ino ws l p h, Reads-ino ws l q h, Reads-length ws l h, layer.ascending p q)
