-- ===== src/Format/Search/Correct.antt =====
-- puzzlefs-lib/src/format/types.rs: the binary search of a layer ends and decides membership.
use puzzlefs.Prelude.{
  ℕ, zero, suc, ◌+◌, ◌-◌, ◌/◌, ◌<◌, ◌≤◌, ◌≡◌, ◌≢◌, inl, inr, Option, none, some, List, get_elem?,
  get_elem?-some, length, ltb, leb, ◌==◌, add32, sub32, u32_mod, Bool-cases, arith, sub32_exact,
  subst,
}
use puzzlefs.Errors.{Result, ok, err, panic}
use puzzlefs.Format.Search.{midpoint, find_loop, find_inode, max_ino}

midpoint_exact : (l r : ℕ) → l ≤ r → r < u32_mod → midpoint l r ≡ (l + r) / 2
unfolding midpoint
midpoint_exact l r p q = omega arith

above_midpoint : (l r : ℕ) → l ≤ r → r + 1 < u32_mod → add32 (midpoint l r) 1 ≡ (l + r) / 2 + 1
unfolding add32
above_midpoint l r p q = omega (arith, midpoint_exact l r p)

below_midpoint :
    (l r : ℕ) → l ≤ r → r < u32_mod → midpoint l r ≢ 0 → sub32 (midpoint l r) 1 + 1 ≡ (l + r) / 2
unfolding sub32
below_midpoint l r p q h = omega (arith, midpoint_exact l r p)

module _ {A : Type 0} (ino_of : A → ℕ) (inodes : List A) where
  -- The inode number at an index; every use stands under a bound on the index.
  abbrev pub ino_at : ℕ → ℕ
  ino_at p = elim (get_elem? inodes p) [ none ↦ 0 | some i ↦ ino_of i ]

  abbrev pub IsSorted : Type 0
  IsSorted = (p q : ℕ) → p ≤ q → q < length inodes → ino_at p ≤ ino_at q

  -- An inode of the layer with the number, or no inode of the layer has it.
  abbrev pub Locates : ℕ → Option A → Type 0
  Locates ino (some i) = (p : ℕ) × (get_elem? inodes p ≡ some i) × (ino_of i ≡ ino)
  Locates ino none = (p : ℕ) → p < length inodes → ino_at p ≢ ino

  -- The run ends without a panic, in such a result.
  abbrev pub Finds : ℕ → Option (Result (Option A)) → Type 0
  Finds ino (some (ok r)) = Locates ino r
  Finds ino (some (err e)) = ⊥
  Finds ino (some panic) = ⊥
  Finds ino none = ⊥

  record Inv (ino left right : ℕ) : Type 0 where
    ordered : left ≤ right + 1
    inside : right < length inodes
    below : (p : ℕ) → p < left → ino_at p < ino
    above : (p : ℕ) → right < p → p < length inodes → ino < ino_at p

  module _ (sorted : IsSorted) (small : length inodes < u32_mod) (ino : ℕ) where
    module _ {left right : ℕ} (inv : Inv ino left right) (open_range : left ≤ right) where
      right_half :
          ino_at (midpoint left right) < ino → Inv ino (add32 (midpoint left right) 1) right
      right_half lt = grind (arith, midpoint_exact left right, above_midpoint left right)

      left_half :
          ino < ino_at (midpoint left right)
          → midpoint left right ≢ 0
          → Inv ino left (sub32 (midpoint left right) 1)
      left_half lt nonzero = grind (arith, midpoint_exact left right, below_midpoint left right)

      at_zero : ino < ino_at (midpoint left right) → midpoint left right ≡ 0 → Locates ino none
      at_zero lt e p h = grind (arith, sorted (midpoint left right) p)

    find_loop-Finds :
        (fuel left right : ℕ)
        → Inv ino left right
        → right + 1 - left < fuel
        → Finds ino (find_loop ino_of inodes fuel ino left right)
    unfolding find_loop midpoint
    find_loop-Finds zero left right inv enough = absurd (omega arith)
    find_loop-Finds (suc fuel) left right inv enough = elim (Bool-cases (leb left right)) [
      | inr closed ↦ rw (closed, find_loop) (λ p h. grind arith)
      | inl open_range ↦
          let le : left ≤ right = ground arith in
          let (i, here) =
            get_elem?-some inodes (midpoint left right)
              (omega (arith, midpoint_exact left right le, inv.inside)) in
          elim (Bool-cases (ino_of i == ino)) [
            | inl hit ↦
                rw (open_range, here, hit, find_loop) (midpoint left right, here, ground arith)
            | inr miss ↦ elim (Bool-cases (ltb (ino_of i) ino)) [
              | inl lt ↦
                  rw (open_range, here, miss, lt, find_loop)
                    (find_loop-Finds fuel (add32 (midpoint left right) 1) right
                      (right_half inv le (rw (here, ino_at) (ground arith)))
                      (omega (arith, above_midpoint left right le, inv.inside)))
              | inr ge ↦
                  let gt : ino < ino_at (midpoint left right) = rw (here, ino_at) (ground arith) in
                  elim (Bool-cases (midpoint left right == 0)) [
                    | inl z ↦
                        rw (open_range, here, miss, ge, z, find_loop)
                          (at_zero inv le gt (ground arith))
                    | inr nz ↦
                        let ne : midpoint left right ≢ 0 = ground arith in
                        rw (open_range, here, miss, ge, nz, find_loop)
                          (find_loop-Finds fuel left (sub32 (midpoint left right) 1)
                            (left_half inv le gt ne)
                            (omega (arith, below_midpoint left right le, inv.inside, small)))
                  ]
            ]
          ]
    ]

    -- On a layer that is sorted by inode number, not empty and short enough for a `u32` index, the
    -- search ends without a panic; what it returns has the number asked for, and if it returns
    -- nothing then no inode of the layer has that number.
    pub find_inode-Finds : 0 < length inodes → Finds ino (find_inode ino_of inodes ino)
    unfolding find_inode sub32
    find_inode-Finds nonempty =
        find_loop-Finds (length inodes + 1) 0 (sub32 (length inodes) 1)
          (record {
            ordered = omega arith;
            inside = omega arith;
            below = λ p h. absurd (omega arith);
            above = λ p h k. absurd (omega arith);
          })
          (omega arith)

    -- On such a layer `max_ino` is the number of some inode, and none has a larger one.
    pub max_ino_largest :
        0 < length inodes
        → (m : ℕ) × (max_ino ino_of inodes ≡ ok (some m))
          × ((p : ℕ) → p < length inodes → ino_at p ≤ m)
    unfolding max_ino
    max_ino_largest nonempty =
        let last : sub32 (length inodes) 1 ≡ length inodes - 1 = sub32_exact _ _ nonempty small in
        let (i, here) = get_elem?-some inodes (sub32 (length inodes) 1) (omega arith) in
        (
          ino_of i,
          rw (here, max_ino),
          λ p h.
              subst (λ n. ino_at p ≤ n) (rw (here, ino_at))
                (sorted p (sub32 (length inodes) 1) (omega arith) (omega arith)),
        )
