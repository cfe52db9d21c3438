-- ===== src/Format/Search.antt =====
-- puzzlefs-lib/src/format/types.rs, `InodeVector::find_inode` and `max_ino`: binary search in one
-- layer, with `u32` indices. `inodes.get(i)` panics where `i` is out of range.
pub mod Correct
use puzzlefs.Prelude.{
  ℕ, zero, suc, ◌+◌, ◌/◌, Bool, true, false, Option, none, some, List, get_elem?, length, ltb, leb,
  ◌==◌, add32, sub32,
}
use puzzlefs.Errors.{Result, ok, panic}

-- `mid = left + (right - left) / 2`
unfoldable pub midpoint : ℕ → ℕ → ℕ
unfolding add32 sub32
midpoint left right = add32 left (sub32 right left / 2)

module _ {A : Type 0} (ino_of : A → ℕ) (inodes : List A) where
  -- The `while` loop on fuel; `none` means that the fuel ran out.
  unfoldable pub find_loop : ℕ → ℕ → ℕ → ℕ → Option (Result (Option A))
  unfolding add32 sub32
  find_loop zero ino left right = none
  find_loop (suc fuel) ino left right = elim (leb left right) [
    | false ↦ some (ok none)
    | true ↦ elim (get_elem? inodes (midpoint left right)) [
      | none ↦ some panic
      | some i ↦ elim (ino_of i == ino) [
        | true ↦ some (ok (some i))
        | false ↦ elim (ltb (ino_of i) ino) [
          | true ↦ find_loop fuel ino (add32 (midpoint left right) 1) right
          | false ↦ elim (midpoint left right == 0) [
            | true ↦ some (ok none)
            | false ↦ find_loop fuel ino left (sub32 (midpoint left right) 1)
          ]
        ]
      ]
    ]
  ]

  unfoldable pub find_inode : ℕ → Option (Result (Option A))
  unfolding sub32
  find_inode ino = find_loop (length inodes + 1) ino 0 (sub32 (length inodes) 1)

  -- The number of the last inode; the index wraps in an empty layer.
  unfoldable pub max_ino : Result (Option ℕ)
  unfolding sub32
  max_ino = elim (get_elem? inodes (sub32 (length inodes) 1)) [
    | none ↦ panic
    | some i ↦ ok (some (ino_of i))
  ]
