-- ===== src/Format/Stack.antt =====
-- puzzlefs-lib/src/format/types.rs, `RootfsReader`: searching a stack of layers in the message, the
-- 0th layer being the highest.
pub mod Layers
pub mod Correct
pub mod Fresh
use puzzlefs.Prelude.{ℕ, Option, none, some, List, [], ◌∷◌, max}
use puzzlefs.Errors.{Result, ok, err, panic, ◌>>=◌, from_errno, Errno}
use puzzlefs.Format.{Ino, Inode, InodeMode}
use puzzlefs.Format.Wire.{Capnp, InodeMsg, InodeVectorMsg, RootfsMsg}
use puzzlefs.Format.Capnp.{inode_from_capnp}
use puzzlefs.Format.Search
use puzzlefs.Format.Search.{max_ino}

-- A search that ran out of fuel counts as a panic, so that no result rests on the fuel.
abbrev pub finished {ℓ} : {A : Type ℓ} → Option (Result A) → Result A
finished none = panic
finished (some r) = r

-- A whiteout hides the inode.
unfoldable pub visible : Inode → Result Inode
unfolding from_errno
visible i = elim i.mode [ InodeMode.wht ↦ err (from_errno Errno.enoent) | _ ↦ ok i ]

module _ (c : Capnp) where
  abbrev pub msg_ino : InodeMsg c → ℕ
  msg_ino m = m.ino

  unfoldable pub find_in_layers : List (InodeVectorMsg c) → Ino → Result Inode
  unfolding visible from_errno Search.find_inode
  find_in_layers [] ino = err (from_errno Errno.enoent)
  find_in_layers (l ∷ ls) ino = do
    is ← c.get (List (InodeMsg c)) [] l.inodes
    found ← finished (Search.find_inode msg_ino is ino)
    elim found [ none ↦ find_in_layers ls ino | some w ↦ inode_from_capnp c w >>= visible ]

  unfoldable pub find_inode : RootfsMsg c → Ino → Result Inode
  unfolding find_in_layers
  find_inode m ino = do ls ← c.get (List (InodeVectorMsg c)) [] m.metadatas; find_in_layers ls ino

  unfoldable pub max_loop : Ino → List (InodeVectorMsg c) → Result Ino
  unfolding max_ino
  max_loop m [] = ok m
  max_loop m (l ∷ ls) = do
    is ← c.get (List (InodeMsg c)) [] l.inodes
    o ← max_ino msg_ino is
    max_loop (elim o [ none ↦ m | some ino ↦ max ino m ]) ls

  unfoldable pub max_inode : RootfsMsg c → Result Ino
  unfolding max_loop
  max_inode m = do ls ← c.get (List (InodeVectorMsg c)) [] m.metadatas; max_loop 1 ls
