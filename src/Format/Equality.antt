-- ===== src/Format/Equality.antt =====
-- puzzlefs-lib/src/format/types.rs: `PartialEq`, as it is derived for an inode and its parts.
pub mod Laws
use puzzlefs.Prelude.{◌==◌, ◌&&◌, Bool, true, false, bytes_eq, Option, none, some, List, [], ◌∷◌}
use puzzlefs.Format.{DirEnt, FileChunk, Xattr, InodeAdditional, Inode, InodeMode}

abbrev pub list_eq {ℓ} : {A : Type ℓ} → (A → A → Bool) → List A → List A → Bool
list_eq eq [] [] = true
list_eq eq [] (y ∷ ys) = false
list_eq eq (x ∷ xs) [] = false
list_eq eq (x ∷ xs) (y ∷ ys) = eq x y && list_eq eq xs ys

abbrev pub option_eq {ℓ} : {A : Type ℓ} → (A → A → Bool) → Option A → Option A → Bool
option_eq eq none none = true
option_eq eq (some x) (some y) = eq x y
option_eq eq _ _ = false

abbrev pub bool_eq : Bool → Bool → Bool
bool_eq true b = b
bool_eq false true = false
bool_eq false false = true

unfoldable pub dir_ent_eq : DirEnt → DirEnt → Bool
unfolding bytes_eq
dir_ent_eq d e = (d.ino == e.ino) && bytes_eq d.name e.name

unfoldable pub file_chunk_eq : FileChunk → FileChunk → Bool
unfolding bytes_eq
file_chunk_eq c d =
    bytes_eq c.blob.digest d.blob.digest
    && (c.blob.offset == d.blob.offset)
    && bool_eq c.blob.compressed d.blob.compressed
    && (c.len == d.len)

unfoldable pub xattr_eq : Xattr → Xattr → Bool
unfolding bytes_eq
xattr_eq x y = bytes_eq x.key y.key && bytes_eq x.val y.val

unfoldable pub additional_eq : InodeAdditional → InodeAdditional → Bool
unfolding xattr_eq bytes_eq
additional_eq a b =
    list_eq xattr_eq a.xattrs b.xattrs && option_eq bytes_eq a.symlink_target b.symlink_target

unfoldable pub mode_eq : InodeMode → InodeMode → Bool
unfolding dir_ent_eq file_chunk_eq
mode_eq InodeMode.unknown InodeMode.unknown = true
mode_eq InodeMode.fifo InodeMode.fifo = true
mode_eq (InodeMode.chr a b) (InodeMode.chr c d) = (a == c) && (b == d)
mode_eq (InodeMode.dir d) (InodeMode.dir e) =
    bool_eq d.look_below e.look_below && list_eq dir_ent_eq d.entries e.entries
mode_eq (InodeMode.blk a b) (InodeMode.blk c d) = (a == c) && (b == d)
mode_eq (InodeMode.file cs) (InodeMode.file ds) = list_eq file_chunk_eq cs ds
mode_eq InodeMode.lnk InodeMode.lnk = true
mode_eq InodeMode.sock InodeMode.sock = true
mode_eq InodeMode.wht InodeMode.wht = true
mode_eq _ _ = false

unfoldable pub inode_eq : Inode → Inode → Bool
unfolding mode_eq additional_eq
inode_eq i j =
    (i.ino == j.ino)
    && mode_eq i.mode j.mode
    && (i.uid == j.uid)
    && (i.gid == j.gid)
    && (i.permissions == j.permissions)
    && option_eq additional_eq i.additional j.additional
