-- ===== src/Format/Additional.antt =====
-- puzzlefs-lib/src/format/types.rs, `impl InodeAdditional`: the extended attributes and the symlink
-- target of a host file.
use puzzlefs.Prelude.{Bytes, Option, none, some, List, []}
use puzzlefs.Errors.{Result, ok, panic, ◌>>=◌, traverse}
use puzzlefs.Format.{Xattr, InodeAdditional}
use puzzlefs.Format.Inodes.{FileType, is_symlink, Metadata}

-- `fs::read_link`, and the `list` and `get` of the xattr crate.
pub record AttributeHost : Type 0 where
  pub read_link : Bytes → Result Bytes
  pub xattr_list : Bytes → Result (List Bytes)
  pub xattr_get : Bytes → Bytes → Result (Option Bytes)

module _ (h : AttributeHost) where
  -- `value.unwrap()` of an attribute that is gone is a panic.
  unfoldable pub get_xattr : Bytes → Bytes → Result Xattr
  get_xattr p xa = do
    value ← h.xattr_get p xa
    elim value [ none ↦ panic | some val ↦ ok (record { key = xa; val = val }) ]

  unfoldable pub get_xattrs : Bytes → Result (List Xattr)
  unfolding get_xattr traverse
  get_xattrs p = do names ← h.xattr_list p; traverse (get_xattr p) names

  unfoldable pub target_of : Bytes → FileType → Result (Option Bytes)
  target_of p is_symlink = do t ← h.read_link p; ok (some t)
  target_of p _ = ok none

  -- `symlink_target.is_none() && xattrs.is_empty()`
  abbrev pub unless_empty : Option Bytes → List Xattr → Option InodeAdditional
  unless_empty none [] = none
  unless_empty target xattrs = some (record { xattrs = xattrs; symlink_target = target })

  -- `InodeAdditional::new`
  unfoldable pub new_additional : Bytes → Metadata → Result (Option InodeAdditional)
  unfolding target_of get_xattrs
  new_additional p md = do
    target ← target_of p md.file_type
    xattrs ← get_xattrs p
    ok (unless_empty target xattrs)
