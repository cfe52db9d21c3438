-- ===== src/Format/Wire.antt =====
-- puzzlefs-lib/src/format/metadata.capnp: what a message holds, by the schema. How Cap'n Proto lays
-- a message out, and the accessors that it generates, are not code of this repository: a pointer
-- field and its accessors are the parameter `Capnp`.
use puzzlefs.Prelude.{ℕ, Bool, true, false, ◌≡◌, Bytes, List}
use puzzlefs.Errors.{Result, ok}

-- `Ptr A` is a pointer field whose target is an `A` (a Data, a list or a struct). `get` takes the
-- default of the type, as the generated accessors do. The laws are the documented behaviour: a
-- field reads back what was set, and a field that was never set reads as the default.
pub record Capnp : Type 1 where
  pub Ptr : Type 0 → Type 0
  pub null : (A : Type 0) → Ptr A
  pub init : (A : Type 0) → A → Ptr A
  pub has : (A : Type 0) → Ptr A → Bool
  pub get : (A : Type 0) → A → Ptr A → Result A
  pub has-null : (A : Type 0) → has A (null A) ≡ false
  pub has-init : (A : Type 0) (a : A) → has A (init A a) ≡ true
  pub get-null : (A : Type 0) (d : A) → get A d (null A) ≡ ok d
  pub get-init : (A : Type 0) (d a : A) → get A d (init A a) ≡ ok a

module _ (c : Capnp) where
  pub record DeviceMsg : Type 0 where
    pub major : ℕ
    pub minor : ℕ

  pub record BlobRefMsg : Type 0 where
    pub digest : c.Ptr Bytes
    pub offset : ℕ
    pub compressed : Bool

  pub record FileChunkMsg : Type 0 where
    pub blob : c.Ptr BlobRefMsg
    pub len : ℕ

  pub record DirEntryMsg : Type 0 where
    pub ino : ℕ
    pub name : c.Ptr Bytes

  pub record DirMsg : Type 0 where
    pub entries : c.Ptr (List DirEntryMsg)
    pub look_below : Bool

  pub record XattrMsg : Type 0 where
    pub key : c.Ptr Bytes
    pub val : c.Ptr Bytes

  pub record InodeAdditionalMsg : Type 0 where
    pub xattrs : c.Ptr (List XattrMsg)
    pub symlink_target : c.Ptr Bytes

  -- The union `mode`; `not_in_schema` is a discriminant that no field of the union has.
  pub data ModeMsg : Type 0 where
    unknown : ModeMsg
    fifo : ModeMsg
    chr : c.Ptr DeviceMsg → ModeMsg
    dir : c.Ptr DirMsg → ModeMsg
    blk : c.Ptr DeviceMsg → ModeMsg
    file : c.Ptr (List FileChunkMsg) → ModeMsg
    lnk : ModeMsg
    sock : ModeMsg
    wht : ModeMsg
    not_in_schema : ModeMsg

  pub record InodeMsg : Type 0 where
    pub ino : ℕ
    pub mode : ModeMsg
    pub uid : ℕ
    pub gid : ℕ
    pub permissions : ℕ
    pub additional : c.Ptr InodeAdditionalMsg

  pub record InodeVectorMsg : Type 0 where
    pub inodes : c.Ptr (List InodeMsg)

  pub record VerityDataMsg : Type 0 where
    pub digest : c.Ptr Bytes
    pub verity : c.Ptr Bytes

  pub record RootfsMsg : Type 0 where
    pub metadatas : c.Ptr (List InodeVectorMsg)
    pub fs_verity_data : c.Ptr (List VerityDataMsg)
    pub manifest_version : ℕ
