-- ===== src/Examples/Trees.antt =====
-- Small trees, and an OCI directory that holds one image.
use puzzlefs.Prelude.{
  ℕ, ◌≡◌, refl, sym, ◌∙◌, ap, false, Bytes, Option, none, some, List, [], ◌∷◌, map,
}
use puzzlefs.Errors.{Result, ok, err, io_error, ok-injective}
use puzzlefs.Format.{Hash, Ino, Inode, InodeMode, Rootfs}
use puzzlefs.Format.Inodes.{Metadata, FileType, is_dir, is_file}
use puzzlefs.Format.Wire.{RootfsMsg}
use puzzlefs.Format.RootfsCapnp.{rootfs_fill_capnp}
use puzzlefs.Compression.{Host}
use puzzlefs.Oci.Put.{noop, Descriptor, blob, puzzlefs_rootfs}
use puzzlefs.Oci.Rootfs.{Oci, Layer}
use puzzlefs.Builder.Tree.{HostPath, HostEntry, HostTree}
use puzzlefs.Builder.Delta.{Built, build_delta}
use puzzlefs.Builder.Build.{OciDir, Stored}
use puzzlefs.Builder.Build.Stores.{as_layer, Crates}
use puzzlefs.Examples.{options}
use puzzlefs.Examples.Oci.{blob_host}

abbrev pub metadata_of : FileType → ℕ → Metadata
metadata_of type host_ino = record {
  file_type = type;
  host_ino = host_ino;
  size = 0;
  uid = 0;
  gid = 0;
  st_mode = 0o755;
  major = 0;
  minor = 0;
}

abbrev pub entry : Bytes → FileType → ℕ → Result HostEntry
entry name type host_ino =
    ok (record { file_name = name; metadata = ok (metadata_of type host_ino) })

-- A root directory with these entries, which are empty.
abbrev pub tree_of : List (Result HostPath) → List (Result HostEntry) → HostTree
tree_of walked entries = record {
  file_system = record { File = Bytes; open_file = λ path. ok []; read = λ f n. ok ([], []) };
  attributes = record {
    read_link = λ p. ok [];
    xattr_list = λ p. ok [];
    xattr_get = λ p n. ok none;
  };
  full_path = λ p. [];
  walk = walked;
  symlink_metadata =
      λ p. elim p [ [] ↦ ok (metadata_of is_dir 100) | _ ∷ _ ↦ ok (metadata_of is_dir 101) ];
  read_dir = λ p. elim p [ [] ↦ ok entries | _ ∷ _ ↦ ok [] ];
  stream_cdc = λ stream. [];
  into_values = λ ds. ds;
}

-- A directory, a file, and a hard link to the file.
abbrev pub first_tree : HostTree
first_tree =
    tree_of (ok [] ∷ ok ((97 ∷ []) ∷ []) ∷ []) (
      entry (97 ∷ []) is_dir 101 ∷ entry (103 ∷ []) is_file 102 ∷ entry (102 ∷ []) is_file 102 ∷ [])

-- The directory is gone.
abbrev pub second_tree : HostTree
second_tree =
    tree_of (ok [] ∷ []) (entry (103 ∷ []) is_file 102 ∷ entry (102 ∷ []) is_file 102 ∷ [])

abbrev pub inode_of : Ino → InodeMode → Inode
inode_of ino mode = record {
  ino = ino;
  mode = mode;
  uid = 0;
  gid = 0;
  permissions = 0o755;
  additional = none;
}

abbrev pub built : Built
built = record {
  inodes =
      inode_of 1 (
        InodeMode.dir (record {
          look_below = false;
          entries =
              record { ino = 2; name = 97 ∷ [] }
              ∷ record { ino = 3; name = 102 ∷ [] }
              ∷ record { ino = 3; name = 103 ∷ [] }
              ∷ [];
        }))
      ∷ inode_of 2 (InodeMode.dir (record { look_below = false; entries = [] }))
      ∷ inode_of 3 (InodeMode.file [])
      ∷ [];
  verity_data = [];
  image = record { blobs = []; layers = [] };
}

pub built-done :
    build_delta first_tree blob_host noop none [] (record { blobs = []; layers = [] }) ≡ ok built
unfolding build_delta puzzlefs.Format.Verity.bytes_cmp
built-done = refl

-- The descriptor of the metadata.
abbrev pub descriptor : Descriptor
descriptor = record {
  media_type = puzzlefs_rootfs;
  size = 1;
  digest = 1 ∷ [];
  annotation = some (9 ∷ 1 ∷ []);
}

-- An OCI directory with one image, whose metadata is `old`, until an image is stored, whose metadata
-- is `new`.
module _ (old new : RootfsMsg options) where
  abbrev pub one_manifest : OciDir options
  one_manifest = record {
    Index = Option (List Layer);
    write_message = λ x. ok (1 ∷ []);
    new_empty_manifest = λ index. ok [];
    insert_manifest = λ layers tag s. ok (s.0, some (map (as_layer (λ d. "00")) layers));
  }

  abbrev pub reading : Stored options one_manifest → Host
  reading s = record {
    File = Unit {0};
    open_blob = λ d. ok tt;
    measure = λ f. err (io_error none);
    file_seek = λ f to. err (io_error none);
    file_read = λ f n. err (io_error none);
    Stream = Unit {0};
    stream_init = λ f. err (io_error none);
    frame_sizes = λ f. [];
    decompress = λ f n o. err (io_error none);
  }

  abbrev pub manifests : (s : Stored options one_manifest) → Oci (reading s) options
  manifests s = record {
    find_manifest_with_tag = λ tag. elim s.1 [
      | none ↦ ok (some (as_layer (λ d. "00") descriptor ∷ []))
      | some layers ↦ ok (some layers)
    ];
    find_manifest_descriptor_with_tag = λ tag. ok none;
    decode_to_slice = λ text. err (io_error none);
    read_message = λ f. elim s.1 [ none ↦ ok old | some layers ↦ ok new ];
  }

  pub crates :
      (r : Rootfs)
      → rootfs_fill_capnp options r ≡ ok new
      → Crates options one_manifest (λ d. "00") reading manifests r
  crates r filled = record {
    empty = λ s layers e. sym (ok-injective e);
    tagged = λ layers tag before after e.
        ap (λ (s : Stored options one_manifest). (manifests s).find_manifest_with_tag tag)
          (sym (ok-injective e));
    kept = λ layers tag before after d b e there.
        ap (λ (s : Stored options one_manifest). blob d s.0) (sym (ok-injective e)) ∙ there;
    read_back = λ layers tag before s d b m inserted there filled' written. (
      tt,
      refl,
      ap (λ (x : Stored options one_manifest). (manifests x).read_message tt)
            (sym (ok-injective inserted))
          ∙ sym filled
          ∙ filled',
    );
  }
