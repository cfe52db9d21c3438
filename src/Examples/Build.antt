-- ===== src/Examples/Build.antt =====
-- Images that are built from small trees.
use puzzlefs.Prelude.{
  ℕ, ◌+◌, ◌≡◌, ◌<◌, refl, sym, ◌∙◌, ap, subst, Bool, true, false, Bytes, bytes_eq, Option, none,
  some, List, [], ◌∷◌, length, arith, u64_mod, u32_mod, map, zero, suc,
}
use mathlib.Core.List.Permᴰ
use puzzlefs.Errors.{Result, ok, err, io_error, ok-injective, ◌>>=◌}
use puzzlefs.Format.{Hash, Ino, Inode, InodeMode, Rootfs}
use puzzlefs.Format.Wire.{RootfsMsg}
use puzzlefs.Format.RootfsCapnp.{rootfs_fill_capnp, rootfs_from_capnp}
use puzzlefs.Format.RoundTrip.{RootfsFits, rootfs_round_trip}
use puzzlefs.Format.Stack
use puzzlefs.Format.Stack.Layers.{IsLayer, answer, layer_find}
use puzzlefs.Oci.Put.{noop}
use puzzlefs.Reader.Lookup.{image_fs}
use puzzlefs.Oci.Rootfs.{Opened, open_image}
use puzzlefs.Builder.Delta.{Built, build_delta}
use puzzlefs.Builder.Delta.Layer.{build_delta-IsLayer}
use puzzlefs.Builder.Build.{Stored, build_initial_rootfs, add_rootfs_delta, add_layer_to}
use puzzlefs.Builder.Build.Layered.{Layered}
use puzzlefs.Builder.Build.Stores.{as_layer, initial_rootfs}
use puzzlefs.Builder.Build.Correct.{build_initial_rootfs-Opens, add_rootfs_delta-Opens}
use puzzlefs.Examples.{options}
use puzzlefs.Examples.Oci.{blob_host}
use puzzlefs.Examples.Trees.{
  first_tree, second_tree, inode_of, built, built-done, descriptor, one_manifest, reading,
  manifests, crates,
}

-- What a message that is written has, and nothing otherwise.
abbrev message_of : Result (RootfsMsg options) → RootfsMsg options
message_of (ok m) = m
message_of _ = record { metadatas = none; fs_verity_data = none; manifest_version = 1 }

built-Fits : RootfsFits (initial_rootfs built)
built-Fits = record {
  layers = omega arith;
  each_layer =
      ((omega arith, ((omega arith, tt), ((omega arith, tt), ((omega arith, tt), tt)))), tt);
  verities = omega arith;
  each_verity = tt;
  ordered = tt;
}

abbrev message : RootfsMsg options
message = message_of (rootfs_fill_capnp options (initial_rootfs built))

message-filled : rootfs_fill_capnp options (initial_rootfs built) ≡ ok message
unfolding rootfs_fill_capnp puzzlefs.Format.Capnp.checked_list puzzlefs.Errors.traverse
    puzzlefs.Format.RootfsCapnp.inode_vector_fill_capnp puzzlefs.Format.Capnp.inode_fill_capnp
    puzzlefs.Format.Capnp.inode_mode_fill_capnp puzzlefs.Format.Capnp.fill_additional
message-filled = refl

abbrev no_message : RootfsMsg options
no_message = record { metadatas = none; fs_verity_data = none; manifest_version = 0 }

abbrev after : Stored options (one_manifest no_message message)
after = ((1 ∷ [], 1 ∷ []) ∷ [], some (as_layer (λ d. "00") descriptor ∷ []))

build-done :
    build_initial_rootfs options
      (one_manifest no_message message)
      first_tree
      blob_host
      noop
      "tag"
      ([], none)
    ≡ ok (descriptor, after)
unfolding build_initial_rootfs build_delta puzzlefs.Format.Verity.bytes_cmp rootfs_fill_capnp
    puzzlefs.Format.Capnp.checked_list puzzlefs.Format.RootfsCapnp.inode_vector_fill_capnp
    puzzlefs.Format.Capnp.inode_fill_capnp puzzlefs.Format.Capnp.inode_mode_fill_capnp
    puzzlefs.Format.Capnp.fill_additional
build-done = refl

build_initial_rootfs-Opens_example :
    (opened : Opened options) × (open_image
        (reading no_message message after)
        options
        (manifests no_message message after)
        "tag"
        none
      ≡ ok opened)
    × (rootfs_from_capnp options opened.rootfs ≡ ok (initial_rootfs built))
    × ((ino : Ino)
        → Stack.find_inode options opened.rootfs ino ≡ answer (layer_find ino built.inodes))
build_initial_rootfs-Opens_example =
    build_initial_rootfs-Opens options (one_manifest no_message message) (λ d. "00")
      (reading no_message message) (manifests no_message message) first_tree blob_host noop "tag"
      ([], none) after descriptor built
      (crates no_message message (initial_rootfs built) message-filled) (λ ds. Permᴰ.refl ds)
      (omega arith) built-done built-Fits (λ buf other written same. same) build-done

abbrev base : Opened options
base = record { rootfs = message; verity_data = none; manifest_verity = none }

-- Without the directory: a whiteout hides it.
abbrev changed : Built
changed = record {
  inodes =
      inode_of 1 (
        InodeMode.dir (record {
          look_below = false;
          entries =
              record { ino = 2; name = 97 ∷ [] }
              ∷ record { ino = 3; name = 102 ∷ [] }
              ∷ record { ino = 3; name = 103 ∷ [] }
              ∷ [];
        }))
      ∷ record (inode_of 2 InodeMode.wht) { permissions = 0o644 }
      ∷ inode_of 3 (InodeMode.file [])
      ∷ [];
  verity_data = [];
  image = record { blobs = (1 ∷ [], 1 ∷ []) ∷ []; layers = [] };
}

abbrev changed_rootfs : Rootfs
changed_rootfs = record {
  metadatas = changed.inodes ∷ built.inodes ∷ [];
  fs_verity_data = [];
  manifest_version = 3;
}

abbrev new_message : RootfsMsg options
new_message = message_of (rootfs_fill_capnp options changed_rootfs)

abbrev before : Stored options (one_manifest message new_message)
before = ((1 ∷ [], 1 ∷ []) ∷ [], none)

layered : add_layer_to changed (initial_rootfs built) ≡ changed_rootfs
unfolding add_layer_to
layered = refl

changed-done :
    build_delta second_tree blob_host noop
      (some (image_fs (reading message new_message before) options base.rootfs base.verity_data))
      []
      (record { blobs = before.0; layers = [] })
    ≡ ok changed
unfolding build_delta puzzlefs.Format.Verity.bytes_cmp rootfs_fill_capnp
    puzzlefs.Format.Capnp.checked_list puzzlefs.Errors.traverse
    puzzlefs.Format.RootfsCapnp.inode_vector_fill_capnp puzzlefs.Format.Capnp.inode_fill_capnp
    puzzlefs.Format.Capnp.inode_mode_fill_capnp puzzlefs.Format.Capnp.fill_additional image_fs
    puzzlefs.Format.Search.find_loop puzzlefs.Format.Search.midpoint
    puzzlefs.Format.Capnp.inode_from_capnp puzzlefs.Format.Capnp.inode_mode_from_capnp
    puzzlefs.Format.Capnp.dir_ent_from_capnp puzzlefs.Format.Capnp.dir_ent_fill_capnp
    puzzlefs.Format.Capnp.inode_additional_from_capnp
changed-done = refl

changed_rootfs-Fits : RootfsFits changed_rootfs
changed_rootfs-Fits = record {
  layers = omega arith;
  each_layer = (
    (omega arith, ((omega arith, tt), ((tt, tt), ((omega arith, tt), tt)))),
    ((omega arith, ((omega arith, tt), ((omega arith, tt), ((omega arith, tt), tt)))), tt),
  );
  verities = omega arith;
  each_verity = tt;
  ordered = tt;
}

changed-Fits : RootfsFits (add_layer_to changed (initial_rootfs built))
changed-Fits = subst RootfsFits (sym layered) changed_rootfs-Fits

new_message-filled :
    rootfs_fill_capnp options (add_layer_to changed (initial_rootfs built)) ≡ ok new_message
unfolding add_layer_to rootfs_fill_capnp puzzlefs.Format.Capnp.checked_list puzzlefs.Errors.traverse
    puzzlefs.Format.RootfsCapnp.inode_vector_fill_capnp puzzlefs.Format.Capnp.inode_fill_capnp
    puzzlefs.Format.Capnp.inode_mode_fill_capnp puzzlefs.Format.Capnp.fill_additional
new_message-filled = refl

abbrev after_delta : Stored options (one_manifest message new_message)
after_delta = (before.0, some (as_layer (λ d. "00") descriptor ∷ []))

delta-done :
    add_rootfs_delta options
      (one_manifest message new_message)
      second_tree
      blob_host
      noop
      (reading message new_message before)
      (manifests message new_message before)
      "tag"
      "base"
      before
    ≡ ok (descriptor, after_delta)
unfolding add_rootfs_delta puzzlefs.Format.Capnp.checked_list
    puzzlefs.Format.RootfsCapnp.inode_vector_fill_capnp puzzlefs.Format.Capnp.inode_fill_capnp
    puzzlefs.Format.Capnp.inode_mode_fill_capnp puzzlefs.Format.Capnp.fill_additional
    puzzlefs.Format.RootfsCapnp.inode_vector_from_capnp puzzlefs.Format.Capnp.inode_from_capnp
    puzzlefs.Format.Capnp.inode_mode_from_capnp puzzlefs.Format.Capnp.dir_ent_from_capnp
    puzzlefs.Format.Capnp.dir_ent_fill_capnp puzzlefs.Format.Capnp.inode_additional_from_capnp
    puzzlefs.Format.RootfsCapnp.verity_loop puzzlefs.Format.Search.find_loop
    puzzlefs.Format.Search.midpoint puzzlefs.Format.Verity.bytes_cmp
delta-done = refl

base-opens :
    open_image
      (reading message new_message before)
      options
      (manifests message new_message before)
      "base"
      none
    ≡ ok base
unfolding open_image puzzlefs.Prelude.find rootfs_fill_capnp puzzlefs.Format.Capnp.checked_list
    puzzlefs.Errors.traverse puzzlefs.Format.RootfsCapnp.inode_vector_fill_capnp
    puzzlefs.Format.Capnp.inode_fill_capnp puzzlefs.Format.Capnp.inode_mode_fill_capnp
    puzzlefs.Format.Capnp.fill_additional
base-opens = refl

base-reads : rootfs_from_capnp options base.rootfs ≡ ok (initial_rootfs built)
base-reads =
    ap (λ m. m >>= rootfs_from_capnp options) (sym message-filled)
    ∙ rootfs_round_trip options (initial_rootfs built) built-Fits

add_rootfs_delta-Opens_example :
    (opened : Opened options) × (open_image
        (reading message new_message after_delta)
        options
        (manifests message new_message after_delta)
        "tag"
        none
      ≡ ok opened)
    × (new : Rootfs) × (rootfs_from_capnp options opened.rootfs ≡ ok new)
    × Layered changed (initial_rootfs built) new
add_rootfs_delta-Opens_example =
    add_rootfs_delta-Opens options (one_manifest message new_message) (λ d. "00")
      (reading message new_message) (manifests message new_message) second_tree blob_host noop "tag"
      "base" before after_delta descriptor base (initial_rootfs built) changed
      (crates message new_message (add_layer_to changed (initial_rootfs built)) new_message-filled)
      base-opens base-reads changed-done changed-Fits (λ buf other written same. same) delta-done

build_delta-IsLayer_example : IsLayer built.inodes
build_delta-IsLayer_example =
    build_delta-IsLayer first_tree blob_host noop [] (record { blobs = []; layers = [] }) built
      (λ ds. Permᴰ.refl ds) (omega arith) (omega arith) built-done
