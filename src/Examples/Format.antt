-- ===== src/Examples/Format.antt =====
-- Runs of puzzlefs-lib/src/format/types.rs.
use puzzlefs.Prelude.{
  zero, suc, All, ℕ, ◌≡◌, ◌<◌, ◌≤◌, ◌⊎◌, refl, none, List, [], ◌∷◌, length, arith,
}
use puzzlefs.Errors.{ok, err, panic, ◌>>=◌, from_errno, Errno, traverse}
use puzzlefs.Format.{Ino, InodeMode, Inode}
use puzzlefs.Format.Wire.{RootfsMsg, InodeMsg}
use puzzlefs.Format.Capnp.{inode_fill_capnp, inode_from_capnp}
use puzzlefs.Format.Capnp.Laws.{InodeFits, inode_back}
use puzzlefs.Format.RootfsCapnp.{rootfs_fill_capnp, rootfs_from_capnp}
use puzzlefs.Format.RoundTrip.{RootfsFits, rootfs_round_trip}
use puzzlefs.Format.Verity.{insert}
use puzzlefs.Format.Search
use puzzlefs.Format.Capnp
use puzzlefs.Format.RootfsCapnp
use puzzlefs.Format.Verity
use puzzlefs.Format.Search.Correct.{IsSorted, Finds, find_inode-Finds, ino_at}
use puzzlefs.Format.Stack.{find_inode, max_inode}
use puzzlefs.Format.Stack.Layers.{IsLayer, number, answer, stack_find}
use puzzlefs.Format.Stack.Correct.{find_inode-answer}
use puzzlefs.Format.Stack.Fresh.{max_inode_fresh}
use puzzlefs.Examples.{options, root_inode, file_inode, whiteout, two_layers}

file_inode-Fits : InodeFits file_inode
file_inode-Fits = ((omega arith, (refl, (refl, tt))), omega arith)

two_layers-Fits : RootfsFits two_layers
two_layers-Fits = record {
  layers = omega arith;
  each_layer = (
    (omega arith, ((tt, tt), tt)),
    ((omega arith, ((omega arith, tt), (file_inode-Fits, ((tt, tt), tt)))), tt),
  );
  verities = omega arith;
  each_verity = ((refl, refl), tt);
  ordered = (tt, tt);
}

rootfs_round_trip_example :
    (rootfs_fill_capnp options two_layers >>= rootfs_from_capnp options) ≡ ok two_layers
rootfs_round_trip_example = rootfs_round_trip options two_layers two_layers-Fits

inode_back_example :
    (w : InodeMsg options) × (inode_fill_capnp options file_inode ≡ ok w)
    × (inode_from_capnp options w ≡ ok file_inode)
inode_back_example = inode_back options file_inode file_inode-Fits

abbrev lower : List Inode
lower = root_inode ∷ file_inode ∷ record whiteout { mode = InodeMode.fifo } ∷ []

lower-ascending :
    (p q : ℕ) → p < q → q < length lower → ino_at number lower p < ino_at number lower q
lower-ascending zero (suc zero) h k = omega arith
lower-ascending zero (suc (suc zero)) h k = omega arith
lower-ascending (suc zero) (suc (suc zero)) h k = omega arith
lower-ascending zero zero h k = absurd (omega arith)
lower-ascending (suc p) zero h k = absurd (omega arith)
lower-ascending (suc p) (suc zero) h k = absurd (omega arith)
lower-ascending (suc (suc p)) (suc (suc zero)) h k = absurd (omega arith)
lower-ascending p (suc (suc (suc q))) h k = absurd (omega arith)

lower-sorted : IsSorted number lower
lower-sorted zero zero h k = omega arith
lower-sorted zero (suc zero) h k = omega arith
lower-sorted zero (suc (suc zero)) h k = omega arith
lower-sorted (suc zero) (suc zero) h k = omega arith
lower-sorted (suc zero) (suc (suc zero)) h k = omega arith
lower-sorted (suc (suc zero)) (suc (suc zero)) h k = omega arith
lower-sorted (suc p) zero h k = absurd (omega arith)
lower-sorted (suc (suc p)) (suc zero) h k = absurd (omega arith)
lower-sorted (suc (suc (suc p))) (suc (suc zero)) h k = absurd (omega arith)
lower-sorted p (suc (suc (suc q))) h k = absurd (omega arith)

layers : All IsLayer two_layers.metadatas
layers = (
  record {
    nonempty = omega arith;
    small = omega arith;
    ascending = λ p q h k. absurd (omega arith);
  },
  (record { nonempty = omega arith; small = omega arith; ascending = lower-ascending }, tt),
)

-- The message that `two_layers` is written to.
abbrev no_message : RootfsMsg options
no_message = record { metadatas = none; fs_verity_data = none; manifest_version = 0 }

abbrev message : RootfsMsg options
unfolding rootfs_fill_capnp
message = elim (rootfs_fill_capnp options two_layers) [
  | ok m ↦ m
  | err e ↦ no_message
  | panic ↦ no_message
]

message-reads : rootfs_from_capnp options message ≡ ok two_layers
unfolding rootfs_from_capnp message Capnp.checked_list traverse RootfsCapnp.inode_vector_fill_capnp
    inode_fill_capnp Capnp.inode_mode_fill_capnp Capnp.fill_additional
    Capnp.inode_additional_fill_capnp RootfsCapnp.inode_vector_from_capnp inode_from_capnp
    Capnp.inode_mode_from_capnp Capnp.inode_additional_from_capnp Capnp.dir_ent_from_capnp
    Capnp.dir_ent_fill_capnp Capnp.file_chunk_from_capnp Capnp.file_chunk_fill_capnp
    Capnp.blob_ref_from_capnp Capnp.blob_ref_fill_capnp Capnp.to_hash Capnp.xattr_fill_capnp
    Capnp.xattr_from_capnp rootfs_fill_capnp RootfsCapnp.verity_fill_capnp RootfsCapnp.verity_loop
    Verity.bytes_cmp insert
message-reads = refl

find_inode-Finds_example : Finds number lower 2 (Search.find_inode number lower 2)
find_inode-Finds_example = find_inode-Finds number lower lower-sorted (omega arith) 2 (omega arith)

-- The whiteout of the upper layer hides the inode 3.
find_inode-answer_example :
    find_inode options message 3 ≡ answer (stack_find 3 two_layers.metadatas)
find_inode-answer_example = find_inode-answer options message two_layers 3 message-reads layers

max_inode_fresh_example :
    (n : Ino) × (max_inode options message ≡ ok n)
    × (1 ≤ n)
    × ((4 ≤ n) ⊎ (find_inode options message 4 ≡ err (from_errno Errno.enoent)))
max_inode_fresh_example = max_inode_fresh options message two_layers 4 message-reads layers
