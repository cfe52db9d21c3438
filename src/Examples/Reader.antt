-- ===== src/Examples/Reader.antt =====
-- Runs of puzzlefs-lib/src/reader.
use puzzlefs.Prelude.{
  ℕ, zero, suc, ◌+◌, ◌≡◌, ◌≤◌, ◌<◌, ◌⊎◌, ◌≢◌, split, ap, sym, refl, Bool, true, false, Bytes,
  Option, none, some, List, [], ◌∷◌, ◌++◌, map, take, drop, length, arith, All,
}
use puzzlefs.Errors.{Result, ok-injective, ok, err, from_errno, Errno}
use puzzlefs.Format.{Ino, Inode, InodeMode, Xattr}
use puzzlefs.Format.Inodes.{file_len}
use puzzlefs.Reader.File.{file_read}
use puzzlefs.Reader.File.Correct.{ChunksRead, file_read-range, ChunkReads-blob}
use puzzlefs.Oci.Blob.{fill_from_chunk}
use puzzlefs.Oci.Blob.Correct.{BlobReads}
use puzzlefs.Reader.Lookup.{PuzzleFs, lookup, FileReader, new_reader, copy, image_fs}
use puzzlefs.Reader.Lookup.Image.{copy-concat}
use puzzlefs.Format.Wire.{RootfsMsg}
use puzzlefs.Reader.Fuse.{FileAttr, DirReply, OpenFlags, Kind}
use puzzlefs.Reader.Fuse.Requests.{
  lookup as lookup_request, getattr, getxattr, listxattr, attr, entry, error, handle,
}
use puzzlefs.Reader.Fuse.Correct.{
  ServesValue, xattrs_of, First, key_list, getxattr-ServesValue, listxattr-ServesValue,
  lookup-getattr,
}
use puzzlefs.Reader.Walk.{next, slash}
use puzzlefs.Reader.Walk.Correct.{Reached, Step, next-Step}
use puzzlefs.Examples.{
  options, one_blob, content, chunk_1, chunk_2, root_inode, file_inode, whiteout,
}

abbrev file_content : Bytes
file_content = 11 ∷ 12 ∷ 13 ∷ 10 ∷ 11 ∷ []

abbrev pipe : Inode
pipe = record whiteout { mode = InodeMode.fifo }

abbrev small_find : Ino → Result Inode
small_find (suc zero) = ok root_inode
small_find (suc (suc zero)) = ok file_inode
small_find (suc (suc (suc zero))) = ok pipe
small_find _ = err (from_errno Errno.enoent)

-- A directory with a file and a pipe.
abbrev pub small_fs : PuzzleFs
small_fs = record {
  find_inode = small_find;
  max_inode = ok 3;
  read = λ i offset size. ok (take size (drop offset file_content));
}

-- The first chunk's blob without verity data.
plain_blob : BlobReads one_blob chunk_1.blob none content
unfolding puzzlefs.Prelude.bytes_eq
plain_blob = (
  (content, 0),
  refl,
  tt,
  λ s n. ((content, s), s, (content, s + length (take n (drop s content))), refl, refl),
)

zstd_blob : BlobReads one_blob chunk_2.blob none content
unfolding puzzlefs.Prelude.bytes_eq puzzlefs.Compression.sum64 puzzlefs.Prelude.add64
zstd_blob = ((content, 0), refl, tt, (content, refl, refl, λ n o le. refl))

chunks_read :
    ChunksRead
      (λ b addl n. fill_from_chunk one_blob b addl n none)
      (chunk_1 ∷ chunk_2 ∷ [])
      ((11 ∷ 12 ∷ 13 ∷ []) ∷ (10 ∷ 11 ∷ []) ∷ [])
chunks_read = (
  ChunkReads-blob one_blob none chunk_1 content plain_blob (omega arith) (omega arith),
  (ChunkReads-blob one_blob none chunk_2 content zstd_blob (omega arith) (omega arith), tt),
)

-- The range crosses from the first chunk to the second.
file_read-range_example : file_read one_blob file_inode 1 3 none ≡ ok (take 3 (drop 1 file_content))
file_read-range_example =
    file_read-range one_blob file_inode none (chunk_1 ∷ chunk_2 ∷ [])
      ((11 ∷ 12 ∷ 13 ∷ []) ∷ (10 ∷ 11 ∷ []) ∷ []) 1 3 refl chunks_read (omega arith) (omega arith)

abbrev no_layers : RootfsMsg options
no_layers = record { metadatas = none; fs_verity_data = none; manifest_version = 3 }

copy-concat_example :
    (r : FileReader) × (new_reader file_inode ≡ ok r)
    × (copy (image_fs one_blob options no_layers none) 2 6 r [] ≡ some (ok file_content))
copy-concat_example =
    copy-concat one_blob options no_layers file_inode (chunk_1 ∷ chunk_2 ∷ [])
      ((11 ∷ 12 ∷ 13 ∷ []) ∷ (10 ∷ 11 ∷ []) ∷ []) 2 refl chunks_read (omega arith) (omega arith)

abbrev flags : OpenFlags
flags = record {
  known = 0xFFFFFF;
  o_rdonly = 0;
  o_path = 0o10000000;
  o_nonblock = 0o4000;
  o_directory = 0o200000;
  o_nofollow = 0o400000;
  o_noatime = 0o1000000;
}

-- A buffer that takes one entry.
abbrev one_entry : List DirReply → DirReply → Bool
one_entry [] r = false
one_entry (x ∷ xs) r = true

getxattr-ServesValue_example :
    ((v : Bytes) × First (120 ∷ []) v (xattrs_of file_inode)
      × ServesValue (λ k. handle flags one_entry small_fs (getxattr 2 (120 ∷ []) k)) 2 v)
    ⊎ (All (λ (x : Xattr). x.key ≢ (120 ∷ [])) (xattrs_of file_inode)
        × ((k : ℕ)
            → handle flags one_entry small_fs (getxattr 2 (120 ∷ []) k) ≡ error Errno.enodata))
getxattr-ServesValue_example =
    getxattr-ServesValue flags one_entry small_fs 2 (120 ∷ []) 2 file_inode refl (omega arith, tt)
      (omega arith)

listxattr-ServesValue_example :
    ServesValue
      (λ k. handle flags one_entry small_fs (listxattr 2 k))
      2
      (key_list (xattrs_of file_inode))
    × (split 0 (key_list (xattrs_of file_inode))
        ≡ map (λ (x : Xattr). x.key) (xattrs_of file_inode) ++ [] ∷ [])
listxattr-ServesValue_example =
    listxattr-ServesValue flags one_entry small_fs 2 2 file_inode refl ((refl, tt), tt)
      (omega arith) (omega arith)

small_find-own : (ino : Ino) (i : Inode) → small_fs.find_inode ino ≡ ok i → i.ino ≡ ino
small_find-own zero i e = absurd (cc e)
small_find-own (suc zero) i e = ap (λ (x : Inode). x.ino) (sym (ok-injective e))
small_find-own (suc (suc zero)) i e = ap (λ (x : Inode). x.ino) (sym (ok-injective e))
small_find-own (suc (suc (suc zero))) i e = ap (λ (x : Inode). x.ino) (sym (ok-injective e))
small_find-own (suc (suc (suc (suc n)))) i e = absurd (cc e)

abbrev file_attr : FileAttr
file_attr = record { ino = 2; size = 5; kind = Kind.regular_file; perm = 0o644; uid = 7; gid = 8 }

looked_up : handle flags one_entry small_fs (lookup_request 1 (97 ∷ [])) ≡ entry file_attr
unfolding handle puzzlefs.Prelude.add64
looked_up = refl

lookup-getattr_example : handle flags one_entry small_fs (getattr file_attr.ino) ≡ attr file_attr
lookup-getattr_example =
    lookup-getattr flags one_entry small_fs 1 (97 ∷ []) file_attr small_find-own looked_up

abbrev listing : List DirReply
listing =
    record { ino = 2; next = 1; kind = Kind.regular_file; name = 97 ∷ [] }
    ∷ record { ino = 3; next = 2; kind = Kind.named_pipe; name = 98 ∷ [] }
    ∷ []

next-Step_example :
    Step small_fs (next small_fs (record { path = slash ∷ []; inode = root_inode } ∷ []))
next-Step_example =
    next-Step small_fs (record { path = slash ∷ []; inode = root_inode } ∷ [])
      (Reached.root root_inode refl, tt)
