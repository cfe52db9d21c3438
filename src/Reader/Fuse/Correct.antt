-- ===== src/Reader/Fuse/Correct.antt =====
-- puzzlefs-lib/src/reader/fuse.rs: requests that must agree with each other.
use puzzlefs.Prelude.{
  ℕ, ◌<◌, ◌≤◌, ◌≡◌, ◌≢◌, ◌⊎◌, inl, inr, Bool-cases, Option-cases, refl, none, some, [], ◌∷◌, ◌++◌,
  All, Lacks, split, split-append, append_assoc, find, map, bytes_eq, bytes_eq_iff, ap, sym, ◌∙◌,
  Bool, true, false, Bytes, List, length, leb, ltb, ◌==◌, u32_mod, arith,
}
use puzzlefs.Errors.{Result, ok, err, panic, >>=-eq-ok, ok-injective, Errno, from_errno}
use puzzlefs.Format.{Ino, Inode, Xattr}
use puzzlefs.Format.Inodes.{dir_lookup}
use puzzlefs.Reader.Lookup.{PuzzleFs}
use puzzlefs.Reader.Fuse.{
  FileAttr, DirReply, OpenFlags, look_up, get_attr, get_xattr, list_xattr, xattr_keys, c_string,
  mode_to_fuse_type,
}
use puzzlefs.Reader.Fuse.Requests.{
  lookup, getattr, getxattr, listxattr, Reply, error, entry, attr, bytes, size, handle, answer,
  xattr_reply,
}

-- The answers to a client that asks for the size of a value and then for the value, with a buffer of
-- `n` bytes.
abbrev pub ServesValue : (ℕ → Reply) → ℕ → Bytes → Type 0
ServesValue ask n v =
    (ask 0 ≡ size (length v))
    × (((length v ≤ n) × (ask n ≡ bytes v)) ⊎ ((n < length v) × (ask n ≡ error Errno.erange)))

xattr_reply-Serves :
    (v : Bytes) (n : ℕ) → length v < u32_mod → 0 < n → ServesValue (λ n'. xattr_reply n' v) n v
unfolding xattr_reply
xattr_reply-Serves v n small some_room =
    let fits : ltb (length v) u32_mod ≡ true = ground arith in
    let asked : (n == 0) ≡ false = ground arith in
    (
      rw (xattr_reply, fits),
      elim (Bool-cases (leb (length v) n)) [
        | inl room ↦ inl (ground arith, rw (xattr_reply, fits, asked, room))
        | inr no_room ↦ inr (ground arith, rw (xattr_reply, fits, asked, no_room))
      ],
    )

Serves-move :
    (ask ask' : ℕ → Reply) (n : ℕ) (v : Bytes)
    → ((k : ℕ) → ask k ≡ ask' k)
    → ServesValue ask' n v
    → ServesValue ask n v
Serves-move ask ask' n v same (asked, inl (le, whole)) = (same 0 ∙ asked, inl (le, same n ∙ whole))
Serves-move ask ask' n v same (asked, inr (lt, short)) = (same 0 ∙ asked, inr (lt, same n ∙ short))

entry_of : (x : Result FileAttr) (a : FileAttr) → answer x entry ≡ entry a → x ≡ ok a
entry_of (ok b) a h = cc h
entry_of (err e) a h = absurd (cc h)
entry_of panic a h = absurd (cc h)

-- The attributes of an inode, in their order.
abbrev pub xattrs_of : Inode → List Xattr
xattrs_of i = elim i.additional [ none ↦ [] | some add ↦ add.xattrs ]

-- The first attribute of this name has this value.
abbrev pub First : Bytes → Bytes → List Xattr → Type 0
First name v [] = ⊥
First name v (x ∷ xs) = ((x.key ≡ name) × (x.val ≡ v)) ⊎ ((x.key ≢ name) × First name v xs)

-- The names, each with a zero byte after it.
abbrev pub key_list : List Xattr → Bytes
key_list [] = []
key_list (x ∷ xs) = x.key ++ 0 ∷ key_list xs

split-key_list :
    (xs : List Xattr)
    → All (λ (x : Xattr). Lacks 0 x.key) xs
    → split 0 (key_list xs) ≡ map (λ (x : Xattr). x.key) xs ++ [] ∷ []
unfolding split
split-key_list [] clean = refl
split-key_list (x ∷ xs) clean =
    split-append 0 x.key (key_list xs) clean.0 ∙ ap (λ ps. x.key ∷ ps) (split-key_list xs clean.1)

find_zero : (key : Bytes) → Lacks 0 key → find (λ (b : ℕ). b == 0) key ≡ none
unfolding find
find_zero [] lacks = refl
find_zero (b ∷ key) lacks = rw (find, lacks.0) (find_zero key lacks.1)

c_string-ok : (key : Bytes) → Lacks 0 key → c_string key ≡ ok (key ++ 0 ∷ [])
unfolding c_string
c_string-ok key lacks = rw (c_string, find_zero key lacks)

xattr_keys-key_list :
    (xs : List Xattr) → All (λ (x : Xattr). Lacks 0 x.key) xs → xattr_keys xs ≡ ok (key_list xs)
unfolding xattr_keys
xattr_keys-key_list [] clean = refl
xattr_keys-key_list (x ∷ xs) clean =
    rw (xattr_keys, c_string-ok x.key clean.0, xattr_keys-key_list xs clean.1)
      (ap ok (append_assoc x.key (0 ∷ []) (key_list xs)))

-- The value of an attribute, or ENODATA.
abbrev value_of : Bytes → List Xattr → Result Bytes
value_of name xs = elim (find (λ (x : Xattr). bytes_eq x.key name) xs) [
  | none ↦ err (from_errno Errno.enodata)
  | some x ↦ ok x.val
]

value_of-cases :
    (name : Bytes) (xs : List Xattr)
    → All (λ (x : Xattr). length x.val < u32_mod) xs
    → ((v : Bytes) × First name v xs × (length v < u32_mod) × (value_of name xs ≡ ok v))
      ⊎ (All (λ (x : Xattr). x.key ≢ name) xs × (value_of name xs ≡ err (from_errno Errno.enodata)))
unfolding find
value_of-cases name [] small = inr (tt, refl)
value_of-cases name (x ∷ xs) small = elim (Bool-cases (bytes_eq x.key name)) [
  | inl same ↦
      inl (x.val, inl ((bytes_eq_iff x.key name).0 same, refl), small.0, rw (value_of, find, same))
  | inr other ↦
      let apart : x.key ≢ name = λ e. cc (other, (bytes_eq_iff x.key name).1 e) in
      elim (value_of-cases name xs small.1) [
        | inl (v, first, fits, is) ↦
            inl (v, inr (apart, first), fits, rw (value_of, find, other) is)
        | inr (lacks, is) ↦ inr ((apart, lacks), rw (value_of, find, other) is)
      ]
]

module _ (o : OpenFlags) (full : List DirReply → DirReply → Bool) (pfs : PuzzleFs) where
  get_xattr-found :
      (ino : Ino) (name : Bytes) (i : Inode)
      → pfs.find_inode ino ≡ ok i
      → get_xattr pfs ino name ≡ value_of name (xattrs_of i)
  unfolding get_xattr find
  get_xattr-found ino name i found = elim (Option-cases i.additional) [
    | inl plain ↦ rw (found, plain)
    | inr (add, more) ↦ rw (found, more)
  ]

  list_xattr-key_list :
      (ino : Ino) (i : Inode)
      → pfs.find_inode ino ≡ ok i
      → All (λ (x : Xattr). Lacks 0 x.key) (xattrs_of i)
      → list_xattr pfs ino ≡ ok (key_list (xattrs_of i))
  unfolding list_xattr xattr_keys
  list_xattr-key_list ino i found clean = elim (Option-cases i.additional) [
    | inl plain ↦ rw (found, plain)
    | inr (add, more) ↦
        let clean' : All (λ (x : Xattr). Lacks 0 x.key) add.xattrs = rw more at clean in
        rw (found, more) (xattr_keys-key_list add.xattrs clean')
  ]

  -- A client that asks for an attribute of an inode that is found gets the value of the first
  -- attribute of that name: the length of the value if it asks for its size, the whole value into a
  -- buffer of that size or larger, and ERANGE for a smaller one, never a part of it. Where the inode
  -- has no attribute of that name, the answer is ENODATA. A `u32` counts each value.
  pub getxattr-ServesValue :
      (ino : Ino) (name : Bytes) (n : ℕ) (i : Inode)
      → pfs.find_inode ino ≡ ok i
      → All (λ (x : Xattr). length x.val < u32_mod) (xattrs_of i)
      → 0 < n
      → ((v : Bytes) × First name v (xattrs_of i)
          × ServesValue (λ k. handle o full pfs (getxattr ino name k)) n v)
        ⊎ (All (λ (x : Xattr). x.key ≢ name) (xattrs_of i)
            × ((k : ℕ) → handle o full pfs (getxattr ino name k) ≡ error Errno.enodata))
  unfolding handle puzzlefs.Errors.to_errno
  getxattr-ServesValue ino name n i found small some_room =
      let got = get_xattr-found ino name i found in
      elim (value_of-cases name (xattrs_of i) small) [
        | inl (v, first, fits, is) ↦ inl (
          v,
          first,
          Serves-move _ (λ k. xattr_reply k v) n v
              (λ k. ap (λ r. answer r (xattr_reply k)) (got ∙ is))
              (xattr_reply-Serves v n fits some_room),
        )
        | inr (lacks, is) ↦ inr (lacks, λ k. ap (λ r. answer r (xattr_reply k)) (got ∙ is))
      ]

  -- A client that asks for the names of the attributes of an inode that is found gets the names in
  -- their order, each with a zero byte after it, from which a split at the zero bytes gives the names
  -- again: the length of this list if it asks for its size, the whole list into a buffer of that size
  -- or larger, and ERANGE for a smaller one. No name has a zero byte, and a `u32` counts the list.
  pub listxattr-ServesValue :
      (ino : Ino) (n : ℕ) (i : Inode)
      → pfs.find_inode ino ≡ ok i
      → All (λ (x : Xattr). Lacks 0 x.key) (xattrs_of i)
      → length (key_list (xattrs_of i)) < u32_mod
      → 0 < n
      → ServesValue (λ k. handle o full pfs (listxattr ino k)) n (key_list (xattrs_of i))
        × (split 0 (key_list (xattrs_of i)) ≡ map (λ (x : Xattr). x.key) (xattrs_of i) ++ [] ∷ [])
  unfolding handle
  listxattr-ServesValue ino n i found clean small some_room = (
    Serves-move _ (λ k. xattr_reply k (key_list (xattrs_of i))) n (key_list (xattrs_of i))
        (λ k. ap (λ r. answer r (xattr_reply k)) (list_xattr-key_list ino i found clean))
        (xattr_reply-Serves (key_list (xattrs_of i)) n small some_room),
    split-key_list (xattrs_of i) clean,
  )

  get_attr-ino :
      (ino : Ino) (a : FileAttr)
      → ((i : Inode) → pfs.find_inode ino ≡ ok i → i.ino ≡ ino)
      → get_attr pfs ino ≡ ok a
      → a.ino ≡ ino
  unfolding get_attr
  get_attr-ino ino a own h =
      let (i, found, h1) = >>=-eq-ok (pfs.find_inode ino) _ h in
      let (kind, typed, h2) = (>>=-eq-ok (mode_to_fuse_type i) _ h1) in
      ap (λ (x : FileAttr). x.ino) (sym (ok-injective h2)) ∙ own i found

  -- A lookup replies with the attributes that a later request for the inode it names replies with,
  -- where a search for a number finds an inode of that number.
  pub lookup-getattr :
      (parent : Ino) (name : Bytes) (a : FileAttr)
      → ((ino : Ino) (i : Inode) → pfs.find_inode ino ≡ ok i → i.ino ≡ ino)
      → handle o full pfs (lookup parent name) ≡ entry a
      → handle o full pfs (getattr a.ino) ≡ attr a
  unfolding handle look_up
  lookup-getattr parent name a own h =
      let looked = entry_of (look_up pfs parent name) a h in
      let (dir, found, h1) = >>=-eq-ok (pfs.find_inode parent) _ looked in
      let (ino, named, got) = >>=-eq-ok (dir_lookup dir name) _ h1 in
      ap (λ x. answer x attr) (ap (get_attr pfs) (get_attr-ino ino a (own ino) got) ∙ got)
