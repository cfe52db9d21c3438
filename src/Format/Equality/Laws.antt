-- ===== src/Format/Equality/Laws.antt =====
-- puzzlefs-lib/src/format/types.rs: the derived `PartialEq` of an inode tells equality.
use puzzlefs.Prelude.{
  ◌≡◌, ◌∙◌, refl, ap, ==_iff, ◌&&◌, Bool, true, false, bytes_eq, bytes_eq_iff, Option, none, some,
  List, [], ◌∷◌,
}
use puzzlefs.Format.{InodeMode}
use puzzlefs.Format.Equality.{
  list_eq, option_eq, bool_eq, dir_ent_eq, file_chunk_eq, xattr_eq, additional_eq, mode_eq,
  inode_eq,
}

-- The test is true only of what is equal, and of a value and itself.
abbrev pub Tells {ℓ} : {A : Type ℓ} → (A → A → Bool) → Type ℓ
Tells {A = A} eq = ((x y : A) → eq x y ≡ true → x ≡ y) × ((x : A) → eq x x ≡ true)

both : (a b : Bool) → (a && b) ≡ true → (a ≡ true) × (b ≡ true)
both true b h = (refl, h)
both false b h = absurd (cc h)

pub list_eq-Tells {ℓ} : {A : Type ℓ} (eq : A → A → Bool) → Tells eq → Tells (list_eq eq)
list_eq-Tells {A = A} eq (sound, own) = (same, itself)
  where
    same : (xs ys : List A) → list_eq eq xs ys ≡ true → xs ≡ ys
    same [] [] h = refl
    same [] (y ∷ ys) h = absurd (cc h)
    same (x ∷ xs) [] h = absurd (cc h)
    same (x ∷ xs) (y ∷ ys) h =
        let (head, tail) = both (eq x y) (list_eq eq xs ys) h in
        ap (λ l. l ∷ xs) (sound x y head) ∙ ap (λ l. y ∷ l) (same xs ys tail)

    itself : (xs : List A) → list_eq eq xs xs ≡ true
    itself [] = refl
    itself (x ∷ xs) = rw (own x) (itself xs)

option_eq-Tells {ℓ} : {A : Type ℓ} (eq : A → A → Bool) → Tells eq → Tells (option_eq eq)
option_eq-Tells {A = A} eq (sound, own) = (same, itself)
  where
    same : (x y : Option A) → option_eq eq x y ≡ true → x ≡ y
    same none none h = refl
    same none (some y) h = absurd (cc h)
    same (some x) none h = absurd (cc h)
    same (some x) (some y) h = ap some (sound x y h)

    itself : (x : Option A) → option_eq eq x x ≡ true
    itself none = refl
    itself (some x) = own x

bool_eq-Tells : Tells bool_eq
bool_eq-Tells = (same, itself)
  where
    same : (x y : Bool) → bool_eq x y ≡ true → x ≡ y
    same true true h = refl
    same true false h = absurd (cc h)
    same false true h = absurd (cc h)
    same false false h = refl

    itself : (x : Bool) → bool_eq x x ≡ true
    itself true = refl
    itself false = refl

dir_ent_eq-Tells : Tells dir_ent_eq
unfolding dir_ent_eq
dir_ent_eq-Tells = (
  λ x y h.
      let (i, n) = both _ _ h in
      let i' = (==_iff x.ino y.ino).0 i in
      let n' = (bytes_eq_iff x.name y.name).0 n in
      ap (λ v. record x { ino = v }) i' ∙ ap (λ v. record y { name = v }) n',
  λ x. rw ((==_iff x.ino x.ino).1 refl) ((bytes_eq_iff x.name x.name).1 refl),
)

file_chunk_eq-Tells : Tells file_chunk_eq
unfolding file_chunk_eq
file_chunk_eq-Tells = (
  λ x y h.
      let (h1, n) = both _ _ h in
      let (h2, c) = both _ _ h1 in
      let (d, o) = both _ _ h2 in
      let d' = (bytes_eq_iff x.blob.digest y.blob.digest).0 d in
      let o' = (==_iff x.blob.offset y.blob.offset).0 o in
      let c' = bool_eq-Tells.0 x.blob.compressed y.blob.compressed c in
      let n' = (==_iff x.len y.len).0 n in cc (d', o', c', n'),
  λ x.
      rw
        (
          (bytes_eq_iff x.blob.digest x.blob.digest).1 refl,
          (==_iff x.blob.offset x.blob.offset).1 refl,
          bool_eq-Tells.1 x.blob.compressed,
        )
        ((==_iff x.len x.len).1 refl),
)

xattr_eq-Tells : Tells xattr_eq
unfolding xattr_eq
xattr_eq-Tells = (
  λ x y h.
      let (k, v) = both _ _ h in
      let k' = (bytes_eq_iff x.key y.key).0 k in
      let v' = (bytes_eq_iff x.val y.val).0 v in cc (k', v'),
  λ x. rw ((bytes_eq_iff x.key x.key).1 refl) ((bytes_eq_iff x.val x.val).1 refl),
)

bytes_eq-Tells : Tells bytes_eq
bytes_eq-Tells = (λ x y h. (bytes_eq_iff x y).0 h, λ x. (bytes_eq_iff x x).1 refl)

additional_eq-Tells : Tells additional_eq
unfolding additional_eq
additional_eq-Tells = (
  λ x y h.
      let (a, t) = both _ _ h in
      let a' = (list_eq-Tells xattr_eq xattr_eq-Tells).0 x.xattrs y.xattrs a in
      let t' = (option_eq-Tells bytes_eq bytes_eq-Tells).0 x.symlink_target y.symlink_target t in
      cc (a', t'),
  λ x.
      rw ((list_eq-Tells xattr_eq xattr_eq-Tells).1 x.xattrs)
        ((option_eq-Tells bytes_eq bytes_eq-Tells).1 x.symlink_target),
)

mode_eq-same : (m n : InodeMode) → mode_eq m n ≡ true → m ≡ n
unfolding mode_eq
mode_eq-same InodeMode.unknown InodeMode.unknown h = refl
mode_eq-same InodeMode.fifo InodeMode.fifo h = refl
mode_eq-same (InodeMode.chr a b) (InodeMode.chr c d) h =
    let (i, j) = both _ _ h in let i' = (==_iff a c).0 i in let j' = (==_iff b d).0 j in cc (i', j')
mode_eq-same (InodeMode.dir d) (InodeMode.dir e) h =
    let (l, es) = both _ _ h in
    let l' = bool_eq-Tells.0 d.look_below e.look_below l in
    let es' = (list_eq-Tells dir_ent_eq dir_ent_eq-Tells).0 d.entries e.entries es in cc (l', es')
mode_eq-same (InodeMode.blk a b) (InodeMode.blk c d) h =
    let (i, j) = both _ _ h in let i' = (==_iff a c).0 i in let j' = (==_iff b d).0 j in cc (i', j')
mode_eq-same (InodeMode.file cs) (InodeMode.file ds) h =
    ap InodeMode.file ((list_eq-Tells file_chunk_eq file_chunk_eq-Tells).0 cs ds h)
mode_eq-same InodeMode.lnk InodeMode.lnk h = refl
mode_eq-same InodeMode.sock InodeMode.sock h = refl
mode_eq-same InodeMode.wht InodeMode.wht h = refl
mode_eq-same _ _ h = absurd (cc h)

mode_eq-itself : (m : InodeMode) → mode_eq m m ≡ true
unfolding mode_eq
mode_eq-itself InodeMode.unknown = refl
mode_eq-itself InodeMode.fifo = refl
mode_eq-itself (InodeMode.chr a b) = rw ((==_iff a a).1 refl) ((==_iff b b).1 refl)
mode_eq-itself (InodeMode.dir d) =
    rw (bool_eq-Tells.1 d.look_below) ((list_eq-Tells dir_ent_eq dir_ent_eq-Tells).1 d.entries)
mode_eq-itself (InodeMode.blk a b) = rw ((==_iff a a).1 refl) ((==_iff b b).1 refl)
mode_eq-itself (InodeMode.file cs) = (list_eq-Tells file_chunk_eq file_chunk_eq-Tells).1 cs
mode_eq-itself InodeMode.lnk = refl
mode_eq-itself InodeMode.sock = refl
mode_eq-itself InodeMode.wht = refl

-- Inodes that the test takes as equal are equal in every part, and an inode is equal to itself.
pub inode_eq-Tells : Tells inode_eq
unfolding inode_eq
inode_eq-Tells = (
  λ x y h.
      let (h1, a) = both _ _ h in
      let (h2, p) = both _ _ h1 in
      let (h3, g) = both _ _ h2 in
      let (h4, u) = both _ _ h3 in
      let (i, m) = both _ _ h4 in
      let i' = (==_iff x.ino y.ino).0 i in
      let m' = mode_eq-same x.mode y.mode m in
      let u' = (==_iff x.uid y.uid).0 u in
      let g' = (==_iff x.gid y.gid).0 g in
      let p' = (==_iff x.permissions y.permissions).0 p in
      let a' = (option_eq-Tells additional_eq additional_eq-Tells).0 x.additional y.additional a in
      cc (i', m', u', g', p', a'),
  λ x.
      rw
        (
          (==_iff x.ino x.ino).1 refl,
          mode_eq-itself x.mode,
          (==_iff x.uid x.uid).1 refl,
          (==_iff x.gid x.gid).1 refl,
          (==_iff x.permissions x.permissions).1 refl,
        )
        ((option_eq-Tells additional_eq additional_eq-Tells).1 x.additional),
)
