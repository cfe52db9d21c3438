-- ===== src/Format/Verity.antt =====
-- puzzlefs-lib/src/format/types.rs, `VerityData`: a BTreeMap from a blob's SHA-256 digest to its
-- fs-verity digest, kept as a list in the map's order of keys.
use Prim.Native.Nat.{compare, Ordering}
use puzzlefs.Prelude.{
  ◌≢◌, ◌⊎◌, inl, inr, ◌≡◌, refl, ap, Bytes, Option, none, some, [], ◌∷◌, ◌++◌, All, bytes_eq,
  bytes_eq_iff, if◌then◌else◌, arith,
}
use puzzlefs.Format.{Hash, VerityData}

-- The order of byte arrays.
unfoldable pub bytes_cmp : Bytes → Bytes → Ordering
bytes_cmp [] [] = Ordering.eq
bytes_cmp [] (y ∷ ys) = Ordering.lt
bytes_cmp (x ∷ xs) [] = Ordering.gt
bytes_cmp (x ∷ xs) (y ∷ ys) = elim (compare x y) [
  | Ordering.lt ↦ Ordering.lt
  | Ordering.gt ↦ Ordering.gt
  | Ordering.eq ↦ bytes_cmp xs ys
]

-- `BTreeMap::insert`: the value of a key that is present is replaced.
unfoldable pub insert : Hash → Hash → VerityData → VerityData
insert k v [] = (k, v) ∷ []
insert k v ((j, w) ∷ m) = elim (bytes_cmp k j) [
  | Ordering.lt ↦ (k, v) ∷ (j, w) ∷ m
  | Ordering.eq ↦ (k, v) ∷ m
  | Ordering.gt ↦ (j, w) ∷ insert k v m
]

-- `BTreeMap::get`
unfoldable pub get : Hash → VerityData → Option Hash
get k [] = none
get k ((j, w) ∷ m) = if bytes_eq k j then some w else get k m

-- `BTreeMap::extend`
unfoldable pub extend : VerityData → VerityData → VerityData
extend m [] = m
extend m ((k, v) ∷ rest) = extend (insert k v m) rest

-- The keys ascend.
abbrev pub IsOrdered : VerityData → Type 0
IsOrdered [] = Unit
IsOrdered (p ∷ m) = All (λ (q : Hash × Hash). bytes_cmp q.0 p.0 ≡ Ordering.gt) m × IsOrdered m

pub bytes_cmp-eq : (xs ys : Bytes) → bytes_cmp xs ys ≡ Ordering.eq → xs ≡ ys
unfolding bytes_cmp
bytes_cmp-eq [] [] h = refl
bytes_cmp-eq [] (y ∷ ys) h = cc
bytes_cmp-eq (x ∷ xs) [] h = cc
bytes_cmp-eq (x ∷ xs) (y ∷ ys) h = ground (arith, bytes_cmp-eq xs ys)

pub bytes_cmp_refl : (xs : Bytes) → bytes_cmp xs xs ≡ Ordering.eq
unfolding bytes_cmp
bytes_cmp_refl [] = refl
bytes_cmp_refl (x ∷ xs) = ground (arith, bytes_cmp_refl xs)

bytes_cmp_ne : (k i : Bytes) → bytes_cmp k i ≡ Ordering.gt → k ≢ i
bytes_cmp_ne k i h e = cc (bytes_cmp_refl i, ap (λ x. bytes_cmp x i) e)

Ordering-cases : (o : Ordering) → (o ≡ Ordering.lt) ⊎ ((o ≡ Ordering.eq) ⊎ (o ≡ Ordering.gt))
Ordering-cases Ordering.lt = inl refl
Ordering-cases Ordering.eq = inr (inl refl)
Ordering-cases Ordering.gt = inr (inr refl)

-- What was inserted is found, and other keys are left alone.
pub get-insert :
    (k j : Hash) (v : Hash) (m : VerityData)
    → get j (insert k v m) ≡ (if bytes_eq j k then some v else get j m)
unfolding get insert
get-insert k j v [] = refl
get-insert k j v ((i, w) ∷ m) = elim (Ordering-cases (bytes_cmp k i)) [
  | inl e ↦ rw (e, insert)
  | inr (inl e) ↦ rw (e, insert, bytes_cmp-eq k i e) (ground arith)
  | inr (inr e) ↦
      rw (e, insert)
        (ground (arith, bytes_cmp_ne k i, bytes_eq_iff j k, bytes_eq_iff j i, get-insert k j v m))
]

insert_last :
    (k v : Hash) (m : VerityData)
    → All (λ (q : Hash × Hash). bytes_cmp k q.0 ≡ Ordering.gt) m
    → insert k v m ≡ m ++ (k, v) ∷ []
unfolding insert
insert_last k v [] h = refl
insert_last k v ((j, w) ∷ m) h =
    rw (h.0, insert) (ap (λ (r : VerityData). (j, w) ∷ r) (insert_last k v m h.1))

IsOrdered-last :
    (m : VerityData) (p : Hash × Hash) (rest : VerityData)
    → IsOrdered (m ++ p ∷ rest)
    → All (λ (q : Hash × Hash). bytes_cmp p.0 q.0 ≡ Ordering.gt) m
IsOrdered-last [] p rest h = tt
IsOrdered-last (q ∷ m) p rest h = (head m h.0, IsOrdered-last m p rest h.1)
  where
    head :
        (m : VerityData)
        → All (λ (r : Hash × Hash). bytes_cmp r.0 q.0 ≡ Ordering.gt) (m ++ p ∷ rest)
        → bytes_cmp p.0 q.0 ≡ Ordering.gt
    head [] h = h.0
    head (r ∷ m) h = head m h.1

-- Inserting pairs in ascending order, each above what is there, appends them.
pub insert_ascending :
    (m : VerityData) (k v : Hash) (rest : VerityData)
    → IsOrdered (m ++ (k, v) ∷ rest)
    → insert k v m ≡ m ++ (k, v) ∷ []
insert_ascending m k v rest h = insert_last k v m (IsOrdered-last m (k, v) rest h)
