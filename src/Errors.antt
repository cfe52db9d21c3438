-- ===== src/Errors.antt =====
-- puzzlefs-lib/src/format/error.rs: the errors of the library, and the `Result` of every fallible
-- operation. Messages and backtraces are left out; `panic` stands for an unwinding thread
-- (`unwrap` of an error, an index out of range).
use puzzlefs.Prelude.{
  subst, ◌⊎◌, inl, inr, ◌≡◌, ◌∙◌, suc, length, Option, none, some, ℕ, refl, List, [], ◌∷◌, map, All,
  ap,
}

-- The error numbers that the code names, and any other that the operating system reports.
pub data Errno : Type 0 where
  einval enoent enotdir espipe erofs enodata erange enosys enolck : Errno
  other : ℕ → Errno

pub data WireFormatError : Type 0 where
  local_ref_error seek_other_error invalid_serialized_data invalid_image_schema : WireFormatError
  invalid_image_version invalid_fs_verity_data missing_manifest missing_rootfs : WireFormatError
  io_error : Option Errno → WireFormatError
  capnp_error from_int_error json_error from_slice_error hex_error : WireFormatError
  oci_error oci_dir_error : WireFormatError

unfoldable pub to_errno : WireFormatError → Errno
to_errno seek_other_error = espipe
to_errno (io_error (some e)) = e
to_errno (io_error none) = einval
to_errno _ = einval

unfoldable pub from_errno : Errno → WireFormatError
from_errno e = io_error (some e)

pub data Result {κ} (T : Type κ) : Type κ where
  panic : Result T
  err : WireFormatError → Result T
  ok : T → Result T

-- The `?` operator: an error or a panic ends the function.
infixl 5 ◌>>=◌ ◌>>◌
abbrev pub ◌>>=◌ {κ ι} : {T : Type κ} {U : Type ι} → Result T → (T → Result U) → Result U
panic >>= rest = panic
err failure >>= rest = err failure
ok value >>= rest = rest value

abbrev pub ◌>>◌ {κ} : {U : Type κ} → Result (Unit {0}) → Result U → Result U
first >> second = first >>= λ done. second

-- `o.ok_or(e)`
abbrev pub ok_or {ℓ} : {A : Type ℓ} → Option A → WireFormatError → Result A
ok_or (some a) e = ok a
ok_or none e = err e

-- A run that returned had a first part that returned.
pub >>=-eq-ok {κ ι} :
    {T : Type κ} {U : Type ι} (first : Result T) (rest : T → Result U) {result : U}
    → (first >>= rest) ≡ ok result
    → (value : T) × (first ≡ ok value) × (rest value ≡ ok result)
>>=-eq-ok panic rest returned = cc
>>=-eq-ok (err failure) rest returned = cc
>>=-eq-ok (ok value) rest returned = (value, refl, returned)

pub ok-injective {ℓ} : {A : Type ℓ} {a b : A} → ok a ≡ ok b → a ≡ b
ok-injective {a} h = ap (λ (r : Result _). elim r [ ok x ↦ x | err _ ↦ a | panic ↦ a ]) h

-- `iter.map(f).collect::<Result<Vec<_>>>()`: the results in order, or the first failure.
unfoldable pub traverse {ℓ κ} :
    {A : Type ℓ} {B : Type κ} → (A → Result B) → List A → Result (List B)
traverse f [] = ok []
traverse f (x ∷ xs) = do y ← f x; ys ← traverse f xs; ok (y ∷ ys)

-- Reading back what was written, element by element.
pub traverse-map {ℓ κ} :
    {A : Type ℓ} {B : Type κ} (f : B → Result A) (g : A → B) (P : A → Type ℓ)
    → ((a : A) → P a → f (g a) ≡ ok a)
    → (xs : List A) → All P xs
    → traverse f (map g xs) ≡ ok xs
unfolding traverse
traverse-map f g P back [] h = refl
traverse-map f g P back (x ∷ xs) h = rw (back x h.0, traverse-map f g P back xs h.1)

-- The same where writing can fail too.
pub traverse-traverse {ℓ κ} :
    {A : Type ℓ} {B : Type κ} (f : B → Result A) (g : A → Result B) (P : A → Type ℓ)
    → ((a : A) → P a → (b : B) × (g a ≡ ok b) × (f b ≡ ok a))
    → (xs : List A) → All P xs
    → (ys : List B) × (traverse g xs ≡ ok ys) × (traverse f ys ≡ ok xs)
unfolding traverse
traverse-traverse f g P back [] h = ([], refl, refl)
traverse-traverse f g P back (x ∷ xs) h =
    let (b, wrote, read) = back x h.0 in
    let (ys, wrotes, reads) = traverse-traverse f g P back xs h.1 in
    (b ∷ ys, rw (wrote, wrotes), rw (read, reads))

pub traverse-eq-ok_cons {ℓ κ} :
    {A : Type ℓ} {B : Type κ} (f : A → Result B) (x : A) (xs : List A) (zs : List B)
    → traverse f (x ∷ xs) ≡ ok zs
    → (y : B) × (ys : List B) × (f x ≡ ok y) × (traverse f xs ≡ ok ys) × (zs ≡ y ∷ ys)
unfolding traverse
traverse-eq-ok_cons f x xs zs h =
    let (y, first, h1) = >>=-eq-ok _ _ h in
    let (ys, rest, h2) = >>=-eq-ok _ _ h1 in (y, ys, first, rest, cc h2)

pub traverse-eq-ok_nil {ℓ κ} :
    {A : Type ℓ} {B : Type κ} (f : A → Result B) (zs : List B) → traverse f [] ≡ ok zs → zs ≡ []
unfolding traverse
traverse-eq-ok_nil f zs h = cc h

pub ok_or-eq-ok {ℓ} :
    {A : Type ℓ} (o : Option A) (failure : WireFormatError) {a : A}
    → ok_or o failure ≡ ok a
    → o ≡ some a
ok_or-eq-ok none failure found = cc
ok_or-eq-ok (some b) failure found = ap some (ok-injective found)

pub length-traverse {ℓ κ} :
    {A : Type ℓ} {B : Type κ} (f : A → Result B) (xs : List A) (ys : List B)
    → traverse f xs ≡ ok ys
    → length ys ≡ length xs
length-traverse f [] ys h = ap length (traverse-eq-ok_nil f ys h)
length-traverse f (x ∷ xs) ys h =
    let (z, zs, _, rest, made) = traverse-eq-ok_cons f x xs ys h in
    ap length made ∙ ap (λ n. suc n) (length-traverse f xs zs rest)

pub Result-cases {ℓ} :
    {A : Type ℓ} (r : Result A)
    → ((a : A) × (r ≡ ok a)) ⊎ (((e : WireFormatError) × (r ≡ err e)) ⊎ (r ≡ panic))
Result-cases (ok a) = inl (a, refl)
Result-cases (err e) = inr (inl (e, refl))
Result-cases panic = inr (inr refl)

-- What holds of the elements holds of those that a list of results has.
pub traverse-All {ℓ κ} :
    {A : Type ℓ} (P : Result A → Type κ) (xs : List (Result A)) (ys : List A)
    → All P xs
    → traverse (λ x. x) xs ≡ ok ys
    → All (λ y. P (ok y)) ys
unfolding traverse
traverse-All P [] ys h e = subst (All (λ y. P (ok y))) (ok-injective e) tt
traverse-All P (panic ∷ xs) ys h e = cc
traverse-All P (err w ∷ xs) ys h e = cc
traverse-All P (ok x ∷ xs) ys h e =
    let (rest, others, whole) = >>=-eq-ok (traverse (λ y. y) xs) _ e in
    subst (All (λ y. P (ok y))) (ok-injective whole) (h.0, traverse-All P xs rest h.1 others)
