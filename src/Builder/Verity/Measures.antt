-- ===== src/Builder/Verity/Measures.antt =====
-- puzzlefs-lib/src/builder.rs, `enable_fs_verity`: what a file measures as after fs-verity is enabled
-- on it and on others.
use puzzlefs.Prelude.{
  ◌≡◌, refl, sym, ap, ◌∙◌, subst, true, Bytes, bytes_eq, bytes_eq_iff, Bool-cases, inl, inr, [],
  ◌∷◌, length, ◌==◌, if◌then◌else◌, All,
}
use puzzlefs.Errors.{Result, ok, err, panic, ◌>>=◌, >>=-eq-ok, invalid_fs_verity_data}
use puzzlefs.Format.{Hash, VerityData, sha256_block_size}
use puzzlefs.Compression.{Host}
use puzzlefs.Oci.Blob.{check_fs_verity}
use puzzlefs.Builder.Verity.{
  Kernel, at, Run, when_ok, when_read, enable_verity_for_file, enable_and_check_verity_for_file,
  enable_blobs,
}

module _ (h : Host) (k : Kernel h) where
  -- What measured in the first state measures the same in the second.
  abbrev pub Later : k.State → k.State → Type 0
  Later s s' = (f : h.File) (v : Bytes) → k.measure s f ≡ ok v → k.measure s' f ≡ ok v

  -- What the code relies on of the kernel: fs-verity stays enabled, and a file that has it does not
  -- change.
  abbrev pub Lasting : Type 0
  Lasting = (s : k.State) (f : h.File) → Later s (k.enable f s).0

  -- The file measures as expected, by 32 bytes.
  abbrev pub Measures : k.State → h.File → Bytes → Type 0
  Measures s f v = (length v == sha256_block_size ≡ true) × (k.measure s f ≡ ok v)

  pub when_ok-inv :
      (p : k.State × Result (Unit {0})) (next : Run h k) (s' : k.State)
      → when_ok h k p next ≡ (s', ok tt)
      → (s1 : k.State) × (p ≡ (s1, ok tt)) × (next s1 ≡ (s', ok tt))
  when_ok-inv (s, ok _) next s' e = (s, refl, e)
  when_ok-inv (s, err x) next s' e =
      let never : ◌≡◌ {A = Result (Unit {0})} (err x) (ok tt) = ap (λ p. p.1) e in cc
  when_ok-inv (s, panic) next s' e =
      let never : ◌≡◌ {A = Result (Unit {0})} panic (ok tt) = ap (λ p. p.1) e in cc

  pub when_read-inv {ℓ} :
      {A : Type ℓ} (s : k.State) (r : Result A) (next : A → Run h k) (s' : k.State)
      → when_read h k s r next ≡ (s', ok tt)
      → (a : A) × (r ≡ ok a) × (next a s ≡ (s', ok tt))
  when_read-inv s (ok a) next s' e = (a, refl, e)
  when_read-inv s (err x) next s' e =
      let never : ◌≡◌ {A = Result (Unit {0})} (err x) (ok tt) = ap (λ p. p.1) e in cc
  when_read-inv s panic next s' e =
      let never : ◌≡◌ {A = Result (Unit {0})} panic (ok tt) = ap (λ p. p.1) e in cc

  pub check-Measures :
      (s : k.State) (f : h.File) (v : Bytes)
      → check_fs_verity (at h k s) f v ≡ ok tt
      → Measures s f v
  unfolding check_fs_verity
  check-Measures s f v checked = elim (Bool-cases (length v == sha256_block_size)) [
    | inr other ↦
        let never : ◌≡◌ {A = Result (Unit {0})} (err invalid_fs_verity_data) (ok tt) =
          rw (check_fs_verity, other) at checked in
        cc
    | inl full ↦
        let checked' : (k.measure s f >>= λ m.
        if bytes_eq v m then ok tt else err invalid_fs_verity_data)
            ≡ ok tt =
          rw (check_fs_verity, full) at checked in
        let (m, measured, same) = >>=-eq-ok (k.measure s f) _ checked' in
        elim (Bool-cases (bytes_eq v m)) [
          | inl equal ↦ (full, measured ∙ ap ok (sym ((bytes_eq_iff v m).0 equal)))
          | inr differ ↦
              let never : ◌≡◌ {A = Result (Unit {0})} (err invalid_fs_verity_data) (ok tt) =
                rw differ at same in
              cc
        ]
  ]

  -- Checking again later.
  pub Measures-check :
      (s : k.State) (f : h.File) (v : Bytes)
      → Measures s f v
      → check_fs_verity (at h k s) f v ≡ ok tt
  unfolding check_fs_verity
  Measures-check s f v (full, measured) =
      let equal = (bytes_eq_iff v v).1 refl in rw (full, measured, equal)

  pub enable-Later :
      (f : h.File) (s s' : k.State)
      → Lasting
      → enable_verity_for_file h k f s ≡ (s', ok tt)
      → Later s s'
  unfolding enable_verity_for_file
  enable-Later f s s' lasting e = subst (Later s) (ap (λ p. p.0) e) (lasting s f)

  pub enable_and_check-Measures :
      (f : h.File) (v : Bytes) (s s' : k.State)
      → Lasting
      → enable_and_check_verity_for_file h k f v s ≡ (s', ok tt)
      → Later s s' × Measures s' f v
  unfolding enable_and_check_verity_for_file enable_verity_for_file
  enable_and_check-Measures f v s s' lasting e =
      let (s1, enabled, checked) = when_ok-inv (enable_verity_for_file h k f s) _ s' e in
      let same : (k.enable f s).0 ≡ s' = ap (λ p. p.0) enabled ∙ ap (λ p. p.0) checked in
      let checks : check_fs_verity (at h k s') f v ≡ ok tt =
        subst (λ t. check_fs_verity (at h k t) f v ≡ ok tt) (ap (λ p. p.0) checked)
          (ap (λ p. p.1) checked) in
      (subst (Later s) same (lasting s f), check-Measures s' f v checks)

  -- Each of the files can be opened and measures as the image says.
  abbrev pub Verified : k.State → VerityData → Type 0
  Verified s files =
      All (λ (p : Hash × Hash). (f : h.File) × (h.open_blob p.0 ≡ ok f) × Measures s f p.1) files

  pub enable_blobs-Verified :
      (files : VerityData) (s s' : k.State)
      → Lasting
      → enable_blobs h k files s ≡ (s', ok tt)
      → Later s s' × Verified s' files
  unfolding enable_blobs
  enable_blobs-Verified [] s s' lasting e =
      let same : s ≡ s' = ap (λ p. p.0) e in (subst (Later s) same (λ f v m. m), tt)
  enable_blobs-Verified ((d, v) ∷ files) s s' lasting e =
      let (fd, opens, e1) = when_read-inv s (h.open_blob d) _ s' e in
      let (s1, first, rest) =
        when_ok-inv (enable_and_check_verity_for_file h k fd v s) (enable_blobs h k files) s' e1 in
      let (later, measures) = enable_and_check-Measures fd v s s1 lasting first in
      let (later', verified) = enable_blobs-Verified files s1 s' lasting rest in
      (
        (λ f w m. later' f w (later f w m)),
        ((fd, opens, (measures.0, later' fd v measures.1)), verified),
      )
