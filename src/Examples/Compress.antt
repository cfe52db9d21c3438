-- ===== src/Examples/Compress.antt =====
-- A stream that takes two bytes at a time and gives them at its end, one by one.
use puzzlefs.Prelude.{
  ℕ, suc, ◌<◌, ◌≡◌, refl, sym, ap, ◌∙◌, Bytes, some, [], ◌∷◌, ◌++◌, append-nil, append_assoc,
  length, take, arith, min,
}
use puzzlefs.Errors.{Result, ok}
use puzzlefs.Oci.Put.{zstd}
use puzzlefs.Compression.Compressor.{Encoder, compressed}
use puzzlefs.Compression.Compressor.Correct.{Encodes, compressed-decodes}

-- What was given, and what waits.
abbrev Waiting : Type 0
Waiting = Bytes × Bytes

abbrev give : Waiting → Result (Waiting × Bytes)
give (out, []) = ok ((out, []), [])
give (out, b ∷ bs) = ok ((out ++ b ∷ [], bs), b ∷ [])

abbrev slow : Encoder
slow = record {
  CStream = Waiting;
  new_stream = ok ([], []);
  compress = λ s buf. ok ((s.0, s.1 ++ take 2 buf), [], min 2 (length buf));
  end_stream = give;
}

ends :
    (s : Waiting)
    → (s' : Waiting) × (out : Bytes) × (give s ≡ ok (s', out))
      × (s'.0 ++ s'.1 ≡ s.0 ++ s.1)
      × (s'.0 ≡ s.0 ++ out)
      × (out ≡ [] → s'.0 ≡ s'.0 ++ s'.1)
      × (0 < length out → length s'.1 < length s.1)
ends (out, []) = (
  (out, []),
  [],
  refl,
  refl,
  sym (append-nil out),
  λ e. sym (append-nil out),
  λ some_out. absurd (omega arith),
)
ends (out, b ∷ bs) = (
  (out ++ b ∷ [], bs),
  b ∷ [],
  refl,
  append_assoc out (b ∷ []) bs,
  refl,
  λ e. absurd (cc e),
  λ some_out. omega arith,
)

take_two : (buf : Bytes) → take 2 buf ≡ take (min 2 (length buf)) buf
take_two [] = refl
take_two (a ∷ []) = refl
take_two (a ∷ b ∷ bs) =
    let two : min 2 (suc (suc (length bs))) ≡ 2 = ground arith in
    ap (λ (n : ℕ). take n (a ∷ b ∷ bs)) (sym two)

slow-Encodes : Encodes slow (λ b. b)
slow-Encodes = record {
  fed = λ s. s.0 ++ s.1;
  gave = λ s. s.0;
  pending = λ s. length s.1;
  starts = (([], []), refl, refl, refl);
  takes = λ s buf some_data. (
    (s.0, s.1 ++ take 2 buf),
    [],
    min 2 (length buf),
    refl,
    ground arith,
    ground arith,
    sym (append_assoc s.0 s.1 (take 2 buf)) ∙ ap (λ (t : Bytes). (s.0 ++ s.1) ++ t) (take_two buf),
    sym (append-nil s.0),
  );
  ends = ends;
}

compressed-decodes_example :
    (n : ℕ) × (out : Bytes) × (compressed slow 3 n zstd (5 ∷ 6 ∷ 7 ∷ []) ≡ some (ok out))
    × (out ≡ 5 ∷ 6 ∷ 7 ∷ [])
compressed-decodes_example = compressed-decodes slow (λ b. b) slow-Encodes zstd (5 ∷ 6 ∷ 7 ∷ [])
