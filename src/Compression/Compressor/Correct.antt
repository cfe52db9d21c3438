-- ===== src/Compression/Compressor/Correct.antt =====
-- puzzlefs-lib/src/compression: what a compressor has written when it has ended.
use puzzlefs.Prelude.{
  ℕ, zero, suc, ◌<◌, ◌≤◌, ◌==◌, ◌≡◌, refl, sym, ap, ◌∙◌, subst, false, Bool-cases, inl, inr, Bytes,
  some, [], ◌∷◌, ◌++◌, append-nil, append_assoc, length, take, drop, take-append-drop, take-length,
  nil_of_length, length-drop, arith,
}
use puzzlefs.Errors.{ok}
use puzzlefs.Oci.Put.{Compression, noop, zstd}
use puzzlefs.Compression.Compressor.{
  Encoder, Compressor, noop_compressor, zstd_compressor, new_compressor, write, write_all, end_loop,
  end, compressed,
}

-- What the code relies on of a stream that compresses: it keeps account of what it was fed and of
-- what it gave. A new one has neither; `compress` takes a part of the input that is not empty;
-- `end_stream` gives what is left, a part at a time, and nothing when all was given. Then what it gave
-- decodes to what it was fed.
pub record Encodes (e : Encoder) (decode : Bytes → Bytes) : Type 0 where
  pub fed : e.CStream → Bytes
  pub gave : e.CStream → Bytes
  pub pending : e.CStream → ℕ
  pub starts : (s : e.CStream) × (e.new_stream ≡ ok s) × (fed s ≡ []) × (gave s ≡ [])
  pub takes :
      (s : e.CStream) (buf : Bytes)
      → 0 < length buf
      → (s' : e.CStream) × (out : Bytes) × (n : ℕ) × (e.compress s buf ≡ ok (s', out, n))
        × (0 < n)
        × (n ≤ length buf)
        × (fed s' ≡ fed s ++ take n buf)
        × (gave s' ≡ gave s ++ out)
  pub ends :
      (s : e.CStream)
      → (s' : e.CStream) × (out : Bytes) × (e.end_stream s ≡ ok (s', out))
        × (fed s' ≡ fed s)
        × (gave s' ≡ gave s ++ out)
        × (out ≡ [] → decode (gave s') ≡ fed s')
        × (0 < length out → pending s' < pending s)

module _ (e : Encoder) (decode : Bytes → Bytes) (encodes : Encodes e decode) where
  abbrev pub decode_of : Compression → Bytes → Bytes
  decode_of noop b = b
  decode_of zstd b = decode b

  -- The compressor was fed these bytes, and wrote them or what the stream gave.
  abbrev Fed : Compression → Compressor e → Bytes → Type 0
  Fed noop (noop_compressor f) b = f ≡ b
  Fed zstd (zstd_compressor f s) b = (encodes.fed s ≡ b) × (encodes.gave s ≡ f)
  Fed noop (zstd_compressor f s) b = ⊥
  Fed zstd (noop_compressor f) b = ⊥

  write-Fed :
      (k : Compression) (c : Compressor e) (b buf : Bytes)
      → 0 < length buf
      → Fed k c b
      → (c' : Compressor e) × (n : ℕ) × (write e c buf ≡ ok (c', n))
        × (0 < n)
        × (n ≤ length buf)
        × Fed k c' (b ++ take n buf)
  unfolding write
  write-Fed noop (noop_compressor f) b buf some_data fed = (
    noop_compressor (f ++ buf),
    length buf,
    refl,
    some_data,
    omega arith,
    ap (λ l. l ++ buf) fed ∙ ap (λ l. b ++ l) (sym (take-length buf (length buf) (omega arith))),
  )
  write-Fed zstd (zstd_compressor f s) b buf some_data (fed, gave) =
      let (s', out, n, took, some_taken, fits, fed', gave') = encodes.takes s buf some_data in
      (
        zstd_compressor (f ++ out) s',
        n,
        rw (write, took),
        some_taken,
        fits,
        (fed' ∙ ap (λ l. l ++ take n buf) fed, gave' ∙ ap (λ l. l ++ out) gave),
      )
  write-Fed noop (zstd_compressor f s) b buf some_data fed = absurd fed
  write-Fed zstd (noop_compressor f) b buf some_data fed = absurd fed

  write_all-Fed :
      (fuel : ℕ) (k : Compression) (c : Compressor e) (b buf : Bytes)
      → length buf ≤ fuel
      → Fed k c b
      → (c' : Compressor e) × (write_all e fuel c buf ≡ some (ok c')) × Fed k c' (b ++ buf)
  unfolding write_all
  write_all-Fed fuel k c b [] enough fed = (c, refl, subst (Fed k c) (sym (append-nil b)) fed)
  write_all-Fed zero k c b (x ∷ xs) enough fed = absurd (omega arith)
  write_all-Fed (suc fuel) k c b (x ∷ xs) enough fed =
      let (c1, n, wrote, some_taken, fits, fed1) = write-Fed k c b (x ∷ xs) (omega arith) fed in
      let more : (n == 0) ≡ false = ground arith in
      let left = length-drop n (x ∷ xs) in
      let (c', rest, fed') =
        write_all-Fed fuel k c1 (b ++ take n (x ∷ xs)) (drop n (x ∷ xs)) (omega (arith, left))
          fed1 in
      let whole : (b ++ take n (x ∷ xs)) ++ drop n (x ∷ xs) ≡ b ++ x ∷ xs =
        append_assoc b (take n (x ∷ xs)) (drop n (x ∷ xs))
        ∙ ap (λ l. b ++ l) (take-append-drop n (x ∷ xs)) in
      (c', rw (write_all, wrote, more) rest, subst (Fed k c') whole fed')

  end_loop-decodes :
      (fuel : ℕ) (f : Bytes) (s : e.CStream)
      → encodes.pending s < fuel
      → encodes.gave s ≡ f
      → (out : Bytes) × (end_loop e fuel f s ≡ some (ok out)) × (decode out ≡ encodes.fed s)
  unfolding end_loop
  end_loop-decodes zero f s enough gave = absurd (omega arith)
  end_loop-decodes (suc fuel) f s enough gave =
      let (s', out, ended, fed', gave', whole, less) = encodes.ends s in
      let given : encodes.gave s' ≡ f ++ out = gave' ∙ ap (λ l. l ++ out) gave in
      elim (Bool-cases (length out == 0)) [
        | inl none_left ↦
            let empty : length out ≡ 0 = ground arith in
            (
              f ++ out,
              rw (end_loop, ended, none_left),
              ap decode (sym given) ∙ whole (nil_of_length out empty) ∙ fed',
            )
        | inr more ↦
            let some_out : 0 < length out = ground arith in
            let (all, looped, decoded) =
              end_loop-decodes fuel (f ++ out) s' (omega (arith, less some_out)) given in
            (all, rw (end_loop, ended, more) looped, decoded ∙ fed')
      ]

  end-decodes :
      (k : Compression) (c : Compressor e) (b : Bytes)
      → Fed k c b
      → (ends : ℕ) × (out : Bytes) × (end e ends c ≡ some (ok out)) × (decode_of k out ≡ b)
  unfolding end
  end-decodes noop (noop_compressor f) b fed = (0, f, refl, fed)
  end-decodes zstd (zstd_compressor f s) b (fed, gave) =
      let (out, ended, decoded) =
        end_loop-decodes (suc (encodes.pending s)) f s (omega arith) gave in
      (suc (encodes.pending s), out, ended, decoded ∙ fed)
  end-decodes noop (zstd_compressor f s) b fed = absurd fed
  end-decodes zstd (noop_compressor f) b fed = absurd fed

  new_compressor-Fed :
      (k : Compression) → (c : Compressor e) × (new_compressor e k ≡ ok c) × Fed k c []
  unfolding new_compressor
  new_compressor-Fed noop = (noop_compressor [], refl, refl)
  new_compressor-Fed zstd =
      let (s, started, fed, gave) = encodes.starts in
      (zstd_compressor [] s, rw (new_compressor, started), (fed, gave))

  -- Where the stream does what it promises, compressing a buffer ends: there are at most as many
  -- calls of `write` as the buffer has bytes, and finitely many of `end_stream`. What was written
  -- then decodes to the buffer; for `Noop` it is the buffer.
  pub compressed-decodes :
      (k : Compression) (buf : Bytes)
      → (ends : ℕ) × (out : Bytes) × (compressed e (length buf) ends k buf ≡ some (ok out))
        × (decode_of k out ≡ buf)
  unfolding compressed
  compressed-decodes k buf =
      let (c, made, fed) = new_compressor-Fed k in
      let (c', wrote, fed') = write_all-Fed (length buf) k c [] buf (omega arith) fed in
      let (ends, out, ended, decoded) = end-decodes k c' buf fed' in
      (ends, out, rw (compressed, made, wrote) ended, decoded)
