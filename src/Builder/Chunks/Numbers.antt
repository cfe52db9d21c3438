-- ===== src/Builder/Chunks/Numbers.antt =====
-- puzzlefs-lib/src/builder.rs, `process_chunks`: only the chunks of the files change, not the files.
use puzzlefs.Prelude.{◌≡◌, refl, sym, ap, ◌∙◌, Bytes, Option, List, [], ◌∷◌, ◌++◌}
use puzzlefs.Errors.{ok}
use puzzlefs.Format.{VerityData}
use puzzlefs.Oci.Put.{BlobHost, Compression, Image}
use puzzlefs.Builder.Chunks.Kept.{process_chunks-kept}
use puzzlefs.Builder.Chunks.{BuildFile, Chunked, process_chunks}

-- A file without its chunks.
abbrev pub bare : BuildFile → BuildFile
bare f = record f { chunks = [] }

abbrev pub bares : List BuildFile → List BuildFile
bares [] = []
bares (f ∷ fs) = bare f ∷ bares fs

pub bares-append : (fs gs : List BuildFile) → bares (fs ++ gs) ≡ bares fs ++ bares gs
bares-append [] gs = refl
bares-append (f ∷ fs) gs = ap (λ l. bare f ∷ l) (bares-append fs gs)

-- Filling a file with one more chunk, whether the cursor stays or moves on.
stayed :
    (done rest : List BuildFile) (f g : BuildFile)
    → bare f ≡ bare g
    → bares (done ++ f ∷ rest) ≡ bares (done ++ g ∷ rest)
stayed done rest f g same =
    bares-append done (f ∷ rest)
    ∙ ap (λ b. bares done ++ b ∷ bares rest) same
    ∙ sym (bares-append done (g ∷ rest))

-- A run of `process_chunks` that returned has the same files in the same order, each with its
-- inode number, metadata and attributes: only their chunks may differ.
pub process_chunks-bares :
    (h : BlobHost) (c : Compression) (chunks : List (Option Bytes)) (files : List BuildFile)
    (verity : VerityData) (image : Image) (r : Chunked)
    → process_chunks h c chunks files verity image ≡ ok r
    → bares r.files ≡ bares files
process_chunks-bares h c chunks files verity image r done =
    process_chunks-kept h c (λ blobs fs. bares fs ≡ bares files) chunks files verity image r
      (λ bytes image' p put.
        (λ fs same. same, λ done' rest f used room same. stayed done' rest _ f refl ∙ same))
      refl done
