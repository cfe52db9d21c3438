-- ===== src/Reader/Walk/Liveness.antt =====
-- puzzlefs-lib/src/reader/walk.rs: each entry of the image is given after finitely many steps.
use puzzlefs.Prelude.{ℕ, zero, suc, ◌≡◌, ◌⊎◌, Option, none, some, List, [], ◌∷◌}
use puzzlefs.Errors.{Result, ok, err, panic}
use puzzlefs.Reader.Lookup.{PuzzleFs}
use puzzlefs.Reader.Walk.{DirEntry, next}

module _ (pfs : PuzzleFs) where
  -- The queue after some calls of `next`, and what the call after them gives.
  abbrev pub steps : ℕ → List DirEntry → List DirEntry
  steps zero q = q
  steps (suc n) q = elim (next pfs q) [ none ↦ [] | some (q', r) ↦ steps n q' ]

  abbrev given : Option (List DirEntry × Result DirEntry) → Option (Result DirEntry)
  given none = none
  given (some (q, r)) = some r

  abbrev pub item : ℕ → List DirEntry → Option (Result DirEntry)
  item n q = given (next pfs (steps n q))

  -- What a failed call gives: some entry of a directory has no inode.
  abbrev pub Fails : Option (Result DirEntry) → Type 0
  Fails none = ⊥
  Fails (some (ok de)) = ⊥
  Fails (some (err e)) = Unit
  Fails (some panic) = Unit

  -- An entry comes to the front, unless a call before failed.
  Comes : List DirEntry → DirEntry → Type 0
  Comes q de = (n : ℕ) × (((rest : List DirEntry) × (steps n q ≡ de ∷ rest)) ⊎ Fails (item n q))
