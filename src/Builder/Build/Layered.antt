-- ===== src/Builder/Build/Layered.antt =====
-- puzzlefs-lib/src/builder.rs, `add_rootfs_delta`: the metadata with the new layer.
use puzzlefs.Prelude.{
  ℕ, ◌≡◌, ◌≢◌, ◌⊎◌, inl, inr, refl, ap, ◌∙◌, true, false, bytes_eq, Option, none, some, List, [],
  ◌∷◌, All, get_elem?, Bool-cases, suc, if◌then◌else◌,
}
use puzzlefs.Format.{Hash, Inode, Rootfs, VerityData}
use puzzlefs.Format.Equality.{list_eq, inode_eq}
use puzzlefs.Format.Equality.Laws.{list_eq-Tells, inode_eq-Tells}
use puzzlefs.Format.Verity.{get, extend, insert, get-insert}
use puzzlefs.Builder.Delta.{Built}
use puzzlefs.Builder.Build.{has_layer, add_layer_to}

-- The value of the last pair with the key.
abbrev pub last_of : Hash → VerityData → Option Hash
last_of d [] = none
last_of d ((k, v) ∷ rest) = elim (last_of d rest) [
  | some w ↦ some w
  | none ↦ if bytes_eq d k then some v else none
]

abbrev pub or_else : Option Hash → Option Hash → Option Hash
or_else (some v) other = some v
or_else none other = other

-- The layer is one of these.
abbrev pub IsAmong : List Inode → List (List Inode) → Type 0
IsAmong l ls = (q : ℕ) × (get_elem? ls q ≡ some l)

-- The layers of the old metadata, with the inodes on top if no layer is equal to them, the verity
-- data of both, that of the tree first, and the old version.
abbrev pub Layered : Built → Rootfs → Rootfs → Type 0
Layered b old new =
    ((IsAmong b.inodes old.metadatas × (new.metadatas ≡ old.metadatas))
      ⊎ (All (λ (l : List Inode). l ≢ b.inodes) old.metadatas
          × (new.metadatas ≡ b.inodes ∷ old.metadatas)))
    × ((d : Hash)
        → get d new.fs_verity_data ≡ or_else (last_of d b.verity_data) (get d old.fs_verity_data))
    × (new.manifest_version ≡ old.manifest_version)

has_layer-cases :
    (l : List Inode) (ls : List (List Inode))
    → ((has_layer l ls ≡ true) × IsAmong l ls)
      ⊎ ((has_layer l ls ≡ false) × All (λ (x : List Inode). x ≢ l) ls)
unfolding has_layer
has_layer-cases l [] = inr (refl, tt)
has_layer-cases l (x ∷ ls) =
    let (sound, own) = list_eq-Tells inode_eq inode_eq-Tells in
    elim (Bool-cases (list_eq inode_eq x l)) [
      | inl same ↦ inl (rw (has_layer, same), (0, ap some (sound x l same)))
      | inr other ↦
          let apart : x ≢ l = λ e. cc (other, ap (λ y. list_eq inode_eq y l) e, own l) in
          elim (has_layer-cases l ls) [
            | inl (found, (q, there)) ↦ inl (rw (has_layer, other) found, (suc q, there))
            | inr (missing, lacks) ↦ inr (rw (has_layer, other) missing, (apart, lacks))
          ]
    ]

get-extend :
    (d : Hash) (m new : VerityData) → get d (extend m new) ≡ or_else (last_of d new) (get d m)
unfolding extend
get-extend d m [] = refl
get-extend d m ((k, v) ∷ rest) =
    get-extend d (insert k v m) rest ∙ over (last_of d rest) (get-insert k d v m)
  where
    over :
        (o : Option Hash)
        → get d (insert k v m) ≡ (if bytes_eq d k then some v else get d m)
        → or_else o (get d (insert k v m))
          ≡ or_else
              (elim o [ some w ↦ some w | none ↦ if bytes_eq d k then some v else none ])
              (get d m)
    over (some w) e = refl
    over none e = elim (Bool-cases (bytes_eq d k)) [
      | inl same ↦ rw same (e ∙ rw same)
      | inr other ↦ rw other (e ∙ rw other)
    ]

pub add_layer_to-Layered : (b : Built) (old : Rootfs) → Layered b old (add_layer_to b old)
unfolding add_layer_to
add_layer_to-Layered b old = (
  elim (has_layer-cases b.inodes old.metadatas) [
    | inl (found, there) ↦ inl (there, rw found)
    | inr (missing, lacks) ↦ inr (lacks, rw missing)
  ],
  λ d. get-extend d old.fs_verity_data b.verity_data,
  refl,
)
