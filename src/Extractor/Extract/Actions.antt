-- ===== src/Extractor/Extract/Actions.antt =====
-- puzzlefs-lib/src/extractor.rs: what the actions of an extraction act on, and which of them follow
-- symbolic links.
use puzzlefs.Prelude.{
  ◌≡◌, Bool, true, false, Bytes, ap, sym, ◌∙◌, List, [], ◌∷◌, ◌++◌, All, All-append, append_assoc,
  append-nil,
}
use puzzlefs.Errors.{ok, >>=-eq-ok, ok-injective}
use puzzlefs.Format.{Xattr}
use puzzlefs.Extractor.SafePath.{HostPath}
use puzzlefs.Extractor.Extract.{
  Action, create_dir_all, create_file, mkfifo, hard_link, write_file, mknod_chr, mknod_blk,
  symlinkat, set_xattr, set_permissions, chown, ExtractHost, act, set_xattrs,
}

-- The path that an action is called with, to create or change what is there.
abbrev pub target_of : Action → HostPath
target_of (create_dir_all p) = p
target_of (create_file p) = p
target_of (mkfifo p) = p
target_of (hard_link existing p) = p
target_of (write_file content p) = p
target_of (mknod_chr major minor p) = p
target_of (mknod_blk major minor p) = p
target_of (symlinkat target p) = p
target_of (set_xattr key val p) = p
target_of (set_permissions mode p) = p
target_of (chown uid gid p) = p

-- The action may leave a symbolic link at its path.
abbrev pub makes_link : Action → Bool
makes_link (symlinkat target p) = true
makes_link (hard_link existing p) = true
makes_link _ = false

-- Where its path is a symbolic link, the action works on what the link names: `chown`, `chmod` and
-- the opening of a file follow links; `lsetxattr`, which the xattr crate calls, does not, nor do the
-- calls that make a new entry.
abbrev pub follows_links : Action → Bool
follows_links (create_file p) = true
follows_links (write_file content p) = true
follows_links (create_dir_all p) = true
follows_links (set_permissions mode p) = true
follows_links (chown uid gid p) = true
follows_links _ = false

-- The actions that were added all have the property.
abbrev pub Adds : (Action → Type 0) → List Action → List Action → Type 0
Adds P done done' = (new : List Action) × (done' ≡ done ++ new) × All P new

-- An action on this path that leaves no symbolic link there.
abbrev pub MakesNoLink : HostPath → Action → Type 0
MakesNoLink path a = (target_of a ≡ path) × (makes_link a ≡ false)

-- An action on this path that does not leave it through a symbolic link.
abbrev pub Stays : HostPath → Action → Type 0
Stays path a = (target_of a ≡ path) × (follows_links a ≡ false)

module _ (P : Action → Type 0) where
  pub Adds-none : (done done' : List Action) → ok done ≡ ok done' → Adds P done done'
  Adds-none done done' e = ([], sym (ok-injective e) ∙ sym (append-nil done), tt)

  pub Adds-then : (a b c : List Action) → Adds P a b → Adds P b c → Adds P a c
  Adds-then a b c (new, e, targets) (new', e', targets') = (
    new ++ new',
    e' ∙ ap (λ (x : List Action). x ++ new') e ∙ append_assoc a new new',
    All-append P new new' targets targets',
  )

  module _ (h : ExtractHost) where
    pub act-Adds :
        (done done' : List Action) (a : Action) → P a → act h done a ≡ ok done' → Adds P done done'
    unfolding act
    act-Adds done done' a t e =
        let (_, may, same) = >>=-eq-ok (h.may done a) _ e in
        (a ∷ [], sym (ok-injective same), (t, tt))

    pub set_xattrs-Adds :
        (xs : List Xattr) (path : HostPath) (done done' : List Action)
        → ((key val : Bytes) → P (set_xattr key val path))
        → set_xattrs h xs path done ≡ ok done'
        → Adds P done done'
    unfolding set_xattrs
    set_xattrs-Adds [] path done done' t e = Adds-none done done' e
    set_xattrs-Adds (x ∷ xs) path done done' t e =
        let (mid, first, rest) = >>=-eq-ok (act h done (set_xattr x.key x.val path)) _ e in
        Adds-then done mid done' (act-Adds done mid _ (t x.key x.val) first)
          (set_xattrs-Adds xs path mid done' t rest)
