-- ===== src/Extractor/SafePath/Correct.antt =====
-- puzzlefs-lib/src/extractor.rs: no path that `safe_path` gives leaves the target directory.
use puzzlefs.Prelude.{
  ℕ, zero, suc, ◌+◌, ◌-◌, ◌≡◌, ◌≢◌, ◌⊎◌, inl, inr, refl, ap, sym, ◌∙◌, subst, Bytes, List, [], ◌∷◌,
  ◌++◌, false, ◌==◌, append_assoc, append-nil, arith,
}
use puzzlefs.Errors.{ok, ok-injective}
use puzzlefs.Reader.Lookup.{Component, prefix, root_dir, cur_dir, parent_dir, normal}
use puzzlefs.Extractor.SafePath.{
  HostPath, Stat, link, not_link, not_found, problem, push, pop, path_loop, safe_path,
}

pop-push : (buf : HostPath) (c : Bytes) → pop (push buf c) ≡ buf
unfolding pop
pop-push [] c = refl
pop-push (d ∷ []) c = refl
pop-push (d ∷ e ∷ buf) c = ap (λ (x : HostPath). d ∷ x) (pop-push (e ∷ buf) c)

module _ (symlink_metadata : HostPath → Stat) (dir : HostPath) where
  -- The target directory, or a name below such a path, of which the host does not say that it is a
  -- symbolic link. The number counts the names.
  pub data Under : ℕ → HostPath → Type 0 where
    target : Under 0 dir
    below :
        (n : ℕ) (buf : HostPath) (c : Bytes)
        → Under n buf
        → symlink_metadata (push buf c) ≢ link
        → Under (suc n) (push buf c)

  up : (n : ℕ) (buf : HostPath) → Under (suc n) buf → Under n (pop buf)
  up n buf (below n' b c h k) = subst (Under n') (sym (pop-push b c)) h

  pub Stat-cases : (s : Stat) → ((s ≡ link) ⊎ (s ≡ problem)) ⊎ ((s ≡ not_link) ⊎ (s ≡ not_found))
  Stat-cases link = inl (inl refl)
  Stat-cases problem = inl (inr refl)
  Stat-cases not_link = inr (inl refl)
  Stat-cases not_found = inr (inr refl)

  path_loop-Under :
      (cs : List Component) (n : ℕ) (buf found : HostPath)
      → Under n buf
      → path_loop symlink_metadata cs buf (n + 1) ≡ ok found
      → (m : ℕ) × Under m found
  unfolding path_loop
  path_loop-Under [] n buf found h e = (n, subst (Under n) (ok-injective e) h)
  path_loop-Under (prefix ∷ cs) n buf found h e = absurd (cc e)
  path_loop-Under (root_dir ∷ cs) n buf found h e = path_loop-Under cs n buf found h e
  path_loop-Under (cur_dir ∷ cs) n buf found h e = path_loop-Under cs n buf found h e
  path_loop-Under (normal c ∷ cs) n buf found h e =
      elim (Stat-cases (symlink_metadata (push buf c))) [
        | inl (inl s) ↦ absurd (cc (rw (path_loop, s) at e))
        | inl (inr s) ↦ absurd (cc (rw (path_loop, s) at e))
        | inr (inl s) ↦
            path_loop-Under cs (suc n) (push buf c) found (below n buf c h (λ l. cc (s, l))) (
              subst (λ l. path_loop symlink_metadata cs (push buf c) l ≡ ok found) (omega arith)
                (rw (path_loop, s) at e))
        | inr (inr s) ↦ (
          suc n,
          subst (Under (suc n)) (ok-injective (rw (path_loop, s) at e))
              (below n buf c h (λ l. cc (s, l))),
        )
      ]
  path_loop-Under (parent_dir ∷ cs) zero buf found h e = absurd (cc e)
  path_loop-Under (parent_dir ∷ cs) (suc n) buf found h e =
      let stays : (suc n + 1 - 1 == 0) ≡ false = ground arith in
      let level : suc n + 1 - 1 ≡ n + 1 = omega arith in
      path_loop-Under cs n (pop buf) found (up n buf h) (rw (path_loop, stays, level) at e)

  -- Whatever path the image names, `safe_path` refuses it or gives a path under the target directory
  -- on which the host shows no symbolic link below the target: every name from there to the end,
  -- the last included, is one of which the host does not say that it is a link.
  pub safe_path-Under :
      (image_path : List Component) (found : HostPath)
      → safe_path symlink_metadata dir image_path ≡ ok found
      → (n : ℕ) × Under n found
  unfolding safe_path
  safe_path-Under image_path found e = path_loop-Under image_path 0 dir found target e

  -- Such a path continues that of the target directory.
  pub Under-names :
      (n : ℕ) (buf : HostPath) → Under n buf → (names : HostPath) × (buf ≡ dir ++ names)
  Under-names n buf target = ([], sym (append-nil dir))
  Under-names n buf (below n' b c h k) =
      let (names, e) = Under-names n' b h in
      (names ++ c ∷ [], ap (λ (x : HostPath). x ++ c ∷ []) e ∙ append_assoc dir names (c ∷ []))
