-- ===== src/Config/Store/Deleted.antt =====
-- `Delete`: what it has removed when it succeeds.
use edukod_companion.Base.{◌≡◌, refl, sym, ap, ◌∙◌, Option, none, some, ok}
use edukod_companion.Config.FileSystem.{
  Node, regular, directory, symlink, special, File, config_file, status_file, other_file, World,
  lstat, call, remove,
}
use edukod_companion.Config.Store.{
  Store, StoreJson, load, forget_loaded, remove_found, remove_file, delete,
}
use edukod_companion.Base.Triples.{Post, Post-ok, Post-weaken, continue-Post}
use edukod_companion.Config.Store.Triples.{call-Post, replace-same, replace-other_file}
use edukod_companion.Config.Store.Directory.{look-Post}

module _ {K : Type 0} where
  abbrev pub Anything : World K → Type 0
  Anything w = Unit {0}

  -- The file is gone, and the other one as it was.
  abbrev IsRemoved : File → World K → World K → Type 0
  IsRemoved file w0 w =
      (w.files file ≡ none) × (w.files (other_file file) ≡ w0.files (other_file file))

  abbrev SameFiles : World K → World K → Type 0
  SameFiles w0 w = w.files ≡ w0.files

  remove-Post :
      (file : File) (w0 w : World K)
      → SameFiles w0 w
      → Post (λ u. IsRemoved file w0) Anything (remove file w)
  remove-Post file w0 w h =
      continue-Post (λ u. SameFiles w0) (λ u. IsRemoved file w0) Anything (call w) _
        (Post-weaken (λ u. SameFiles w0) (λ u. SameFiles w0) (SameFiles w0) Anything (call w)
          (call-Post (SameFiles w0) w h (λ faults. h)) (λ u v p. p) (λ v p. tt))
        (λ u v p. (
          replace-same file none v.files,
          replace-other_file file none v.files ∙ ap (λ g. g (other_file file)) p,
        ))

  remove_found-Post :
      (file : File) (w0 w : World K) (found : Option Node)
      → found ≡ w.files file
      → SameFiles w0 w
      → Post (λ u. IsRemoved file w0) Anything (remove_found file found w)
  unfolding remove_found
  remove_found-Post file w0 w none e h = (sym e, ap (λ g. g (other_file file)) h)
  remove_found-Post file w0 w (some (symlink t)) e h = tt
  remove_found-Post file w0 w (some (regular p c)) e h = remove-Post file w0 w h
  remove_found-Post file w0 w (some (directory p)) e h = remove-Post file w0 w h
  remove_found-Post file w0 w (some special) e h = remove-Post file w0 w h

  remove_file-Post :
      (file : File) (w : World K) → Post (λ u. IsRemoved file w) Anything (remove_file file w)
  unfolding remove_file
  remove_file-Post file w =
      continue-Post (λ info v. (info ≡ v.files file) × SameFiles w v) (λ u. IsRemoved file w)
        Anything (lstat file w) _
        (Post-weaken (λ info v. (info ≡ v.files file) × SameFiles w v)
          (λ info v. (info ≡ v.files file) × SameFiles w v) (SameFiles w) Anything (lstat file w)
          (look-Post (SameFiles w) (λ x. x.files file) w refl (λ faults. refl)) (λ u v p. p)
          (λ v p. tt))
        (λ info v p. remove_found-Post file w v info p.0 p.1)

  abbrev pub IsUnpaired : World K → Type 0
  IsUnpaired w = (w.files config_file ≡ none) × (w.files status_file ≡ none)

module _ {K : Type 0} (json : StoreJson) (store : Store K) where
  pub delete-Post : (w : World K) → Post (λ u. IsUnpaired) Anything (delete json store w)
  unfolding delete
  delete-Post w =
      let w1 : World K = forget_loaded json store (load json store w) in
      continue-Post (λ u. IsRemoved config_file w1) (λ u. IsUnpaired) Anything
        (remove_file config_file w1) _ (remove_file-Post config_file w1)
        (λ u v p.
          Post-weaken (λ u. IsRemoved status_file v) (λ u. IsUnpaired) Anything Anything
            (remove_file status_file v) (remove_file-Post status_file v) (λ u x q. (q.1 ∙ p.0, q.0))
            (λ x q. tt))

  -- When `Delete` succeeds, neither the pairing nor the status is on disk, whatever was there
  -- before, a pairing that does not load included.
  pub delete-IsUnpaired :
      (w : World K) → (delete json store w).0 ≡ ok tt → IsUnpaired (delete json store w).1
  delete-IsUnpaired w h =
      Post-ok (λ u. IsUnpaired) Anything (delete json store w) tt (delete-Post w) h
