-- ===== src/Config/Store/Directory.antt =====
-- `ensurePrivateDirectory`: what it leaves, whichever of its calls fails.
use edukod_companion.Base.{
  ℕ, ◌≡◌, refl, sym, inl, inr, true, Option, none, some, List, Bytes, ok, continue, Bool-cases,
}
use edukod_companion.Config.FileSystem.{
  Node, regular, directory, symlink, special, World, call, is_private, lstat_directory, mkdir_all,
}
use edukod_companion.Config.Store.{make_directory, check_directory, ensure_private_directory}
use edukod_companion.Base.Triples.{Post, continue-Post}
use edukod_companion.Config.Store.Triples.{call-Post}
use edukod_companion.Config.Store.Fill.{step-Post}

module _ {K : Type 0} where
  -- The directory is one, and only its owner may use it.
  abbrev pub IsPrivateDirectory : World K → Type 0
  IsPrivateDirectory w =
      (permissions : ℕ) × (w.store_directory ≡ some (directory permissions))
      × (is_private permissions ≡ true)

  abbrev pub Kept : World K → World K → Type 0
  Kept w0 w = (w.files ≡ w0.files) × (w.secrets ≡ w0.secrets) × (w.temporary ≡ w0.temporary)

  -- A look at the world, whose value is what stands there.
  pub look-Post :
      {A : Type 0} (P : World K → Type 0) (get : World K → A) (w : World K)
      → P w
      → ((faults : List (Option Bytes)) → P (record w { faults = faults }))
      → Post (λ a v. (a ≡ get v) × P v) P (continue (call w) (λ u v. (ok (get v), v)))
  look-Post P get w h stable =
      continue-Post (λ u. P) (λ a v. (a ≡ get v) × P v) P (call w) (λ u v. (ok (get v), v))
        (call-Post P w h stable) (λ u v p. (refl, p))

  abbrev Seen : World K → Option Node → World K → Type 0
  Seen w0 info w = (info ≡ w.store_directory) × Kept w0 w

  make_directory-Post :
      (w0 w : World K) (found : Option Node)
      → Seen w0 found w
      → Post (Seen w0) (Kept w0) (make_directory found w)
  unfolding make_directory
  make_directory-Post w0 w (some n) h = h
  make_directory-Post w0 w none h =
      continue-Post (λ u. Kept w0) (Seen w0) (Kept w0) (mkdir_all w) (λ u. lstat_directory)
        (step-Post (Kept w0) (Kept w0) (Kept w0)
          (λ v. record v { store_directory = some (directory 0o700) }) w h.1 (λ v faults p. p)
          (λ v p. p) (λ v p. p))
        (λ u v p. look-Post (Kept w0) (λ x. x.store_directory) v p (λ faults. p))

  check_directory-Post :
      (w0 w : World K) (info : Option Node)
      → Seen w0 info w
      → Post (λ u v. IsPrivateDirectory v × Kept w0 v) (Kept w0) (check_directory info w)
  unfolding check_directory
  check_directory-Post w0 w none h = h.1
  check_directory-Post w0 w (some (regular p c)) h = h.1
  check_directory-Post w0 w (some (symlink t)) h = h.1
  check_directory-Post w0 w (some special) h = h.1
  check_directory-Post w0 w (some (directory p)) h = elim (Bool-cases (is_private p)) [
    | inl tight ↦ simp tight ((p, sym h.0, tight), h.1)
    | inr loose ↦ simp loose (
        step-Post (Kept w0) (λ v. IsPrivateDirectory v × Kept w0 v) (Kept w0)
          (λ v. record v { store_directory = some (directory 0o700) }) w h.1 (λ v faults q. q)
          (λ v q. ((0o700, refl, refl), q)) (λ v q. q))
  ]

  -- Afterwards the store's directory is a directory for its owner only, or an error is returned;
  -- no file has changed, the temporary one included.
  pub ensure-Post :
      (w : World K)
      → Post (λ u v. IsPrivateDirectory v × Kept w v) (Kept w) (ensure_private_directory w)
  unfolding ensure_private_directory
  ensure-Post w =
      continue-Post (Seen w) (λ u v. IsPrivateDirectory v × Kept w v) (Kept w) (lstat_directory w) _
        (look-Post (Kept w) (λ x. x.store_directory) w (refl, refl, refl)
          (λ faults. (refl, refl, refl)))
        (λ found v p.
          continue-Post (Seen w) (λ u v. IsPrivateDirectory v × Kept w v) (Kept w)
            (make_directory found v) check_directory (make_directory-Post w v found p)
            (λ info v' p'. check_directory-Post w v' info p'))
