-- ===== src/Config/Store/Fill.antt =====
-- `atomicWrite` from the temporary file on: what may be left, whichever of the calls fails.
use edukod_companion.Base.{
  ap, continue, ℕ, ◌≡◌, ◌∙◌, ◌⊎◌, inl, inr, Option, List, none, some, Bytes, ok,
}
use edukod_companion.Config.FileSystem.{
  Node, regular, directory, symlink, special, File, other_file, World, Io, call, replace, put_file,
  chmod_temp, write_temp, rename, rename_onto, chmod, with_permissions, with_content,
}
use edukod_companion.Config.Store.{fill_and_rename}
use edukod_companion.Base.Triples.{Post, Post-weaken, continue-Post}
use edukod_companion.Config.Store.Triples.{call-Post, replace-same, replace-other_file}

module _ {K : Type 0} where
  -- What a write of one file never changes.
  abbrev pub Rest : File → World K → World K → Type 0
  Rest file w0 w =
      (w.files (other_file file) ≡ w0.files (other_file file)) × (w.secrets ≡ w0.secrets)

  -- The file is as it was, or complete.
  abbrev pub IsAtomic : File → Bytes → World K → World K → Type 0
  IsAtomic file payload w0 w =
      ((w.files file ≡ w0.files file) ⊎ (w.files file ≡ some (regular 0o600 payload)))
      × Rest file w0 w

  abbrev pub Before : File → World K → World K → Type 0
  Before file w0 w =
      (w.files file ≡ w0.files file) × (Rest file w0 w × (w.store_directory ≡ w0.store_directory))

  abbrev pub WithTemporary : Option Node → File → World K → World K → Type 0
  WithTemporary found file w0 w = (w.temporary ≡ found) × Before file w0 w

  abbrev pub IsWritten : File → Bytes → World K → World K → Type 0
  IsWritten file payload w0 w =
      (w.files file ≡ some (regular 0o600 payload))
      × (Rest file w0 w × (w.store_directory ≡ w0.store_directory))

  -- A call, and then a change of the world.
  pub step-Post :
      (P Q F : World K → Type 0) (change : World K → World K) (w : World K)
      → P w
      → ((v : World K) (faults : List (Option Bytes)) → P v → P (record v { faults = faults }))
      → ((v : World K) → P v → Q (change v))
      → ((v : World K) → P v → F v)
      → Post (λ u. Q) F (continue (call w) (λ u v. (ok tt, change v)))
  step-Post P Q F change w h stable done' gone =
      continue-Post (λ u. P) (λ u. Q) F (call w) (λ u v. (ok tt, change v))
        (Post-weaken (λ u. P) (λ u. P) P F (call w) (call-Post P w h (λ faults. stable w faults h))
          (λ u v p. p) gone)
        (λ u v p. done' v p)

  pub Before-IsAtomic :
      (file : File) (payload : Bytes) (w0 w : World K)
      → Before file w0 w
      → IsAtomic file payload w0 w
  Before-IsAtomic file payload w0 w h = (inl h.0, h.1.0)

  written-IsAtomic :
      (file : File) (payload : Bytes) (w0 w : World K)
      → IsWritten file payload w0 w
      → IsAtomic file payload w0 w
  written-IsAtomic file payload w0 w h = (inr h.0, h.1.0)

  replaced-IsWritten :
      (file : File) (payload : Bytes) (w0 w : World K)
      → WithTemporary (some (regular 0o600 payload)) file w0 w
      → IsWritten file payload w0
          (record w { files = replace file w.temporary w.files; temporary = none })
  replaced-IsWritten file payload w0 w h = (
    replace-same file w.temporary w.files ∙ h.0,
    ((replace-other_file file w.temporary w.files ∙ h.1.1.0.0, h.1.1.0.1), h.1.1.1),
  )

  rename_onto-Post :
      (file : File) (payload : Bytes) (w0 w : World K) (target : Option Node)
      → WithTemporary (some (regular 0o600 payload)) file w0 w
      → Post (λ u. IsWritten file payload w0) (IsAtomic file payload w0) (rename_onto file target w)
  unfolding rename_onto
  rename_onto-Post file payload w0 w (some (directory p)) h = Before-IsAtomic file payload w0 w h.1
  rename_onto-Post file payload w0 w none h = replaced-IsWritten file payload w0 w h
  rename_onto-Post file payload w0 w (some (regular p c)) h = replaced-IsWritten file payload w0 w h
  rename_onto-Post file payload w0 w (some (symlink s)) h = replaced-IsWritten file payload w0 w h
  rename_onto-Post file payload w0 w (some special) h = replaced-IsWritten file payload w0 w h

  rename-Post :
      (file : File) (payload : Bytes) (w0 w : World K)
      → WithTemporary (some (regular 0o600 payload)) file w0 w
      → Post (λ u. IsWritten file payload w0) (IsAtomic file payload w0) (rename file w)
  unfolding rename
  rename-Post file payload w0 w h =
      let P : World K → Type 0 = WithTemporary (some (regular 0o600 payload)) file w0 in
      let F : World K → Type 0 = IsAtomic file payload w0 in
      continue-Post (λ u. P) (λ u. IsWritten file payload w0) F (call w)
        (λ u v. rename_onto file (v.files file) v)
        (Post-weaken (λ u. P) (λ u. P) P F (call w) (call-Post P w h (λ faults. h)) (λ u v p. p)
          (λ v p. Before-IsAtomic file payload w0 v p.1))
        (λ u v p. rename_onto-Post file payload w0 v (v.files file) p)

  chmod-Post :
      (file : File) (payload : Bytes) (w0 w : World K)
      → IsWritten file payload w0 w
      → Post (λ u. IsWritten file payload w0) (IsAtomic file payload w0) (chmod file 0o600 w)
  chmod-Post file payload w0 w h =
      step-Post (IsWritten file payload w0) (IsWritten file payload w0) (IsAtomic file payload w0)
        (λ v. put_file file (with_permissions 0o600 (v.files file)) v) w h (λ v faults p. p)
        (λ v p. (
          replace-same file (with_permissions 0o600 (v.files file)) v.files
              ∙ ap (with_permissions 0o600) p.0,
          ((replace-other_file file _ v.files ∙ p.1.0.0, p.1.0.1), p.1.1),
        ))
        (λ v p. written-IsAtomic file payload w0 v p)

  temporary-Post :
      (file : File) (payload : Bytes) (w0 w : World K) (change : Option Node → Option Node)
      (found : Option Node)
      → WithTemporary found file w0 w
      → Post
          (λ u. WithTemporary (change found) file w0)
          (IsAtomic file payload w0)
          (continue (call w) (λ u v. (ok tt, record v { temporary = change v.temporary })))
  temporary-Post file payload w0 w change found h =
      step-Post (WithTemporary found file w0) (WithTemporary (change found) file w0)
        (IsAtomic file payload w0) (λ v. record v { temporary = change v.temporary }) w h
        (λ v faults p. p) (λ v p. (ap change p.0, p.1))
        (λ v p. Before-IsAtomic file payload w0 v p.1)

  -- The rule for one action after another without a value.
  then-Post :
      (file : File) (payload : Bytes) (w0 w : World K) (Q R : World K → Type 0)
      (first second : Io K (Unit {0}))
      → Post (λ u. Q) (IsAtomic file payload w0) (first w)
      → ((v : World K) → Q v → Post (λ u. R) (IsAtomic file payload w0) (second v))
      → Post (λ u. R) (IsAtomic file payload w0) (continue (first w) (λ u. second))
  then-Post file payload w0 w Q R first second h rest =
      continue-Post (λ u. Q) (λ u. R) (IsAtomic file payload w0) (first w) (λ u. second) h
        (λ u v p. rest v p)

  call-WithTemporary :
      (file : File) (payload : Bytes) (w0 w : World K) (found : Option Node)
      → WithTemporary found file w0 w
      → Post (λ u. WithTemporary found file w0) (IsAtomic file payload w0) (call w)
  call-WithTemporary file payload w0 w found h =
      let P : World K → Type 0 = WithTemporary found file w0 in
      Post-weaken (λ u. P) (λ u. P) P (IsAtomic file payload w0) (call w)
        (call-Post P w h (λ faults. h)) (λ u v p. p) (λ v p. Before-IsAtomic file payload w0 v p.1)

  pub fill_and_rename-Post :
      (file : File) (payload : Bytes) (w0 w : World K) (p : ℕ) (c : Bytes)
      → WithTemporary (some (regular p c)) file w0 w
      → Post
          (λ u. IsWritten file payload w0)
          (IsAtomic file payload w0)
          (fill_and_rename file payload w)
  unfolding fill_and_rename
  fill_and_rename-Post file payload w0 w p c h =
      let Q : World K → Type 0 = IsWritten file payload w0 in
      then-Post file payload w0 w (WithTemporary (some (regular 0o600 c)) file w0) Q
        (chmod_temp 0o600) _
        (temporary-Post file payload w0 w (with_permissions 0o600) (some (regular p c)) h)
        (λ v1 h1.
          then-Post file payload w0 v1 (WithTemporary (some (regular 0o600 payload)) file w0) Q
            (write_temp payload) _
            (temporary-Post file payload w0 v1 (with_content payload) (some (regular 0o600 c)) h1)
            (λ v2 h2.
              then-Post file payload w0 v2 (WithTemporary (some (regular 0o600 payload)) file w0) Q
                call _ (call-WithTemporary file payload w0 v2 (some (regular 0o600 payload)) h2)
                (λ v3 h3.
                  then-Post file payload w0 v3
                    (WithTemporary (some (regular 0o600 payload)) file w0) Q call _
                    (call-WithTemporary file payload w0 v3 (some (regular 0o600 payload)) h3)
                    (λ v4 h4.
                      then-Post file payload w0 v4 Q Q (rename file) _
                        (rename-Post file payload w0 v4 h4)
                        (λ v5 h5. chmod-Post file payload w0 v5 h5)))))
