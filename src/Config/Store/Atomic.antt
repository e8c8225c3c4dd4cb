-- ===== src/Config/Store/Atomic.antt =====
-- `atomicWrite`: what a write may leave, whichever of its calls fails.
use edukod_companion.Base.{
  [], true, ◌≡◌, ◌≢◌, refl, ◌∙◌, ap, ◌⊎◌, inl, inr, Option, none, some, List, Bytes, ok, err,
  Result, continue,
}
use edukod_companion.Config.FileSystem.{
  Node, regular, directory, symlink, special, File, other_file, World, Io, StoreError, call, lstat,
  create_temp, then_remove_temp,
}
use edukod_companion.Config.Store.{
  ensure_private_directory, check_target, fill_and_rename, atomic_write,
}
use edukod_companion.Base.Triples.{Post, Post-weaken, continue-Post}
use edukod_companion.Config.Store.Triples.{call-Post}
use edukod_companion.Config.Store.Fill.{
  Rest, IsAtomic, Before, WithTemporary, IsWritten, step-Post, Before-IsAtomic,
  fill_and_rename-Post,
}
use edukod_companion.Config.Store.Directory.{IsPrivateDirectory, Kept, look-Post, ensure-Post}

-- A write may replace what is no link.
abbrev pub IsReplaceable : Option Node → Type 0
IsReplaceable found = (target : Option Bytes) → found ≢ some (symlink target)

module _ {K : Type 0} where
  -- The temporary file is gone, or was never made, or its removal has failed.
  abbrev pub IsTidy : World K → World K → Type 0
  IsTidy w0 w = (w.temporary ≡ none) ⊎ ((w.temporary ≡ w0.temporary) ⊎ (w.removal_failed ≡ true))

  -- The file is as it was, or it was no link and is complete. The other file and the keyring are
  -- as they were.
  abbrev pub IsOutcome : File → Bytes → World K → World K → Type 0
  IsOutcome file payload w0 w =
      ((w.files file ≡ w0.files file)
        ⊎ ((w.files file ≡ some (regular 0o600 payload)) × IsReplaceable (w0.files file)))
      × Rest file w0 w
      × IsTidy w0 w

  abbrev pub IsSaved : File → Bytes → World K → World K → Type 0
  IsSaved file payload w0 w =
      (w.files file ≡ some (regular 0o600 payload))
      × IsReplaceable (w0.files file)
      × Rest file w0 w
      × IsPrivateDirectory w
      × IsTidy w0 w

  Kept-IsOutcome :
      (file : File) (payload : Bytes) (w0 w : World K) → Kept w0 w → IsOutcome file payload w0 w
  Kept-IsOutcome file payload w0 w h =
      (inl (ap (λ g. g file) h.0), (ap (λ g. g (other_file file)) h.0, h.1), inr (inl h.2))

  abbrev Ready : World K → World K → Type 0
  Ready w0 w = IsPrivateDirectory w × Kept w0 w

  check_target-Post :
      (w0 w : World K) (info : Option Node)
      → Ready w0 w
      → Post (λ u v. IsReplaceable info × Ready w0 v) (Kept w0) (check_target info w)
  unfolding check_target
  check_target-Post w0 w none h = ((λ t e. cc), h)
  check_target-Post w0 w (some (regular p c)) h = ((λ t e. cc), h)
  check_target-Post w0 w (some (directory p)) h = ((λ t e. cc), h)
  check_target-Post w0 w (some special) h = ((λ t e. cc), h)
  check_target-Post w0 w (some (symlink t)) h = h.1

  -- The removal of the temporary file, or its failure, leaves all else.
  then_remove_temp-Post :
      (Q F : World K → Type 0) (action : Io K (Unit {0})) (w : World K)
      → Post (λ u. Q) F (action w)
      → ((v : World K) (found : Option Node) (faults : List (Option Bytes))
          → Q v
          → Q (record v { temporary = found; faults = faults }))
      → ((v : World K) (found : Option Node) (faults : List (Option Bytes))
          → F v
          → F (record v { temporary = found; faults = faults }))
      → ((v : World K) → Q v → Q (record v { removal_failed = true }))
      → ((v : World K) → F v → F (record v { removal_failed = true }))
      → Post (λ u. Q) F (then_remove_temp action w)
  then_remove_temp-Post Q F action w h q f q' f' = removed-Post (action w) h
    where
      cleaned :
          (P : World K → Type 0)
          → ((v : World K) (found : Option Node) (faults : List (Option Bytes))
              → P v
              → P (record v { temporary = found; faults = faults }))
          → ((v : World K) → P v → P (record v { removal_failed = true }))
          → (r : Result StoreError (Unit {0}) × World K) → Post (λ u. P) P r
          → P (elim r.0 [
            | ok _ ↦ record r.1 { temporary = none }
            | err _ ↦ record r.1 { removal_failed = true }
          ])
      cleaned P stable failed (ok u, v) k = stable v none v.faults k
      cleaned P stable failed (err e, v) k = failed v k

      removed-Post :
          (r : Result StoreError (Unit {0}) × World K)
          → Post (λ u. Q) F r
          → Post
              (λ u. Q)
              F
              (
                r.0,
                elim (call r.1).0 [
                  | ok _ ↦ record (call r.1).1 { temporary = none }
                  | err _ ↦ record (call r.1).1 { removal_failed = true }
                ],
              )
      removed-Post (ok u, v) k =
          cleaned Q q q' (call v) (call-Post Q v k (λ faults. q v v.temporary faults k))
      removed-Post (err e, v) k =
          cleaned F f f' (call v) (call-Post F v k (λ faults. f v v.temporary faults k))

  -- After the removal the temporary file is gone, or the removal has failed.
  then_remove_temp-IsTidy :
      (w0 : World K) (action : Io K (Unit {0})) (w : World K)
      → Post (λ u. IsTidy w0) (IsTidy w0) (then_remove_temp action w)
  then_remove_temp-IsTidy w0 action w = removed (action w)
    where
      cleaned :
          (r : Result StoreError (Unit {0}) × World K)
          → IsTidy w0 (elim r.0 [
            | ok _ ↦ record r.1 { temporary = none }
            | err _ ↦ record r.1 { removal_failed = true }
          ])
      cleaned (ok u, v) = inl refl
      cleaned (err e, v) = inr (inr refl)

      removed :
          (r : Result StoreError (Unit {0}) × World K)
          → Post
              (λ u. IsTidy w0)
              (IsTidy w0)
              (
                r.0,
                elim (call r.1).0 [
                  | ok _ ↦ record (call r.1).1 { temporary = none }
                  | err _ ↦ record (call r.1).1 { removal_failed = true }
                ],
              )
      removed (ok u, v) = cleaned (call v)
      removed (err e, v) = cleaned (call v)

  from_temporary-IsTidy :
      (file : File) (payload : Bytes) (w : World K)
      → Post
          (λ u. IsTidy w)
          (IsTidy w)
          (continue (create_temp w) (λ u. then_remove_temp (fill_and_rename file payload)))
  from_temporary-IsTidy file payload w =
      continue-Post (λ u v. Unit {0}) (λ u. IsTidy w) (IsTidy w) (create_temp w)
        (λ u. then_remove_temp (fill_and_rename file payload))
        (step-Post (λ v. v.temporary ≡ w.temporary) (λ v. Unit {0}) (IsTidy w)
          (λ v. record v { temporary = some (regular 0o600 []) }) w refl (λ v faults p. p)
          (λ v p. tt) (λ v p. inr (inl p)))
        (λ u v p. then_remove_temp-IsTidy w (fill_and_rename file payload) v)

  Post-both :
      (P Q F G : World K → Type 0) (r : Result StoreError (Unit {0}) × World K)
      → Post (λ u. P) F r
      → Post (λ u. Q) G r
      → Post (λ u v. P v × Q v) (λ v. F v × G v) r
  Post-both P Q F G (ok u, v) p q = (p, q)
  Post-both P Q F G (err e, v) p q = (p, q)

  from_temporary-IsAtomic :
      (file : File) (payload : Bytes) (w : World K)
      → Post
          (λ u. IsWritten file payload w)
          (IsAtomic file payload w)
          (continue (create_temp w) (λ u. then_remove_temp (fill_and_rename file payload)))
  from_temporary-IsAtomic file payload w =
      let before : Before file w w = (refl, ((refl, refl), refl)) in
      continue-Post (λ u. WithTemporary (some (regular 0o600 [])) file w)
        (λ u. IsWritten file payload w) (IsAtomic file payload w) (create_temp w)
        (λ u. then_remove_temp (fill_and_rename file payload))
        (step-Post (Before file w) (WithTemporary (some (regular 0o600 [])) file w)
          (IsAtomic file payload w) (λ v. record v { temporary = some (regular 0o600 []) }) w before
          (λ v faults p. p) (λ v p. (refl, p)) (λ v p. Before-IsAtomic file payload w v p))
        (λ u v p.
          then_remove_temp-Post (IsWritten file payload w) (IsAtomic file payload w)
            (fill_and_rename file payload) v (fill_and_rename-Post file payload w v 0o600 [] p)
            (λ x found faults q. q) (λ x found faults q. q) (λ x q. q) (λ x q. q))

  from_temporary-Post :
      (file : File) (payload : Bytes) (w : World K)
      → Post
          (λ u v. IsWritten file payload w v × IsTidy w v)
          (λ v. IsAtomic file payload w v × IsTidy w v)
          (continue (create_temp w) (λ u. then_remove_temp (fill_and_rename file payload)))
  from_temporary-Post file payload w =
      Post-both (IsWritten file payload w) (IsTidy w) (IsAtomic file payload w) (IsTidy w) _
        (from_temporary-IsAtomic file payload w) (from_temporary-IsTidy file payload w)

  IsTidy-since : (w0 w v : World K) → w.temporary ≡ w0.temporary → IsTidy w v → IsTidy w0 v
  IsTidy-since w0 w v same (inl gone) = inl gone
  IsTidy-since w0 w v same (inr (inl kept)) = inr (inl (kept ∙ same))
  IsTidy-since w0 w v same (inr (inr failed)) = inr (inr failed)

  written-IsSaved :
      (file : File) (payload : Bytes) (w0 w v : World K)
      → IsReplaceable (w0.files file)
      → Ready w0 w
      → IsWritten file payload w v
      → IsTidy w v
      → IsSaved file payload w0 v
  written-IsSaved file payload w0 w v free ((p, is_dir, tight), (files, secrets, kept))
        (new, ((other, s), d)) tidy =
      (
        new,
        free,
        (other ∙ ap (λ g. g (other_file file)) files, s ∙ secrets),
        (p, d ∙ is_dir, tight),
        IsTidy-since w0 w v kept tidy,
      )

  atomic-IsOutcome :
      (file : File) (payload : Bytes) (w0 w v : World K)
      → IsReplaceable (w0.files file)
      → Ready w0 w
      → IsAtomic file payload w v
      → IsTidy w v
      → IsOutcome file payload w0 v
  atomic-IsOutcome file payload w0 w v free (dir, (files, secrets, kept)) (inl same, (other, s))
        tidy =
      (
        inl (same ∙ ap (λ g. g file) files),
        (other ∙ ap (λ g. g (other_file file)) files, s ∙ secrets),
        IsTidy-since w0 w v kept tidy,
      )
  atomic-IsOutcome file payload w0 w v free (dir, (files, secrets, kept)) (inr new, (other, s))
        tidy =
      (
        inr (new, free),
        (other ∙ ap (λ g. g (other_file file)) files, s ∙ secrets),
        IsTidy-since w0 w v kept tidy,
      )

  -- Whichever calls of the operating system fail: if `atomicWrite` succeeds, the file is regular,
  -- complete, and for its owner only, in a directory for the owner only; if it fails, the file is
  -- as it was, or already complete. Either way a link is never replaced, the other file and the
  -- keyring are as they were, and the temporary file is gone, or as before the call, or its removal
  -- is among the calls that have failed. Even a failing write may have made the store's directory,
  -- or have made it private.
  pub atomic_write-Post :
      (file : File) (payload : Bytes) (w : World K)
      → Post (λ u. IsSaved file payload w) (IsOutcome file payload w) (atomic_write file payload w)
  unfolding atomic_write
  atomic_write-Post file payload w =
      let Q : World K → Type 0 = IsSaved file payload w in
      let F : World K → Type 0 = IsOutcome file payload w in
      continue-Post (λ u. Ready w) (λ u. Q) F (ensure_private_directory w) _
        (Post-weaken (λ u. Ready w) (λ u. Ready w) (Kept w) F (ensure_private_directory w)
          (ensure-Post w) (λ u v p. p) (λ v p. Kept-IsOutcome file payload w v p))
        (λ u v1 ready.
          continue-Post (λ info v. (info ≡ v.files file) × Ready w v) (λ u. Q) F (lstat file v1) _
            (Post-weaken (λ info v. (info ≡ v.files file) × Ready w v)
              (λ info v. (info ≡ v.files file) × Ready w v) (Ready w) F (lstat file v1)
              (look-Post (Ready w) (λ x. x.files file) v1 ready (λ faults. ready)) (λ u v p. p)
              (λ v p. Kept-IsOutcome file payload w v p.1))
            (λ info v2 p.
              continue-Post (λ u v. IsReplaceable info × Ready w v) (λ u. Q) F
                (check_target info v2) _
                (Post-weaken (λ u v. IsReplaceable info × Ready w v)
                  (λ u v. IsReplaceable info × Ready w v) (Kept w) F (check_target info v2)
                  (check_target-Post w v2 info p.1) (λ u v q. q)
                  (λ v q. Kept-IsOutcome file payload w v q))
                (λ u v3 q.
                  let free : IsReplaceable (w.files file) =
                    rw (← (p.0 ∙ ap (λ g. g file) p.1.1.0)) q.0 in
                  Post-weaken (λ u v. IsWritten file payload v3 v × IsTidy v3 v) (λ u. Q)
                    (λ v. IsAtomic file payload v3 v × IsTidy v3 v) F _
                    (from_temporary-Post file payload v3)
                    (λ u v r. written-IsSaved file payload w v3 v free q.1 r.0 r.1)
                    (λ v r. atomic-IsOutcome file payload w v3 v free q.1 r.0 r.1))))
