-- ===== src/Config/Store/Loaded.antt =====
-- `Load`: what has to be on disk for it to succeed.
use edukod_companion.Base.{
  ℕ, ◌≡◌, refl, sym, ap, ◌∙◌, Bool, true, false, not, Option, none, some, Bytes, ok, err, Result,
  continue, fail_if, Bool-cases, inl, inr,
}
use edukod_companion.Config.FileSystem.{
  Node, regular, directory, symlink, special, config_file, World, StoreError, is_private, lstat,
  content_of, incomplete, call, read_file,
}
use edukod_companion.Config.Store.{
  Pairing, Store, StoreJson, Decoded, malformed, trailing, whole, load, credential, is_complete,
  check_private, check_decoded,
}
use edukod_companion.Base.Triples.{Post, Post-ok, Post-weaken, continue-Post, fail_if-Post}
use edukod_companion.Config.Store.Triples.{call-Post}
use edukod_companion.Config.Store.Directory.{look-Post}

module _ {K : Type 0} (json : StoreJson) (store : Store K) where
  abbrev Anything : World K → Type 0
  Anything w = Unit {0}

  abbrev SameFiles : World K → World K → Type 0
  SameFiles w0 w = w.files ≡ w0.files

  -- A regular file for the owner only.
  abbrev pub IsPrivateFile : Option Node → Bytes → Type 0
  IsPrivateFile found content =
      (permissions : ℕ) × (found ≡ some (regular permissions content))
      × (is_private permissions ≡ true)

  check_private-Post :
      (w0 w : World K) (found : Option Node)
      → SameFiles w0 w
      → Post
          (λ u v. ((content : Bytes) × IsPrivateFile found content) × SameFiles w0 v)
          Anything
          (check_private found w)
  unfolding check_private
  check_private-Post w0 w none h = tt
  check_private-Post w0 w (some (directory p)) h = tt
  check_private-Post w0 w (some (symlink t)) h = tt
  check_private-Post w0 w (some special) h = tt
  check_private-Post w0 w (some (regular p c)) h = elim (Bool-cases (is_private p)) [
    | inl tight ↦ simp tight ((c, (p, refl, tight)), h)
    | inr loose ↦ simp loose tt
  ]

  content-of_private :
      (w : World K) (found : Option Node) (content : Bytes)
      → IsPrivateFile found content
      → content_of found ≡ ok content
  unfolding content_of
  content-of_private w found content (p, e, tight) = rw e refl

  read_file-Post :
      (w0 w : World K) (content : Bytes)
      → IsPrivateFile (w0.files config_file) content
      → SameFiles w0 w
      → Post (λ payload v. (payload ≡ content) × SameFiles w0 v) Anything (read_file config_file w)
  unfolding read_file
  read_file-Post w0 w content private' same =
      continue-Post (λ u. SameFiles w0) (λ payload v. (payload ≡ content) × SameFiles w0 v) Anything
        (call w) _
        (Post-weaken (λ u. SameFiles w0) (λ u. SameFiles w0) (SameFiles w0) Anything (call w)
          (call-Post (SameFiles w0) w same (λ faults. same)) (λ u v p. p) (λ v p. tt))
        (λ u v p.
          rw
            (content-of_private v (v.files config_file) content
              (rw (ap (λ g. g config_file) p) private'))
            (refl, p))

  check_decoded-Post :
      (w0 w : World K) (found : Decoded)
      → Post (λ state v. found ≡ whole state) Anything (check_decoded {K = K} found w)
  unfolding check_decoded
  check_decoded-Post w0 w malformed = tt
  check_decoded-Post w0 w trailing = tt
  check_decoded-Post w0 w (whole state) = refl

  -- What `Load` has read when it returns a pairing.
  abbrev pub IsLoadable : World K → Pairing → Type 0
  IsLoadable w state =
      (content : Bytes) × IsPrivateFile (w.files config_file) content
      × (json.decode content ≡ whole state)
      × (is_complete state ≡ true)

  not-false : (b : Bool) → not b ≡ false → b ≡ true
  not-false true h = refl
  not-false false h = cc

  credential-Post :
      (w0 : World K) (state : Pairing) (r : Result StoreError Bytes × World K)
      → IsLoadable w0 state
      → Post
          (λ (p : Pairing × Bytes) v. IsLoadable w0 p.0)
          Anything
          (continue {B = Pairing × Bytes} r (λ token v. (ok (state, token), v)))
  credential-Post w0 state (ok token, v) h = h
  credential-Post w0 state (err e, v) h = tt

  pub load-Post :
      (w : World K)
      → Post (λ (p : Pairing × Bytes) v. IsLoadable w p.0) Anything (load json store w)
  unfolding load
  load-Post w =
      let Q : Pairing × Bytes → World K → Type 0 = λ p v. IsLoadable w p.0 in
      continue-Post (λ info v. (info ≡ v.files config_file) × SameFiles w v) Q Anything
        (lstat config_file w) _
        (Post-weaken (λ info v. (info ≡ v.files config_file) × SameFiles w v)
          (λ info v. (info ≡ v.files config_file) × SameFiles w v) (SameFiles w) Anything
          (lstat config_file w)
          (look-Post (SameFiles w) (λ x. x.files config_file) w refl (λ faults. refl)) (λ u v p. p)
          (λ v p. tt))
        (λ info v1 p1.
          continue-Post _ Q Anything (check_private info v1) _ (check_private-Post w v1 info p1.1)
            (λ u v2 p2.
              let here : IsPrivateFile (w.files config_file) p2.0.0 =
                rw (← (p1.0 ∙ ap (λ g. g config_file) p1.1)) p2.0.1 in
              continue-Post _ Q Anything (read_file config_file v2) _
                (read_file-Post w v2 p2.0.0 here p2.1)
                (λ payload v3 p3.
                  continue-Post _ Q Anything (check_decoded (json.decode payload) v3) _
                    (check_decoded-Post w v3 (json.decode payload))
                    (λ state v4 p4.
                      continue-Post _ Q Anything (fail_if (not (is_complete state)) incomplete v4) _
                        (fail_if-Post Anything Anything (not (is_complete state)) incomplete v4 tt
                          tt)
                        (λ u v5 p5. credential-Post w state (credential json store state v5) (
                          p2.0.0,
                          here,
                          ap json.decode (sym p3.0) ∙ p4,
                          not-false (is_complete state) p5.0,
                        ))))))

  -- `Load` returns a pairing only from a regular file that nobody but the owner may touch, whose
  -- content decodes to this pairing with nothing after it, and if it has this version, a device id
  -- and both URLs.
  pub load-IsLoadable :
      (w : World K) (state : Pairing) (token : Bytes)
      → (load json store w).0 ≡ ok (state, token)
      → IsLoadable w state
  load-IsLoadable w state token h =
      Post-ok (λ (p : Pairing × Bytes) v. IsLoadable w p.0) Anything (load json store w)
        (state, token) (load-Post w) h
