-- ===== src/Config/Store/Quiet.antt =====
-- The operations of the store that only read.
use edukod_companion.Base.{
  ◌≡◌, refl, ap, ◌∙◌, Bool, true, false, not, Option, none, some, [], if◌then◌else◌, Result, ok,
  err, ◌>>=◌, fail_if, bytes_eq,
}
use edukod_companion.Config.FileSystem.{
  Node, regular, directory, symlink, special, config_file, status_file, File, World, StoreError, Io,
  is_private, lstat, read_file, call, content_of, bad_permissions, incomplete,
}
use edukod_companion.Config.Store.{
  Pairing, RuntimeStatus, Keyring, Store, StoreJson, Decoded, malformed, trailing, whole, exists,
  load, load_status, is_complete, check_private, check_decoded, check_status, credential,
  keyring_load,
}
use edukod_companion.Base.Triples.{Post, continue-Post}
use edukod_companion.Config.Store.Triples.{call-Post}
use edukod_companion.Config.Store.Directory.{Kept}

module _ {K : Type 0} where
  -- Whether it succeeds or not, the action leaves the files and the keyring as they were.
  abbrev pub IsQuiet : {A : Type 0} → Io K A → Type 0
  IsQuiet action = (w0 w : World K) → Kept w0 w → Post (λ a. Kept w0) (Kept w0) (action w)

  bind-IsQuiet :
      {A B : Type 0} (action : Io K A) (f : A → Io K B)
      → IsQuiet action
      → ((a : A) → IsQuiet (f a))
      → IsQuiet (action >>= f)
  bind-IsQuiet action f q r w0 w h =
      continue-Post (λ a. Kept w0) (λ b. Kept w0) (Kept w0) (action w) f (q w0 w h)
        (λ a v p. r a w0 v p)

  call-IsQuiet : IsQuiet call
  call-IsQuiet w0 w h = call-Post (Kept w0) w h (λ faults. h)

  fail_if-IsQuiet : (test : Bool) (e : StoreError) → IsQuiet (fail_if test e)
  fail_if-IsQuiet true e w0 w h = h
  fail_if-IsQuiet false e w0 w h = h

  lstat-IsQuiet : (file : File) → IsQuiet (lstat file)
  lstat-IsQuiet file = bind-IsQuiet call _ call-IsQuiet (λ u w0 w h. h)

  result-Post :
      {A : Type 0} (found : Result StoreError A) (w0 w : World K)
      → Kept w0 w
      → Post (λ a. Kept w0) (Kept w0) (found, w)
  result-Post (ok a) w0 w h = h
  result-Post (err e) w0 w h = h

  either-IsQuiet :
      {A : Type 0} (test : Bool) (action other : Io K A)
      → IsQuiet action
      → IsQuiet other
      → IsQuiet (if test then action else other)
  either-IsQuiet true action other q r = q
  either-IsQuiet false action other q r = r

  read_file-IsQuiet : (file : File) → IsQuiet (read_file file)
  unfolding read_file
  read_file-IsQuiet file =
      bind-IsQuiet call _ call-IsQuiet (λ u w0 w h. result-Post (content_of (w.files file)) w0 w h)

  check_private-IsQuiet : (found : Option Node) → IsQuiet (check_private found)
  unfolding check_private
  check_private-IsQuiet none w0 w h = h
  check_private-IsQuiet (some (regular p c)) w0 w h =
      fail_if-IsQuiet (not (is_private p)) bad_permissions w0 w h
  check_private-IsQuiet (some (directory p)) w0 w h = h
  check_private-IsQuiet (some (symlink t)) w0 w h = h
  check_private-IsQuiet (some special) w0 w h = h

  check_decoded-IsQuiet : (found : Decoded) → IsQuiet (check_decoded found)
  unfolding check_decoded
  check_decoded-IsQuiet malformed w0 w h = h
  check_decoded-IsQuiet trailing w0 w h = h
  check_decoded-IsQuiet (whole state) w0 w h = h

  -- `Exists` only looks.
  pub exists-IsQuiet : IsQuiet exists
  unfolding exists
  exists-IsQuiet = bind-IsQuiet (lstat config_file) _ (lstat-IsQuiet config_file) (λ info w0 w h. h)

  -- `Exists` sees what is there.
  pub exists-found :
      (found : Node) (w : World K)
      → w.files config_file ≡ some found
      → Post (λ there v. (there ≡ true) × Kept w v) (Kept w) (exists w)
  unfolding exists
  exists-found found w there =
      let Q : Option Node → World K → Type 0 = λ info v. (info ≡ some found) × Kept w v in
      continue-Post Q (λ b v. (b ≡ true) × Kept w v) (Kept w) (lstat config_file w) _
        (continue-Post (λ u. Kept w) Q (Kept w) (call w) _ (call-IsQuiet w w (refl, refl, refl))
          (λ u v p. (ap (λ g. g config_file) p.0 ∙ there, p)))
        (λ info v p. rw p.0 (refl, p.1))

module _ {K : Type 0} (json : StoreJson) (store : Store K) where
  keyring_load-IsQuiet :
      (found : Option (Keyring K)) (state : Pairing) → IsQuiet (keyring_load json store found state)
  unfolding keyring_load
  keyring_load-IsQuiet none state w0 w h = h
  keyring_load-IsQuiet (some keyring) state w0 w h = result-Post _ w0 w h

  credential-IsQuiet : (state : Pairing) → IsQuiet (credential json store state)
  unfolding credential
  credential-IsQuiet state =
      either-IsQuiet state.token_in_keyring (keyring_load json store store.keyring state) _
        (keyring_load-IsQuiet store.keyring state)
        (either-IsQuiet (bytes_eq state.device_token []) _ _ (λ w0 w h. h) (λ w0 w h. h))

  -- `Load` only looks.
  pub load-IsQuiet : IsQuiet (load json store)
  unfolding load
  load-IsQuiet = bind-IsQuiet (lstat config_file) _ (lstat-IsQuiet config_file) (λ info.
      bind-IsQuiet (check_private info) _ (check_private-IsQuiet info) (λ u.
        bind-IsQuiet (read_file config_file) _ (read_file-IsQuiet config_file) (λ payload.
          bind-IsQuiet (check_decoded (json.decode payload)) _
            (check_decoded-IsQuiet (json.decode payload))
            (λ state.
              bind-IsQuiet (fail_if (not (is_complete state)) incomplete) _
                (fail_if-IsQuiet (not (is_complete state)) incomplete)
                (λ u'.
                  bind-IsQuiet (credential json store state) _ (credential-IsQuiet state)
                    (λ token w0 w h. h))))))

  check_status-IsQuiet : (found : Option RuntimeStatus) → IsQuiet (check_status json store found)
  unfolding check_status
  check_status-IsQuiet none w0 w h = h
  check_status-IsQuiet (some status) w0 w h = h

  -- `LoadStatus` only looks.
  pub load_status-IsQuiet : IsQuiet (load_status json store)
  unfolding load_status
  load_status-IsQuiet =
      bind-IsQuiet (read_file status_file) _ (read_file-IsQuiet status_file)
        (λ payload. check_status-IsQuiet (json.decode_status payload))
