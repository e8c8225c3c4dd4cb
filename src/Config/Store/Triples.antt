-- ===== src/Config/Store/Triples.antt =====
-- The rule for a call of the operating system, and the files after a change at one path.
use edukod_companion.Base.{◌≡◌, refl, Option, none, some, List, [], ◌∷◌, Bytes}
use edukod_companion.Base.Triples.{Post}
use edukod_companion.Config.FileSystem.{
  Node, File, config_file, status_file, other_file, World, call, call_with, replace,
}

module _ {K : Type 0} where
  call_with-Post :
      (P : World K → Type 0) (faults : List (Option Bytes)) (w : World K)
      → P w
      → ((later : List (Option Bytes)) → P (record w { faults = later }))
      → Post (λ u. P) P (call_with faults w)
  unfolding call_with
  call_with-Post P [] w h stable = h
  call_with-Post P (none ∷ later) w h stable = stable later
  call_with-Post P (some text ∷ later) w h stable = stable later

  -- A call changes the list of faults only.
  pub call-Post :
      (P : World K → Type 0) (w : World K)
      → P w
      → ((faults : List (Option Bytes)) → P (record w { faults = faults }))
      → Post (λ u. P) P (call w)
  unfolding call
  call-Post P w h stable = call_with-Post P w.faults w h stable

pub replace-same :
    (file : File) (found : Option Node) (files : File → Option Node)
    → replace file found files file ≡ found
unfolding replace
replace-same config_file found files = refl
replace-same status_file found files = refl

pub replace-other_file :
    (file : File) (found : Option Node) (files : File → Option Node)
    → replace file found files (other_file file) ≡ files (other_file file)
unfolding replace
replace-other_file config_file found files = refl
replace-other_file status_file found files = refl
