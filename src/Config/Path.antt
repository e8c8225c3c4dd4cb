-- ===== src/Config/Path.antt =====
-- store.go: `DefaultDirectory`, and the directory that `NewStore` makes of its argument.
use edukod_companion.Base.{
  List, [], ◌∷◌, Bytes, codes, bytes_eq, trim_space, if◌then◌else◌, Result, ok, err,
}

-- The environment's variable XDG_CONFIG_HOME, `os.UserHomeDir`, and package filepath.
pub record Paths : Type 0 where
  pub xdg_config_home : Bytes
  pub user_home : Result Bytes Bytes
  pub join : List Bytes → Bytes
  pub clean : Bytes → Bytes

module _ (paths : Paths) where
  under_home : Result Bytes Bytes → Result Bytes Bytes
  under_home (err text) = err text
  under_home (ok home) = ok (paths.join (home ∷ codes ".config" ∷ codes "edukod-companion" ∷ []))

  unfoldable pub default_directory : Result Bytes Bytes
  unfolding under_home
  default_directory =
      if bytes_eq (trim_space paths.xdg_config_home) []
      then under_home paths.user_home
      else ok (paths.join (trim_space paths.xdg_config_home ∷ codes "edukod-companion" ∷ []))

  cleaned : Result Bytes Bytes → Result Bytes Bytes
  cleaned (err text) = err text
  cleaned (ok directory) = ok (paths.clean directory)

  -- The field `Directory` of the store.
  unfoldable pub store_path : Bytes → Result Bytes Bytes
  unfolding cleaned
  store_path directory = cleaned (if bytes_eq directory [] then default_directory else ok directory)
