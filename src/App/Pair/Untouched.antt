-- ===== src/App/Pair/Untouched.antt =====
-- `pair` where there is a pairing already.
use edukod_companion.Base.{◌≡◌, refl, Bool, true, false, some, List, Bytes, err}
use edukod_companion.Base.Triples.{Post, Post-weaken, Post-fails, continue-Post, guard-Post}
use edukod_companion.Config.FileSystem.{Node, config_file}
use edukod_companion.Config.Store.{exists}
use edukod_companion.Config.Store.Directory.{Kept}
use edukod_companion.Config.Store.Quiet.{exists-found}
use edukod_companion.LocalApi.Address.{validate_base_url}
use edukod_companion.App.Machine.{
  AppError, bad_flags, already_paired, positional, bad_address, in_store, PairFlags, Env, Machine,
  on_store, from_result, from_option, new_store, open_store, default_name,
}
use edukod_companion.App.Machine.Rules.{
  Untouched, on_store-Post, from_option-Post, from_result-Post, new_store-Post,
}
use edukod_companion.App.Pair.{pair_checked, pair}

module _ {K : Type 0} (env : Env K) where
  abbrev Never : Unit {0} → Machine K → Type 0
  Never u v = ⊥

  checked-Untouched :
      (flags : PairFlags) (base : _) (found : Node) (m v : Machine K)
      → m.world.files config_file ≡ some found
      → v ≡ m
      → Post Never (Untouched m) (pair_checked env flags base v)
  unfolding pair_checked
  checked-Untouched flags base found m v there same =
      let Same : Unit {0} → Machine K → Type 0 = λ u x. x ≡ m in
      let Stopped : Bool → Machine K → Type 0 = λ b x. (b ≡ true) × Untouched m x in
      continue-Post Same Never (Untouched m) (new_store (open_store env flags.config_directory) v) _
        (new_store-Post Same (Untouched m) (open_store env flags.config_directory) v
          (rw same ((refl, refl, refl), refl)) same)
        (λ u v1 s1.
          continue-Post Stopped Never (Untouched m) (on_store in_store exists v1) _
            (rw s1 (
              on_store-Post Stopped (Untouched m) in_store exists m (
                Post-weaken (λ b w. (b ≡ true) × Kept m.world w)
                  (λ b w. Stopped b (record m { world = w })) (Kept m.world)
                  (λ w. Untouched m (record m { world = w })) (exists m.world)
                  (exists-found found m.world there) (λ b w p. (p.0, (p.1, refl)))
                  (λ w p. (p, refl)))))
            (λ b v2 p2.
              guard-Post Never (Untouched m) b already_paired v2 _ p2.1
                (λ fresh. absurd (contradiction b p2.0 fresh))))
    where
      contradiction : (b : Bool) → b ≡ true → b ≡ false → ⊥
      contradiction b yes' no' = cc

  -- Where a pairing is on disk, `pair` fails, with nothing sent to any school, and with the files
  -- and the keyring as they were.
  pub pair-Untouched :
      (arguments : List Bytes) (found : Node) (m : Machine K)
      → m.world.files config_file ≡ some found
      → ((e : AppError) × ((pair env arguments m).0 ≡ err e)) × Untouched m (pair env arguments m).1
  unfolding pair
  pair-Untouched arguments found m there =
      let Same : Machine K → Type 0 = λ v. v ≡ m in
      Post-fails (Untouched m) (pair env arguments m) (
        continue-Post (λ f. Same) Never (Untouched m)
          (from_option bad_flags (env.parse_pair (default_name env.host_name) arguments) m) _
          (from_option-Post (λ f. Same) (Untouched m) bad_flags _ m ((refl, refl, refl), refl)
            (λ f e. refl))
          (λ f v1 s1.
            guard-Post Never (Untouched m) f.has_arguments positional v1 _
              (rw s1 ((refl, refl, refl), refl))
              (λ plain.
                continue-Post (λ base. Same) Never (Untouched m)
                  (from_result bad_address
                    (validate_base_url env.network.urls env.resolve f.local_base_url) v1)
                  _
                  (from_result-Post (λ base. Same) (Untouched m) bad_address _ v1
                    (rw s1 ((refl, refl, refl), refl)) (λ base e. s1))
                  (λ base v2 s2. checked-Untouched f base found m v2 there s2))))
