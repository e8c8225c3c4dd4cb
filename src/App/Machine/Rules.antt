-- ===== src/App/Machine/Rules.antt =====
-- Rules for the parts of which the commands of app.go are made.
use edukod_companion.Base.{◌≡◌, refl, Option, none, some, List, Bytes, Result, ok, err}
use edukod_companion.Base.Triples.{Post, Post-weaken}
use edukod_companion.Config.FileSystem.{World, StoreError, Io}
use edukod_companion.Config.Store.Directory.{Kept}
use edukod_companion.Config.Store.Quiet.{IsQuiet}
use edukod_companion.Gateway.Client.{HttpRequest, GatewayError, Call}
use edukod_companion.App.Machine.{
  AppError, Machine, after_store, on_store, after_call, on_gateway, from_result, from_option,
  new_store,
}

module _ {K A : Type 0} (Q : A → Machine K → Type 0) (F : Machine K → Type 0) where
  after_store-Post :
      (wrap : StoreError → AppError) (r : Result StoreError A × World K) (m : Machine K)
      → Post (λ a w. Q a (record m { world = w })) (λ w. F (record m { world = w })) r
      → Post Q F (after_store wrap r m)
  unfolding after_store
  after_store-Post wrap (ok a, w) m h = h
  after_store-Post wrap (err e, w) m h = h

  pub on_store-Post :
      (wrap : StoreError → AppError) (action : Io K A) (m : Machine K)
      → Post
          (λ a w. Q a (record m { world = w }))
          (λ w. F (record m { world = w }))
          (action m.world)
      → Post Q F (on_store wrap action m)
  unfolding on_store
  on_store-Post wrap action m h = after_store-Post wrap (action m.world) m h

  after_call-Post :
      (wrap : GatewayError → AppError) (r : Result GatewayError A × List HttpRequest)
      (m : Machine K)
      → Post
          (λ a sent. Q a (record m { requests = sent }))
          (λ sent. F (record m { requests = sent }))
          r
      → Post Q F (after_call wrap r m)
  unfolding after_call
  after_call-Post wrap (ok a, sent) m h = h
  after_call-Post wrap (err e, sent) m h = h

  pub on_gateway-Post :
      (wrap : GatewayError → AppError) (action : Call A) (m : Machine K)
      → Post
          (λ a sent. Q a (record m { requests = sent }))
          (λ sent. F (record m { requests = sent }))
          (action m.requests)
      → Post Q F (on_gateway wrap action m)
  unfolding on_gateway
  on_gateway-Post wrap action m h = after_call-Post wrap (action m.requests) m h

  pub from_option-Post :
      (e : AppError) (found : Option A) (m : Machine K)
      → F m
      → ((a : A) → found ≡ some a → Q a m)
      → Post Q F (from_option e found m)
  unfolding from_option
  from_option-Post e none m f q = f
  from_option-Post e (some a) m f q = q a refl

  pub from_result-Post :
      {E : Type 0} (wrap : E → AppError) (found : Result E A) (m : Machine K)
      → F m
      → ((a : A) → found ≡ ok a → Q a m)
      → Post Q F (from_result wrap found m)
  unfolding from_result
  from_result-Post wrap (err e) m f q = f
  from_result-Post wrap (ok a) m f q = q a refl

module _ {K : Type 0} (Q : Unit {0} → Machine K → Type 0) (F : Machine K → Type 0) where
  pub new_store-Post :
      (found : Option Bytes) (m : Machine K) → F m → Q tt m → Post Q F (new_store found m)
  unfolding new_store
  new_store-Post none m f q = q
  new_store-Post (some text) m f q = f

module _ {K : Type 0} where
  -- The files, the keyring and what was sent are as they were.
  abbrev pub Untouched : Machine K → Machine K → Type 0
  Untouched m v = Kept m.world v.world × (v.requests ≡ m.requests)

  pub quiet-Post :
      {A : Type 0} (wrap : StoreError → AppError) (action : Io K A) (m v : Machine K)
      → IsQuiet action
      → Untouched m v
      → Post (λ a. Untouched m) (Untouched m) (on_store wrap action v)
  quiet-Post {A} wrap action m v quiet h =
      let Q : A → Machine K → Type 0 = λ a. Untouched m in
      on_store-Post Q (Untouched m) wrap action v (
        Post-weaken (λ a. Kept m.world) (λ a w. Untouched m (record v { world = w })) (Kept m.world)
          (λ w. Untouched m (record v { world = w })) (action v.world) (quiet m.world v.world h.0)
          (λ a w k. (k, h.1)) (λ w k. (k, h.1)))
