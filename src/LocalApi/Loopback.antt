-- ===== src/LocalApi/Loopback.antt =====
-- client.go: `ensureLoopbackHost` and `loopbackDialer`.
use edukod_companion.Base.{
  refl, ◌≢◌, ◌==◌, ◌≡◌, Bool, true, false, not, ◌&&◌, ◌||◌, Option, none, some, List, [], ◌∷◌, ◌++◌,
  Bytes, bytes_eq, length, replicate, strip_prefix, All, All-append, Result, ok, err, Fallible,
  if◌then◌else◌, Bool-cases, inl, inr,
}
use edukod_companion.Base.Triples.{Post, Post-any}

-- `net.IP.IsLoopback`, on 4 or 16 bytes: 127.0.0.0/8, also mapped into IPv6, and ::1.
abbrev pub starts_with_127 : Bytes → Bool
starts_with_127 [] = false
starts_with_127 (b ∷ bs) = b == 127

abbrev pub mapped_prefix : Bytes
mapped_prefix = replicate 10 0 ++ (0xff ∷ 0xff ∷ [])

abbrev pub mapped_loopback : Option Bytes → Bool
mapped_loopback none = false
mapped_loopback (some v4) = starts_with_127 v4

unfoldable pub is_loopback : Bytes → Bool
unfolding strip_prefix bytes_eq
is_loopback ip =
    if length ip == 4
    then starts_with_127 ip
    else length ip == 16
      && (mapped_loopback (strip_prefix mapped_prefix ip)
          || bytes_eq ip (replicate 15 0 ++ (1 ∷ [])))

pub data HostError : Type 0 where
  bad_address : Bytes → HostError
  unresolved : Bytes → HostError
  no_addresses : HostError
  outside_loopback : Bytes → HostError
  dial_failed : Bytes → HostError

check_addresses : List Bytes → Option HostError
check_addresses [] = none
check_addresses (ip ∷ ips) =
    if not (is_loopback ip) then some (outside_loopback ip) else check_addresses ips

-- `none` is a nil error; the argument is what `LookupIPAddr` gave.
unfoldable pub ensure_loopback_host : Result Bytes (List Bytes) → Option HostError
unfolding check_addresses
ensure_loopback_host (err text) = some (unresolved text)
ensure_loopback_host (ok []) = some no_addresses
ensure_loopback_host (ok (ip ∷ ips)) = check_addresses (ip ∷ ips)

addresses-AllLocal :
    (ips : List Bytes) → check_addresses ips ≡ none → All (λ ip. is_loopback ip ≡ true) ips
unfolding check_addresses
addresses-AllLocal [] h = tt
addresses-AllLocal (ip ∷ ips) h = elim (Bool-cases (is_loopback ip)) [
  | inl local ↦ (local, addresses-AllLocal ips (simp local at h))
  | inr remote ↦ absurd (found_none (simp remote at h))
]
  where
    found_none : ◌≡◌ {A = Option HostError} (some (outside_loopback ip)) none → ⊥
    found_none e = cc

-- A host passes only if it resolves, to loopback addresses, and to one at least.
pub ensure_loopback_host_ok :
    (resolved : Result Bytes (List Bytes))
    → ensure_loopback_host resolved ≡ none
    → (ips : List Bytes) × (resolved ≡ ok ips) × (ips ≢ []) × All (λ ip. is_loopback ip ≡ true) ips
unfolding ensure_loopback_host
ensure_loopback_host_ok (err text) h = absurd (cc)
ensure_loopback_host_ok (ok []) h = absurd (cc)
ensure_loopback_host_ok (ok (ip ∷ ips)) h =
    (ip ∷ ips, refl, (λ e. cc), addresses-AllLocal (ip ∷ ips) h)

addresses_passed :
    (ips : List Bytes) → All (λ ip. is_loopback ip ≡ true) ips → check_addresses ips ≡ none
unfolding check_addresses
addresses_passed [] h = refl
addresses_passed (ip ∷ ips) h = rw h.0 (addresses_passed ips h.1)

-- A host that resolves to loopback addresses, to one at least, passes.
pub ensure_loopback_host_passed :
    (ips : List Bytes)
    → ips ≢ []
    → All (λ ip. is_loopback ip ≡ true) ips
    → ensure_loopback_host (ok ips) ≡ none
unfolding ensure_loopback_host
ensure_loopback_host_passed [] nonempty h = absurd (nonempty refl)
ensure_loopback_host_passed (ip ∷ ips) nonempty h = addresses_passed (ip ∷ ips) h

-- `dial` is a dial of an address and a port.
module _ {C : Type 0} (dial : Bytes → Bytes → Result Bytes C) where
  -- A dial is noted in the list of the addresses dialed.
  after_dialing :
      Result Bytes C
      → (Bytes → Fallible (List Bytes) HostError C)
      → Fallible (List Bytes) HostError C
  after_dialing (ok connection) next dialed = (ok connection, dialed)
  after_dialing (err text) next dialed = next text dialed

  -- The loop over the candidates, with the last error.
  dial_each : Bytes → List Bytes → HostError → Fallible (List Bytes) HostError C
  unfolding after_dialing
  dial_each port [] last dialed = (err last, dialed)
  dial_each port (ip ∷ ips) last dialed =
      if not (is_loopback ip)
      then (err (outside_loopback ip), dialed)
      else after_dialing (dial ip port) (λ text. dial_each port ips (dial_failed text))
          (dialed ++ ip ∷ [])

  dial_resolved : Bytes → Result Bytes (List Bytes) → Fallible (List Bytes) HostError C
  unfolding dial_each
  dial_resolved port (err text) dialed = (err (unresolved text), dialed)
  dial_resolved port (ok ips) dialed = dial_each port ips no_addresses dialed

  -- The arguments are what `net.SplitHostPort` gave for the address, and what `LookupIPAddr` gives
  -- for a host.
  unfoldable pub loopback_dialer :
      Result Bytes (Bytes × Bytes)
      → (Bytes → Result Bytes (List Bytes))
      → Fallible (List Bytes) HostError C
  unfolding dial_resolved
  loopback_dialer (err text) resolve dialed = (err (bad_address text), dialed)
  loopback_dialer (ok (host, port)) resolve dialed = dial_resolved port (resolve host) dialed

  abbrev pub AllLoopback : List Bytes → Type 0
  AllLoopback = All (λ ip. is_loopback ip ≡ true)

  after_dialing-Post :
      (result : Result Bytes C) (next : Bytes → Fallible (List Bytes) HostError C)
      (dialed : List Bytes)
      → AllLoopback dialed
      → ((text : Bytes) → Post (λ c. AllLoopback) AllLoopback (next text dialed))
      → Post (λ c. AllLoopback) AllLoopback (after_dialing result next dialed)
  unfolding after_dialing
  after_dialing-Post (ok c) next dialed h rest = h
  after_dialing-Post (err text) next dialed h rest = rest text

  dial_each-Post :
      (port : Bytes) (ips : List Bytes) (last : HostError) (dialed : List Bytes)
      → AllLoopback dialed
      → Post (λ c. AllLoopback) AllLoopback (dial_each port ips last dialed)
  unfolding dial_each
  dial_each-Post port [] last dialed h = h
  dial_each-Post port (ip ∷ ips) last dialed h = elim (Bool-cases (is_loopback ip)) [
    | inl local ↦ simp local (
        let more : AllLoopback (dialed ++ ip ∷ []) =
          All-append (λ x. is_loopback x ≡ true) dialed (ip ∷ []) h (local, tt) in
        after_dialing-Post (dial ip port) (λ text. dial_each port ips (dial_failed text))
          (dialed ++ ip ∷ []) more
          (λ text. dial_each-Post port ips (dial_failed text) (dialed ++ ip ∷ []) more))
    | inr remote ↦ simp remote h
  ]

  resolved-AllLoopback :
      (port : Bytes) (resolved : Result Bytes (List Bytes))
      → AllLoopback (dial_resolved port resolved []).1
  unfolding dial_resolved
  resolved-AllLoopback port (err text) = tt
  resolved-AllLoopback port (ok ips) =
      Post-any AllLoopback (dial_each port ips no_addresses [])
        (dial_each-Post port ips no_addresses [] tt)

  -- Whatever a host resolves to when it is dialed, the dialer dials loopback addresses only.
  pub loopback_dialer-AllLoopback :
      (split : Result Bytes (Bytes × Bytes)) (resolve : Bytes → Result Bytes (List Bytes))
      → AllLoopback (loopback_dialer split resolve []).1
  unfolding loopback_dialer
  loopback_dialer-AllLoopback (err text) resolve = tt
  loopback_dialer-AllLoopback (ok (host, port)) resolve = resolved-AllLoopback port (resolve host)
