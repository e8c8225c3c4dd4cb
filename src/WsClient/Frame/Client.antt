-- ===== src/WsClient/Frame/Client.antt =====
-- What `writeFrame` puts on the wire, read by a server of RFC 6455.
use Prim.Native.Nat.{bit_and, bit_or, bit_xor}
use edukod_companion.Base.{
  ◌>>=◌, ◌>>◌, fail_if, pure, continue, ℕ, suc, ◌+◌, ◌%◌, ◌≤◌, ◌<◌, ◌≡◌, refl, ap, ap₂, ◌∙◌, Bool,
  true, not, [], ◌∷◌, ◌++◌, arith, Bytes, length, All, ◌==◌, ok, append_assoc,
}
use edukod_companion.Base.Bits.{xor_twice}
use edukod_companion.WsClient.Reader.{Reader, read_full, read_full-append, byte_at, masked_frame}
use edukod_companion.WsClient.Frame.{Frame, max_int, read_length, mask_from, client_frame}
use edukod_companion.WsClient.Frame.Masks.{
  first_byte-opcode, first_byte-final, flag-length, flag-set, or-first_byte,
}
use edukod_companion.WsClient.Frame.Lengths.{
  length_tail, length_code-lt, length_field_split, read_length-length_tail,
}

abbrev pub IsByte : ℕ → Type 0
IsByte b = b < 256

-- The four mask bytes are used in turn.
unfoldable pub unmask : ℕ → ℕ → ℕ → ℕ → Bytes → Bytes
unmask a b c d [] = []
unmask a b c d (x ∷ xs) = bit_xor x a ∷ unmask b c d a xs

unfoldable pub peer_body : Bool → ℕ → ℕ → Reader Frame
peer_body final op size = do
  mask ← read_full 4
  payload ← read_full size
  pure (record {
    final = final;
    opcode = op;
    payload = unmask (byte_at mask 0) (byte_at mask 1) (byte_at mask 2) (byte_at mask 3) payload;
  })

-- A server reads a client's frame, which has to be masked.
unfoldable pub peer_frame : Reader Frame
peer_frame = do
  header ← read_full 2
  let first = byte_at header 0
  let second = byte_at header 1
  fail_if (bit_and second 0x80 == 0) masked_frame
  size ← read_length (bit_and second 0x7f)
  peer_body (not (bit_and first 0x80 == 0)) (bit_and first 0x0f) size

pub length-mask_from : (mask : Bytes) (i : ℕ) (p : Bytes) → length (mask_from mask i p) ≡ length p
unfolding mask_from
length-mask_from mask i [] = refl
length-mask_from mask i (x ∷ xs) = ap suc (length-mask_from mask (i + 1) xs)

module _ (a b c d : ℕ) (ha : a < 256) (hb : b < 256) (hc : c < 256) (hd : d < 256) where
  abbrev mask : Bytes
  mask = a ∷ b ∷ c ∷ d ∷ []

  -- The two ways to go round the mask agree at every offset.
  unmask-mask_from :
      (i : ℕ) (p : Bytes)
      → All IsByte p
      → (i % 4 ≡ 0 → unmask a b c d (mask_from mask i p) ≡ p)
        × (i % 4 ≡ 1 → unmask b c d a (mask_from mask i p) ≡ p)
        × (i % 4 ≡ 2 → unmask c d a b (mask_from mask i p) ≡ p)
        × (i % 4 ≡ 3 → unmask d a b c (mask_from mask i p) ≡ p)
  unfolding unmask mask_from
  unmask-mask_from i [] h = (λ _. refl, λ _. refl, λ _. refl, λ _. refl)
  unmask-mask_from i (x ∷ xs) h =
      let ih = unmask-mask_from (i + 1) xs h.1 in
      (
        λ e. rw e (ap₂ ◌∷◌ (xor_twice x a h.0 ha) (ih.1 (omega arith))),
        λ e. rw e (ap₂ ◌∷◌ (xor_twice x b h.0 hb) (ih.2 (omega arith))),
        λ e. rw e (ap₂ ◌∷◌ (xor_twice x c h.0 hc) (ih.3 (omega arith))),
        λ e. rw e (ap₂ ◌∷◌ (xor_twice x d h.0 hd) (ih.0 (omega arith))),
      )

  read_masked :
      (p rest : Bytes)
      → read_full (length p) (mask_from mask 0 p ++ rest) ≡ (ok (mask_from mask 0 p), rest)
  read_masked p rest =
      rw (length-mask_from mask 0 p) at (read_full-append (mask_from mask 0 p) rest)

  peer_body-mask_from :
      (final : Bool) (op : ℕ) (p rest : Bytes)
      → All IsByte p
      → peer_body final op (length p) (mask ++ (mask_from mask 0 p ++ rest))
        ≡ (ok (record { final = final; opcode = op; payload = p }), rest)
  unfolding peer_body
  peer_body-mask_from final op p rest h =
      rw (read_full-append mask (mask_from mask 0 p ++ rest))
        (rw (read_masked p rest, (unmask-mask_from 0 p h).0 refl))

  peer_header :
      (op n : ℕ) (s : Bytes)
      → op < 16
      → n < 128
      → peer_frame (bit_or 0x80 op ∷ bit_or 0x80 n ∷ s)
        ≡ continue (read_length n s) (λ size. peer_body true op size)
  unfolding peer_frame
  peer_header op n s ho hn = rw (read_full-append (bit_or 0x80 op ∷ bit_or 0x80 n ∷ []) s) (
      rw (or-first_byte op ho) (
        rw (flag-set n hn) (
          rw (flag-length n hn, first_byte-opcode true op ho)
            (simp (first_byte-final true op ho)))))

  -- Each frame that `writeFrame` sends is read by the server as one final frame with the opcode
  -- and the payload that were given, and nothing of what follows is taken.
  pub peer_frame-client_frame :
      (op : ℕ) (p rest : Bytes)
      → op < 16
      → length p ≤ max_int
      → All IsByte p
      → peer_frame (client_frame op mask p ++ rest)
        ≡ (ok (record { final = true; opcode = op; payload = p }), rest)
  unfolding client_frame
  peer_frame-client_frame op p rest ho hn h =
      let n : ℕ = length p in
      rw
        (
          length_field_split 0x80 n,
          append_assoc (length_tail n ++ mask) (mask_from mask 0 p) rest,
          append_assoc (length_tail n) mask (mask_from mask 0 p ++ rest),
        )
        (peer_header op _ _ ho (length_code-lt n)
          ∙ rw (read_length-length_tail n (mask ++ (mask_from mask 0 p ++ rest)) hn)
              (peer_body-mask_from true op p rest h))
