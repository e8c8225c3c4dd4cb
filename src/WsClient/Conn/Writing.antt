-- ===== src/WsClient/Conn/Writing.antt =====
-- What `writeFrame`, `WritePing` and `Close` send, on every branch.
use edukod_companion.Base.{
  ℕ, zero, suc, ◌≤◌, ◌<◌, ◌≡◌, ◌≢◌, true, false, none, some, [], ◌∷◌, ◌++◌, arith, Bytes, length,
  take, All, ok, length-take,
}
use edukod_companion.WsClient.Reader.{WsError}
use edukod_companion.WsClient.Frame.{max_int, client_frame}
use edukod_companion.WsClient.Frame.Client.{IsByte, peer_frame, peer_frame-client_frame}
use edukod_companion.WsClient.Conn.{Conn, write_frame, close}

-- A write that fails has put nothing on the wire.
pub write_frame_error :
    (op : ℕ) (p : Bytes) (c : Conn) (e : WsError)
    → (write_frame op p c).0 ≡ some e
    → (write_frame op p c).1.output ≡ c.output
unfolding write_frame
write_frame_error op p c e h = ground arith

-- A write that succeeds has sent one frame, within the limits, and used four random bytes.
write_frame_ok :
    (op : ℕ) (p : Bytes) (c : Conn)
    → (write_frame op p c).0 ≡ none
    → ((write_frame op p c).1.output ≡ c.output ++ client_frame op (take 4 c.entropy) p)
      × (4 ≤ length c.entropy)
      × (length p ≤ c.max_message)
      × (8 ≤ op → length p ≤ 125)
      × (c.closed ≡ false)
unfolding write_frame
write_frame_ok op p c h = ground arith

read_mask :
    (op : ℕ) (mask p rest : Bytes)
    → length mask ≡ 4
    → All IsByte mask
    → op < 16
    → length p ≤ max_int
    → All IsByte p
    → peer_frame (client_frame op mask p ++ rest)
      ≡ (ok (record { final = true; opcode = op; payload = p }), rest)
read_mask op (a ∷ b ∷ c ∷ d ∷ []) p rest hl hm ho hn hp =
    peer_frame-client_frame a b c d hm.0 hm.1.0 hm.1.1.0 hm.1.1.1.0 op p rest ho hn hp
read_mask op [] p rest hl hm ho hn hp = absurd (omega arith)
read_mask op (a ∷ []) p rest hl hm ho hn hp = absurd (omega arith)
read_mask op (a ∷ b ∷ []) p rest hl hm ho hn hp = absurd (omega arith)
read_mask op (a ∷ b ∷ c ∷ []) p rest hl hm ho hn hp = absurd (omega arith)
read_mask op (a ∷ b ∷ c ∷ d ∷ e ∷ m) p rest hl hm ho hn hp = absurd (omega arith)

All-take : (n : ℕ) (s : Bytes) → All IsByte s → All IsByte (take n s)
All-take zero s h = tt
All-take (suc n) [] h = tt
All-take (suc n) (x ∷ s) h = (h.0, All-take n s h.1)

-- A write that succeeds has added to the wire exactly the bytes that the server reads as one
-- final frame with the given opcode and payload.
pub write_frame-peer_frame :
    (op : ℕ) (p rest : Bytes) (c : Conn)
    → (write_frame op p c).0 ≡ none
    → op < 16
    → length p ≤ max_int
    → All IsByte p
    → All IsByte c.entropy
    → (sent : Bytes) × ((write_frame op p c).1.output ≡ c.output ++ sent)
      × (peer_frame (sent ++ rest) ≡ (ok (record { final = true; opcode = op; payload = p }), rest))
write_frame-peer_frame op p rest c h ho hn hp he =
    let (out, random, fits, control, open') = write_frame_ok op p c h in
    (
      client_frame op (take 4 c.entropy) p,
      out,
      read_mask op (take 4 c.entropy) p rest (omega (arith, length-take 4 c.entropy))
          (All-take 4 c.entropy he) ho hn hp,
    )

write_frame_closed :
    (op : ℕ) (p : Bytes) (c : Conn)
    → c.closed ≡ true
    → ((write_frame op p c).0 ≢ none) × ((write_frame op p c).1.output ≡ c.output)
unfolding write_frame
write_frame_closed op p c h = ground arith

close_once_lem : (c : Conn) → c.close_once ≡ true → close c ≡ c
unfolding close
close_once_lem c h = ground arith

close_marks :
    (c : Conn)
    → (c.close_once ≡ true → c.closed ≡ true)
    → ((close c).close_once ≡ true) × ((close c).closed ≡ true)
unfolding close
close_marks c h = ground arith

-- After `Close` every write fails and sends nothing more, and a second `Close` changes nothing.
-- The condition holds of every connection: only `Close` sets the mark, and it closes too.
pub close_final :
    (op : ℕ) (p : Bytes) (c : Conn)
    → (c.close_once ≡ true → c.closed ≡ true)
    → (close (close c) ≡ close c)
      × ((write_frame op p (close c)).0 ≢ none)
      × ((write_frame op p (close c)).1.output ≡ (close c).output)
close_final op p c h =
    let (once, shut) = close_marks c h in
    let (fails, silent) = write_frame_closed op p (close c) shut in
    (close_once_lem (close c) once, fails, silent)
