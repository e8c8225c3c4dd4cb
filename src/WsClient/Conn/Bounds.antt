-- ===== src/WsClient/Conn/Bounds.antt =====
-- `ReadMessage` on any stream: it ends, and what it returns fits the limit.
use edukod_companion.Base.{
  ℕ, zero, suc, ◌≤◌, ◌<◌, ◌≡◌, ◌≢◌, refl, some, [], arith, Bytes, length, Result, ok, err,
  Bool-cases, ap, inl, inr, length-append,
}
use edukod_companion.WsClient.Reader.{WsError, out_of_fuel}
use edukod_companion.WsClient.Frame.{Frame, read_frame}
use edukod_companion.WsClient.Frame.Bounds.{read_frame_ok, read_frame-ne-fuel}
use edukod_companion.WsClient.Conn.{
  Conn, write_frame, Round, done, again, on_frame, after_frame, read_round, read_loop, read_message,
}

pub write_frame_keeps :
    (op : ℕ) (p : Bytes) (c : Conn)
    → ((write_frame op p c).1.input ≡ c.input)
      × ((write_frame op p c).1.max_message ≡ c.max_message)
unfolding write_frame
write_frame_keeps op p c = ground arith

-- What a round may leave: a message in bounds, or a shorter stream with the bound kept.
abbrev IsBounded : Round × Conn → ℕ → ℕ → Type 0
IsBounded (done (ok m), c) max size = length m ≤ max
IsBounded (done (err e), c) max size = e ≢ out_of_fuel
IsBounded (again op m, c) max size =
    (length m ≤ max) × (op ≡ 0 → length m ≡ 0) × (c.max_message ≡ max) × (length c.input < size)

write_frame-ne-fuel : (op : ℕ) (p : Bytes) (c : Conn) → (write_frame op p c).0 ≢ some out_of_fuel
unfolding write_frame
write_frame-ne-fuel op p c = ground arith

on_frame-IsBounded :
    (op size : ℕ) (m : Bytes) (f : Frame) (c : Conn)
    → length m ≤ c.max_message
    → (op ≡ 0 → length m ≡ 0)
    → length f.payload ≤ c.max_message
    → length c.input < size
    → IsBounded (on_frame op m f c) c.max_message size
unfolding on_frame
on_frame-IsBounded op size m f c hm h0 hf hs = ground (
  arith,
  write_frame_keeps 0xa f.payload c,
  write_frame-ne-fuel 0xa f.payload c,
  length-append m f.payload,
)

after_frame-IsBounded :
    (op size : ℕ) (m : Bytes) (r : Result WsError Frame × Bytes) (c : Conn)
    → length m ≤ c.max_message
    → (op ≡ 0 → length m ≡ 0)
    → r.0 ≢ err out_of_fuel
    → ((f : Frame) → r.0 ≡ ok f → (length f.payload ≤ c.max_message) × (length r.1 < size))
    → IsBounded (after_frame op m r c) c.max_message size
unfolding after_frame
after_frame-IsBounded op size m (ok f, rest) c hm h0 ne good =
    on_frame-IsBounded op size m f (record c { input = rest }) hm h0 (good f refl).0 (good f refl).1
after_frame-IsBounded op size m (err e, rest) c hm h0 ne good = λ p. ne (ap err p)

read_round-IsBounded :
    (op size : ℕ) (m : Bytes) (c : Conn)
    → length m ≤ c.max_message
    → (op ≡ 0 → length m ≡ 0)
    → length c.input ≤ size
    → IsBounded (read_round op m c) c.max_message size
unfolding read_round
read_round-IsBounded op size m c hm h0 hs = elim (Bool-cases c.closed) [
  | inl shut ↦ simp shut (λ p. cc)
  | inr open' ↦ simp open' (
      after_frame-IsBounded op size m (read_frame c.max_message c.input) c hm h0
        (read_frame-ne-fuel c.max_message c.input)
        (λ f e. let (fits, taken) = read_frame_ok c.max_message c.input f e in (fits, omega arith)))
]

-- With more fuel than bytes, the loop ends by itself, on a message in bounds or on an error.
abbrev pub IsResult : ℕ → Result WsError Bytes → Type 0
IsResult max (ok m) = length m ≤ max
IsResult max (err e) = e ≢ out_of_fuel

after_round-IsResult :
    (fuel max size : ℕ) (r : Round × Conn)
    → IsBounded r max size
    → ((op : ℕ) (m : Bytes) (c : Conn)
        → length m ≤ c.max_message
        → (op ≡ 0 → length m ≡ 0)
        → length c.input < size
        → IsResult c.max_message (read_loop fuel op m c).0)
    → IsResult max (
        let (round, c) = r in
        let res : Result WsError Bytes × Conn = elim round [
          | done a ↦ (a, c)
          | again op m ↦ read_loop fuel op m c
        ] in
        res.0)
after_round-IsResult fuel max size (done (ok m), c) h rec = h
after_round-IsResult fuel max size (done (err e), c) h rec = h
after_round-IsResult fuel max size (again op m, c) h rec =
    rw (← h.2) (rec op m c (rw h.2 h.0) h.1 h.3)

read_loop-IsResult :
    (fuel op : ℕ) (m : Bytes) (c : Conn)
    → length m ≤ c.max_message
    → (op ≡ 0 → length m ≡ 0)
    → length c.input < fuel
    → IsResult c.max_message (read_loop fuel op m c).0
unfolding read_loop
read_loop-IsResult zero op m c hm h0 hs = absurd (omega arith)
read_loop-IsResult (suc size) op m c hm h0 hs =
    after_round-IsResult size c.max_message size (read_round op m c)
      (read_round-IsBounded op size m c hm h0 (omega arith))
      (λ op' m' c' hm' h0' hs'. read_loop-IsResult size op' m' c' hm' h0' hs')

-- `ReadMessage` always ends: the message that it returns is no longer than the connection's
-- limit, and an error is one of the program's, never the end of the model's fuel.
pub read_message-IsResult : (c : Conn) → IsResult c.max_message (read_message c).0
unfolding read_message
read_message-IsResult c =
    read_loop-IsResult (suc (length c.input)) 0 [] c (omega arith) (λ _. refl) (omega arith)
