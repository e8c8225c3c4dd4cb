-- ===== src/WsClient/Conn/Reassembly.antt =====
-- `ReadMessage` on what a well-behaved server sends: fragments, with control frames between them.
use edukod_companion.Base.{
  ℕ, suc, ◌+◌, ◌-◌, ◌≤◌, ◌≡◌, refl, ap, ◌∙◌, true, false, none, List, [], ◌∷◌, ◌++◌, append_assoc,
  append-nil, arith, Bytes, length, take, drop, Result, ok, inl, inr, length-append,
}
use native.Mathlib.Nat.{zero-add, suc-add}
use edukod_companion.WsClient.Frame.{Frame, max_int, client_frame}
use edukod_companion.WsClient.Frame.RoundTrip.{server_frame, IsSendable, read_frame-server_frame}
use edukod_companion.WsClient.Reader.{WsError}
use edukod_companion.WsClient.Conn.{
  Conn, write_frame, done, again, on_frame, after_frame, read_round, read_loop, read_message,
}

-- An open connection that works.
abbrev pub live : Bytes → Bytes → Bytes → ℕ → Conn
live input output entropy max_message = record {
  input = input;
  output = output;
  entropy = entropy;
  max_message = max_message;
  closed = false;
  broken = false;
  close_once = false;
}

-- What may come between the first and the last fragment of a text message.
pub data Part : Type 0 where
  chunk ping pong : Bytes → Part

abbrev pub frame_of : Part → Frame
frame_of (chunk p) = record { final = false; opcode = 0x0; payload = p }
frame_of (ping p) = record { final = true; opcode = 0x9; payload = p }
frame_of (pong p) = record { final = true; opcode = 0xa; payload = p }

abbrev pub wire : List Part → Bytes
wire [] = []
wire (part ∷ parts) = server_frame (frame_of part) ++ wire parts

-- The text that the parts carry.
abbrev pub text : List Part → Bytes
text [] = []
text (chunk p ∷ parts) = p ++ text parts
text (ping p ∷ parts) = text parts
text (pong p ∷ parts) = text parts

-- The pong frames that answer the pings, each masked with the next four random bytes.
abbrev pub pongs : List Part → Bytes → Bytes
pongs [] entropy = []
pongs (chunk p ∷ parts) entropy = pongs parts entropy
pongs (ping p ∷ parts) entropy = client_frame 0xa (take 4 entropy) p ++ pongs parts (drop 4 entropy)
pongs (pong p ∷ parts) entropy = pongs parts entropy

abbrev pub entropy_left : List Part → Bytes → Bytes
entropy_left [] entropy = entropy
entropy_left (chunk p ∷ parts) entropy = entropy_left parts entropy
entropy_left (ping p ∷ parts) entropy = entropy_left parts (drop 4 entropy)
entropy_left (pong p ∷ parts) entropy = entropy_left parts entropy

-- Control payloads have up to 125 bytes, and each ping finds four random bytes for its answer.
abbrev pub IsOrderly : List Part → ℕ → Bytes → Type 0
IsOrderly [] max_message entropy = Unit {0}
IsOrderly (chunk p ∷ parts) max_message entropy =
    (length p ≤ max_int) × IsOrderly parts max_message entropy
IsOrderly (ping p ∷ parts) max_message entropy =
    (length p ≤ 125)
    × (length p ≤ max_message)
    × (4 ≤ length entropy)
    × IsOrderly parts max_message (drop 4 entropy)
IsOrderly (pong p ∷ parts) max_message entropy =
    (length p ≤ 125) × (length p ≤ max_message) × IsOrderly parts max_message entropy

round_step :
    (op max_message : ℕ) (m s output entropy : Bytes) (f : Frame)
    → IsSendable max_message f
    → read_round op m (live (server_frame f ++ s) output entropy max_message)
      ≡ on_frame op m f (live s output entropy max_message)
unfolding read_round after_frame
round_step op max_message m s output entropy f h = rw (read_frame-server_frame max_message f s h)

pong_step :
    (max_message : ℕ) (p s output entropy : Bytes)
    → length p ≤ 125
    → length p ≤ max_message
    → 4 ≤ length entropy
    → write_frame 0xa p (live s output entropy max_message)
      ≡ (none, live s (output ++ client_frame 0xa (take 4 entropy) p) (drop 4 entropy) max_message)
unfolding write_frame
pong_step max_message p s output entropy h hm he = ground arith

module _ (max_message : ℕ) (m p s output entropy : Bytes) where
  chunk_round :
      length p ≤ max_int
      → length m + length p ≤ max_message
      → read_round 1 m (live (server_frame (frame_of (chunk p)) ++ s) output entropy max_message)
        ≡ (again 1 (m ++ p), live s output entropy max_message)
  unfolding on_frame
  chunk_round long fits =
      round_step 1 max_message m s output entropy (frame_of (chunk p)) (record {
        opcode = omega arith;
        fits = omega arith;
        addressable = long;
        control = inl (omega arith);
      })
      ∙ ground arith

  last_round :
      length p ≤ max_int
      → length m + length p ≤ max_message
      → read_round 1 m (
          live
            (server_frame (record { final = true; opcode = 0x0; payload = p }) ++ s)
            output
            entropy
            max_message)
        ≡ (done (ok (m ++ p)), live s output entropy max_message)
  unfolding on_frame
  last_round long fits =
      round_step 1 max_message m s output entropy
        (record { final = true; opcode = 0x0; payload = p })
        (record {
          opcode = omega arith;
          fits = omega arith;
          addressable = long;
          control = inl (omega arith);
        })
      ∙ ground arith

  first_round :
      length p ≤ max_int
      → length p ≤ max_message
      → read_round 0 [] (
          live
            (server_frame (record { final = false; opcode = 0x1; payload = p }) ++ s)
            output
            entropy
            max_message)
        ≡ (again 1 p, live s output entropy max_message)
  unfolding on_frame
  first_round long fits =
      round_step 0 max_message [] s output entropy
        (record { final = false; opcode = 0x1; payload = p })
        (record {
          opcode = omega arith;
          fits = omega arith;
          addressable = long;
          control = inl (omega arith);
        })
      ∙ ground arith

  ping_round :
      (op : ℕ)
      → length p ≤ 125
      → length p ≤ max_message
      → 4 ≤ length entropy
      → read_round op m (live (server_frame (frame_of (ping p)) ++ s) output entropy max_message)
        ≡ (
          again op m,
          live s (output ++ client_frame 0xa (take 4 entropy) p) (drop 4 entropy) max_message,
        )
  unfolding on_frame
  ping_round op short fits random =
      round_step op max_message m s output entropy (frame_of (ping p)) (record {
        opcode = omega arith;
        fits = fits;
        addressable = omega arith;
        control = inr (refl, short);
      })
      ∙ rw (pong_step max_message p s output entropy short fits random)

  pong_round :
      (op : ℕ)
      → length p ≤ 125
      → length p ≤ max_message
      → read_round op m (live (server_frame (frame_of (pong p)) ++ s) output entropy max_message)
        ≡ (again op m, live s output entropy max_message)
  unfolding on_frame
  pong_round op short fits =
      round_step op max_message m s output entropy (frame_of (pong p)) (record {
        opcode = omega arith;
        fits = fits;
        addressable = omega arith;
        control = inr (refl, short);
      })

loop_again :
    (k op : ℕ) (m : Bytes) (c : Conn) {op' : ℕ} {m' : Bytes} {c' : Conn}
    → read_round op m c ≡ (again op' m', c')
    → read_loop (suc k) op m c ≡ read_loop k op' m' c'
unfolding read_loop
loop_again k op m c h = rw (h, read_loop) (rw h)

loop_done :
    (k op : ℕ) (m : Bytes) (c : Conn) {r : Result WsError Bytes} {c' : Conn}
    → read_round op m c ≡ (done r, c')
    → read_loop (suc k) op m c ≡ (r, c')
unfolding read_loop
loop_done k op m c h = rw (h, read_loop) (rw h)

-- The loop after its first fragment runs through the parts, one round for each.
read_loop-parts :
    (parts : List Part) (k max_message : ℕ) (m s output entropy : Bytes)
    → IsOrderly parts max_message entropy
    → length m + length (text parts) ≤ max_message
    → read_loop (length parts + k) 1 m (live (wire parts ++ s) output entropy max_message)
      ≡ read_loop k 1
          (m ++ text parts)
          (live s (output ++ pongs parts entropy) (entropy_left parts entropy) max_message)
read_loop-parts [] k max_message m s output entropy h fits =
    rw (zero-add, append-nil m, append-nil output)
read_loop-parts (chunk p ∷ parts) k max_message m s output entropy h fits =
    rw (suc-add, append_assoc (server_frame (frame_of (chunk p))) (wire parts) s)
      (loop_again _ _ _ _ (
          chunk_round max_message m p (wire parts ++ s) output entropy h.0
            (omega (arith, length-append p (text parts))))
        ∙ read_loop-parts parts k max_message (m ++ p) s output entropy h.1
            (omega (arith, length-append p (text parts), length-append m p))
        ∙ rw (append_assoc m p (text parts)))
read_loop-parts (ping p ∷ parts) k max_message m s output entropy h fits =
    rw (suc-add, append_assoc (server_frame (frame_of (ping p))) (wire parts) s)
      (loop_again _ _ _ _
          (ping_round max_message m p (wire parts ++ s) output entropy 1 h.0 h.1 h.2)
        ∙ read_loop-parts parts k max_message m s (output ++ client_frame 0xa (take 4 entropy) p)
            (drop 4 entropy) h.3 fits
        ∙ rw (
            append_assoc output (client_frame 0xa (take 4 entropy) p)
              (pongs parts (drop 4 entropy))))
read_loop-parts (pong p ∷ parts) k max_message m s output entropy h fits =
    rw (suc-add, append_assoc (server_frame (frame_of (pong p))) (wire parts) s)
      (loop_again _ _ _ _ (pong_round max_message m p (wire parts ++ s) output entropy 1 h.0 h.1)
        ∙ read_loop-parts parts k max_message m s output entropy h.2 fits)

abbrev pub first_frame : Bytes → Frame
first_frame p = record { final = false; opcode = 0x1; payload = p }

abbrev pub last_frame : Bytes → Frame
last_frame p = record { final = true; opcode = 0x0; payload = p }

-- The bytes of a text message in fragments.
abbrev pub fragmented : Bytes → List Part → Bytes → Bytes
fragmented first parts last =
    server_frame (first_frame first) ++ (wire parts ++ server_frame (last_frame last))

length-server_frame : (f : Frame) → 1 ≤ length (server_frame f)
unfolding server_frame
length-server_frame f = omega arith

length-wire : (parts : List Part) → length parts ≤ length (wire parts)
length-wire [] = omega arith
length-wire (chunk p ∷ parts) = omega (
  arith,
  length-wire parts,
  length-server_frame (frame_of (chunk p)),
  length-append (server_frame (frame_of (chunk p))) (wire parts),
)
length-wire (ping p ∷ parts) = omega (
  arith,
  length-wire parts,
  length-server_frame (frame_of (ping p)),
  length-append (server_frame (frame_of (ping p))) (wire parts),
)
length-wire (pong p ∷ parts) = omega (
  arith,
  length-wire parts,
  length-server_frame (frame_of (pong p)),
  length-append (server_frame (frame_of (pong p))) (wire parts),
)

read_message-read_loop : (c : Conn) → read_message c ≡ read_loop (suc (length c.input)) 0 [] c
unfolding read_message
read_message-read_loop c = refl

-- The stream of a fragmented message holds more bytes than there are parts.
length-fragmented :
    (first last rest : Bytes) (parts : List Part)
    → length parts + 1 ≤ length (fragmented first parts last ++ rest)
length-fragmented first last rest parts = omega (
  arith,
  length-append (fragmented first parts last) rest,
  length-append (server_frame (first_frame first)) (wire parts ++ server_frame (last_frame last)),
  length-append (wire parts) (server_frame (last_frame last)),
  length-wire parts,
  length-server_frame (last_frame last),
)

-- The loop on the whole message, with fuel for its parts and one round more.
read_loop-fragmented :
    (first last rest output entropy : Bytes) (parts : List Part) (max_message k : ℕ)
    → IsOrderly parts max_message entropy
    → length first ≤ max_int
    → length last ≤ max_int
    → length first + length (text parts) + length last ≤ max_message
    → read_loop
        (suc (length parts + suc k))
        0
        []
        (live (fragmented first parts last ++ rest) output entropy max_message)
      ≡ (
        ok (first ++ (text parts ++ last)),
        live rest (output ++ pongs parts entropy) (entropy_left parts entropy) max_message,
      )
read_loop-fragmented first last rest output entropy parts max_message k h long_first long_last
      fits =
    let tail : Bytes = server_frame (last_frame last) ++ rest in
    rw
      (
        append_assoc (server_frame (first_frame first))
            (wire parts ++ server_frame (last_frame last)) rest,
        append_assoc (wire parts) (server_frame (last_frame last)) rest,
      )
      (loop_again _ _ _ _ (
          first_round max_message [] first (wire parts ++ tail) output entropy long_first
            (omega arith))
        ∙ read_loop-parts parts (suc k) max_message first tail output entropy h (omega arith)
        ∙ loop_done _ _ _ _ (
            last_round max_message (first ++ text parts) last rest (output ++ pongs parts entropy)
              (entropy_left parts entropy) long_last
              (omega (arith, length-append first (text parts))))
        ∙ rw (append_assoc first (text parts) last))

-- A text message in fragments, with pings and pongs between them, is read as the text of its
-- fragments in order; each ping is answered by a pong with its payload, and what follows the
-- message is left on the stream.
pub read_message-fragmented :
    (first last rest output entropy : Bytes) (parts : List Part) (max_message : ℕ)
    → IsOrderly parts max_message entropy
    → length first ≤ max_int
    → length last ≤ max_int
    → length first + length (text parts) + length last ≤ max_message
    → read_message (live (fragmented first parts last ++ rest) output entropy max_message) ≡ (
      ok (first ++ (text parts ++ last)),
      live rest (output ++ pongs parts entropy) (entropy_left parts entropy) max_message,
    )
read_message-fragmented first last rest output entropy parts max_message h long_first long_last
      fits =
    let size : ℕ = length (fragmented first parts last ++ rest) in
    let enough : size ≡ length parts + suc (size - length parts - 1) =
      omega (arith, length-fragmented first last rest parts) in
    read_message-read_loop _
    ∙ ap
        (λ n.
          read_loop (suc n) 0 []
            (live (fragmented first parts last ++ rest) output entropy max_message))
        enough
    ∙ read_loop-fragmented first last rest output entropy parts max_message _ h long_first long_last
        fits
