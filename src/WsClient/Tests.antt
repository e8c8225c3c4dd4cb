-- ===== src/WsClient/Tests.antt =====
-- Runs of the WebSocket client, and the theorems at concrete connections.
use edukod_companion.Base.{
  ◌≡◌, ◌≢◌, refl, true, none, List, [], ◌∷◌, ◌++◌, arith, Bytes, codes, ok, err,
}
use edukod_companion.WsClient.Reader.{unfinished_message, read_full, be_loop}
use edukod_companion.WsClient.Frame.{
  Frame, read_frame, read_checked, read_length, read_body, length_field, mask_from, client_frame,
}
use edukod_companion.WsClient.Frame.Masks.{first_byte}
use edukod_companion.WsClient.Frame.RoundTrip.{server_frame, read_frame-server_frame}
use edukod_companion.WsClient.Frame.Client.{peer_frame}
use edukod_companion.WsClient.Conn.{write_frame, read_message, close, read_loop}
use edukod_companion.WsClient.Conn.Bounds.{IsResult, read_message-IsResult}
use edukod_companion.WsClient.Conn.Reassembly.{
  live, Part, chunk, ping, pong, fragmented, text, pongs, entropy_left, read_message-fragmented,
}
use edukod_companion.WsClient.Conn.Writing.{write_frame-peer_frame, close_final}

abbrev hello : Frame
hello = record { final = true; opcode = 0x1; payload = codes "hi" }

read_hello : read_frame 100 (0x81 ∷ 0x02 ∷ b'h' ∷ b'i' ∷ 7 ∷ []) ≡ (ok hello, 7 ∷ [])
unfolding read_frame read_checked read_full read_length read_body
read_hello = refl

-- The length in two bytes, where one would have been enough, is accepted.
read_padded : read_frame 100 (0x81 ∷ 126 ∷ 0 ∷ 2 ∷ b'h' ∷ b'i' ∷ []) ≡ (ok hello, [])
unfolding read_frame read_checked read_full read_length read_body be_loop
read_padded = refl

send_hello :
    write_frame 0x1 (codes "hi") (live [] [] (1 ∷ 2 ∷ 3 ∷ 4 ∷ []) 100)
    ≡ (none, live [] (0x81 ∷ 0x82 ∷ 1 ∷ 2 ∷ 3 ∷ 4 ∷ 0x69 ∷ 0x6b ∷ []) [] 100)
unfolding write_frame client_frame length_field mask_from
send_hello = refl

abbrev parts : List Part
parts = ping (codes "p1") ∷ chunk (codes "b") ∷ pong [] ∷ []

fragments_read :
    (read_message (
      live
        (fragmented (codes "a") parts (codes "c") ++ (9 ∷ []))
        []
        (1 ∷ 2 ∷ 3 ∷ 4 ∷ 5 ∷ [])
        100)).0
    ≡ ok (codes "abc")
unfolding read_message read_loop read_frame read_checked read_full read_length read_body
    server_frame first_byte length_field write_frame
fragments_read = refl

-- A second text frame before the first message is complete.
interleaved_refused :
    (read_message (live (0x01 ∷ 0x01 ∷ b'a' ∷ 0x81 ∷ 0x01 ∷ b'b' ∷ []) [] [] 100)).0
    ≡ err unfinished_message
unfolding read_message read_loop read_frame read_checked read_full read_length read_body
interleaved_refused = refl

read_frame-server_frame_example :
    read_frame 100 (server_frame hello ++ (7 ∷ [])) ≡ (ok hello, 7 ∷ [])
read_frame-server_frame_example = read_frame-server_frame 100 hello (7 ∷ []) (omega arith)

write_frame-peer_frame_example :
    (sent : Bytes) × ((write_frame 0x1 (codes "hi") (live [] [] (1 ∷ 2 ∷ 3 ∷ 4 ∷ []) 100)).1.output
      ≡ [] ++ sent)
    × (peer_frame (sent ++ (5 ∷ [])) ≡ (ok hello, 5 ∷ []))
unfolding write_frame
write_frame-peer_frame_example =
    write_frame-peer_frame 0x1 (codes "hi") (5 ∷ []) (live [] [] (1 ∷ 2 ∷ 3 ∷ 4 ∷ []) 100) refl
      (omega arith) (omega arith) (omega arith) (omega arith)

read_message-IsResult_example : IsResult 100 (read_message (live (0x01 ∷ 0x01 ∷ []) [] [] 100)).0
read_message-IsResult_example = read_message-IsResult (live (0x01 ∷ 0x01 ∷ []) [] [] 100)

read_message-fragmented_example :
    read_message
      (live (fragmented (codes "a") parts (codes "c") ++ (9 ∷ [])) [] (1 ∷ 2 ∷ 3 ∷ 4 ∷ 5 ∷ []) 100)
    ≡ (
      ok (codes "a" ++ (text parts ++ codes "c")),
      live
          (9 ∷ [])
          ([] ++ pongs parts (1 ∷ 2 ∷ 3 ∷ 4 ∷ 5 ∷ []))
          (entropy_left parts (1 ∷ 2 ∷ 3 ∷ 4 ∷ 5 ∷ []))
          100,
    )
read_message-fragmented_example =
    read_message-fragmented (codes "a") (codes "c") (9 ∷ []) [] (1 ∷ 2 ∷ 3 ∷ 4 ∷ 5 ∷ []) parts 100
      (omega arith) (omega arith) (omega arith) (omega arith)

close_final_example :
    let c = live [] [] (1 ∷ 2 ∷ 3 ∷ 4 ∷ []) 100 in
    (close (close c) ≡ close c)
    × ((write_frame 0x9 [] (close c)).0 ≢ none)
    × ((write_frame 0x9 [] (close c)).1.output ≡ (close c).output)
close_final_example = close_final 0x9 [] (live [] [] (1 ∷ 2 ∷ 3 ∷ 4 ∷ []) 100) (λ h. cc)
