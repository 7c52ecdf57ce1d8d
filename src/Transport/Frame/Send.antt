-- ===== src/Transport/Frame/Send.antt =====
-- Frames on the socket.
use grpc_c.Common.{
  ℕ, ◌≡◌, ap, arith, true, false, Option, none, some, List, [], ◌++◌, take, take-length,
  append_assoc, append-nil,
}
use grpc_c.Common.Fallible.{Status, success, failure}
use grpc_c.Transport.{Net, Socket, Connection, returns, deadlock}
use grpc_c.Transport.Frame.{
  FrameHeader, encode_header, send, send_payload, send_locked, released, send_frame,
}

-- The bytes of a frame: the header, and as much of the payload as the header says.
abbrev pub tail_bytes : FrameHeader → Option (List ℕ) → List ℕ
tail_bytes h none = []
tail_bytes h (some payload) = take h.size payload

abbrev pub frame_bytes : FrameHeader → Option (List ℕ) → List ℕ
frame_bytes h payload = encode_header h ++ tail_bytes h payload

take_none : (n : ℕ) (xs : List ℕ) → n ≡ 0 → take n xs ≡ []
take_none n xs e = ap (λ (t : ℕ). take t xs) e

send_all :
    (net : Net) (s t : Socket) (bytes : List ℕ)
    → send net s bytes ≡ (t, true)
    → t.written ≡ s.written ++ bytes
unfolding send
send_all net s t bytes e = ground (arith, take-length bytes)

send_payload_success :
    (net : Net) (c c' : Connection) (h : FrameHeader) (payload : Option (List ℕ))
    → send_payload net c h payload ≡ (success, c')
    → (c' ≡ record c { socket = c'.socket })
      × (c.socket.written ++ tail_bytes h payload ≡ c'.socket.written)
unfolding send_payload
send_payload_success net c c' h none e = ground (arith, append-nil c.socket.written)
send_payload_success net c c' h (some payload) e = ground (
  arith,
  append-nil c.socket.written,
  send_all net c.socket (send net c.socket (take h.size payload)).0 (take h.size payload),
  take_none h.size payload,
)

send_locked_success :
    (net : Net) (c c' : Connection) (h : FrameHeader) (payload : Option (List ℕ))
    → send_locked net h payload c ≡ (success, c')
    → (c' ≡ record c { socket = c'.socket })
      × (c'.socket.written ≡ c.socket.written ++ frame_bytes h payload)
unfolding send_locked
send_locked_success net c c' h payload e =
    let s = (send net c.socket (encode_header h)).0 in
    ground (
      arith,
      send_all net c.socket s (encode_header h),
      send_payload_success net (record c { socket = s }) c' h payload,
      append_assoc c.socket.written (encode_header h) (tail_bytes h payload),
    )

-- Without a socket nothing is sent.
send_frame_closed :
    (net : Net) (c : Connection) (h : FrameHeader) (payload : Option (List ℕ))
    → c.socket_fd ≡ none
    → send_frame net c h payload ≡ returns (failure, c)
unfolding send_frame
send_frame_closed net c h payload e = ground arith

-- Under a lock that the caller holds already the call never returns.
send_frame_deadlock :
    (net : Net) (c : Connection) (h : FrameHeader) (payload : Option (List ℕ)) (fd : ℕ)
    → c.socket_fd ≡ some fd
    → c.write_mutex ≡ true
    → send_frame net c h payload ≡ deadlock
unfolding send_frame
send_frame_deadlock net c h payload fd e held = ground arith

-- A frame that is reported as sent is on the wire as a whole, header first and then as many bytes
-- of the payload as the header says; nothing else of the connection changes, and the lock is free.
pub send_frame_success :
    (net : Net) (c c' : Connection) (h : FrameHeader) (payload : Option (List ℕ))
    → send_frame net c h payload ≡ returns (success, c')
    → (c' ≡ record c { socket = c'.socket; write_mutex = false })
      × (c'.socket.written ≡ c.socket.written ++ frame_bytes h payload)
unfolding send_frame released
send_frame_success net c c' h payload e =
    let c1 = record c { write_mutex = true } in
    ground (arith, send_locked_success net c1 (send_locked net h payload c1).1 h payload)

-- Sending a frame changes nothing of a connection but its socket and the write lock.
pub send_frame_effect :
    (net : Net) (c c' : Connection) (h : FrameHeader) (payload : Option (List ℕ)) (status : Status)
    → send_frame net c h payload ≡ returns (status, c')
    → c' ≡ record c { socket = c'.socket; write_mutex = c'.write_mutex }
unfolding send_frame released send_locked
send_frame_effect net c c' h none status e = ground (arith, e)
send_frame_effect net c c' h (some payload) status e = ground (arith, e)
