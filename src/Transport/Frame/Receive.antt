-- ===== src/Transport/Frame/Receive.antt =====
-- Frames between two ends that take every byte offered.
use grpc_c.Common.{
  ℕ, ◌+◌, ◌^◌, ◌<◌, ◌≡◌, refl, ap, ◌∙◌, arith, true, false, Option, none, some, List, [], ◌∷◌, ◌++◌,
  length, take, drop, take-length, take-length-append, drop-length-append, append_assoc,
}
use Prim.Native.Nat.{min}
use mathlib.Core.Path.{ap₂}
use grpc_c.Common.Fallible.{Status, success}
use grpc_c.Transport.{Net, Socket, Connection, returns}
use grpc_c.Transport.Frame.{
  FrameHeader, encode_header, decode_header, send, send_payload, send_locked, released, send_frame,
  recv, recv_payload, recv_frame,
}
use grpc_c.Transport.Frame.Codec.{on_wire, decode_header-encode_header}
use grpc_c.Transport.Frame.Send.{frame_bytes}

-- Every call takes all that it is offered.
abbrev pub IsWhole : Net → Type 0
IsWhole net = (k n : ℕ) → net k n ≡ some n

send_whole : (net : Net) (s : Socket) (bytes : List ℕ) → IsWhole net → (send net s bytes).1 ≡ true
unfolding send
send_whole net s bytes whole = ground (arith, whole s.calls (length bytes))

recv_whole :
    (net : Net) (s : Socket) (bytes rest : List ℕ) (n : ℕ)
    → IsWhole net
    → s.inbox ≡ bytes ++ rest
    → n ≡ length bytes
    → recv net s n ≡ (record s { inbox = rest; calls = s.calls + 1 }, some bytes)
unfolding recv
recv_whole net s bytes rest n whole e size =
    let bound : min n n ≡ length bytes = omega arith in
    let got : take (min n n) s.inbox ≡ bytes = ap₂ take bound e ∙ take-length-append bytes rest in
    let left : drop (min n n) s.inbox ≡ rest = ap₂ drop bound e ∙ drop-length-append bytes rest in
    ground (arith, whole s.calls n, got, left)

send_payload_whole :
    (net : Net) (c : Connection) (h : FrameHeader) (payload : Option (List ℕ))
    → IsWhole net
    → (send_payload net c h payload).0 ≡ success
unfolding send_payload
send_payload_whole net c h none whole = refl
send_payload_whole net c h (some payload) whole =
    ground (arith, send_whole net c.socket (take h.size payload) whole)

send_locked_whole :
    (net : Net) (c : Connection) (h : FrameHeader) (payload : Option (List ℕ))
    → IsWhole net
    → (send_locked net h payload c).0 ≡ success
unfolding send_locked
send_locked_whole net c h payload whole = ground (
  arith,
  send_whole net c.socket (encode_header h) whole,
  send_payload_whole net (record c { socket = (send net c.socket (encode_header h)).0 }) h payload
      whole,
)

released_first : (r : Status × Connection) → (released r).0 ≡ r.0
unfolding released
released_first r = refl

-- Over such a connection, with no lock held, a frame is sent.
pub send_frame_whole :
    (net : Net) (c : Connection) (h : FrameHeader) (payload : Option (List ℕ)) (fd : ℕ)
    → IsWhole net
    → c.socket_fd ≡ some fd
    → c.write_mutex ≡ false
    → (c' : Connection) × (send_frame net c h payload ≡ returns (success, c'))
unfolding send_frame
send_frame_whole net c h payload fd whole e free =
    let c1 = record c { write_mutex = true } in
    let r = send_locked net h payload c1 in
    let sent = send_locked_whole net c1 h payload whole in
    ((released r).1, ground (arith, sent, released_first r))

-- What the receiver is given for a payload: a pointer to it, or NULL if it is empty.
unfoldable pub payload_pointer : List ℕ → Option (List ℕ)
payload_pointer [] = none
payload_pointer (x ∷ xs) = some (x ∷ xs)

payload_pointer_empty :
    (n : ℕ) (xs : List ℕ) → n ≡ length xs → n ≡ 0 → (payload_pointer xs ≡ none) × (xs ≡ [])
unfolding payload_pointer
payload_pointer_empty n [] e z = (refl, refl)
payload_pointer_empty n (x ∷ xs) e z = absurd (omega arith)

pub payload_pointer-some :
    (n : ℕ) (xs : List ℕ) → n ≡ length xs → 0 < n → payload_pointer xs ≡ some xs
unfolding payload_pointer
payload_pointer-some n [] e h = absurd (omega arith)
payload_pointer-some n (x ∷ xs) e h = refl

-- On an open socket that gives every recv what it asks for, a frame with a length below 2 ^ 24, a
-- stream identifier below 2 ^ 31 and a payload as long as its header says is received as it was
-- sent, an empty payload as a NULL pointer, and what follows it stays in the socket.
pub recv_frame-frame_bytes :
    (net : Net) (c : Connection) (h : FrameHeader) (payload rest : List ℕ) (fd : ℕ)
    → IsWhole net
    → c.socket_fd ≡ some fd
    → h.size < 2 ^ 24
    → h.stream_id < 2 ^ 31
    → h.size ≡ length payload
    → c.socket.inbox ≡ frame_bytes h (some payload) ++ rest
    → let r = recv_frame true net c in
      (r.1 ≡ some (h, payload_pointer payload)) × (r.0.socket.inbox ≡ rest)
unfolding recv_frame recv_payload
recv_frame-frame_bytes net c h payload rest fd whole e small valid size inbox =
    let all_of : take h.size payload ≡ payload =
      ap (λ (t : ℕ). take t payload) size ∙ take-length payload in
    let text : c.socket.inbox ≡ encode_header h ++ (payload ++ rest) =
      inbox
      ∙ append_assoc (encode_header h) (take h.size payload) rest
      ∙ ap (λ (t : List ℕ). encode_header h ++ (t ++ rest)) all_of in
    let s = record c.socket { inbox = payload ++ rest; calls = c.socket.calls + 1 } in
    let kept : ◌≡◌ {A = Option FrameHeader} (some (on_wire h)) (some h) = ground arith in
    let parsed : decode_header (encode_header h) ≡ some h = decode_header-encode_header h ∙ kept in
    ground (
      arith,
      recv_whole net c.socket (encode_header h) (payload ++ rest) 9 whole text
          (unfold encode_header in refl),
      parsed,
      recv_whole net s payload rest h.size whole refl size,
      payload_pointer_empty h.size payload,
      payload_pointer-some h.size payload,
    )
