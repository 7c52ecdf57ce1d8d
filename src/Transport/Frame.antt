-- ===== src/Transport/Frame.antt =====
-- The nine bytes of a frame header, and http2_connection_send_frame and http2_connection_recv_frame.
pub mod Codec
pub mod Send
pub mod Receive
use grpc_c.Common.{
  ℕ, ◌+◌, ◌*◌, ◌/◌, ◌^◌, Bool, true, false, Option, none, some, List, [], ◌∷◌, ◌++◌, length, take,
  drop, ltb, ◌==◌, if◌then◌else◌,
}
use Prim.Native.Nat.{min}
use grpc_c.Common.Bits.{bit_and, bit_or}
use grpc_c.Common.Fallible.{Status, success, failure}
use grpc_c.Transport.{
  Net, Socket, Connection, Run, returns, deadlock, ◌>>=◌, lock_write, unlock_write,
}

pub record FrameHeader : Type 0 where
  pub size : ℕ
  pub kind : ℕ
  pub flags : ℕ
  pub stream_id : ℕ

-- x >> k
abbrev shr : ℕ → ℕ → ℕ
shr x k = x / 2 ^ k

-- x << k
abbrev shl : ℕ → ℕ → ℕ
shl x k = x * 2 ^ k

unfoldable pub encode_header : FrameHeader → List ℕ
encode_header h =
    bit_and (shr h.size 16) 0xff
    ∷ bit_and (shr h.size 8) 0xff
    ∷ bit_and h.size 0xff
    ∷ h.kind
    ∷ h.flags
    ∷ bit_and (shr h.stream_id 24) 0x7f
    ∷ bit_and (shr h.stream_id 16) 0xff
    ∷ bit_and (shr h.stream_id 8) 0xff
    ∷ bit_and h.stream_id 0xff
    ∷ []

unfoldable pub decode_header : List ℕ → Option FrameHeader
decode_header (b0 ∷ b1 ∷ b2 ∷ b3 ∷ b4 ∷ b5 ∷ b6 ∷ b7 ∷ b8 ∷ []) = some (record {
  size = bit_or (bit_or (shl b0 16) (shl b1 8)) b2;
  kind = b3;
  flags = b4;
  stream_id = bit_or (bit_or (bit_or (shl (bit_and b5 0x7f) 24) (shl b6 16)) (shl b7 8)) b8;
})
decode_header bytes = none

-- send(fd, buffer, ...): the socket after it, and whether all bytes were taken.
unfoldable pub send : Net → Socket → List ℕ → Socket × Bool
send net s bytes = elim (net s.calls (length bytes)) [
  | none ↦ (record s { calls = s.calls + 1 }, false)
  | some n ↦
      (record s { written = s.written ++ take n bytes; calls = s.calls + 1 }, n == length bytes)
]

send_payload : Net → Connection → FrameHeader → Option (List ℕ) → Status × Connection
unfolding send
send_payload net c h none = (success, c)
send_payload net c h (some payload) =
    if ltb 0 h.size
    then (let (s, all) = send net c.socket (take h.size payload) in
        (if all then success else failure, record c { socket = s }))
    else (success, c)

-- Under the lock: the header, then the payload if there is one.
send_locked : Net → FrameHeader → Option (List ℕ) → Connection → Status × Connection
unfolding send send_payload encode_header
send_locked net h payload c =
    let (s, all) = send net c.socket (encode_header h) in
    if all
    then send_payload net (record c { socket = s }) h payload
    else (failure, record c { socket = s })

released : Status × Connection → Status × Connection
unfolding unlock_write
released (status, c) = (status, unlock_write c)

unfoldable pub send_frame :
    Net → Connection → FrameHeader → Option (List ℕ) → Run (Status × Connection)
unfolding lock_write send_locked released
send_frame net c h payload = elim c.socket_fd [
  | none ↦ returns (failure, c)
  | some fd ↦ lock_write c >>= λ held. returns (released (send_locked net h payload held))
]

-- recv(fd, buffer, n, MSG_WAITALL): what was read, `none` on an error or if it is less than `n`.
unfoldable pub recv : Net → Socket → ℕ → Socket × Option (List ℕ)
recv net s n = elim (net s.calls n) [
  | none ↦ (record s { calls = s.calls + 1 }, none)
  | some m ↦
      let got = take (min m n) s.inbox in
      (
        record s { inbox = drop (min m n) s.inbox; calls = s.calls + 1 },
        if length got == n then some got else none,
      )
]

-- The payload behind the pointer of the caller, `none` for NULL; `ok` if the malloc succeeds.
recv_payload :
    Bool → Net → Connection → FrameHeader → Connection × Option (FrameHeader × Option (List ℕ))
unfolding recv
recv_payload ok net c h =
    if ltb 0 h.size
    then (if ok
        then (let (s, got) = recv net c.socket h.size in
            (record c { socket = s }, elim got [ none ↦ none | some bytes ↦ some (h, some bytes) ]))
        else (c, none))
    else (c, some (h, none))

-- The header and its payload.
unfoldable pub recv_frame :
    Bool → Net → Connection → Connection × Option (FrameHeader × Option (List ℕ))
unfolding recv recv_payload decode_header
recv_frame ok net c = elim c.socket_fd [
  | none ↦ (c, none)
  | some fd ↦
      let (s, got) = recv net c.socket 9 in
      let c' = record c { socket = s } in
      elim got [
        | none ↦ (c', none)
        | some bytes ↦ elim (decode_header bytes) [
          | none ↦ (c', none)
          | some h ↦ recv_payload ok net c' h
        ]
      ]
]
