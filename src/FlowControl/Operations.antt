-- ===== src/FlowControl/Operations.antt =====
-- The functions of the flow control in any order (src/flow_control.c).
use grpc_c.Common.{ℕ, ◌≡◌, arith, List, [], ◌∷◌}
use grpc_c.Transport.{Net, Connection, Run, returns, ◌>>=◌, bind_returns}
use grpc_c.FlowControl.{receive_window_update, can_send, consume_send_window, consume_recv_window}
use grpc_c.FlowControl.Keeps.{Keeps, Keeps-eq, Keeps-trans}
use grpc_c.FlowControl.Keeps.Updates.{
  receive_window_update-Keeps, can_send-Keeps, consume_send_window-Keeps,
}
use grpc_c.FlowControl.Keeps.Receive.{consume_recv_window-Keeps}

-- A call of one of the functions.
pub data Operation : Type 0 where
  receives : (stream_id increment : ℕ) → Operation
  asks : (stream data_len : ℕ) → Operation
  sends : (stream data_len : ℕ) → Operation
  takes : Net → (stream data_len : ℕ) → Operation

-- The connection after it.
unfoldable pub operate : Operation → Connection → Run Connection
operate (receives stream_id increment) c =
    receive_window_update c stream_id increment >>= λ (status, c'). returns c'
operate (asks stream data_len) c = can_send c stream data_len >>= λ (answer, c'). returns c'
operate (sends stream data_len) c =
    consume_send_window c stream data_len >>= λ (status, c'). returns c'
operate (takes net stream data_len) c =
    consume_recv_window net c stream data_len >>= λ (status, c'). returns c'

unfoldable pub operate_all : List Operation → Connection → Run Connection
unfolding operate
operate_all [] c = returns c
operate_all (op ∷ ops) c = operate op c >>= operate_all ops

pub operate-Keeps : (op : Operation) (c c' : Connection) → operate op c ≡ returns c' → Keeps c c'
unfolding operate
operate-Keeps (receives stream_id n) c c' e =
    let ((status, d), ran, same) =
      bind_returns {B = Connection} (receive_window_update c stream_id n) (λ r. returns (r.1)) c'
        e in
    Keeps-trans c d c' (receive_window_update-Keeps c d stream_id n status ran)
      (Keeps-eq d c' (ground (arith, same)))
operate-Keeps (asks p n) c c' e =
    let ((answer, d), ran, same) =
      bind_returns {B = Connection} (can_send c p n) (λ r. returns (r.1)) c' e in
    Keeps-trans c d c' (can_send-Keeps c d p n answer ran) (Keeps-eq d c' (ground (arith, same)))
operate-Keeps (sends p n) c c' e =
    let ((status, d), ran, same) =
      bind_returns {B = Connection} (consume_send_window c p n) (λ r. returns (r.1)) c' e in
    Keeps-trans c d c' (consume_send_window-Keeps c d p n status ran)
      (Keeps-eq d c' (ground (arith, same)))
operate-Keeps (takes net p n) c c' e =
    let ((status, d), ran, same) =
      bind_returns {B = Connection} (consume_recv_window net c p n) (λ r. returns (r.1)) c' e in
    Keeps-trans c d c' (consume_recv_window-Keeps net c d p n status ran)
      (Keeps-eq d c' (ground (arith, same)))

pub operate_all-Keeps :
    (ops : List Operation) (c c' : Connection) → operate_all ops c ≡ returns c' → Keeps c c'
unfolding operate_all
operate_all-Keeps [] c c' e = Keeps-eq c c' (ground (arith, e))
operate_all-Keeps (op ∷ ops) c c' e =
    let (d, ran, rest) = bind_returns (operate op c) (operate_all ops) c' e in
    Keeps-trans c d c' (operate-Keeps op c d ran) (operate_all-Keeps ops d c' rest)
