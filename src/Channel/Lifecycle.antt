-- ===== src/Channel/Lifecycle.antt =====
-- The life of a channel (src/grpc_channel.c): calls that are created, cancelled and destroyed, one
-- after the other, from grpc_channel_create on.
pub mod Served
pub mod Flow
pub mod Destroy
use mathlib.Core.Path.{subst}
use mathlib.Core.List.{
  Pairwise, Perm, Mem, Nodup, Nodup-cons, mem-cons_self, perm_middle, nil≢cons, Nodup-cons,
  mem-cons_self, perm_middle, map-append,
}
use mathlib.Core.List.Perm
use grpc_c.Common.{
  ℕ, ◌+◌, ◌≤◌, ◌<◌, ◌^◌, ◌≡◌, ◌≢◌, refl, sym, ap, ◌∙◌, ◌⊎◌, arith, Bool, true, false, Option, none,
  some, List, [], ◌∷◌, ◌++◌, append-nil, append_assoc, map, All, ◌==◌, if◌then◌else◌, length,
  Option-cases, List-cases, Bool-cases, inl, inr,
}
use grpc_c.Common.Distinct.{snoc_perm, absent, All-map, Nodup-snoc}
use grpc_c.Common.Memory.{Alloc}
use grpc_c.Transport.{
  Stream, Connection, Run, returns, deadlock, ◌>>=◌, stream_at, lock_streams, unlock_streams,
}
use grpc_c.Streams.{remove_stream, stream_destroy}
use grpc_c.Streams.Laws.{
  IsValid, All-remove_stream, length-remove_stream, remove_stream-perm, connection_destroy_ends,
}
use grpc_c.FlowControl.Operations.{Operation, operate}
use grpc_c.CompletionQueue.Deadline.{Timespec}
use grpc_c.Channel.{
  Channel, Call, channel_create, channel_destroy, create_call, cancel, call_destroy,
}
use grpc_c.Channel.Calls.{Numbered, IsSound, Opened, channel_create-IsSound, create_call_opens}

-- The channel and its calls that were created and not yet destroyed, in any order.
pub record World : Type 0 where
  pub channel : Channel
  pub calls : List Call

abbrev pub with_result : Option Call → List Call → List Call
with_result none calls = calls
with_result (some call) calls = call ∷ calls

infix 40 ◌⟶◌ ◌⟶*◌
-- A call of the library that returns, one of the flow control on a stream or the connection among
-- them. A new stream is put where none of the others is, and the
-- identifiers have not run out.
pub data ◌⟶◌ : World → World → Type 0 where
  opens :
      {w : World} {channel : Channel} {result : Option Call} (alloc : Alloc) (k address : ℕ)
      (method : List ℕ) (host : Option (List ℕ)) (deadline : Timespec)
      → All (λ s. s.address ≢ address) w.channel.connection.streams
      → w.channel.connection.next_stream_id + 2 < 2 ^ 32
      → create_call alloc k address w.channel (some method) host deadline
        ≡ returns (channel, result)
      → w ⟶ record { channel = channel; calls = with_result result w.calls }
  cancels :
      {w : World} (before : List Call) (call : Call) (after : List Call)
      → w.calls ≡ before ++ call ∷ after
      → w ⟶ record w { calls = before ++ cancel call ∷ after }
  destroys :
      {w : World} {channel : Channel} (before : List Call) (call : Call) (after : List Call)
      → w.calls ≡ before ++ call ∷ after
      → call_destroy w.channel call ≡ returns channel
      → w ⟶ record { channel = channel; calls = before ++ after }
  flows :
      {w : World} {c : Connection} (op : Operation)
      → operate op w.channel.connection ≡ returns c
      → w ⟶ record w { channel = record w.channel { connection = c } }

pub data ◌⟶*◌ : World → World → Type 0 where
  here : {w : World} → w ⟶* w
  later : {u v w : World} → u ⟶* v → v ⟶ w → u ⟶* w
