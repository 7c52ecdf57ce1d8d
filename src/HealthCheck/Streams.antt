-- ===== src/HealthCheck/Streams.antt =====
-- What a health check does to the streams of the channel (src/enhanced_features.c).
use grpc_c.Common.{
  if◌then◌else◌, ℕ, ◌+◌, ◌^◌, ◌<◌, ◌≡◌, ◌≢◌, refl, sym, ap, ◌∙◌, inl, inr, arith, Option, none,
  some, All, Bool-cases,
}
use grpc_c.Common.Memory.{Alloc}
use grpc_c.Common.Fallible.{Status, success, failure}
use grpc_c.Transport.{returns, ◌>>=◌}
use grpc_c.Channel.{create_call, Channel, Call}
use grpc_c.Channel.Calls.{IsSound, create_call_opens, call_destroy-create_call, destroy_made}
use grpc_c.CompletionQueue.{create}
use grpc_c.CompletionQueue.Deadline.{Timespec}
use grpc_c.HealthCheck.{health_method, finish_check, health_check}

-- Whether the call could be created, which is all that the check looks at.
abbrev pub status_of : Option Call → Status
status_of none = failure
status_of (some call) = success

finish_check-destroy_made :
    (made : Channel × Option Call) (left : Channel)
    → destroy_made made ≡ returns left
    → finish_check made ≡ returns (left, status_of made.1)
unfolding finish_check
finish_check-destroy_made (channel, none) left e = ground (arith, e)
finish_check-destroy_made (channel, some call) left e = rw e refl

-- On a sound connection with identifiers left, where the new stream has an address of its own, a
-- health check returns and leaves the streams of the channel as they were, in their order,
-- whichever of its heap requests fail. It gives 0 just where the queue and the call could be
-- created, whatever the server does.
pub health_check-streams :
    (alloc : Alloc) (k address : ℕ) (channel : Channel) (deadline : Timespec)
    → IsSound channel.connection
    → channel.connection.next_stream_id + 2 < 2 ^ 32
    → All (λ t. t.address ≢ address) channel.connection.streams
    → (opened left : Channel) × (made : Option Call) × (create_call alloc
          (k + 1)
          address
          channel
          (some health_method)
          none
          deadline
        ≡ returns (opened, made))
      × (health_check alloc k address channel deadline
          ≡ (if alloc k then returns (left, status_of made) else returns (channel, failure)))
      × (left.connection.streams ≡ channel.connection.streams)
unfolding health_check create
health_check-streams alloc k address channel deadline sound room fresh =
    let (opened, result, created, _, _) =
      create_call_opens alloc (k + 1) address channel health_method none deadline sound room in
    let (left, destroyed, same) =
      call_destroy-create_call alloc (k + 1) address channel health_method none deadline sound room
        fresh in
    let ended : destroy_made (opened, result) ≡ returns left =
      ap (λ m. m >>= destroy_made) (sym created) ∙ destroyed in
    let checked = finish_check-destroy_made (opened, result) left ended in
    (
      opened,
      left,
      result,
      created,
      (elim (Bool-cases (alloc k)) [
        | inl granted ↦ rw (health_check, granted) (ap (λ m. m >>= finish_check) created ∙ checked)
        | inr refused ↦ rw (health_check, refused) refl
      ]),
      same,
    )
