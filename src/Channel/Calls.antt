-- ===== src/Channel/Calls.antt =====
-- The streams of a channel over the creation and the destruction of calls (src/grpc_channel.c).
use mathlib.Core.Path.{subst}
use grpc_c.Common.{
  All-snoc, ℕ, ◌+◌, ◌%◌, ◌^◌, ◌<◌, ◌≡◌, ◌≢◌, refl, ap, sym, ◌∙◌, ◌⊎◌, arith, true, false, Option,
  none, some, List, [], ◌∷◌, ◌++◌, All, Option-cases, Bool-cases, inl, inr,
}
use grpc_c.Common.Memory.{Alloc}
use grpc_c.Transport.{Stream, Connection, Run, returns, ◌>>=◌}
use grpc_c.Streams.{stream_create, remove_stream, connection_create}
use grpc_c.Streams.Laws.{IsValid, Refused, stream_create_effect, connection_create_effect}
use grpc_c.CompletionQueue.{next}
use grpc_c.CompletionQueue.Deadline.{Timespec}
use grpc_c.Channel.{
  Channel, Call, channel_create, create_call, finish_call, take_stream_id, copy_string,
  after_strings, call_destroy,
}

-- A stream may have an identifier below the next one, of the same parity.
abbrev pub Numbered : ℕ → Stream → Type 0
Numbered next s = (s.id < next) × (s.id % 2 ≡ next % 2)

-- The array of streams is valid, and every stream in it is numbered.
pub record IsSound (c : Connection) : Type 0 where
  pub valid : IsValid c
  pub numbered : All (Numbered c.next_stream_id) c.streams

stream_create-next_stream_id :
    (alloc : Alloc) (k address stream_id : ℕ) (c c' : Connection) (made : Option Stream)
    → stream_create alloc k address c stream_id ≡ returns (c', made)
    → c'.next_stream_id ≡ c.next_stream_id
unfolding stream_create
stream_create-next_stream_id alloc k address stream_id c c' made h = ground (arith, h)

Numbered-later : (n : ℕ) (ss : List Stream) → All (Numbered n) ss → All (Numbered (n + 2)) ss
Numbered-later n [] h = tt
Numbered-later n (s ∷ ss) ((below, even), h) =
    ((omega (arith, below), omega (arith, even)), Numbered-later n ss h)

Numbered-differ : (n : ℕ) (ss : List Stream) → All (Numbered n) ss → All (λ s. s.id ≢ n) ss
Numbered-differ n [] h = tt
Numbered-differ n (s ∷ ss) ((below, even), h) =
    (λ e. omega (arith, below, e), Numbered-differ n ss h)

-- The connection of a new channel.
pub channel_create-IsSound :
    (alloc : Alloc) (k : ℕ) (target : List ℕ) (creds args : Option ℕ) (channel : Channel)
    → channel_create alloc k (some target) creds args ≡ some channel
    → IsSound channel.connection × (channel.connection.streams ≡ []) × (channel.target ≡ target)
unfolding channel_create
channel_create-IsSound alloc k target creds args channel h =
    elim (Option-cases (connection_create alloc (k + 2) true)) [
      | inl failed ↦ absurd (ground (arith, failed, h))
      | inr (c, made) ↦
          let effect = connection_create_effect alloc (k + 2) true c made in
          let same : channel.connection ≡ c = ground (arith, made, h) in
          let none_yet : channel.connection.streams ≡ [] =
            ap (λ (x : Connection). x.streams) same ∙ effect.1 in
          (
            record {
              valid = subst IsValid (sym same) effect.0;
              numbered = subst (All (Numbered channel.connection.next_stream_id)) (sym none_yet) tt;
            },
            none_yet,
            ground (arith, made, h),
          )
    ]

-- What the creation of a call at an address does to a channel. It fails where the heap request for
-- the call, for its stream or for the room of the stream in the array is refused.
unfoldable pub Opened : Alloc → ℕ → Option (List ℕ) → Channel → ℕ → Channel → Option Call → Type 0
Opened alloc k host channel address channel' result =
    ((result ≡ none)
      × (channel'.connection.streams ≡ channel.connection.streams)
      × ((alloc k ≡ false) ⊎ Refused alloc (after_strings k host) channel.connection))
    ⊎ ((call : Call) × (s : Stream) × (result ≡ some call)
        × (call.stream ≡ some s.address)
        × (s.address ≡ address)
        × (s.id ≡ channel.connection.next_stream_id)
        × (channel'.connection.streams ≡ channel.connection.streams ++ s ∷ [])
        × All (λ t. t.id ≢ s.id) channel.connection.streams)

-- While the identifiers last, a call is created on a sound connection, which stays sound. If it is
-- not, the heap request for the call or for its stream is refused, or the array of the streams is
-- full and the request to enlarge it is refused, and the streams are as they were. The call has a new stream behind the others,
-- whose identifier no other stream has.
pub create_call_opens :
    (alloc : Alloc) (k address : ℕ) (channel : Channel) (method : List ℕ) (host : Option (List ℕ))
    (deadline : Timespec)
    → IsSound channel.connection
    → channel.connection.next_stream_id + 2 < 2 ^ 32
    → (channel' : Channel) × (result : Option Call) × (create_call alloc k address channel
          (some method)
          host
          deadline
        ≡ returns (channel', result))
      × IsSound channel'.connection
      × Opened alloc k host channel address channel' result
unfolding create_call Opened take_stream_id finish_call
create_call_opens alloc k address channel method host deadline v room =
    let c : Connection = channel.connection in
    let n : ℕ = c.next_stream_id in
    let d : Connection = take_stream_id c in
    let moved : d.next_stream_id ≡ n + 2 = omega (arith, room) in
    let d_valid : IsValid d = record {
      within = v.valid.within;
      positive = v.valid.positive;
      unlocked = v.valid.unlocked;
    } in
    let later : All (Numbered (n + 2)) c.streams = Numbered-later n c.streams v.numbered in
    elim (Bool-cases (alloc k)) [
      | inr refused ↦ (channel, none, ground (arith, refused), v, inl (refl, refl, inl refused))
      | inl granted ↦
          let (c', made, created, valid, effect) =
            stream_create_effect alloc (after_strings k host) address n d d_valid in
          let same_next : c'.next_stream_id ≡ n + 2 =
            stream_create-next_stream_id alloc (after_strings k host) address n d c' made created
            ∙ moved in
          elim effect [
            | inl (none_made, same, cause) ↦
                let sound : IsSound d = record {
                  valid = d_valid;
                  numbered = subst (λ (t : ℕ). All (Numbered t) c.streams) (sym moved) later;
                } in
                (
                  record channel { connection = c' },
                  none,
                  ground (arith, granted, created, none_made),
                  subst IsSound (sym same) sound,
                  inl (refl, ap (λ (x : Connection). x.streams) same, inr cause),
                )
            | inr (s, some_made, streams, at, id, w1, w2) ↦
                let call : Call = record {
                  stream = some s.address;
                  method = copy_string (alloc (k + 1)) (some method);
                  host = copy_string (alloc (k + 2)) host;
                  deadline = deadline;
                  status = 0;
                  cancelled = false;
                } in
                let base : All (Numbered (n + 2)) (c.streams ++ s ∷ []) =
                  All-snoc (Numbered (n + 2)) c.streams later
                    (omega (arith, id), omega (arith, id)) in
                let all : All (Numbered c'.next_stream_id) (c.streams ++ s ∷ []) =
                  subst (λ (t : ℕ). All (Numbered t) (c.streams ++ s ∷ [])) (sym same_next) base in
                (
                  record channel { connection = c' },
                  some call,
                  ground (arith, granted, created, some_made),
                  record {
                    valid = valid;
                    numbered = subst (All (Numbered c'.next_stream_id)) (sym streams) all;
                  },
                  inr (
                    call,
                    s,
                    refl,
                    refl,
                    at,
                    id,
                    streams,
                    subst (λ (t : ℕ). All (λ x. x.id ≢ t) c.streams) (sym id)
                        (Numbered-differ n c.streams v.numbered),
                  ),
                )
          ]
    ]

remove_last :
    (p : ℕ) (ss : List Stream) (s : Stream)
    → All (λ t. t.address ≢ p) ss
    → s.address ≡ p
    → remove_stream p (ss ++ s ∷ []) ≡ ss
unfolding remove_stream
remove_last p [] s h at = ground (arith, at)
remove_last p (x ∷ xs) s (differs, h) at = ground (arith, differs, remove_last p xs s h at)

-- To create a call and destroy it again, if it was created.
abbrev pub destroy_made : Channel × Option Call → Run Channel
destroy_made (channel, none) = returns channel
destroy_made (channel, some call) = call_destroy channel call

-- A call that is created at a new address on a sound connection and then destroyed leaves the
-- streams as they were, in their order. Neither step waits for a lock, and the same holds if
-- memory is refused.
pub call_destroy-create_call :
    (alloc : Alloc) (k address : ℕ) (channel : Channel) (method : List ℕ) (host : Option (List ℕ))
    (deadline : Timespec)
    → IsSound channel.connection
    → channel.connection.next_stream_id + 2 < 2 ^ 32
    → All (λ t. t.address ≢ address) channel.connection.streams
    → (channel' : Channel) × ((create_call alloc k address channel (some method) host deadline
          >>= destroy_made)
        ≡ returns channel')
      × (channel'.connection.streams ≡ channel.connection.streams)
unfolding call_destroy Opened
call_destroy-create_call alloc k address channel method host deadline v room fresh =
    let (opened, result, created, sound, effect) =
      create_call_opens alloc k address channel method host deadline v room in
    let unlocked : opened.connection.streams_mutex ≡ false = sound.valid.unlocked in
    elim effect [
      | inl (none_made, same, cause) ↦ (opened, ground (arith, created, none_made), same)
      | inr (call, s, made, stream, at, id, streams, differ) ↦
          let gone : remove_stream s.address opened.connection.streams
              ≡ channel.connection.streams =
            ap (remove_stream s.address) streams
            ∙ remove_last s.address channel.connection.streams s
                (subst (λ (t : ℕ). All (λ x. x.address ≢ t) channel.connection.streams) (sym at)
                  fresh)
                refl in
          let closed : Channel = record opened {
            connection = record opened.connection {
              streams = channel.connection.streams;
              streams_mutex = false;
            };
          } in
          (closed, ground (arith, created, made, stream, unlocked, gone), refl)
    ]
