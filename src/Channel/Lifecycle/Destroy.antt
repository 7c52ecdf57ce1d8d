-- ===== src/Channel/Lifecycle/Destroy.antt =====
-- What a channel can do after any sequence of calls (src/grpc_channel.c).
use mathlib.Core.Path.{subst}
use mathlib.Core.List.{Pairwise, Perm, nil≢cons}
use mathlib.Core.List.Perm
use grpc_c.Common.{
  ℕ, ◌≡◌, refl, sym, ◌∙◌, arith, Option, some, List, [], ◌∷◌, ◌++◌, append_assoc, map, All,
  List-cases, inl, inr,
}
use grpc_c.Common.Memory.{Alloc}
use grpc_c.Transport.{Stream, returns, deadlock}
use grpc_c.Streams.Laws.{connection_destroy_ends}
use grpc_c.Channel.{Channel, Call, channel_create, channel_destroy, call_destroy}
use grpc_c.Channel.Calls.{channel_create-IsSound}
use grpc_c.Channel.Lifecycle.{World, ◌⟶◌, ◌⟶*◌, opens, cancels, destroys, flows, here, later}
use grpc_c.Channel.Lifecycle.Flow.{flows_serves}
use grpc_c.Channel.Lifecycle.Served.{
  Served, place, serves_with, opens_serves, cancels_serves, call_destroy_serves,
}

step_serves : {v w : World} → v ⟶ w → Served v → Served w
step_serves (opens {w} {channel} {result} alloc k address method host deadline free room created)
      served =
    opens_serves alloc k address w method host deadline channel result served free room created
step_serves (cancels {w} before call after split) served =
    cancels_serves w before call after served split
step_serves (destroys {w} {channel} before call after split destroyed) served =
    let (channel', returned, serves) = call_destroy_serves w before call after served split in
    let same : channel' ≡ channel = cc in
    subst (λ (c : Channel). Served (record { channel = c; calls = before ++ after })) same serves
step_serves (flows {w} {c} op ran) served = flows_serves w op c served ran

runs_serve : {v w : World} → v ⟶* w → Served v → Served w
runs_serve here served = served
runs_serve (later runs step) served = step_serves step (runs_serve runs served)

new_serves :
    (alloc : Alloc) (k : ℕ) (target : List ℕ) (creds args : Option ℕ) (channel : Channel)
    → channel_create alloc k (some target) creds args ≡ some channel
    → Served (record { channel = channel; calls = [] })
new_serves alloc k target creds args channel made =
    let (sound, none_yet, same) = channel_create-IsSound alloc k target creds args channel made in
    serves_with channel [] [] none_yet sound (Perm.refl []) Pairwise.nil Pairwise.nil

both :
    (w : World) (calls : List Call) (ss : List Stream)
    → Served w
    → w.calls ≡ calls
    → w.channel.connection.streams ≡ ss
    → Perm (map (λ c. c.stream) calls) (map place ss)
both w calls ss served e f =
    subst (λ (l : List Stream). Perm (map (λ c. c.stream) calls) (map place l)) f
      (subst
        (λ (l : List Call). Perm (map (λ c. c.stream) l) (map place w.channel.connection.streams)) e
        served.owned)

-- The channel of such a world can be destroyed just when no call is left.
channel_destroy_serves :
    (w : World)
    → Served w
    → channel_destroy w.channel
      ≡ elim w.calls [ [] ↦ returns w.channel.connection | call ∷ others ↦ deadlock ]
unfolding channel_destroy
channel_destroy_serves w served =
    let ends = connection_destroy_ends w.channel.connection served.sound.valid.unlocked in
    elim (List-cases w.calls) [
      | inl no_calls ↦ elim (List-cases w.channel.connection.streams) [
        | inl no_streams ↦ ground (arith, ends, no_calls, no_streams)
        | inr (s, ss, streams) ↦
            absurd (nil≢cons (Perm.nil-eq (both w [] (s ∷ ss) served no_calls streams)))
      ]
      | inr (call, others, calls) ↦ elim (List-cases w.channel.connection.streams) [
        | inl no_streams ↦
            absurd
              (nil≢cons (sym (Perm.eq-nil (both w (call ∷ others) [] served calls no_streams))))
        | inr (s, ss, streams) ↦ ground (arith, ends, calls, streams)
      ]
    ]

all_destroyable :
    (w : World) (before after : List Call)
    → Served w
    → w.calls ≡ before ++ after
    → All (λ call. (rest : Channel) × (call_destroy w.channel call ≡ returns rest)) after
all_destroyable w before [] served split = tt
all_destroyable w before (call ∷ after) served split =
    let (rest, destroyed, serves) = call_destroy_serves w before call after served split in
    (
      (rest, destroyed),
      all_destroyable w (before ++ call ∷ []) after served
          (split ∙ sym (append_assoc before (call ∷ []) after)),
    )

-- From its creation on, through any sequence of calls that are created, where a new stream is put
-- where none of the others is and identifiers are left, cancelled and destroyed, with calls of the
-- flow control that return between them: the connection of a channel is sound, its streams are those that the calls not yet destroyed point at, one for
-- each, with no address and no identifier twice; each of these calls can be destroyed, which
-- returns; and the channel can be destroyed just when there is no such call, for otherwise its
-- destruction waits for ever.
pub ⟶*-channel_destroy :
    (alloc : Alloc) (k : ℕ) (target : List ℕ) (creds args : Option ℕ) (channel : Channel)
    (w : World)
    → channel_create alloc k (some target) creds args ≡ some channel
    → record { channel = channel; calls = [] } ⟶* w
    → Served w
      × All (λ call. (rest : Channel) × (call_destroy w.channel call ≡ returns rest)) w.calls
      × (channel_destroy w.channel
          ≡ elim w.calls [ [] ↦ returns w.channel.connection | call ∷ others ↦ deadlock ])
⟶*-channel_destroy alloc k target creds args channel w made runs =
    let served = runs_serve runs (new_serves alloc k target creds args channel made) in
    (served, all_destroyable w [] w.calls served refl, channel_destroy_serves w served)
