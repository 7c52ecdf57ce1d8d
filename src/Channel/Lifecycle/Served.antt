-- ===== src/Channel/Lifecycle/Served.antt =====
-- What holds of a channel and its calls, and that creation, cancellation and destruction of calls
-- keep it (src/grpc_channel.c).
use mathlib.Core.Path.{subst}
use mathlib.Core.List.{
  Perm, Mem, Nodup, Nodup-cons, mem-cons_self, perm_middle, Nodup-cons, mem-cons_self, perm_middle,
  map-append,
}
use mathlib.Core.List.Perm
use grpc_c.Common.{
  ℕ, ◌+◌, ◌<◌, ◌^◌, ◌≡◌, ◌≢◌, refl, sym, ap, ◌∙◌, arith, false, Option, none, some, List, [], ◌∷◌,
  ◌++◌, map, All, ◌==◌, Option-cases, Bool-cases, inl, inr,
}
use grpc_c.Common.Distinct.{snoc_perm, absent, All-map, Nodup-snoc}
use grpc_c.Common.Memory.{Alloc}
use grpc_c.Transport.{Stream, Connection, returns, stream_at, lock_streams, unlock_streams}
use grpc_c.Streams.{remove_stream, stream_destroy}
use grpc_c.Streams.Laws.{All-remove_stream, length-remove_stream, remove_stream-perm}
use grpc_c.CompletionQueue.Deadline.{Timespec}
use grpc_c.Channel.{Channel, Call, create_call, cancel, call_destroy}
use grpc_c.Channel.Calls.{Numbered, IsSound, Opened, create_call_opens}
use grpc_c.Channel.Lifecycle.{World, with_result}

abbrev pub place : Stream → Option ℕ
place s = some s.address

-- The connection is sound, its streams are those that the live calls point at, one for each call,
-- and no two of them have an address or an identifier in common.
pub record Served (w : World) : Type 0 where
  pub sound : IsSound w.channel.connection
  pub owned : Perm (map (λ call. call.stream) w.calls) (map place w.channel.connection.streams)
  pub addresses : Nodup (map (λ s. s.address) w.channel.connection.streams)
  pub ids : Nodup (map (λ s. s.id) w.channel.connection.streams)

nowhere : (p : ℕ) (ss : List Stream) → stream_at p ss ≡ none → All (λ s. place s ≢ some p) ss
unfolding stream_at
nowhere p [] h = tt
nowhere p (s ∷ ss) h = (λ e. ground (arith, e, h), nowhere p ss (ground (arith, h)))

stream_at-address :
    (p : ℕ) (ss : List Stream) (s : Stream) → stream_at p ss ≡ some s → s.address ≡ p
unfolding stream_at
stream_at-address p [] s h = cc
stream_at-address p (t ∷ ss) s h = elim (Bool-cases (t.address == p)) [
  | inl hit ↦ ground (arith, hit, h)
  | inr miss ↦ stream_at-address p ss s (ground (arith, miss, h))
]

placed : (ss : List Stream) → All (λ x. x ≢ none) (map place ss)
placed [] = tt
placed (s ∷ ss) = (λ e. cc, placed ss)

found :
    (p : ℕ) (ss : List Stream)
    → Mem (some p) (map place ss)
    → (s : Stream) × (stream_at p ss ≡ some s)
found p ss m = elim (Option-cases (stream_at p ss)) [
  | inl nothing ↦
      absurd (
        absent (some p) (map place ss) (All-map (λ x. x ≢ some p) place ss (nowhere p ss nothing))
          m)
  | inr (s, at) ↦ (s, at)
]

pub serves_with :
    (channel : Channel) (calls : List Call) (ss : List Stream)
    → channel.connection.streams ≡ ss
    → IsSound channel.connection
    → Perm (map (λ call. call.stream) calls) (map place ss)
    → Nodup (map (λ s. s.address) ss)
    → Nodup (map (λ s. s.id) ss)
    → Served (record { channel = channel; calls = calls })
serves_with channel calls ss same sound owned addresses ids = record {
  sound = sound;
  owned =
      subst (λ (l : List Stream). Perm (map (λ call. call.stream) calls) (map place l)) (sym same)
        owned;
  addresses = subst (λ (l : List Stream). Nodup (map (λ s. s.address) l)) (sym same) addresses;
  ids = subst (λ (l : List Stream). Nodup (map (λ s. s.id) l)) (sym same) ids;
}

pub opens_serves :
    (alloc : Alloc) (k address : ℕ) (w : World) (method : List ℕ) (host : Option (List ℕ))
    (deadline : Timespec) (channel : Channel) (result : Option Call)
    → Served w
    → All (λ s. s.address ≢ address) w.channel.connection.streams
    → w.channel.connection.next_stream_id + 2 < 2 ^ 32
    → create_call alloc k address w.channel (some method) host deadline ≡ returns (channel, result)
    → Served (record { channel = channel; calls = with_result result w.calls })
unfolding Opened
opens_serves alloc k address w method host deadline channel result served free room created =
    let ss : List Stream = w.channel.connection.streams in
    let (channel', result', created', sound, effect) =
      create_call_opens alloc k address w.channel method host deadline served.sound room in
    let same : (channel', result') ≡ (channel, result) = cc in
    let serves : Served (record { channel = channel'; calls = with_result result' w.calls }) =
      elim effect [
        | inl (no_call, same_streams, cause) ↦
            subst
              (λ (r : Option Call).
                Served (record { channel = channel'; calls = with_result r w.calls }))
              (sym no_call)
              (serves_with channel' w.calls ss same_streams sound served.owned served.addresses
                served.ids)
        | inr (call, s, some_call, points, at, id, streams, other_ids) ↦
            let pointed : Perm (call.stream ∷ map (λ c. c.stream) w.calls)
                (place s ∷ map place ss) =
              Perm.cons' points served.owned in
            let fresh : All (λ t. t.address ≢ s.address) ss =
              subst (λ (a : ℕ). All (λ t. t.address ≢ a) ss) (sym at) free in
            subst
              (λ (r : Option Call).
                Served (record { channel = channel'; calls = with_result r w.calls }))
              (sym some_call)
              (serves_with channel' (call ∷ w.calls) (ss ++ s ∷ []) streams sound
                (Perm.trans pointed (Perm.map place (Perm.symm (snoc_perm ss s))))
                (Nodup-snoc (λ t. t.address) ss s served.addresses fresh)
                (Nodup-snoc (λ t. t.id) ss s served.ids other_ids))
      ] in
    subst
      (λ (x : Channel × Option Call).
        Served (record { channel = x.0; calls = with_result x.1 w.calls }))
      same serves

pub cancels_serves :
    (w : World) (before : List Call) (call : Call) (after : List Call)
    → Served w
    → w.calls ≡ before ++ call ∷ after
    → Served (record w { calls = before ++ cancel call ∷ after })
unfolding cancel
cancels_serves w before call after served split =
    let same : map (λ c. c.stream) w.calls ≡ map (λ c. c.stream) (before ++ cancel call ∷ after) =
      ap (map (λ c. c.stream)) split
      ∙ map-append (λ c. c.stream) before (call ∷ after)
      ∙ sym (map-append (λ c. c.stream) before (cancel call ∷ after)) in
    record {
      sound = served.sound;
      owned =
          subst (λ (l : List (Option ℕ)). Perm l (map place w.channel.connection.streams)) same
            served.owned;
      addresses = served.addresses;
      ids = served.ids;
    }

-- A call in flight can be destroyed.
pub call_destroy_serves :
    (w : World) (before : List Call) (call : Call) (after : List Call)
    → Served w
    → w.calls ≡ before ++ call ∷ after
    → (channel : Channel) × (call_destroy w.channel call ≡ returns channel)
      × Served (record { channel = channel; calls = before ++ after })
unfolding call_destroy stream_destroy lock_streams unlock_streams Nodup-cons mem-cons_self
call_destroy_serves w before call after served split =
    let ss : List Stream = w.channel.connection.streams in
    let streams_of : List Call → List (Option ℕ) = map (λ c. c.stream) in
    let calls : Perm (call.stream ∷ streams_of (before ++ after)) (map place ss) =
      Perm.trans
        (Perm.symm (
          Perm.map (λ c. c.stream)
            (Perm.trans (subst (Perm w.calls) split (Perm.refl _)) (perm_middle before after))))
        served.owned in
    elim (Option-cases call.stream) [
      | inl nothing ↦ absurd (
          absent none (map place ss) (placed ss) (
            subst (λ (x : Option ℕ). Mem x (map place ss)) nothing
              ((Perm.mem_iff calls).0 mem-cons_self)))
      | inr (p, some_p) ↦
          let (s, at) = found p ss (
            subst (λ (x : Option ℕ). Mem x (map place ss)) some_p
              ((Perm.mem_iff calls).0 mem-cons_self)) in
          let same : s.address ≡ p = stream_at-address p ss s at in
          let rest : List Stream = remove_stream p ss in
          let gone : Perm ss (s ∷ rest) = remove_stream-perm p ss s at in
          let c : Connection = record w.channel.connection {
            streams = rest;
            streams_mutex = false;
          } in
          let channel : Channel = record w.channel { connection = c } in
          let unlocked : w.channel.connection.streams_mutex ≡ false = served.sound.valid.unlocked in
          (
            channel,
            ground (arith, some_p, unlocked),
            serves_with channel (before ++ after) rest refl
                (record {
                  valid = record {
                    within = omega (arith, length-remove_stream p ss, served.sound.valid.within);
                    positive = served.sound.valid.positive;
                    unlocked = refl;
                  };
                  numbered =
                      All-remove_stream (Numbered w.channel.connection.next_stream_id) p ss
                        served.sound.numbered;
                })
                (Perm.cons_inv (
                  Perm.trans (Perm.cons' (ap some same ∙ sym some_p) (Perm.refl _))
                    (Perm.trans calls (Perm.map place gone))))
                ((Nodup-cons.0 (Perm.nodup (Perm.map (λ t. t.address) gone) served.addresses)).1)
                ((Nodup-cons.0 (Perm.nodup (Perm.map (λ t. t.id) gone) served.ids)).1),
          )
    ]
