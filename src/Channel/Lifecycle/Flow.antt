-- ===== src/Channel/Lifecycle/Flow.antt =====
-- The flow control leaves the calls of a channel alone (src/flow_control.c).
use mathlib.Core.Path.{subst}
use mathlib.Core.List.{head-eq_of_cons-eq, tail-eq_of_cons-eq, Perm, Nodup}
use grpc_c.Common.{
  length, length-map, ℕ, ◌≡◌, refl, sym, ap, ◌∙◌, arith, some, List, [], ◌∷◌, map, All,
}
use grpc_c.Transport.{Stream, Connection, returns}
use grpc_c.Streams.Laws.{IsValid}
use grpc_c.FlowControl.Operations.{Operation, operate, operate-Keeps}
use grpc_c.Channel.Calls.{Numbered}
use grpc_c.Channel.Lifecycle.{World}
use grpc_c.Channel.Lifecycle.Served.{Served, place}

map-map :
    {A B C : Type 0} (g : B → C) (f : A → B) (xs : List A)
    → map g (map f xs) ≡ map (λ x. g (f x)) xs
map-map g f [] = refl
map-map g f (x ∷ xs) = ap (◌∷◌ (g (f x))) (map-map g f xs)

Numbered-ids :
    (n : ℕ) (ss ts : List Stream)
    → map (λ s. s.id) ts ≡ map (λ s. s.id) ss
    → All (Numbered n) ss
    → All (Numbered n) ts
Numbered-ids n ss [] e h = tt
Numbered-ids n [] (t ∷ ts) e h = cc
Numbered-ids n (s ∷ ss) (t ∷ ts) e ((below, parity), h) =
    let same : t.id ≡ s.id = head-eq_of_cons-eq e in
    (
      (omega (arith, same, below), omega (arith, same, parity)),
      Numbered-ids n ss ts (tail-eq_of_cons-eq e) h,
    )

-- A call of the flow control.
pub flows_serves :
    (w : World) (op : Operation) (c : Connection)
    → Served w
    → operate op w.channel.connection ≡ returns c
    → Served (record w { channel = record w.channel { connection = c } })
flows_serves w op c served ran =
    let k = operate-Keeps op w.channel.connection c ran in
    let ss : List Stream = w.channel.connection.streams in
    let v : IsValid w.channel.connection = served.sound.valid in
    let many : length c.streams ≡ length ss =
      sym (length-map (λ s. s.id) c.streams) ∙ ap length k.ids ∙ length-map (λ s. s.id) ss in
    let places : map place c.streams ≡ map place ss =
      sym (map-map some (λ s. s.address) c.streams)
      ∙ ap (map some) k.addresses
      ∙ map-map some (λ s. s.address) ss in
    record {
      sound = record {
        valid = record {
          within = omega (arith, many, v.within, k.capacity);
          positive = omega (arith, v.positive, k.capacity);
          unlocked = k.lock ∙ v.unlocked;
        };
        numbered =
            subst (λ (n : ℕ). All (Numbered n) c.streams) (sym k.next_id)
              (Numbered-ids w.channel.connection.next_stream_id ss c.streams k.ids
                served.sound.numbered);
      };
      owned = subst (Perm (map (λ call. call.stream) w.calls)) (sym places) served.owned;
      addresses = subst Nodup (sym k.addresses) served.addresses;
      ids = subst Nodup (sym k.ids) served.ids;
    }
