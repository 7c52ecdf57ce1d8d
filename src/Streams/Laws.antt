-- ===== src/Streams/Laws.antt =====
-- What the life of streams does to a connection.
use mathlib.Core.List.{Perm}
use mathlib.Core.List.Perm
use mathlib.Core.Path.{subst}
use grpc_c.Common.{
  ℕ, suc, All, List-cases, ◌+◌, ◌≤◌, ◌<◌, ◌≡◌, refl, ap, ◌⊎◌, arith, Bool, true, false, Option,
  none, some, List, [], ◌∷◌, ◌++◌, length, length-append, ◌==◌, if◌then◌else◌, Option-cases,
  Bool-cases, inl, inr,
}
use grpc_c.Common.Int.{pos}
use grpc_c.Common.Memory.{Alloc}
use grpc_c.Transport.{Stream, Connection, returns, deadlock, stream_at}
use grpc_c.FlowControl.{init_stream}
use grpc_c.Streams.{
  blank_stream, streams_full, reserve, stream_create, last_or, but_last, swap_out, remove_stream,
  stream_destroy, connection_destroy, connection_create,
}

-- The array has room for its streams, and doubling enlarges it; no lock is held.
pub record IsValid (c : Connection) : Type 0 where
  pub within : length c.streams ≤ c.streams_capacity
  pub positive : 0 < c.streams_capacity
  pub unlocked : c.streams_mutex ≡ false

-- A new connection is valid, has the default windows and no streams, and numbers its streams from
-- 1 on a client and from 2 on a server; it is made exactly if both heap requests succeed.
pub connection_create_effect :
    (alloc : Alloc) (k : ℕ) (is_client : Bool) (c : Connection)
    → connection_create alloc k is_client ≡ some c
    → IsValid c
      × (c.streams ≡ [])
      × (c.local_window_size ≡ pos 65535)
      × (c.remote_window_size ≡ pos 65535)
      × (c.next_stream_id ≡ (if is_client then 1 else 2))
      × (alloc k ≡ true)
      × (alloc (k + 1) ≡ true)
unfolding connection_create
connection_create_effect alloc k is_client c e = ground arith

last_first : (x : Stream) (xs : List Stream) → Perm (last_or x xs ∷ but_last x xs) (x ∷ xs)
unfolding last_or but_last
last_first x [] = Perm.refl _
last_first x (y ∷ ys) =
    Perm.trans (Perm.swap x (last_or y ys) (but_last y ys)) (Perm.cons x (last_first y ys))

swap_out-perm : (ss : List Stream) → Perm (swap_out ss) ss
unfolding swap_out
swap_out-perm [] = Perm.nil
swap_out-perm (x ∷ xs) = last_first x xs

pub remove_stream-perm :
    (p : ℕ) (ss : List Stream) (s : Stream)
    → stream_at p ss ≡ some s
    → Perm ss (s ∷ remove_stream p ss)
unfolding stream_at remove_stream
remove_stream-perm p [] s e = cc
remove_stream-perm p (x ∷ ss) s e = elim (Bool-cases (x.address == p)) [
  | inl hit ↦ rw hit (Perm.cons' (ground arith) (Perm.symm (swap_out-perm ss)))
  | inr miss ↦
      rw miss
        (Perm.trans (Perm.cons x (remove_stream-perm p ss s (ground arith))) (Perm.swap s x _))
]

-- Every stream that stays was there before.
All-last :
    (P : Stream → Type 0) (x : Stream) (xs : List Stream)
    → All P (x ∷ xs)
    → All P (last_or x xs ∷ but_last x xs)
unfolding last_or but_last
All-last P x [] h = h
All-last P x (y ∷ ys) (first, h) = let (last, most) = All-last P y ys h in (last, (first, most))

pub All-remove_stream :
    (P : Stream → Type 0) (p : ℕ) (ss : List Stream) → All P ss → All P (remove_stream p ss)
unfolding remove_stream swap_out
All-remove_stream P p [] h = tt
All-remove_stream P p (x ∷ ss) (first, h) = elim (Bool-cases (x.address == p)) [
  | inr miss ↦ rw miss (first, All-remove_stream P p ss h)
  | inl hit ↦ elim (List-cases ss) [
    | inl nothing ↦ rw (hit, nothing) tt
    | inr (y, ys, some_more) ↦ rw (hit, some_more) (All-last P y ys (subst (All P) some_more h))
  ]
]

length-but_last : (x : Stream) (xs : List Stream) → length (but_last x xs) ≡ length xs
unfolding but_last
length-but_last x [] = refl
length-but_last x (y ∷ ys) = ap suc (length-but_last y ys)

pub length-remove_stream : (p : ℕ) (ss : List Stream) → length (remove_stream p ss) ≤ length ss
unfolding remove_stream swap_out
length-remove_stream p [] = omega arith
length-remove_stream p (x ∷ []) = ground arith
length-remove_stream p (x ∷ y ∷ ys) =
    ground (arith, length-but_last y ys, length-remove_stream p (y ∷ ys))

-- With the streams lock free, destroying a stream of the connection takes that one out of the
-- array and keeps all others, though not their order; the lock is free again.
pub stream_destroy_perm :
    (p : ℕ) (c : Connection) (s : Stream)
    → c.streams_mutex ≡ false
    → stream_at p c.streams ≡ some s
    → (c' : Connection) × (stream_destroy p c ≡ returns c')
      × Perm c.streams (s ∷ c'.streams)
      × (c'.streams_mutex ≡ false)
unfolding stream_destroy
stream_destroy_perm p c s free at = (
  record c { streams = remove_stream p c.streams },
  ground arith,
  remove_stream-perm p c.streams s at,
  free,
)

reserve_effect :
    (ok : Bool) (c d : Connection)
    → length c.streams ≤ c.streams_capacity
    → 0 < c.streams_capacity
    → reserve ok c ≡ some d
    → (d ≡ record c { streams_capacity = d.streams_capacity })
      × (length c.streams < d.streams_capacity)
unfolding reserve
reserve_effect ok c d within positive e = ground arith

reserve_refused :
    (ok : Bool) (c : Connection) → reserve ok c ≡ none → (streams_full c ≡ true) × (ok ≡ false)
unfolding reserve
reserve_refused ok c e = ground arith

-- The heap request for a stream is refused, or the array is full and the one to enlarge it is.
abbrev pub Refused : Alloc → ℕ → Connection → Type 0
Refused alloc k c = (alloc k ≡ false) ⊎ ((streams_full c ≡ true) × (alloc (k + 1) ≡ false))

abbrev pub Made : Alloc → ℕ → Connection → ℕ → ℕ → Connection → Option Stream → Type 0
Made alloc k c address stream_id c' made =
    ((made ≡ none) × (c' ≡ c) × Refused alloc k c)
    ⊎ ((s : Stream) × (made ≡ some s)
        × (c'.streams ≡ c.streams ++ s ∷ [])
        × (s.address ≡ address)
        × (s.id ≡ stream_id)
        × (s.local_window_size ≡ pos 65535)
        × (s.remote_window_size ≡ pos 65535))

-- A new stream goes behind the others with the default windows, and the array stays valid; or a heap
-- request failed, and nothing changed.
pub stream_create_effect :
    (alloc : Alloc) (k address stream_id : ℕ) (c : Connection)
    → IsValid c
    → (c' : Connection) × (made : Option Stream) × (stream_create alloc k address c stream_id
        ≡ returns (c', made))
      × IsValid c'
      × Made alloc k c address stream_id c' made
unfolding stream_create
stream_create_effect alloc k address stream_id c v =
    let held = record c { streams_mutex = true } in
    let s = init_stream (blank_stream address stream_id) in
    elim (Bool-cases (alloc k)) [
      | inr bad ↦ (c, none, ground arith, v, inl (refl, refl, inl bad))
      | inl ok ↦ elim (Option-cases (reserve (alloc (k + 1)) held)) [
        | inl full ↦ (
          c,
          none,
          ground (arith, v.unlocked),
          v,
          inl (refl, refl, inr (reserve_refused (alloc (k + 1)) held full)),
        )
        | inr (d, room) ↦
            let (kept, more) = reserve_effect (alloc (k + 1)) held d v.within v.positive room in
            let kept_streams : d.streams ≡ c.streams = ap (λ (x : Connection). x.streams) kept in
            (
              record d { streams = d.streams ++ s ∷ []; streams_mutex = false },
              some s,
              ground (arith, v.unlocked),
              record {
                within = omega (arith, length-append d.streams (s ∷ []), ap length kept_streams);
                positive = omega arith;
                unlocked = refl;
              },
              inr (
                s,
                refl,
                ap (λ (l : List Stream). l ++ s ∷ []) kept_streams,
                refl,
                refl,
                refl,
                refl,
              ),
            )
      ]
    ]

connection_destroy_streams :
    (c : Connection) (ss : List Stream)
    → c.streams ≡ ss
    → c.streams_mutex ≡ false
    → connection_destroy c ≡ elim ss [ [] ↦ returns c | s ∷ rest ↦ deadlock ]
unfolding connection_destroy
connection_destroy_streams c [] e free = ground arith
connection_destroy_streams c (s ∷ ss) e free = ground arith

-- With its streams lock free, a connection with a stream cannot be destroyed: the loop calls
-- http2_stream_destroy, which takes the lock on the streams that the loop holds. Without streams
-- it is destroyed.
pub connection_destroy_ends :
    (c : Connection)
    → c.streams_mutex ≡ false
    → connection_destroy c ≡ elim c.streams [ [] ↦ returns c | s ∷ ss ↦ deadlock ]
connection_destroy_ends c free = connection_destroy_streams c c.streams refl free
