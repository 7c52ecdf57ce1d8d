-- ===== src/CompletionQueue/Deadline.antt =====
-- grpc_timeout_milliseconds_to_deadline (src/grpc_core.c). What the clock gives to grpc_now is a parameter.
use grpc_c.Common.{ℕ, suc, ◌+◌, ◌-◌, ◌*◌, ◌/◌, ◌%◌, ◌<◌, ◌≡◌, arith, dec_le, leb, if◌then◌else◌}
use grpc_c.Common.Int.{ℤ, pos, negsuc, ◌+ℤ◌, ◌-ℤ◌, int_laws}
use grpc_c.Common.Words.{add_i32, add_i32-exact, sub_i32}

-- grpc_timespec
pub record Timespec : Type 0 where
  pub tv_sec : ℤ
  pub tv_nsec : ℤ

-- grpc_now, where gettimeofday gives `sec` and `usec`.
unfoldable pub now : ℤ → ℕ → Timespec
now sec usec = record { tv_sec = sec; tv_nsec = pos (usec * 1000) }

-- The carry of whole seconds out of tv_nsec.
unfoldable pub carry : Timespec → Timespec
carry ts = elim ts.tv_nsec [
  | pos n ↦
      if leb 1000000000 n
      then record { tv_sec = ts.tv_sec +ℤ pos (n / 1000000000); tv_nsec = pos (n % 1000000000) }
      else ts
  | negsuc n ↦ ts
]

-- Quotient and remainder of the timeout are cut towards 0; tv_nsec is an int32_t.
unfoldable pub to_deadline : Timespec → ℤ → Timespec
unfolding carry
to_deadline now (pos t) = carry (record {
  tv_sec = now.tv_sec +ℤ pos (t / 1000);
  tv_nsec = add_i32 now.tv_nsec (t % 1000 * 1000000);
})
to_deadline now (negsuc t) = carry (record {
  tv_sec = now.tv_sec -ℤ pos (suc t / 1000);
  tv_nsec = sub_i32 now.tv_nsec (suc t % 1000 * 1000000);
})

-- From a time whose nanoseconds are below a second, a timeout that is not negative gives the time
-- that is later by it, exactly, with nanoseconds below a second again: no 32-bit sum wraps.
pub to_deadline-exact :
    (sec : ℤ) (nsec t : ℕ)
    → nsec < 1000000000
    → (s n : ℕ) × (to_deadline (record { tv_sec = sec; tv_nsec = pos nsec }) (pos t)
        ≡ record { tv_sec = sec +ℤ pos s; tv_nsec = pos n })
      × (s * 1000000000 + n ≡ nsec + t * 1000000)
      × (n < 1000000000)
unfolding to_deadline
to_deadline-exact sec nsec t h =
    let total : ℕ = nsec + t % 1000 * 1000000 in
    let exact : add_i32 (pos nsec) (t % 1000 * 1000000) ≡ pos total =
      add_i32-exact nsec (t % 1000 * 1000000) (omega arith) in
    elim (dec_le 1000000000 total) [
      | yes over ↦
          let sum : sec +ℤ pos (t / 1000) +ℤ pos (total / 1000000000) ≡ sec +ℤ pos (t / 1000 + 1) =
            omega int_laws in
          (t / 1000 + 1, total - 1000000000, ground (arith, exact, sum), omega arith, omega arith)
      | no under ↦ (t / 1000, total, ground (arith, exact), omega arith, omega arith)
    ]

-- From the time of the clock, whose microseconds are below a second.
to_deadline-now :
    (sec : ℤ) (usec t : ℕ)
    → usec < 1000000
    → (s n : ℕ) × (to_deadline (now sec usec) (pos t)
        ≡ record { tv_sec = sec +ℤ pos s; tv_nsec = pos n })
      × (s * 1000000000 + n ≡ usec * 1000 + t * 1000000)
      × (n < 1000000000)
unfolding now
to_deadline-now sec usec t h = to_deadline-exact sec (usec * 1000) t (omega (arith, h))

-- For a negative timeout whose part below a second is more than the nanoseconds of the time, the
-- deadline has a negative tv_nsec: nothing is borrowed from its seconds.
to_deadline_negative :
    (sec : ℤ) (nsec t : ℕ)
    → nsec < suc t % 1000 * 1000000
    → to_deadline (record { tv_sec = sec; tv_nsec = pos nsec }) (negsuc t) ≡ record {
      tv_sec = sec -ℤ pos (suc t / 1000);
      tv_nsec = negsuc (suc t % 1000 * 1000000 - nsec - 1);
    }
unfolding to_deadline sub_i32
to_deadline_negative sec nsec t h = ground arith
