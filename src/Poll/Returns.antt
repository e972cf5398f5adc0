-- ===== src/Poll/Returns.antt =====
-- A call of `poll` with a time limit returns (src/event_socket_set.cpp).
use libaeon.Prelude.{
  zero, suc, ℕ, ◌+◌, ◌-◌, ◌<◌, ◌≤◌, ◌≡◌, refl, ap, Bool, true, false, List, ℤ, pos, negsuc, ◌==◌,
  leb, arith, Bool-cases, Option-cases, inl, inr, if◌then◌else◌, is_some, leb→lt, length,
}
use Prim.Native.Nat.{◌*◌}
use libaeon.Poll.{Host, Watch, Round, PollDescriptor}
use libaeon.Poll.Wait.{
  interrupted, wait_until, poll_readable, effective_timeout, wait_ready, any_buffered, ns_per_ms,
}
use libaeon.Poll.Timeout.{within, effective_timeout-IsShortest}
use libaeon.Poll.Cycle.{poll, watched_sockets, descriptors_of}

-- What is relied on: time has passed when a native wait is interrupted.
abbrev pub TimePasses : {S : Type 0} → Host S → Type 0
TimePasses {S} host =
    (descriptors : List PollDescriptor) (timeout_ms : ℤ) (s : S)
    → let (polled, s') = host.native_poll descriptors timeout_ms s in
      interrupted host polled.0 s' ≡ true → host.now s < host.now s'

module _ {S : Type 0} (host : Host S) (passes : TimePasses host) where
  wait_until-returns :
      (fuel deadline : ℕ) (remaining : ℤ) (descriptors : List PollDescriptor) (s : S)
      → deadline - host.now s < fuel
      → is_some (wait_until host fuel deadline remaining descriptors s) ≡ true
  unfolding wait_until
  wait_until-returns zero deadline remaining descriptors s enough = absurd (omega arith)
  wait_until-returns (suc fuel) deadline remaining descriptors s enough =
      let out = host.native_poll descriptors remaining s in
      elim (Bool-cases (interrupted host out.0.0 out.1)) [
        | inr calm ↦ rw (calm, wait_until) refl
        | inl again ↦ elim (Bool-cases (leb deadline (host.now out.1))) [
          | inl late ↦ rw (again, late, wait_until) refl
          | inr early ↦
              rw (again, early, wait_until)
                (wait_until-returns fuel deadline _ descriptors out.1 (
                  omega (
                    arith,
                    enough,
                    passes descriptors remaining s again,
                    leb→lt deadline (host.now out.1) early,
                  )))
        ]
      ]

  poll_readable-returns :
      (fuel n : ℕ) (descriptors : List PollDescriptor) (s : S)
      → n * ns_per_ms < fuel
      → is_some (poll_readable host fuel descriptors (pos n) s) ≡ true
  unfolding poll_readable
  poll_readable-returns fuel n descriptors s enough = elim (Bool-cases (length descriptors == 0)) [
    | inl empty ↦ rw (empty, poll_readable) refl
    | inr some_ ↦
        rw (some_, poll_readable)
          (wait_until-returns fuel (host.now s + n * ns_per_ms) (pos n) descriptors s
            (omega (arith, enough)))
  ]

  -- The native wait is within the caller's limit.
  effective_timeout-pos :
      (n : ℕ) (e : ℤ) → within e (pos n) ≡ true → (k : ℕ) × (e ≡ pos k) × (k ≤ n)
  effective_timeout-pos n (pos k) h = (k, refl, ground (arith, h))
  effective_timeout-pos n (negsuc k) h = absurd (ground (arith, h))

  limited-returns :
      (fuel n k : ℕ) (buffered : Bool) (e : ℤ) (descriptors : List PollDescriptor) (s : S)
      → n * ns_per_ms < fuel
      → e ≡ pos k
      → k ≤ n
      → is_some (poll_readable host fuel descriptors (if buffered then pos 0 else e) s) ≡ true
  limited-returns fuel n k true e descriptors s enough same short =
      poll_readable-returns fuel 0 descriptors s (omega (arith, enough))
  limited-returns fuel n k false e descriptors s enough same short =
      rw same (poll_readable-returns fuel k descriptors s (omega (arith, enough, short)))

  wait_ready-returns :
      (fuel n : ℕ) (buffered : Bool) (watched : List Watch) (descriptors : List PollDescriptor)
      (s : S)
      → n * ns_per_ms < fuel
      → is_some (wait_ready host (suc fuel) (pos n) buffered watched descriptors s) ≡ true
  unfolding wait_ready
  wait_ready-returns fuel n buffered watched descriptors s enough =
      let effective = effective_timeout host (pos n) watched s in
      let (k, e, short) =
        effective_timeout-pos n effective
          (effective_timeout-IsShortest host (pos n) watched s refl).1 in
      let returns = limited-returns fuel n k buffered effective descriptors s enough e short in
      elim (Option-cases
        (poll_readable host fuel descriptors (if buffered then pos 0 else effective) s)) [
          | inl never ↦ absurd (ground (arith, returns, ap is_some never))
          | inr (((ready, revents), s'), done) ↦ rw (done, wait_ready) (ground arith)
        ]

  -- With a time limit `poll` returns, whatever signals interrupt its native waits, as long as time
  -- passes: more rounds than the limit has nanoseconds are enough.
  pub poll-returns :
      (fuel n : ℕ) (polling : Bool) (r : Round S)
      → n * ns_per_ms < fuel
      → is_some (poll host (suc fuel) polling (pos n) r) ≡ true
  unfolding poll
  poll-returns fuel n polling r enough =
      let watched = watched_sockets host r.state in
      let buffered = any_buffered host watched r.state in
      let returns =
        wait_ready-returns fuel n buffered watched (descriptors_of host watched r.state) r.state
          enough in
      elim (Option-cases (
        wait_ready host (suc fuel) (pos n) buffered watched (descriptors_of host watched r.state)
          r.state)) [
            | inl never ↦ absurd (ground (arith, returns, ap is_some never))
            | inr (((ready, revents, expired), s), done) ↦ elim (Bool-cases polling) [
              | inl busy ↦ rw (busy, poll) refl
              | inr free ↦ rw (free, done, poll) refl
            ]
          ]
