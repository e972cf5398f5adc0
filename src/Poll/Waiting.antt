-- ===== src/Poll/Waiting.antt =====
-- The waits of a call of `poll` (src/event_socket_set.cpp, `for (;;)`), as a relation.
use libaeon.Prelude.{
  ℕ, ◌≡◌, Bool, true, false, not, ◌||◌, some, List, ℤ, pos, ◌==ℤ◌, is_neg, is_zero,
}
use libaeon.Platform.{Readiness}
use libaeon.Poll.{Host, Watch, PollDescriptor}
use libaeon.Poll.Wait.{poll_readable, has_expired, forever}
use libaeon.Poll.Timeout.{IsShortest}

module _ {S : Type 0} (host : Host S) (timeout : ℤ) (buffered : Bool) (watched : List Watch)
    (descriptors : List PollDescriptor) where
  -- The time limit of a native wait that begins in a state: zero when there is buffered input, and
  -- otherwise the shortest of the caller's and those of the watched TCP sockets.
  abbrev pub IsWaitLimit : ℤ → S → Type 0
  IsWaitLimit limit s =
      (buffered ≡ true → limit ≡ pos 0)
      × (buffered ≡ false → IsShortest host limit timeout watched s)

  -- What ends the waits: readiness, input or a deadline that has come, or that the wait was as long as
  -- the caller has asked for.
  abbrev pub is_over : ℤ → ℤ → S → Bool
  is_over ready limit s =
      not (is_zero ready)
      || buffered
      || has_expired host watched s
      || not (timeout ==ℤ forever)
      || limit ==ℤ forever

  -- The waits of a call, from a state to the outcome that they have: the readiness of the descriptors
  -- and whether a deadline has come, and the state then.
  pub data Waits : S → (ℤ × List Readiness × Bool) × S → Type 0 where
    failed :
        (fuel : ℕ) (limit ready : ℤ) (revents : List Readiness) (s s' : S)
        → IsWaitLimit limit s
        → poll_readable host fuel descriptors limit s ≡ some ((ready, revents), s')
        → is_neg ready ≡ true
        → Waits s ((ready, revents, false), s')
    ended :
        (fuel : ℕ) (limit ready : ℤ) (revents : List Readiness) (s s' : S)
        → IsWaitLimit limit s
        → poll_readable host fuel descriptors limit s ≡ some ((ready, revents), s')
        → is_neg ready ≡ false
        → is_over ready limit s' ≡ true
        → Waits s ((ready, revents, has_expired host watched s'), s')
    again :
        (fuel : ℕ) (limit ready : ℤ) (revents : List Readiness) (s s' : S)
        (out : (ℤ × List Readiness × Bool) × S)
        → IsWaitLimit limit s
        → poll_readable host fuel descriptors limit s ≡ some ((ready, revents), s')
        → is_neg ready ≡ false
        → is_over ready limit s' ≡ false
        → Waits s' out
        → Waits s out
