-- ===== src/Ssl/ErrorQueue.antt =====
-- The queue of errors of OpenSSL is empty after `clear_ssl_errors` (src/ssl_socket.cpp).
use libaeon.Prelude.{ℕ, zero, suc, ◌-◌, ◌<◌, ◌==◌, ◌≡◌, arith, Bool-cases, inl, inr}
use libaeon.Ssl.{OpenSsl, Stage, pop_errors, clear_ssl_errors}

-- What is relied on: ERR_get_error takes the oldest error out, and returns zero exactly of an empty queue.
pub record PopsErrors {X : Type 0} (lib : OpenSsl X) : Type 0 where
  pub takes_one : (x : X) → lib.queued_errors (lib.err_get_error x).1 ≡ lib.queued_errors x - 1
  pub zero_of_empty : (x : X) → ((lib.err_get_error x).0 == 0) ≡ (lib.queued_errors x == 0)

module _ {X : Type 0} (lib : OpenSsl X) (law : PopsErrors lib) where
  pop_errors-empties :
      (fuel : ℕ) (x : X)
      → lib.queued_errors x < fuel
      → lib.queued_errors (pop_errors lib fuel x) ≡ 0
  unfolding pop_errors
  pop_errors-empties zero x enough = absurd (omega arith)
  pop_errors-empties (suc fuel) x enough =
      let x' = (lib.err_get_error x).1 in
      elim (Bool-cases ((lib.err_get_error x).0 == 0)) [
        | inl last ↦
            rw (last, pop_errors) (ground (arith, last, law.takes_one x, law.zero_of_empty x))
        | inr more ↦
            rw (more, pop_errors)
              (pop_errors-empties fuel x'
                (ground (arith, more, enough, law.takes_one x, law.zero_of_empty x)))
      ]

  -- `clear_ssl_errors` ends with an empty queue of errors.
  pub clear_ssl_errors-empties :
      (g : Stage X) → lib.queued_errors (clear_ssl_errors lib g).1.below ≡ 0
  unfolding clear_ssl_errors
  clear_ssl_errors-empties g =
      pop_errors-empties (suc (lib.queued_errors g.below)) g.below (omega arith)
