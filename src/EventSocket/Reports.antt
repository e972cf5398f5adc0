-- ===== src/EventSocket/Reports.antt =====
-- What an event socket reports to its handlers (src/event_socket.cpp).
use libaeon.Prelude.{◌≡◌, refl, false, [], ◌∷◌, ◌++◌, is_zero, Bool-cases, inl, inr, if◌then◌else◌}
use libaeon.Platform.{Platform, Syscall, answer}
use libaeon.Socket.{is_valid_socket}
use libaeon.EventSocket.{Event, EventSocket, Env, close}
use libaeon.Socket

module _ (os : Platform) {X : Type 0} where
  -- After `close` the descriptor is gone and no byte waits. The close handler is told exactly if
  -- `close` returns true, and closing again returns false and changes nothing.
  pub close-twice :
      (e : EventSocket) (env : Env X)
      → let (closed, e', env') = close os e env in
        (is_valid_socket e'.base ≡ false)
        × (e'.out.bytes ≡ 0)
        × (env'.events ≡ (if closed then env.events ++ Event.on_close ∷ [] else env.events))
        × (close os e' env' ≡ (false, e', env'))
  unfolding close Socket.close
  close-twice e env = elim (Bool-cases (is_valid_socket e.base)) [
    | inl valid ↦
        elim (Bool-cases
          (is_zero (answer os (Syscall.close_socket e.base.sockfd) env.world).value)) [
            | inl fine ↦ rw (valid, fine, close, Socket.close) (refl, refl, refl, refl)
            | inr failed ↦ rw (valid, failed, close, Socket.close) (refl, refl, refl, refl)
          ]
    | inr gone ↦
        rw (gone, close, Socket.close) (gone, refl, refl, rw (gone, close, Socket.close) refl)
  ]
