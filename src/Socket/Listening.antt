-- ===== src/Socket/Listening.antt =====
-- How an attempt to listen leaves the socket (src/socket.cpp).
use libaeon.Prelude.{
  ◌∷◌, ℕ, ◌≡◌, Bool, true, false, is_zero, if◌then◌else◌, Option, some, none, List, ℤ, to_ℕ,
}
use libaeon.Errors.{err_no_socket, state_bind, is_valid_port}
use libaeon.Platform.{History, Platform, World, Syscall, Sockaddr}
use libaeon.Socket.{Socket, is_valid_socket}
use libaeon.Socket.Listen.{listen_target}
use libaeon.Socket.Establish.{IsOpen}

module _ (os : Platform) where
  -- The last two calls have bound the descriptor to the address and made it listen, both with success.
  abbrev pub Listens : Sockaddr → ℤ → History → Type 0
  Listens target fd (second ∷ first ∷ before) =
      (first ≡ Syscall.bind fd target)
      × (second ≡ Syscall.listen fd)
      × (is_zero (os.reply (first ∷ before)).value ≡ true)
      × (is_zero (os.reply (second ∷ first ∷ before)).value ≡ true)
  Listens target fd _ = ⊥

  -- How `tcp_listen` ends, by what it returns, once it has an address to bind to.
  abbrev pub ListenEnds : Sockaddr → ℤ → Bool → Socket → World → Type 0
  ListenEnds target port r s' w' =
      (r ≡ true → IsOpen s' × (s'.port ≡ port) × Listens target s'.sockfd w'.calls)
      × (r ≡ false → is_valid_socket s' ≡ false)

  -- The address that `tcp_listen` is asked to bind to.
  abbrev pub wanted : Option (List ℕ) → ℤ → Option Sockaddr
  wanted none port = none
  wanted (some ip) port = if is_valid_port port then listen_target os ip (to_ℕ port) else none

  -- How `tcp_listen` ends, by the address that it is asked to bind to.
  abbrev pub Ends : Option Sockaddr → ℤ → Socket → Bool → Socket → World → Type 0
  Ends none port s r s' w' =
      (r ≡ false) × (s' ≡ record s { error_code = err_no_socket; error_state = state_bind })
  Ends (some target) port s r s' w' = ListenEnds target port r s' w'
