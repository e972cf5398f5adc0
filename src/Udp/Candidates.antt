-- ===== src/Udp/Candidates.antt =====
-- The candidates for the descriptor of a UDP socket (src/udp_socket.cpp, `select_family`).
use libaeon.Prelude.{
  ◌≡◌, refl, Bool, true, Option, none, some, ℤ, ==-refl, arith, Bool-cases, inl, inr,
}
use libaeon.Platform.{Platform, World, Family, family_eq, SocketType, Syscall, after, answer}
use libaeon.Socket.{Socket}
use libaeon.Socket.Connect.{is_internet}
use libaeon.Udp.Setup.{is_descriptor, close_candidate, configure_blocking, select_family}

pub family_eq_refl : (f : Family) → family_eq f f ≡ true
family_eq_refl Family.unspec = refl
family_eq_refl Family.ipv4 = refl
family_eq_refl Family.ipv6 = refl
family_eq_refl (Family.foreign k) = ==-refl k

-- Nothing but the error has changed.
abbrev pub Kept : Socket → Socket → Type 0
Kept s s' = s' ≡ record s { error_code = s'.error_code; error_state = s'.error_state }

-- A candidate, if there is one, is a descriptor.
abbrev pub IsCandidate : Option ℤ → Type 0
IsCandidate none = Unit
IsCandidate (some candidate) = is_descriptor candidate ≡ true

module _ (os : Platform) where
  pub close_candidate-same :
      (candidate : ℤ) (s : Socket) (w : World) → (close_candidate os candidate s w).1 ≡ s
  unfolding close_candidate
  close_candidate-same candidate s w = ground arith

  pub select_family-same :
      (family : Family) (blocking : Bool) (s : Socket) (w : World)
      → (select_family os family blocking s w).1 ≡ s
  unfolding select_family configure_blocking close_candidate
  select_family-same family blocking s w = ground arith

  pub select_family-IsCandidate :
      (family : Family) (blocking : Bool) (s : Socket) (w : World)
      → IsCandidate (select_family os family blocking s w).0
  unfolding select_family configure_blocking close_candidate
  select_family-IsCandidate family blocking s w =
      let fd = (answer os (Syscall.open_socket family SocketType.datagram) w).value in
      let w₁ = after os (Syscall.open_socket family SocketType.datagram) w in
      elim (Bool-cases (is_internet family)) [
        | inr foreign_ ↦ rw (foreign_, select_family) tt
        | inl known ↦ elim (Bool-cases (is_descriptor fd)) [
          | inr none_ ↦ rw (known, none_, select_family) tt
          | inl opened ↦ elim (Bool-cases (configure_blocking os fd blocking s w₁).0) [
            | inr refused ↦ rw (known, opened, refused, select_family) tt
            | inl set_ ↦ rw (known, opened, set_, select_family) opened
          ]
        ]
      ]
