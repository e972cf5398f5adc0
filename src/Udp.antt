-- ===== src/Udp.antt =====
-- class udp_socket (include/udp_socket.hpp, src/udp_socket.cpp) and the logical peers of a UDP server. A
-- peer has no descriptor: it sends through its parent, which is given as it stands at the call. The
-- child modules hold the transfers, the setup, the peers, and the theorems about them.
pub mod Transfer
pub mod Setup
pub mod Peers
pub mod Endpoint
pub mod Sending
pub mod Descriptors
pub mod Candidates
pub mod Destination
pub mod Ends
pub mod Matching
pub mod Uniqueness
pub mod Server
pub mod Events
use libaeon.Prelude.{
  ℕ, Bool, true, false, not, ◌&&◌, Option, none, some, List, ◌==ℤ◌, ℤ, if◌then◌else◌,
}
use libaeon.Errors.{err_none, err_no_socket, err_invalid_argument}
use libaeon.Platform.{Platform, World, Family, Sockaddr, SocketType, ss_family}
use libaeon.Socket.{
  Socket, Method, pure, self, ◌>>=◌, ◌>>◌, is_valid_socket, invalid_socket, create, adopt, close,
}
use libaeon.Socket.Options.{set_socket_reuseaddr}

-- `parent_` and `peer_active_`: what `udp_socket` adds to `socket`. A standalone socket has no parent.
pub record Link : Type 0 where
  pub parent : Option Socket
  pub peer_active : Bool

pub record UdpSocket : Type 0 where
  pub base : Socket
  pub link : Link

abbrev pub standalone : Link
standalone = record { parent = none; peer_active = true }

-- `is_valid_socket`, which is virtual
unfoldable pub is_valid : Link → Socket → Bool
is_valid link s = elim link.parent [
  | none ↦ is_valid_socket s
  | some p ↦ link.peer_active && is_valid_socket p
]

abbrev pub is_peer : Link → Bool
is_peer link = elim link.parent [ none ↦ false | some _ ↦ true ]

-- `parent_ ? parent_->sockfd : sockfd`
abbrev pub native_of : Link → Socket → ℤ
native_of link s = elim link.parent [ none ↦ s.sockfd | some p ↦ p.sockfd ]

-- `parent_ ? parent_->net_family : net_family`
abbrev pub family_of : Link → Socket → Family
family_of link s = elim link.parent [ none ↦ s.net_family | some p ↦ p.net_family ]

-- `!is_valid_socket() ? err_no_socket : err_invalid_argument`
abbrev pub udp_argument_error : Link → Socket → ℤ
udp_argument_error link s = if not (is_valid link s) then err_no_socket else err_invalid_argument

module _ (os : Platform) where
  -- `udp_socket()`
  unfoldable pub create_udp : World → UdpSocket × World
  create_udp w =
      let (s, w') = create os Family.ipv4 SocketType.datagram w in
      let (_, s', w'') = (if is_valid_socket s then set_socket_reuseaddr os else pure tt) s w' in
      (record { base = s'; link = standalone }, w'')

  -- `udp_socket(udp_socket* parent, const address& endpoint)`, with the identity of the parent
  unfoldable pub create_peer : Socket → ℕ → Sockaddr → World → UdpSocket × World
  create_peer parent parent_ref endpoint w =
      let (s, w') = adopt os invalid_socket w in
      (
        record {
          base = record s {
            remote_addr = endpoint;
            net_family = ss_family endpoint;
            parent_server = some parent_ref;
            connected = true;
            error_code = err_none;
            error_state = 0;
          };
          link = record { parent = some parent; peer_active = true };
        },
        w',
      )

  -- `close`: a peer never closes the descriptor of its parent.
  unfoldable pub close_udp : UdpSocket → World → Bool × UdpSocket × World
  close_udp u w =
      if is_peer u.link
      then (
        u.link.peer_active,
        record {
          base = record u.base { connected = false };
          link = record u.link { peer_active = false };
        },
        w,
      )
      else (let (closed, s, w') = close os u.base w in (closed, record u { base = s }, w'))
