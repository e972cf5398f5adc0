-- ===== src/Tests/Connections.antt =====
-- The theorems about connecting, listening and accepting on a platform where every call succeeds.
use libaeon.Prelude.{ℕ, ◌+◌, ◌≡◌, false, some, List, [], ◌∷◌, pos}
use libaeon.Socket.Connect.{tcp_connect_host}
use libaeon.PeerCollection.{no_peers}
use libaeon.Server.{Server, accept}
use libaeon.Server.Accepting.{held_by, accept-HandsOn}
use libaeon.Socket.Descriptors.{opened, closed, Balanced, tcp_connect_host-Balanced}
use libaeon.Tests.Systems.{kind_os, fresh_world}
use libaeon.Tests.Sockets.{open_socket}

abbrev host : List ℕ
host = 97 ∷ 46 ∷ 98 ∷ []

tcp_connect_host-Balanced_example :
    let (r, s', w') = tcp_connect_host kind_os (some host) (pos 80) open_socket fresh_world in
    Balanced kind_os 3 open_socket fresh_world s' w'
tcp_connect_host-Balanced_example =
    tcp_connect_host-Balanced kind_os 3 (some host) (pos 80) open_socket fresh_world

abbrev listening : Server
listening = record {
  socket = open_socket;
  ref = 9;
  accept_timeout_ms = pos 10;
  peers = no_peers;
  sockets = record { object = λ _. open_socket; next_ref = 0; world = fresh_world };
}

accept-HandsOn_example :
    let (r, srv') = accept kind_os false listening in
    (srv'.socket.sockfd ≡ open_socket.sockfd)
    × (opened kind_os 4 srv'.sockets.world.calls + closed kind_os 4 fresh_world.calls
        ≡ opened kind_os 4 fresh_world.calls
          + closed kind_os 4 srv'.sockets.world.calls
          + held_by kind_os 4 r srv')
accept-HandsOn_example = accept-HandsOn kind_os 4 false listening
