-- ===== src/Net/Setup.antt =====
-- The functions of src/gpr_net.c that make and close sockets, and the names of their states.
use Prim.Native.String.{String}
use gpr.Base.{
  ℕ, ◌+◌, List, [], ◌∷◌, Option, none, some, Bool, true, false, ◌&&◌, if◌then◌else◌, get_elem?, leb,
}
use gpr.Machine.{done, Cmd, ◌>>=◌, ◌>>◌, pure}
use gpr.Net.{
  NetState, closed, closing, connecting, connected, listening, unknown, Addrinfo, GprSocket, Net,
  no_sockaddr, sock_stream, sock_dgram, get_sock, put_sock, guarded, close, freeaddrinfo,
}

-- The hints are the same for every socket but for these numbers; the memory that the socket stands in
-- may hold anything.
unfoldable pub gpr_net_init_socket : Bool → ℕ → ℕ → ℕ → ℕ → Bool → Cmd Net (Unit {0})
gpr_net_init_socket debug domain type protocol flags nonblock = guarded debug (pure tt) (do
  s ← get_sock
  put_sock (record {
    socket = none;
    state = closed;
    type = unknown;
    hints = record {
      ai_flags = flags;
      ai_family = domain;
      ai_socktype = type;
      ai_protocol = protocol;
      ai_addr = no_sockaddr;
    };
    res = [];
    cur = [];
    nonblock = nonblock;
    sock_info = no_sockaddr;
    peer_info = no_sockaddr;
  }))

-- `malloc` gives memory that holds `fresh`, or none.
unfoldable pub gpr_net_new_socket : Bool → Option GprSocket → ℕ → ℕ → ℕ → ℕ → Bool → Cmd Net Bool
gpr_net_new_socket debug none domain type protocol flags nonblock = pure false
gpr_net_new_socket debug (some fresh) domain type protocol flags nonblock = do
  put_sock fresh
  gpr_net_init_socket debug domain type protocol flags nonblock
  pure true

abbrev pub af_unspec : ℕ
af_unspec = 0

-- `AI_PASSIVE | AI_ADDRCONFIG`
abbrev pub passive_addrconfig : ℕ
passive_addrconfig = 1 + 32

unfoldable pub gpr_net_init_default_tcp_socket : Bool → Bool → Cmd Net (Unit {0})
gpr_net_init_default_tcp_socket debug nonblock =
    gpr_net_init_socket debug af_unspec sock_stream 0 passive_addrconfig nonblock

unfoldable pub gpr_net_init_default_udp_socket : Bool → Bool → Cmd Net (Unit {0})
gpr_net_init_default_udp_socket debug nonblock =
    gpr_net_init_socket debug af_unspec sock_dgram 0 passive_addrconfig nonblock

unfoldable pub close_socket : Bool → Cmd Net (Unit {0})
close_socket debug = guarded debug (pure tt) (do
  s ← get_sock
  close s.socket
  put_sock (record s {
    socket = none;
    state = closed;
    sock_info = no_sockaddr;
    peer_info = no_sockaddr;
  }))

abbrev pub is_nil : List Addrinfo → Bool
is_nil [] = true
is_nil (a ∷ rest) = false

abbrev pub free_list : List Addrinfo → Cmd Net (Unit {0})
free_list [] = pure tt
free_list (a ∷ rest) = freeaddrinfo (a ∷ rest)

unfoldable pub gpr_net_close_socket : Bool → Cmd Net (Unit {0})
gpr_net_close_socket debug = guarded debug (pure tt) (do
  close_socket debug
  s ← get_sock
  free_list s.res
  put_sock (record s { res = []; cur = [] }))

unfoldable pub gpr_net_free_socket : Bool → Cmd Net (Unit {0})
gpr_net_free_socket debug = guarded debug (pure tt) (do
  gpr_net_close_socket debug
  λ w. done tt (record w { heap = record w.heap { sock = none } }))

-- The numbers of the enumerations.
unfoldable pub state_code : NetState → ℕ
state_code closed = 0
state_code closing = 1
state_code connecting = 2
state_code connected = 3
state_code listening = 4

-- `none` is a read outside of the array.
unfoldable pub gpr_net_socket_state_to_str : Bool → ℕ → Option String
gpr_net_socket_state_to_str debug state =
    if debug && leb 5 state
    then some "UNKNOWN"
    else get_elem? ("CLOSED" ∷ "CLOSING" ∷ "CONNECTING" ∷ "CONNECTED" ∷ "LISTENING" ∷ []) state

unfoldable pub gpr_net_socket_type_to_str : Bool → ℕ → Option String
gpr_net_socket_type_to_str debug type =
    if debug && leb 3 type
    then some "UNKNOWN"
    else get_elem? ("UNKNOWN" ∷ "CONNECTION-ORIENTED" ∷ "CONNECTION-LESS" ∷ []) type
