-- ===== src/Net/Steps.antt =====
-- The static functions of src/gpr_net.c that prepare, bind and connect an endpoint.
use Prim.Native.Nat.{bit_and}
use Prim.Native.String.{String}
use gpr.Base.{
  ℕ, zero, suc, List, [], ◌∷◌, Option, none, some, Bool, true, false, ◌&&◌, ◌||◌, not,
  if◌then◌else◌, ◌==◌,
}
use gpr.Machine.{done, Cmd, ◌>>=◌, ◌>>◌, pure, get_heap, crash}
use gpr.Err.{GprErr, ok, invalid_parameter, network_error, raise, success, gpr_err_raise}
use gpr.Net.{
  NetState, connecting, connection_oriented, connection_less, Addrinfo, Net, Kernel, call,
  sock_stream, sock_seqpacket, einprogress, get_sock, put_sock, guarded, raise_errno, freeaddrinfo,
  no_sockaddr, Answer, result, failed,
}

-- `sock->cur`, a fault where it is `NULL`
abbrev pub current : List Addrinfo → Cmd Net Addrinfo
current [] = crash
current (a ∷ rest) = pure a

abbrev pub is_stream : ℕ → Bool
is_stream socktype =
    not (bit_and socktype sock_stream == 0) || not (bit_and socktype sock_seqpacket == 0)

abbrev pub no_socket : Cmd Net GprErr
no_socket = raise invalid_parameter "Invalid socket"

unfoldable pub set_socket_type : Bool → Cmd Net (Unit {0})
set_socket_type debug = guarded debug (pure tt) (do
  s ← get_sock
  a ← current s.cur
  put_sock (record s {
    type = if is_stream a.ai_socktype then connection_oriented else connection_less;
  }))

abbrev pub is_connecting : NetState → Bool
is_connecting connecting = true
is_connecting _ = false

-- The result of a call that gives nothing back.
abbrev pub answer_err : Kernel → String → Option (Unit {0}) → Cmd Net GprErr → Cmd Net GprErr
answer_err k format none go = raise_errno k network_error format
answer_err k format (some u) go = go

abbrev pub is_none : Option (List ℕ) → Bool
is_none none = true
is_none (some t) = false

abbrev pub opened : Option ℕ → List ℕ → List ℕ
opened none fds = fds
opened (some d) fds = d ∷ fds

abbrev pub is_ok : GprErr → Bool
is_ok ok = true
is_ok _ = false

module _ (k : Kernel) (debug : Bool) where
  -- `getaddrinfo` gives back an error code, not an `errno`.
  abbrev pub resolved : Answer (List Addrinfo) → Cmd Net GprErr
  resolved (failed e) = gpr_err_raise network_error (some (k.report "getaddrinfo: %s" e))
  resolved (result found) = do
    s ← get_sock
    put_sock (record s { res = found })
    (λ w. done tt (record w { heap = record w.heap { lists = suc w.heap.lists } }))
    success

  unfoldable pub resolve_hostname : Option (List ℕ) → Option (List ℕ) → Cmd Net GprErr
  resolve_hostname addr service = guarded debug no_socket (
      if debug && is_none service then raise invalid_parameter "Invalid service" else do
        s ← get_sock
        h ← get_heap
        (λ w. done tt (record w { heap = record w.heap { clock = suc w.heap.clock } }))
        resolved (k.getaddrinfo addr service s.hints h.clock))

  unfoldable pub open_endpoint : Cmd Net (Option ℕ)
  open_endpoint = do
    s ← get_sock
    a ← current s.cur
    fd ← call (k.open_socket a.ai_family a.ai_socktype a.ai_protocol)
    put_sock (record s { socket = fd })
    (λ w. done tt (record w { heap = record w.heap { fds = opened fd w.heap.fds } }))
    pure fd

  unfoldable pub set_nonblocking : Cmd Net GprErr
  set_nonblocking = do
    s ← get_sock
    if s.nonblock
        then (do o ← call (k.set_nonblock s.socket); answer_err k "fcntl: [Errno %d] %s" o success)
        else success

  unfoldable pub reuse_address : Cmd Net GprErr → Cmd Net GprErr
  reuse_address go = do
    s ← get_sock
    o ← call (k.set_reuseaddr s.socket)
    answer_err k "setsockopt: [Errno %d] %s" o go

  -- The system's answer about the descriptor, and what is done where there is one.
  abbrev pub endpoint_err : Option ℕ → Cmd Net GprErr → Cmd Net GprErr
  endpoint_err none go = raise_errno k network_error "socket: [Errno %d] %s"
  endpoint_err (some d) go = go

  unfoldable pub init_server_socket : Cmd Net GprErr
  init_server_socket =
      guarded debug no_socket
        (do fd ← open_endpoint; endpoint_err fd (reuse_address set_nonblocking))

  unfoldable pub init_client_socket : Option (List ℕ) → Cmd Net GprErr
  init_client_socket local = guarded debug no_socket (do
    fd ← open_endpoint
    endpoint_err fd (if is_none local then set_nonblocking else reuse_address set_nonblocking))

  unfoldable pub listen_to_service : ℕ → Cmd Net GprErr
  listen_to_service backlog = guarded debug no_socket (do
    s ← get_sock
    a ← current s.cur
    o ← call (k.bind s.socket a.ai_addr)
    answer_err k "bind: [Errno %d] %s" o (
        if is_stream a.ai_socktype
        then (do
          p ← call (k.listen s.socket backlog)
          answer_err k "listen: [Errno %d] %s" p success)
        else success))

  -- The loop of bind_to_local_service: whether an address could be bound.
  unfoldable pub bind_loop : Option ℕ → List Addrinfo → Cmd Net Bool
  bind_loop fd [] = pure false
  bind_loop fd (a ∷ rest) =
      let go_on = bind_loop fd rest in
      do o ← call (k.bind fd a.ai_addr); elim o [ none ↦ go_on | some u ↦ pure true ]

  abbrev pub local_err : Bool → Cmd Net GprErr
  local_err false = raise_errno k network_error "bind: [Errno %d] %s"
  local_err true = success

  -- The list of addresses is the function's own: it is allocated, used and freed.
  abbrev pub bound_local : Option ℕ → Answer (List Addrinfo) → Cmd Net GprErr
  bound_local fd (failed e) = gpr_err_raise network_error (some (k.report "getaddrinfo: %s" e))
  bound_local fd (result found) = do
    (λ w. done tt (record w { heap = record w.heap { lists = suc w.heap.lists } }))
    b ← bind_loop fd found
    freeaddrinfo found
    local_err b

  unfoldable pub bind_to_local_service : Option (List ℕ) → Cmd Net GprErr
  bind_to_local_service local = guarded debug no_socket (
      if debug && is_none local then raise invalid_parameter "Invalid local service" else do
        s ← get_sock
        a ← current s.cur
        h ← get_heap
        (λ w. done tt (record w { heap = record w.heap { clock = suc w.heap.clock } }))
        bound_local s.socket
            (k.getaddrinfo none local (record a { ai_addr = no_sockaddr }) h.clock))

  abbrev pub so_error_err : Option ℕ → Cmd Net GprErr
  so_error_err none = raise_errno k network_error "getsockopt: [Errno %d] %s"
  so_error_err (some zero) = success
  so_error_err (some (suc e)) = raise_errno k network_error "connect/getsockopt: [Errno %d] %s"

  abbrev pub poll_err : Option ℕ → Cmd Net GprErr → Cmd Net GprErr
  poll_err none go = raise_errno k network_error "poll: [Errno %d] %s"
  poll_err (some zero) go = raise network_error "Connection to peer in progress"
  poll_err (some (suc n)) go = go

  -- The initializer of `fds` reads the socket before the test of `NULL`.
  unfoldable pub check_connection_progress : Cmd Net GprErr
  check_connection_progress = do
    s ← get_sock
    guarded debug no_socket (do
      o ← call (k.poll s.socket)
      poll_err o (do p ← call (k.get_so_error s.socket); so_error_err p))

  unfoldable pub connect_first : Cmd Net GprErr
  connect_first = do
    s ← get_sock
    a ← current s.cur
    o ← call (k.connect s.socket a.ai_addr)
    elim o [
      | some u ↦ success
      | none ↦ do
        h ← get_heap
        if h.errno == einprogress
            then (do put_sock (record s { state = connecting }); check_connection_progress)
            else raise_errno k network_error "connect: [Errno %d] %s"
    ]

  unfoldable pub connect_to_peer : Option (List ℕ) → Cmd Net GprErr
  connect_to_peer local = guarded debug no_socket (do
    s ← get_sock
    if is_connecting s.state
        then check_connection_progress
        else (if is_none local
            then connect_first
            else do e ← bind_to_local_service local; if is_ok e then connect_first else pure e))
