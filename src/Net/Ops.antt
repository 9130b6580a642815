-- ===== src/Net/Ops.antt =====
-- gpr_net_listen, gpr_net_connect and gpr_net_accept. The loops run over the addresses of `sock->cur`,
-- which only they step.
use gpr.Base.{
  ℕ, List, [], ◌∷◌, Option, none, some, Bool, true, false, ◌&&◌, ◌||◌, if◌then◌else◌, ◌==◌,
}
use gpr.Machine.{done, Cmd, ◌>>=◌, ◌>>◌, pure, get_heap, crash}
use gpr.Err.{GprErr, ok, invalid_parameter, network_error, pending, raise, success}
use gpr.Net.{
  connected, listening, Addrinfo, GprSocket, Net, Kernel, call, get_sock, put_sock, guarded,
  raise_errno, freeaddrinfo, eagain, ewouldblock,
}
use gpr.Net.Setup.{close_socket, gpr_net_init_socket}
use gpr.Net.Steps.{
  set_socket_type, resolve_hostname, init_server_socket, init_client_socket, listen_to_service,
  connect_to_peer, is_ok, is_none,
}

-- `sock->cur = cur`
abbrev pub set_cur : List Addrinfo → Cmd Net (Unit {0})
set_cur cur = do s ← get_sock; put_sock (record s { cur = cur })

abbrev pub is_pending : GprErr → Bool
is_pending pending = true
is_pending _ = false

abbrev pub some_address : List Addrinfo → Bool
some_address [] = false
some_address (a ∷ rest) = true

-- The end of gpr_net_listen and gpr_net_connect.
unfoldable pub release_addresses : GprErr → Cmd Net GprErr
release_addresses err = do
  s ← get_sock
  freeaddrinfo s.res
  put_sock (record s { res = []; cur = [] })
  pure err

module _ (k : Kernel) (debug : Bool) where
  unfoldable pub listen_loop : ℕ → GprErr → List Addrinfo → Cmd Net GprErr
  listen_loop backlog err [] = pure err
  listen_loop backlog err (a ∷ rest) =
      let go_on : GprErr → Cmd Net GprErr =
        (λ e. close_socket debug >> set_cur rest >> listen_loop backlog e rest) in
      do
        e ← init_server_socket k debug
        if is_ok e
            then (do e' ← listen_to_service k debug backlog; if is_ok e' then pure e' else go_on e')
            else go_on e

  -- Behind the loop, where an address is left.
  unfoldable pub listened : Cmd Net GprErr → Cmd Net GprErr
  listened finish = do
    s ← get_sock
    o ← call (k.getsockname s.socket)
    elim o [
      | none ↦ do close_socket debug; raise_errno k network_error "getsockname: [Errno %d] %s"
      | some info ↦ do
        put_sock (record s { sock_info = info; state = listening })
        set_socket_type debug
        finish
    ]

  abbrev pub if_left :
      List Addrinfo → (Cmd Net GprErr → Cmd Net GprErr) → Cmd Net GprErr → Cmd Net GprErr
  if_left [] handle finish = finish
  if_left (a ∷ rest) handle finish = handle finish

  unfoldable pub gpr_net_listen : Option (List ℕ) → Option (List ℕ) → ℕ → Cmd Net GprErr
  gpr_net_listen addr service backlog = guarded debug (raise invalid_parameter "Invalid socket") (
      if debug && is_none service then raise invalid_parameter "Invalid service" else do
        err ← resolve_hostname k debug addr service
        if is_ok err
            then (do
              s ← get_sock
              set_cur s.res
              err' ← listen_loop backlog err s.res
              t ← get_sock
              if_left t.cur listened (release_addresses err'))
            else pure err)

  -- `none` is the return of GPR_ERR_PENDING inside the loop.
  unfoldable pub connect_loop : Option (List ℕ) → GprErr → List Addrinfo → Cmd Net (Option GprErr)
  connect_loop local err [] = pure (some err)
  connect_loop local err (a ∷ rest) =
      let go_on : GprErr → Cmd Net (Option GprErr) =
        (λ e. close_socket debug >> set_cur rest >> connect_loop local e rest) in
      do
        e ← init_client_socket k debug local
        if is_ok e
            then (do
              e' ← connect_to_peer k debug local
              if is_ok e' then pure (some e') else if is_pending e' then pure none else go_on e')
            else go_on e

  unfoldable pub linked_up : Cmd Net GprErr → Cmd Net GprErr
  linked_up finish = do
    s ← get_sock
    o ← call (k.getsockname s.socket)
    elim o [
      | none ↦ do close_socket debug; raise_errno k network_error "getsockname: [Errno %d] %s"
      | some info ↦ do
        put_sock (record s { sock_info = info })
        p ← call (k.getpeername s.socket)
        elim p [
          | none ↦ do close_socket debug; raise_errno k network_error "getpeername: [Errno %d] %s"
          | some peer ↦ do
            put_sock (record s { sock_info = info; peer_info = peer; state = connected })
            set_socket_type debug
            finish
        ]
    ]

  -- Behind the loop.
  abbrev pub after_dialling : Option GprErr → Cmd Net GprErr
  after_dialling none = pure pending
  after_dialling (some err) = do t ← get_sock; if_left t.cur linked_up (release_addresses err)

  -- From the loop on.
  unfoldable pub connect_from : Option (List ℕ) → GprErr → Cmd Net GprErr
  connect_from local err = do s ← get_sock; o ← connect_loop local err s.cur; after_dialling o

  -- Where the socket still has addresses, `err` is not set before the loop; `ok` stands for it, as
  -- the loop sets it unless no address is left.
  unfoldable pub gpr_net_connect :
      Option (List ℕ) → Option (List ℕ) → Option (List ℕ) → Cmd Net GprErr
  gpr_net_connect addr service local = guarded debug (raise invalid_parameter "Invalid socket") (
      if debug && is_none addr
      then raise invalid_parameter "Invalid address/hostname"
      else if debug && is_none service
      then raise invalid_parameter "Invalid service"
      else do
        s ← get_sock
        if some_address s.res then connect_from local ok else (do
          err ← resolve_hostname k debug addr service
          if is_ok err then (do t ← get_sock; set_cur t.res; connect_from local err) else pure err))

-- `in` is the listening socket, and the heap's socket is `out`.
unfoldable pub gpr_net_accept : Kernel → Bool → Option GprSocket → Cmd Net GprErr
gpr_net_accept k debug none = if debug then raise invalid_parameter "Invalid in socket" else crash
gpr_net_accept k debug (some source) =
    guarded debug (raise invalid_parameter "Invalid out socket") (do
      gpr_net_init_socket debug 0 0 0 0 source.nonblock
      o ← call (k.accept source.socket)
      s ← get_sock
      elim o [
        | none ↦ do
          h ← get_heap
          if (h.errno == eagain) || (h.errno == ewouldblock)
              then raise pending "No connection to be accepted"
              else raise_errno k network_error "accept: [Errno %d] %s"
        | some (d, peer) ↦ do
          (λ w. done tt (record w { heap = record w.heap { fds = d ∷ w.heap.fds } }))
          put_sock (record s {
            socket = some d;
            peer_info = peer;
            state = connected;
            type = source.type;
          })
          success
      ])

-- `memcpy` of the whole structure: the heap's socket is `out`.
unfoldable pub gpr_net_copy_socket : Bool → Option GprSocket → Cmd Net (Unit {0})
gpr_net_copy_socket debug none = if debug then pure tt else crash
gpr_net_copy_socket debug (some source) = guarded debug (pure tt) (do s ← get_sock; put_sock source)
