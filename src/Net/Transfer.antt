-- ===== src/Net/Transfer.antt =====
-- gpr_net_recv, gpr_net_send, gpr_net_get_socket_info and gpr_net_get_peer_info. A buffer is `NULL` or
-- not; what is received is returned with the count. `inet_ntop` and `ntohs` are arguments.
use Prim.Native.String.{String}
use gpr.Base.{
  ℕ, List, [], Option, none, some, Bool, true, false, ◌&&◌, ◌||◌, not, if◌then◌else◌, ◌==◌, ℤ, pos,
  negsuc, length,
}
use gpr.Machine.{Cmd, ◌>>=◌, ◌>>◌, pure, crash}
use gpr.Err.{GprErr, invalid_parameter, network_error, raise, success}
use gpr.Net.{
  NetState, connected, NetType, unknown, connection_oriented, connection_less, Sockaddr, GprSocket,
  Net, Kernel, call, get_sock, put_sock, guarded, set_errno, ebadf, efault, af_inet, af_inet6,
}
use gpr.Net.Setup.{state_code}
use gpr.Net.Steps.{is_none}

abbrev pub is_connected : NetState → Bool
is_connected connected = true
is_connected _ = false

-- `errno = e; return -1;`
abbrev pub failing_with : {A : Type 0} → ℕ → A → Cmd Net (ℤ × A)
failing_with e a = do set_errno e; pure (negsuc 0, a)

abbrev pub received : Option (List ℕ) → Cmd Net (ℤ × List ℕ)
received none = pure (negsuc 0, [])
received (some bytes) = pure (pos (length bytes), bytes)

abbrev pub sent : Option ℕ → Cmd Net ℤ
sent none = pure (negsuc 0)
sent (some n) = pure (pos n)

module _ (k : Kernel) (debug : Bool) where
  -- The switch of gpr_net_recv.
  unfoldable pub recv_from : GprSocket → NetType → Bool → ℕ → ℕ → Cmd Net (ℤ × List ℕ)
  recv_from s unknown buf size flags = failing_with ebadf []
  recv_from s connection_oriented buf size flags =
      call (k.recv s.socket buf size flags) >>= received
  recv_from s connection_less buf size flags = do
    o ← call (k.recvfrom s.socket buf size flags)
    elim o [
      | none ↦ received none
      | some (bytes, from) ↦ do
        (if is_connected s.state then pure tt else put_sock (record s { peer_info = from }))
        received (some bytes)
    ]

  unfoldable pub gpr_net_recv : Bool → ℕ → ℕ → Cmd Net (ℤ × List ℕ)
  gpr_net_recv buf size flags = guarded debug (failing_with ebadf []) (
      if debug && not buf
      then failing_with efault []
      else do s ← get_sock; recv_from s s.type buf size flags)

  -- The test compares the descriptor with the number of a state.
  abbrev pub is_state_number : Option ℕ → Bool
  is_state_number none = false
  is_state_number (some d) = d == state_code connected

  -- The switch of gpr_net_send.
  unfoldable pub send_to : GprSocket → NetType → Option (List ℕ) → ℕ → Cmd Net ℤ
  send_to s unknown buf flags = do set_errno ebadf; pure (negsuc 0)
  send_to s connection_oriented buf flags = call (k.send s.socket buf flags) >>= sent
  send_to s connection_less buf flags =
      if is_state_number s.socket
      then call (k.sendto s.socket buf flags none) >>= sent
      else call (k.sendto s.socket buf flags (some s.peer_info)) >>= sent

  unfoldable pub gpr_net_send : Option (List ℕ) → ℕ → Cmd Net ℤ
  gpr_net_send buf flags = guarded debug (set_errno ebadf >> pure (negsuc 0)) (
      if debug && is_none buf
      then (set_errno efault >> pure (negsuc 0))
      else do s ← get_sock; send_to s s.type buf flags)

-- The text of an address and the number of a port, where the family is known. The tests of the two
-- buffers come before: each says whether the buffer is there.
unfoldable pub address_info :
    (ℕ → List ℕ → List ℕ)
    → (ℕ → ℕ)
    → Bool
    → Bool
    → Bool
    → (GprSocket → Sockaddr)
    → Cmd Net (GprErr × Option (List ℕ × ℕ))
address_info inet_ntop ntohs debug addr port field = guarded debug (refused "Invalid socket") (
    if debug && not addr
    then refused "Invalid address buffer"
    else if debug && not port
    then refused "Invalid port buffer"
    else do
      s ← get_sock
      let a = field s
      if (a.ss_family == af_inet) || (a.ss_family == af_inet6)
          then (if addr && port
              then (success >>= λ e. pure (e, some (inet_ntop a.ss_family a.addr, ntohs a.port)))
              else crash)
          else (raise network_error "Unhandled socket family" >>= λ e. pure (e, none)))
  where
    refused : String → Cmd Net (GprErr × Option (List ℕ × ℕ))
    refused message = raise invalid_parameter message >>= λ e. pure (e, none)

unfoldable pub gpr_net_get_socket_info :
    (ℕ → List ℕ → List ℕ) → (ℕ → ℕ) → Bool → Bool → Bool → Cmd Net (GprErr × Option (List ℕ × ℕ))
gpr_net_get_socket_info inet_ntop ntohs debug addr port =
    address_info inet_ntop ntohs debug addr port (λ s. s.sock_info)

unfoldable pub gpr_net_get_peer_info :
    (ℕ → List ℕ → List ℕ) → (ℕ → ℕ) → Bool → Bool → Bool → Cmd Net (GprErr × Option (List ℕ × ℕ))
gpr_net_get_peer_info inet_ntop ntohs debug addr port =
    address_info inet_ntop ntohs debug addr port (λ s. s.peer_info)
