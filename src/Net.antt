-- ===== src/Net.antt =====
-- include/gpr_net.h and src/gpr_net.c: sockets over the system's calls. The heap is the
-- `struct gpr_socket` at hand (`none` is `NULL`), with what the system keeps for the program: the open
-- descriptors, the number of address lists that were not freed, `errno`, and the number of calls so
-- far. The system's answers are an argument, a `Kernel`: each may depend on the call's arguments and
-- on the number of calls before it. `debug` says whether `DEBUG` is defined. Numbers of the system's
-- headers are those of Linux.
mod Setup
mod Steps
mod Ops
mod Own
mod Make
mod Serve
mod Dial
mod Connect
mod Tests
mod Listen
mod Close
mod Transfer
use Prim.Native.String.{String}
use gpr.Base.{
  ◌≡◌, refl, ℕ, suc, ◌+◌, ◌-◌, List, [], ◌∷◌, Option, none, some, Bool, true, false, ◌&&◌, ◌||◌,
  not, if◌then◌else◌, ◌==◌,
}
use gpr.Machine.{
  Ptr, World, Run, done, fault, Cmd, and_then, ◌>>=◌, ◌>>◌, pure, crash, get_heap, attempt, Returns,
}
use gpr.Utils.{Expansion}
use gpr.Err.{GprErr, gpr_err_raise, codes, success}

-- `enum GPR_Net_State` and `enum GPR_Net_Type`, less their limits
pub data NetState : Type 0 where
  closed closing connecting connected listening : NetState

pub data NetType : Type 0 where
  unknown connection_oriented connection_less : NetType

-- `struct sockaddr_storage`: the family, the address and the port, in network order
pub record Sockaddr : Type 0 where
  pub ss_family : ℕ
  pub addr : List ℕ
  pub port : ℕ

-- `struct addrinfo` without its link: a list of them is a list.
pub record Addrinfo : Type 0 where
  pub ai_flags : ℕ
  pub ai_family : ℕ
  pub ai_socktype : ℕ
  pub ai_protocol : ℕ
  pub ai_addr : Sockaddr

-- `struct gpr_socket`; an endpoint that is `none` is GPR_NET_INVALID_SOCKET, and an empty list `NULL`
pub record GprSocket : Type 0 where
  pub socket : Option ℕ
  pub state : NetState
  pub type : NetType
  pub hints : Addrinfo
  pub res : List Addrinfo
  pub cur : List Addrinfo
  pub nonblock : Bool
  pub sock_info : Sockaddr
  pub peer_info : Sockaddr

-- What a `memset` to 0 leaves.
abbrev pub no_sockaddr : Sockaddr
no_sockaddr = record { ss_family = 0; addr = []; port = 0 }

abbrev pub af_inet : ℕ
af_inet = 2

abbrev pub af_inet6 : ℕ
af_inet6 = 10

abbrev pub sock_stream : ℕ
sock_stream = 1

abbrev pub sock_dgram : ℕ
sock_dgram = 2

abbrev pub sock_seqpacket : ℕ
sock_seqpacket = 5

abbrev pub ebadf : ℕ
ebadf = 9

abbrev pub eagain : ℕ
eagain = 11

abbrev pub ewouldblock : ℕ
ewouldblock = 11

abbrev pub efault : ℕ
efault = 14

abbrev pub einprogress : ℕ
einprogress = 115

-- A result, or an error number.
pub data Answer (A : Type 0) : Type 0 where
  result : A → Answer A
  failed : ℕ → Answer A

-- The system's answers; the last argument is the number of calls before.
pub record Kernel : Type 0 where
  pub getaddrinfo : Option (List ℕ) → Option (List ℕ) → Addrinfo → ℕ → Answer (List Addrinfo)
  pub open_socket : ℕ → ℕ → ℕ → ℕ → Answer ℕ
  pub set_reuseaddr : Option ℕ → ℕ → Answer (Unit {0})
  pub set_nonblock : Option ℕ → ℕ → Answer (Unit {0})
  pub bind : Option ℕ → Sockaddr → ℕ → Answer (Unit {0})
  pub listen : Option ℕ → ℕ → ℕ → Answer (Unit {0})
  pub connect : Option ℕ → Sockaddr → ℕ → Answer (Unit {0})
  pub poll : Option ℕ → ℕ → Answer ℕ
  pub get_so_error : Option ℕ → ℕ → Answer ℕ
  pub getsockname : Option ℕ → ℕ → Answer Sockaddr
  pub getpeername : Option ℕ → ℕ → Answer Sockaddr
  pub accept : Option ℕ → ℕ → Answer (ℕ × Sockaddr)
  -- The flag says whether there is a buffer, and `none` is a buffer that is `NULL`.
  pub recv : Option ℕ → Bool → ℕ → ℕ → ℕ → Answer (List ℕ)
  pub recvfrom : Option ℕ → Bool → ℕ → ℕ → ℕ → Answer (List ℕ × Sockaddr)
  pub send : Option ℕ → Option (List ℕ) → ℕ → ℕ → Answer ℕ
  pub sendto : Option ℕ → Option (List ℕ) → ℕ → Option Sockaddr → ℕ → Answer ℕ
  -- what a format that reports an error number expands to
  pub report : String → ℕ → Expansion

pub record Net : Type 0 where
  pub sock : Option GprSocket
  pub fds : List ℕ
  pub lists : ℕ
  pub errno : ℕ
  pub clock : ℕ

-- The memory after a call that succeeds, and after one that fails.
abbrev pub ticked : World Net → World Net
ticked w = record w { heap = record w.heap { clock = suc w.heap.clock } }

abbrev pub failing : ℕ → World Net → World Net
failing e w = record w { heap = record w.heap { clock = suc w.heap.clock; errno = e } }

abbrev pub answered : {A : Type 0} → Answer A → Cmd Net (Option A)
answered (result a) w = done (some a) (ticked w)
answered (failed e) w = done none (failing e w)

-- A call of the system: `none` is a failure, with `errno` set.
abbrev pub call : {A : Type 0} → (ℕ → Answer A) → Cmd Net (Option A)
call f w = answered (f w.heap.clock) w

abbrev pub get_sock : Cmd Net GprSocket
get_sock = do h ← get_heap; attempt h.sock

abbrev pub put_sock : GprSocket → Cmd Net (Unit {0})
put_sock s w = done tt (record w { heap = record w.heap { sock = some s } })

abbrev pub set_errno : ℕ → Cmd Net (Unit {0})
set_errno e w = done tt (record w { heap = record w.heap { errno = e } })

abbrev pub missing : Option GprSocket → Bool
missing none = true
missing (some s) = false

-- The tests of a `NULL` socket.
abbrev pub guarded : {A : Type 0} → Bool → Cmd Net A → Cmd Net A → Cmd Net A
guarded debug refuse go = do h ← get_heap; if debug && missing h.sock then refuse else go

-- `gpr_err_raise(err, format, errno, strerror(errno))`
abbrev pub raise_errno : Kernel → GprErr → String → Cmd Net GprErr
raise_errno k err format = do h ← get_heap; gpr_err_raise err (some (k.report format h.errno))

-- A descriptor is closed once.
abbrev pub without : List ℕ → ℕ → List ℕ
without [] d = []
without (x ∷ xs) d = if x == d then xs else x ∷ without xs d

abbrev pub close : Option ℕ → Cmd Net (Unit {0})
close none w = done tt w
close (some d) w = done tt (record w { heap = record w.heap { fds = without w.heap.fds d } })

-- `freeaddrinfo`, which is undefined on `NULL`
abbrev pub freeaddrinfo : List Addrinfo → Cmd Net (Unit {0})
freeaddrinfo [] w = fault
freeaddrinfo (a ∷ rest) w = done tt (record w { heap = record w.heap { lists = w.heap.lists - 1 } })

module _ {A B : Type 0} (Q : B → World Net → Type 0) where
  Returns-answered :
      (a : Answer A) (w : World Net) (m : Option A → Cmd Net B)
      → ((x : A) → a ≡ result x → Returns Q (m (some x) (ticked w)))
      → ((e : ℕ) → Returns Q (m none (failing e w)))
      → Returns Q (and_then (answered a w) m)
  Returns-answered (result x) w m yes_ no_ = yes_ x refl
  Returns-answered (failed e) w m yes_ no_ = no_ e

  -- Whatever the system answers.
  pub Returns-call :
      (f : ℕ → Answer A) (w : World Net) (m : Option A → Cmd Net B)
      → ((x : A) → f w.heap.clock ≡ result x → Returns Q (m (some x) (ticked w)))
      → ((e : ℕ) → Returns Q (m none (failing e w)))
      → Returns Q (and_then (call f w) m)
  Returns-call f w m yes_ no_ = Returns-answered (f w.heap.clock) w m yes_ no_
