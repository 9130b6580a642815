-- ===== src/Net/Tests.antt =====
-- The theorems on sockets with a concrete system.
use gpr.Base.{refl, [], ◌∷◌, none, some, true, false, ◌==◌, if◌then◌else◌}
use gpr.Machine.{World, Returns, ◌>>◌}
use gpr.Utils.{text}
use gpr.Net.{
  closed, listening, connected, unknown, Addrinfo, result, failed, no_sockaddr, GprSocket, Net,
  Kernel,
}
use gpr.Net.Ops.{gpr_net_listen, gpr_net_connect}
use gpr.Net.Own.{Resolves}
use gpr.Net.Serve.{Settled, Closed}
use gpr.Net.Setup.{gpr_net_close_socket}
use gpr.Net.Close.{net_close-Closed}
use gpr.Net.Connect.{net_connect-Settled}
use gpr.Net.Listen.{net_listen-Settled}

abbrev stream : Addrinfo
stream = record {
  ai_flags = 0;
  ai_family = 2;
  ai_socktype = 1;
  ai_protocol = 6;
  ai_addr = no_sockaddr;
}

-- A system that refuses the first address and binds the second.
abbrev system : Kernel
system = record {
  getaddrinfo = λ addr service hints t. result (stream ∷ stream ∷ []);
  open_socket = λ family socktype protocol t. if t == 1 then failed 97 else result 7;
  set_reuseaddr = λ fd t. result tt;
  set_nonblock = λ fd t. result tt;
  bind = λ fd addr t. result tt;
  listen = λ fd backlog t. result tt;
  connect = λ fd addr t. result tt;
  poll = λ fd t. result 1;
  get_so_error = λ fd t. result 0;
  getsockname = λ fd t. result no_sockaddr;
  getpeername = λ fd t. result no_sockaddr;
  accept = λ fd t. failed 11;
  recv = λ fd buf size flags t. result [];
  recvfrom = λ fd buf size flags t. result ([], no_sockaddr);
  send = λ fd buf flags t. failed 32;
  sendto = λ fd buf flags addr t. failed 32;
  report = λ format e. text (e ∷ []);
}

abbrev fresh : GprSocket
fresh = record {
  socket = none;
  state = closed;
  type = unknown;
  hints = stream;
  res = [];
  cur = [];
  nonblock = true;
  sock_info = no_sockaddr;
  peer_info = no_sockaddr;
}

abbrev here : World Net
here = record {
  msg = [];
  calls = [];
  heap = record { sock = some fresh; fds = 0 ∷ 1 ∷ 2 ∷ []; lists = 0; errno = 0; clock = 0 };
}

system-Resolves : Resolves system
system-Resolves addr service hints t found e none_ = cc

net_listen-Settled_example :
    Returns
      (Settled listening (0 ∷ 1 ∷ 2 ∷ []) 0)
      (gpr_net_listen system true none (some (56 ∷ 48 ∷ [])) 5 here)
net_listen-Settled_example =
    net_listen-Settled system true none (56 ∷ 48 ∷ []) 5 here fresh system-Resolves refl refl refl
      refl

net_connect-Settled_example :
    Returns
      (Settled connected (0 ∷ 1 ∷ 2 ∷ []) 0)
      (gpr_net_connect system false (some (49 ∷ [])) (some (56 ∷ 48 ∷ [])) (some (57 ∷ [])) here)
net_connect-Settled_example =
    net_connect-Settled system false (49 ∷ []) (56 ∷ 48 ∷ []) (some (57 ∷ [])) here fresh
      system-Resolves refl refl refl refl

net_close-Closed_example :
    Returns
      (λ t w'. Closed (0 ∷ 1 ∷ 2 ∷ []) 0 [] [] w')
      ((gpr_net_listen system true (some (49 ∷ [])) (some (56 ∷ [])) 5 >> gpr_net_close_socket true)
        here)
    × Returns
        (λ t w'. Closed (0 ∷ 1 ∷ 2 ∷ []) 0 [] [] w')
        ((gpr_net_connect system true (some (49 ∷ [])) (some (56 ∷ [])) none
            >> gpr_net_close_socket true)
          here)
net_close-Closed_example =
    net_close-Closed system true (49 ∷ []) (56 ∷ []) none 5 here fresh system-Resolves refl refl
      refl refl
