-- ===== src/Net/Close.antt =====
-- gpr_net_close_socket, and gpr_net_listen before it.
use gpr.Base.{
  ℕ, suc, ◌≡◌, refl, sym, ap, ◌∙◌, List, [], ◌∷◌, Option, none, some, Bool, if◌then◌else◌, arith,
  and-false, inl, inr,
}
use gpr.Machine.{World, ◌>>=◌, ◌>>◌, Returns, Returns-bind}
use gpr.Err.{GprErr}
use gpr.Net.{
  NetState, closed, listening, connected, Addrinfo, GprSocket, Net, Kernel, put_sock, get_sock,
}
use gpr.Net.Setup.{close_socket, gpr_net_close_socket, is_nil, free_list}
use gpr.Net.Steps.{opened}
use gpr.Net.Ops.{gpr_net_listen, gpr_net_connect}
use gpr.Net.Own.{at, Facts, enter, Resolves}
use gpr.Net.Serve.{Closed, Settled, close_socket-Closed}
use gpr.Net.Listen.{net_listen-Settled}
use gpr.Net.Connect.{net_connect-Settled}

module _ (debug : Bool) (base : List ℕ) (n : ℕ) where
  freed :
      (res : List Addrinfo) (w : World Net) (s : GprSocket)
      → Facts base (if is_nil res then n else suc n) res s.cur none w s
      → s.state ≡ closed
      → Returns
          (λ t w'. Closed base n [] [] w')
          ((free_list res >> put_sock (record s { res = []; cur = [] })) (at w s))
  freed [] w s f c = (record s { res = []; cur = [] }, refl, (f.0, f.1, refl, refl, f.4), c)
  freed (a ∷ rest) w s f c =
      (record s { res = []; cur = [] }, refl, (f.0, f.1, refl, refl, omega (arith, f.4)), c)

  close-Closed :
      (w : World Net) (s : GprSocket)
      → w.heap.sock ≡ some s
      → w.heap.fds ≡ opened s.socket base
      → w.heap.lists ≡ (if is_nil s.res then n else suc n)
      → Returns (λ t w'. Closed base n [] [] w') (gpr_net_close_socket debug w)
  unfolding gpr_net_close_socket
  close-Closed w s here fds lists =
      enter (λ t w'. Closed base n [] [] w') (gpr_net_close_socket debug) w s here
        (rw (and-false debug) (
          Returns-bind (λ t w'. Closed base (if is_nil s.res then n else suc n) s.res s.cur w')
            (λ t w'. Closed base n [] [] w') (close_socket debug (at w s)) _
            (close_socket-Closed debug base (if is_nil s.res then n else suc n) s.res s.cur s.socket
              (at w s) (s, refl, (refl, fds, refl, refl, lists)))
            (λ t v (s', here', f, c).
              enter (λ u w'. Closed base n [] [] w')
                (get_sock >>= λ q. free_list q.res >> put_sock (record q { res = []; cur = [] })) v
                s' here'
                (freed s'.res v s'
                  (f.0, f.1, refl, refl, f.4 ∙ ap (λ us. if is_nil us then n else suc n) (sym f.2))
                  c))))

  settled-Closed :
      (state : NetState) (e : GprErr) (w : World Net)
      → Settled state base n e w
      → Returns (λ t w'. Closed base n [] [] w') (gpr_net_close_socket debug w)
  settled-Closed state e w (s, here, inl (good, st, (d, sd, fds), r, lists)) =
      close-Closed w s here (fds ∙ ap (λ x. opened x base) (sym sd))
        (lists ∙ ap (λ us. if is_nil us then n else suc n) (sym r))
  settled-Closed state e w (s, here, inr (bad, quiet, st, none_, fds, lists)) =
      close-Closed w s here (fds ∙ ap (λ x. opened x base) (sym none_)) lists

-- gpr_net_close_socket after gpr_net_listen or after gpr_net_connect, whether they succeeded or not,
-- in either build and for any answers of the system: the socket is closed without addresses, the open
-- descriptors are those of before, and so is the number of address lists. The socket was closed and
-- without addresses; there are an address and a service, and getaddrinfo gives at least one address
-- when it succeeds.
pub net_close-Closed :
    (k : Kernel) (debug : Bool) (addr service : List ℕ) (local : Option (List ℕ)) (backlog : ℕ)
    (w : World Net) (s : GprSocket)
    → Resolves k
    → w.heap.sock ≡ some s
    → s.socket ≡ none
    → s.state ≡ closed
    → s.res ≡ []
    → Returns
        (λ t w'. Closed w.heap.fds w.heap.lists [] [] w')
        ((gpr_net_listen k debug (some addr) (some service) backlog >> gpr_net_close_socket debug)
          w)
      × Returns
          (λ t w'. Closed w.heap.fds w.heap.lists [] [] w')
          ((gpr_net_connect k debug (some addr) (some service) local >> gpr_net_close_socket debug)
            w)
net_close-Closed k debug addr service local backlog w s resolves here none_ c r = (
  Returns-bind (Settled listening w.heap.fds w.heap.lists)
      (λ t w'. Closed w.heap.fds w.heap.lists [] [] w')
      (gpr_net_listen k debug (some addr) (some service) backlog w)
      (λ e. gpr_net_close_socket debug)
      (net_listen-Settled k debug (some addr) service backlog w s resolves here none_ c r)
      (λ e v settled. settled-Closed debug w.heap.fds w.heap.lists listening e v settled),
  Returns-bind (Settled connected w.heap.fds w.heap.lists)
      (λ t w'. Closed w.heap.fds w.heap.lists [] [] w')
      (gpr_net_connect k debug (some addr) (some service) local w) (λ e. gpr_net_close_socket debug)
      (net_connect-Settled k debug addr service local w s resolves here none_ c r)
      (λ e v settled. settled-Closed debug w.heap.fds w.heap.lists connected e v settled),
)
