-- ===== src/Net/Own.antt =====
-- What the static functions of src/gpr_net.c keep: the socket's descriptor is the only one open over
-- those that were, and the address lists are accounted for.
use Prim.Native.String.{String}
use mathlib.Core.Path.{subst}
use gpr.Base.{
  ℕ, zero, suc, ◌≡◌, ◌≢◌, refl, sym, ap, List, [], ◌∷◌, Option, none, some, Bool, true, false,
  if◌then◌else◌, ◌==◌, arith, and-false,
}
use gpr.Machine.{World, Cmd, ◌>>=◌, ◌>>◌, pure, Returns, Returns-bind, and_then}
use gpr.Err.{GprErr, network_error, success, gpr_err_raise}
use gpr.Net.{
  connecting, Addrinfo, Answer, result, failed, GprSocket, Net, Kernel, call, put_sock, raise_errno,
  freeaddrinfo, Returns-call, ticked, failing,
}
use gpr.Net.Steps.{
  current, answer_err, set_nonblocking, reuse_address, listen_to_service, is_stream, opened, is_ok,
  is_none, bind_loop, local_err, bound_local, bind_to_local_service, so_error_err, poll_err,
  check_connection_progress, connect_first, connect_to_peer, is_connecting,
}
use gpr.Net.Ops.{is_pending}

abbrev pub at : World Net → GprSocket → World Net
at w s = record w { heap = record w.heap { sock = some s } }

-- The socket has the endpoint `x` and these addresses; `x` is what is open over `base`.
abbrev pub Facts :
    List ℕ → ℕ → List Addrinfo → List Addrinfo → Option ℕ → World Net → GprSocket → Type 0
Facts base n res cur x w s =
    (s.socket ≡ x)
    × (w.heap.fds ≡ opened x base)
    × (s.res ≡ res)
    × (s.cur ≡ cur)
    × (w.heap.lists ≡ n)

abbrev pub Owns : List ℕ → ℕ → List Addrinfo → List Addrinfo → Option ℕ → World Net → Type 0
Owns base n res cur x w = (s : GprSocket) × (w.heap.sock ≡ some s) × Facts base n res cur x w s

-- A command may be run where the socket is written out.
pub enter :
    {A : Type 0} (Q : A → World Net → Type 0) (m : Cmd Net A) (w : World Net) (s : GprSocket)
    → w.heap.sock ≡ some s
    → Returns Q (m (at w s))
    → Returns Q (m w)
enter Q m w s e r =
    subst (λ o. Returns Q (m (record w { heap = record w.heap { sock = o } }))) (sym e) r

-- getaddrinfo gives at least one address.
abbrev pub Resolves : Kernel → Type 0
Resolves k =
    (addr service : Option (List ℕ)) (hints : Addrinfo) (t : ℕ) (found : List Addrinfo)
    → k.getaddrinfo addr service hints t ≡ result found
    → found ≢ []

module _ (k : Kernel) (debug : Bool) (base : List ℕ) (n : ℕ) (res cur : List Addrinfo)
    (x : Option ℕ) where
  abbrev pub Kept : GprErr → World Net → Type 0
  Kept e w = Owns base n res cur x w × (is_pending e ≡ false)

  -- The endpoint and the addresses stay.
  abbrev pub Keeps : Cmd Net GprErr → Type 0
  Keeps m = (w : World Net) (s : GprSocket) → Facts base n res cur x w s → Returns Kept (m (at w s))

  pub Keeps-success : Keeps success
  unfolding gpr_err_raise
  Keeps-success w s f = ((s, refl, f), refl)

  pub Keeps-errno : (format : String) → Keeps (raise_errno k network_error format)
  unfolding gpr_err_raise
  Keeps-errno format w s f = ((s, refl, f), refl)

  pub Keeps-answer :
      (f : ℕ → Answer (Unit {0})) (format : String) (go : Cmd Net GprErr)
      → Keeps go
      → Keeps (call f >>= λ o. answer_err k format o go)
  unfolding gpr_err_raise
  Keeps-answer f format go keep w s facts =
      Returns-call Kept f (at w s) _ (λ u e. keep (ticked w) s facts)
        (λ e. ((s, refl, facts), refl))

  pub Keeps-if : (b : Bool) (p q : Cmd Net GprErr) → Keeps p → Keeps q → Keeps (if b then p else q)
  Keeps-if true p q kp kq = kp
  Keeps-if false p q kp kq = kq

  pub Keeps-nonblocking : Keeps (set_nonblocking k debug)
  unfolding set_nonblocking
  Keeps-nonblocking w s f =
      Keeps-if s.nonblock _ success
        (Keeps-answer (k.set_nonblock s.socket) "fcntl: [Errno %d] %s" success Keeps-success)
        Keeps-success w s f

  pub Keeps-reuse : (go : Cmd Net GprErr) → Keeps go → Keeps (reuse_address k debug go)
  unfolding reuse_address
  Keeps-reuse go keep w s f =
      Keeps-answer (k.set_reuseaddr s.socket) "setsockopt: [Errno %d] %s" go keep w s f

  pub Keeps-progress : Keeps (check_connection_progress k debug)
  unfolding check_connection_progress gpr_err_raise
  Keeps-progress w s f =
      rw (and-false debug) (
        Returns-call Kept (k.poll s.socket) (at w s) _ (λ r e. polled r)
          (λ e. ((s, refl, f), refl)))
    where
      so_error :
          (w' : World Net)
          → Facts base n res cur x w' s
          → (r : ℕ) → Returns Kept (so_error_err k debug (some r) (at w' s))
      so_error w' g zero = ((s, refl, g), refl)
      so_error w' g (suc r) = ((s, refl, g), refl)

      polled :
          (r : ℕ)
          → Returns Kept (
              poll_err k debug
                (some r)
                (call (k.get_so_error s.socket) >>= so_error_err k debug)
                (ticked (at w s)))
      polled zero = ((s, refl, f), refl)
      polled (suc r) =
          Returns-call Kept (k.get_so_error s.socket) (ticked (at w s)) _
            (λ r' e. so_error (ticked (ticked w)) f r') (λ e. ((s, refl, f), refl))

module _ (k : Kernel) (debug : Bool) (base : List ℕ) (n : ℕ) (res rest : List Addrinfo)
    (a : Addrinfo) (x : Option ℕ) where
  abbrev pub KeepsHere : Cmd Net GprErr → Type 0
  KeepsHere = Keeps k debug base n res (a ∷ rest) x

  keeps_current :
      (w : World Net) (s : GprSocket) (m : Addrinfo → Cmd Net GprErr)
      → s.cur ≡ a ∷ rest
      → Returns (Kept k debug base n res (a ∷ rest) x) (m a (at w s))
      → Returns (Kept k debug base n res (a ∷ rest) x) (and_then (current s.cur (at w s)) m)
  keeps_current w s m e r =
      subst
        (λ us. Returns (Kept k debug base n res (a ∷ rest) x) (and_then (current us (at w s)) m))
        (sym e) r

  pub keeps_listen : (backlog : ℕ) → KeepsHere (listen_to_service k debug backlog)
  unfolding listen_to_service
  keeps_listen backlog w s f = rw (and-false debug) (
      keeps_current w s _ f.3 (
        Keeps-answer k debug base n res (a ∷ rest) x (k.bind s.socket a.ai_addr)
          "bind: [Errno %d] %s" _
          (Keeps-if k debug base n res (a ∷ rest) x (is_stream a.ai_socktype) _ success
            (Keeps-answer k debug base n res (a ∷ rest) x (k.listen s.socket backlog)
              "listen: [Errno %d] %s" success (Keeps-success k debug base n res (a ∷ rest) x))
            (Keeps-success k debug base n res (a ∷ rest) x))
          w s f))

  keeps_connect_first : KeepsHere (connect_first k debug)
  unfolding connect_first gpr_err_raise
  keeps_connect_first w s f = keeps_current w s _ f.3 (
      Returns-call (Kept k debug base n res (a ∷ rest) x) (k.connect s.socket a.ai_addr) (at w s) _
        (λ u e. ((s, refl, f), refl))
        (λ e.
          Keeps-if k debug base n res (a ∷ rest) x (e == 115)
            (put_sock (record s { state = connecting }) >> check_connection_progress k debug) _
            (λ w' s' f'.
              Keeps-progress k debug base n res (a ∷ rest) x w' (record s { state = connecting })
                (f.0, f'.1, f.2, f.3, f'.4))
            (Keeps-errno k debug base n res (a ∷ rest) x "connect: [Errno %d] %s") (failing e w) s
            f))

  -- The attempts to bind change nothing but the number of calls and `errno`.
  keeps_bind_loop :
      (found : List Addrinfo) (m : ℕ) (w : World Net) (s : GprSocket)
      → Facts base m res (a ∷ rest) x w s
      → Returns
          (λ b w'. (v : World Net) × (w' ≡ at v s) × Facts base m res (a ∷ rest) x v s)
          (bind_loop k debug s.socket found (at w s))
  unfolding bind_loop
  keeps_bind_loop [] m w s f = (w, refl, f)
  keeps_bind_loop (b ∷ found) m w s f =
      Returns-call _ (k.bind s.socket b.ai_addr) (at w s) _ (λ u e. (ticked w, refl, f))
        (λ e. keeps_bind_loop found m (failing e w) s f)

  keeps_bound :
      (w : World Net) (s : GprSocket) (o : Answer (List Addrinfo))
      → ((found : List Addrinfo) → o ≡ result found → found ≢ [])
      → Facts base n res (a ∷ rest) x w s
      → Returns (Kept k debug base n res (a ∷ rest) x) (bound_local k debug s.socket o (at w s))
  unfolding gpr_err_raise
  keeps_bound w s (failed e) some_ f = ((s, refl, f), refl)
  keeps_bound w s (result []) some_ f = absurd (some_ [] refl refl)
  keeps_bound w s (result (b ∷ found)) some_ f =
      Returns-bind {A = Bool}
        (λ t w'. (v : World Net) × (w' ≡ at v s) × Facts base (suc n) res (a ∷ rest) x v s)
        (Kept k debug base n res (a ∷ rest) x)
        (bind_loop k debug s.socket (b ∷ found)
          (at (record w { heap = record w.heap { lists = suc w.heap.lists } }) s))
        (λ t. freeaddrinfo (b ∷ found) >> local_err k debug t)
        (keeps_bind_loop (b ∷ found) (suc n)
          (record w { heap = record w.heap { lists = suc w.heap.lists } }) s
          (f.0, f.1, f.2, f.3, ap suc f.4))
        (λ ran w' (v, e, g).
          subst
            (λ u.
              Returns (Kept k debug base n res (a ∷ rest) x)
                ((freeaddrinfo (b ∷ found) >> local_err k debug ran) u))
            (sym e) (freed ran v g))
    where
      freed :
          (ran : Bool) (v : World Net)
          → Facts base (suc n) res (a ∷ rest) x v s
          → Returns
              (Kept k debug base n res (a ∷ rest) x)
              ((freeaddrinfo (b ∷ found) >> local_err k debug ran) (at v s))
      freed true v g = ((s, refl, (g.0, g.1, g.2, g.3, omega (arith, g.4))), refl)
      freed false v g = ((s, refl, (g.0, g.1, g.2, g.3, omega (arith, g.4))), refl)

  keeps_bind_local :
      Resolves k
      → (local : Option (List ℕ)) → is_none local ≡ false
      → KeepsHere (bind_to_local_service k debug local)
  unfolding bind_to_local_service
  keeps_bind_local resolves local given w s f =
      rw (given, and-false debug)
        (keeps_current w s _ f.3
          (keeps_bound (ticked w) s _ (λ found e. resolves none local _ _ found e) f))

  keeps_then :
      (m : Cmd Net GprErr)
      → KeepsHere m
      → KeepsHere (m >>= λ e. if is_ok e then connect_first k debug else pure e)
  keeps_then m keep w s f =
      Returns-bind (Kept k debug base n res (a ∷ rest) x) (Kept k debug base n res (a ∷ rest) x)
        (m (at w s)) _ (keep w s f)
        (λ e w' ((s', here, g), still).
          enter (Kept k debug base n res (a ∷ rest) x)
            (if is_ok e then connect_first k debug else pure e) w' s' here
            (Keeps-if k debug base n res (a ∷ rest) x (is_ok e) (connect_first k debug) (pure e)
              keeps_connect_first (λ v t h. ((t, refl, h), still)) w' s' g))

  keeps_attempt :
      Resolves k
      → (local : Option (List ℕ))
      → KeepsHere (
          if is_none local
          then connect_first k debug
          else bind_to_local_service k debug local >>= λ e.
              if is_ok e then connect_first k debug else pure e)
  keeps_attempt resolves none = keeps_connect_first
  keeps_attempt resolves (some t) =
      keeps_then (bind_to_local_service k debug (some t)) (keeps_bind_local resolves (some t) refl)

  pub keeps_connect :
      Resolves k → (local : Option (List ℕ)) → KeepsHere (connect_to_peer k debug local)
  unfolding connect_to_peer
  keeps_connect resolves local w s f = rw (and-false debug) (
      Keeps-if k debug base n res (a ∷ rest) x (is_connecting s.state) _ _
        (Keeps-progress k debug base n res (a ∷ rest) x) (keeps_attempt resolves local) w s f)
