-- ===== src/Net/Listen.antt =====
-- gpr_net_listen from its start to its end.
use Prim.Native.String.{String}
use mathlib.Core.Path.{subst}
use gpr.Base.{
  ℕ, suc, ◌≡◌, ◌≢◌, refl, sym, ap, ◌∙◌, List, [], ◌∷◌, Option, none, some, Bool, true,
  if◌then◌else◌, inl, inr, and-false,
}
use gpr.Machine.{World, Cmd, ◌>>=◌, ◌>>◌, pure, Returns, Returns-bind, and_then}
use gpr.Err.{GprErr, ok, network_error, gpr_err_raise}
use gpr.Net.{
  NetState, closed, listening, connection_oriented, connection_less, Addrinfo, Answer, result,
  failed, GprSocket, Net, Kernel, get_sock, put_sock, raise_errno, Returns-call, ticked, failing,
}
use gpr.Net.Setup.{close_socket, is_nil}
use gpr.Net.Steps.{current, set_socket_type, resolve_hostname, is_stream, is_ok, resolved}
use gpr.Net.Ops.{set_cur, release_addresses, listen_loop, listened, if_left, gpr_net_listen}
use gpr.Net.Own.{at, Facts, Owns, enter, Resolves}
use gpr.Net.Serve.{
  Closed, Looped, Settled, not_ok, not_pending, close_socket-Closed, released, released_failing,
  listen_loop-Looped,
}

module _ (k : Kernel) (debug : Bool) (base : List ℕ) (n : ℕ) (b : Addrinfo)
    (found : List Addrinfo) where
  -- An endpoint without a name is closed; the address list stays the socket's.
  pub unnamed :
      (state : NetState) (format : String) (cur : List Addrinfo) (y : Option ℕ) (w : World Net)
      → Owns base (suc n) (b ∷ found) cur y w
      → Returns
          (Settled state base n)
          ((close_socket debug >> raise_errno k network_error format) w)
  unfolding gpr_err_raise
  unnamed state format cur y w own =
      Returns-bind (λ t w'. Closed base (suc n) (b ∷ found) cur w') (Settled state base n)
        (close_socket debug w) (λ t. raise_errno k network_error format)
        (close_socket-Closed debug base (suc n) (b ∷ found) cur y w own)
        (λ t v (s, here, f, c). (
          s,
          here,
          inr (
            not_ok network_error refl,
            not_pending network_error refl,
            c,
            f.0,
            f.1,
            counted s f.2 f.4,
          ),
        ))
    where
      counted :
          {m : ℕ} (s : GprSocket)
          → s.res ≡ b ∷ found
          → m ≡ suc n
          → m ≡ (if is_nil s.res then n else suc n)
      counted s r l = l ∙ ap (λ us. if is_nil us then n else suc n) (sym r)

  -- The type of an endpoint that is named, and the end.
  pub typed :
      (state : NetState) (e : GprErr) (d : ℕ) (c : Addrinfo) (more : List Addrinfo) (w : World Net)
      (s : GprSocket)
      → Facts base (suc n) (b ∷ found) (c ∷ more) (some d) w s
      → s.state ≡ state
      → is_ok e ≡ true
      → Returns (Settled state base n) ((set_socket_type debug >> release_addresses e) (at w s))
  unfolding set_socket_type
  typed state e d c more w s f st i = rw (and-false debug) (
      subst
        (λ us. Returns (Settled state base n) (
          and_then
            (and_then (current us (at w s)) (λ a. put_sock (record s {
              type = if is_stream a.ai_socktype then connection_oriented else connection_less;
            })))
            (λ t. release_addresses e)))
        (sym f.3)
        (released k debug base n b found state e d w
          (record s {
            type = if is_stream c.ai_socktype then connection_oriented else connection_less;
          })
          f.2 f.0 f.1 f.4 st i))

  listened-Settled :
      (e : GprErr) (d : ℕ) (c : Addrinfo) (more : List Addrinfo) (w : World Net)
      → Owns base (suc n) (b ∷ found) (c ∷ more) (some d) w
      → is_ok e ≡ true
      → Returns (Settled listening base n) (listened k debug (release_addresses e) w)
  unfolding listened
  listened-Settled e d c more w (s, here, f) i =
      enter (Settled listening base n) (listened k debug (release_addresses e)) w s here (
        Returns-call (Settled listening base n) (k.getsockname s.socket) (at w s) _
          (λ info r.
            typed listening e d c more (ticked w) (record s { sock_info = info; state = listening })
              f refl i)
          (λ errno.
            unnamed listening "getsockname: [Errno %d] %s" (c ∷ more) (some d)
              (failing errno (at w s)) (s, refl, f)))

  left :
      (backlog : ℕ) (e : GprErr) (w : World Net)
      → Looped k debug base (suc n) (b ∷ found) e w
      → Returns
          (Settled listening base n)
          ((get_sock >>= λ t. if_left k debug t.cur (listened k debug) (release_addresses e)) w)
  left backlog e w (inl (d, c, more, (s, here, f), i)) =
      enter (Settled listening base n)
        (get_sock >>= λ t. if_left k debug t.cur (listened k debug) (release_addresses e)) w s here
        (subst
          (λ us.
            Returns (Settled listening base n)
              (if_left k debug us (listened k debug) (release_addresses e) (at w s)))
          (sym f.3) (listened-Settled e d c more (at w s) (s, refl, f) i))
  left backlog e w (inr ((s, here, f, c), i, still)) =
      enter (Settled listening base n)
        (get_sock >>= λ t. if_left k debug t.cur (listened k debug) (release_addresses e)) w s here
        (subst
          (λ us.
            Returns (Settled listening base n)
              (if_left k debug us (listened k debug) (release_addresses e) (at w s)))
          (sym f.3)
          (released_failing k debug base n b found listening e (at w s) (s, refl, f, c) i still))

module _ (k : Kernel) (debug : Bool) (backlog : ℕ) (w : World Net) (s : GprSocket) where
  -- From the loop on, which starts at the first address.
  abbrev listen_from : Cmd Net GprErr → Cmd Net GprErr
  listen_from resolve = resolve >>= λ err.
      if is_ok err
      then (get_sock >>= λ t.
          set_cur t.res
          >> (listen_loop k debug backlog err t.res >>= λ err'.
              get_sock >>= λ u. if_left k debug u.cur (listened k debug) (release_addresses err')))
      else pure err

  resolved-Settled :
      (o : Answer (List Addrinfo))
      → ((found : List Addrinfo) → o ≡ result found → found ≢ [])
      → s.socket ≡ none
      → s.state ≡ closed
      → s.res ≡ []
      → Returns
          (Settled listening w.heap.fds w.heap.lists)
          (listen_from (resolved k debug o) (ticked (at w s)))
  unfolding gpr_err_raise
  resolved-Settled (failed e) some_ none_ c r = (
    s,
    refl,
    inr (
      not_ok network_error refl,
      not_pending network_error refl,
      c,
      none_,
      refl,
      ap (λ us. if is_nil us then w.heap.lists else suc w.heap.lists) (sym r),
    ),
  )
  resolved-Settled (result []) some_ none_ c r = absurd (some_ [] refl refl)
  resolved-Settled (result (b ∷ found)) some_ none_ c r =
      Returns-bind (Looped k debug w.heap.fds (suc w.heap.lists) (b ∷ found))
        (Settled listening w.heap.fds w.heap.lists) _ _
        (listen_loop-Looped k debug w.heap.fds (suc w.heap.lists) (b ∷ found) backlog (b ∷ found) ok
          _
          (record s { res = b ∷ found; cur = b ∷ found }, refl, (none_, refl, refl, refl, refl), c)
          (λ q. absurd (cc)))
        (λ e v l. left k debug w.heap.fds w.heap.lists b found backlog e v l)

-- gpr_net_listen on a closed socket without addresses, in either build, for any answers of the system:
-- it returns. On success the socket is listening, its descriptor is the only one that is new, and the
-- address list is freed. On failure the socket is closed, no descriptor is new, and an address list
-- that was not freed is still the socket's, and the code is not GPR_ERR_PENDING. There is a service, and getaddrinfo gives at least one
-- address when it succeeds.
pub net_listen-Settled :
    (k : Kernel) (debug : Bool) (addr : Option (List ℕ)) (service : List ℕ) (backlog : ℕ)
    (w : World Net) (s : GprSocket)
    → Resolves k
    → w.heap.sock ≡ some s
    → s.socket ≡ none
    → s.state ≡ closed
    → s.res ≡ []
    → Returns
        (Settled listening w.heap.fds w.heap.lists)
        (gpr_net_listen k debug addr (some service) backlog w)
unfolding gpr_net_listen resolve_hostname
net_listen-Settled k debug addr service backlog w s resolves here none_ c r =
    enter (Settled listening w.heap.fds w.heap.lists)
      (gpr_net_listen k debug addr (some service) backlog) w s here
      (rw (and-false debug) (
        rw (and-false debug) (
          resolved-Settled k debug backlog w s
            (k.getaddrinfo addr (some service) s.hints w.heap.clock)
            (λ found e. resolves addr (some service) s.hints w.heap.clock found e) none_ c r)))
