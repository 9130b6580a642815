-- ===== src/Net/Serve.antt =====
-- gpr_net_listen: the endpoint and the address lists at its end.
use mathlib.Core.Path.{subst}
use gpr.Base.{
  ℕ, suc, ◌≡◌, ◌≢◌, refl, sym, ap, ◌∙◌, List, [], ◌∷◌, Option, none, some, Bool, true, false,
  if◌then◌else◌, inl, inr, ◌⊎◌, arith, and-false, eq→==,
}
use gpr.Machine.{World, Cmd, ◌>>=◌, ◌>>◌, pure, Returns, Returns-bind}
use gpr.Err.{
  GprErr, ok, ko, invalid_parameter, memory_failure, loop_detected, not_implemented, network_error,
  pending,
}
use gpr.Net.{
  NetState, closed, Addrinfo, no_sockaddr, GprSocket, Net, Kernel, put_sock, freeaddrinfo, close,
  without,
}
use gpr.Net.Setup.{close_socket, is_nil}
use gpr.Net.Steps.{init_server_socket, listen_to_service, is_ok}
use gpr.Net.Ops.{is_pending, set_cur, release_addresses, listen_loop}
use gpr.Net.Own.{at, Facts, Owns, enter, Kept, keeps_listen}
use gpr.Net.Make.{Made, init_server-Made}

abbrev pub Closed : List ℕ → ℕ → List Addrinfo → List Addrinfo → World Net → Type 0
Closed base n res cur w =
    (s : GprSocket) × (w.heap.sock ≡ some s) × Facts base n res cur none w s × (s.state ≡ closed)

pub ok_of : (e : GprErr) → is_ok e ≡ true → e ≡ ok
ok_of ok i = refl
ok_of ko i = cc
ok_of invalid_parameter i = cc
ok_of memory_failure i = cc
ok_of loop_detected i = cc
ok_of not_implemented i = cc
ok_of network_error i = cc
ok_of pending i = cc

pub not_ok : (e : GprErr) → is_ok e ≡ false → e ≢ ok
not_ok e i same = absurd (bad (subst (λ z. is_ok z ≡ false) same i))
  where
    bad : true ≡ false → ⊥
    bad b = cc

pub not_pending : (e : GprErr) → is_pending e ≡ false → e ≢ pending
not_pending e i same = absurd (bad (subst (λ z. is_pending z ≡ false) same i))
  where
    bad : true ≡ false → ⊥
    bad b = cc

pub returns_if :
    {A : Type 0} (Q : A → World Net → Type 0) (b : Bool) (p q : Cmd Net A) (w : World Net)
    → (b ≡ true → Returns Q (p w))
    → (b ≡ false → Returns Q (q w))
    → Returns Q ((if b then p else q) w)
returns_if Q true p q w yes_ no_ = yes_ refl
returns_if Q false p q w yes_ no_ = no_ refl

module _ (debug : Bool) (base : List ℕ) (n : ℕ) (res cur : List Addrinfo) where
  close-Closed :
      (y : Option ℕ) (w : World Net) (s : GprSocket)
      → Facts base n res cur y w s
      → Returns
          (λ t w'. Closed base n res cur w')
          ((close y
              >> put_sock (record s {
                socket = none;
                state = closed;
                sock_info = no_sockaddr;
                peer_info = no_sockaddr;
              }))
            (at w s))
  close-Closed none w s f = (
    record s { socket = none; state = closed; sock_info = no_sockaddr; peer_info = no_sockaddr },
    refl,
    (refl, f.1, f.2, f.3, f.4),
    refl,
  )
  close-Closed (some d) w s f = (
    record s { socket = none; state = closed; sock_info = no_sockaddr; peer_info = no_sockaddr },
    refl,
    (refl, ap (λ fds. without fds d) f.1 ∙ first_out, f.2, f.3, f.4),
    refl,
  )
    where
      first_out : without (d ∷ base) d ≡ base
      first_out = rw (eq→== d d refl) refl

  pub close_socket-Closed :
      (y : Option ℕ) (w : World Net)
      → Owns base n res cur y w
      → Returns (λ t w'. Closed base n res cur w') (close_socket debug w)
  unfolding close_socket
  close_socket-Closed y w (s, here, f) =
      enter (λ t w'. Closed base n res cur w') (close_socket debug) w s here
        (rw (and-false debug) (
          subst
            (λ o.
              Returns (λ t w'. Closed base n res cur w')
                ((close o
                    >> put_sock (record s {
                      socket = none;
                      state = closed;
                      sock_info = no_sockaddr;
                      peer_info = no_sockaddr;
                    }))
                  (at w s)))
            (sym f.0) (close-Closed y w s f)))

module _ (debug : Bool) (base : List ℕ) (n : ℕ) (res rest : List Addrinfo) (a : Addrinfo) where
  -- The end of a round that failed.
  pub goes_on :
      {B : Type 0} (Q : B → World Net → Type 0) (m : Cmd Net B) (y : Option ℕ) (w : World Net)
      → Owns base n res (a ∷ rest) y w
      → ((v : World Net) → Closed base n res rest v → Returns Q (m v))
      → Returns Q ((close_socket debug >> set_cur rest >> m) w)
  goes_on Q m y w own next =
      Returns-bind (λ t w'. Closed base n res rest w') Q ((close_socket debug >> set_cur rest) w)
        (λ t. m)
        (Returns-bind (λ t w'. Closed base n res (a ∷ rest) w') (λ t w'. Closed base n res rest w')
          (close_socket debug w) (λ t. set_cur rest)
          (close_socket-Closed debug base n res (a ∷ rest) y w own)
          (λ t w' (s, here, f, c).
            enter (λ u v. Closed base n res rest v) (set_cur rest) w' s here
              (record s { cur = rest }, refl, (f.0, f.1, f.2, refl, f.4), c)))
        (λ t v c. next v c)

module _ (k : Kernel) (debug : Bool) (base : List ℕ) (n : ℕ) (res : List Addrinfo) where
  -- What the loops over addresses leave: one endpoint that is open, or none.
  abbrev pub Looped : GprErr → World Net → Type 0
  Looped e w =
      ((d : ℕ) × (b : Addrinfo) × (more : List Addrinfo) × Owns base n res (b ∷ more) (some d) w
        × (is_ok e ≡ true))
      ⊎ (Closed base n res [] w × (is_ok e ≡ false) × (is_pending e ≡ false))

  -- A round: `go` is what is done when it failed.
  listen_round :
      (backlog : ℕ) (a : Addrinfo) (rest : List Addrinfo) (go : GprErr → Cmd Net GprErr)
      → ((e : GprErr)
          → is_ok e ≡ false
          → is_pending e ≡ false
          → (y : Option ℕ) (v : World Net) → Owns base n res (a ∷ rest) y v
          → Returns Looped (go e v))
      → (w : World Net) (s : GprSocket) → Facts base n res (a ∷ rest) none w s
      → Returns Looped (
          (init_server_socket k debug >>= λ e.
          if is_ok e
          then (listen_to_service k debug backlog >>= λ e'. if is_ok e' then pure e' else go e')
          else go e)
            (at w s))
  listen_round backlog a rest go again w s f =
      Returns-bind (Made k debug base n res rest a) Looped (init_server_socket k debug (at w s)) _
        (init_server-Made k debug base n res rest a w s f)
        (λ e w' (y, own, still, ready).
          returns_if Looped (is_ok e)
            (listen_to_service k debug backlog >>= λ e'. if is_ok e' then pure e' else go e') (go e)
            w'
            (λ i.
              let (d, same) = ready i in
              served d w' (subst (λ z. Owns base n res (a ∷ rest) z w') same own))
            (λ i. again e i still y w' own))
    where
      served :
          (d : ℕ) (v : World Net)
          → Owns base n res (a ∷ rest) (some d) v
          → Returns Looped
              ((listen_to_service k debug backlog >>= λ e'. if is_ok e' then pure e' else go e') v)
      served d v (s', here, g) =
          Returns-bind (Kept k debug base n res (a ∷ rest) (some d)) Looped
            (listen_to_service k debug backlog v) _
            (enter (Kept k debug base n res (a ∷ rest) (some d)) (listen_to_service k debug backlog)
              v s' here (keeps_listen k debug base n res rest a (some d) backlog v s' g))
            (λ e' u (own, still).
              returns_if Looped (is_ok e') (pure e') (go e') u (λ i. inl (d, a, rest, own, i))
                (λ i. again e' i still (some d) u own))

  pub listen_loop-Looped :
      (backlog : ℕ) (addresses : List Addrinfo) (err : GprErr) (w : World Net)
      → Closed base n res addresses w
      → (addresses ≡ [] → (is_ok err ≡ false) × (is_pending err ≡ false))
      → Returns Looped (listen_loop k debug backlog err addresses w)
  unfolding listen_loop
  listen_loop-Looped backlog [] err w c none_ = inr (c, (none_ refl).0, (none_ refl).1)
  listen_loop-Looped backlog (a ∷ rest) err w (s, here, f, c) none_ =
      enter Looped (listen_loop k debug backlog err (a ∷ rest)) w s here (
        listen_round backlog a rest
          (λ e. close_socket debug >> set_cur rest >> listen_loop k debug backlog e rest)
          (λ e i still y v own.
            goes_on debug base n res rest a Looped (listen_loop k debug backlog e rest) y v own
              (λ u c'. listen_loop-Looped backlog rest e u c' (λ q. (i, still))))
          w s f)

-- The memory at the end of gpr_net_listen and gpr_net_connect: on success the socket is in the state,
-- its descriptor is the only new one, and the address list is freed; on failure the socket is closed,
-- no descriptor is new, an address list that was not freed is still the socket's, and the code is
-- not GPR_ERR_PENDING.
abbrev pub Settled : NetState → List ℕ → ℕ → GprErr → World Net → Type 0
Settled state base n e w =
    (s : GprSocket) × (w.heap.sock ≡ some s)
    × (((e ≡ ok)
          × (s.state ≡ state)
          × ((d : ℕ) × (s.socket ≡ some d) × (w.heap.fds ≡ d ∷ base))
          × (s.res ≡ [])
          × (w.heap.lists ≡ n))
        ⊎ ((e ≢ ok)
            × (e ≢ pending)
            × (s.state ≡ closed)
            × (s.socket ≡ none)
            × (w.heap.fds ≡ base)
            × (w.heap.lists ≡ (if is_nil s.res then n else suc n))))

module _ (k : Kernel) (debug : Bool) (base : List ℕ) (n : ℕ) (b : Addrinfo) (found : List Addrinfo)
    (state : NetState) where
  -- The list of addresses is freed, after the loop failed and after it succeeded.
  pub released_failing :
      (e : GprErr) (w : World Net)
      → Closed base (suc n) (b ∷ found) [] w
      → is_ok e ≡ false
      → is_pending e ≡ false
      → Returns (Settled state base n) (release_addresses e w)
  unfolding release_addresses
  released_failing e w (s, here, f, c) i still =
      enter (Settled state base n) (release_addresses e) w s here (
        subst
          (λ us.
            Returns (Settled state base n) (
              (freeaddrinfo us >> (put_sock (record s { res = []; cur = [] }) >> pure e)) (at w s)))
          (sym f.2)
          (
            record s { res = []; cur = [] },
            refl,
            inr (not_ok e i, not_pending e still, c, f.0, f.1, omega (arith, f.4)),
          ))

  pub released :
      (e : GprErr) (d : ℕ) (w : World Net) (s : GprSocket)
      → s.res ≡ b ∷ found
      → s.socket ≡ some d
      → w.heap.fds ≡ d ∷ base
      → w.heap.lists ≡ suc n
      → s.state ≡ state
      → is_ok e ≡ true
      → Returns (Settled state base n) (release_addresses e (at w s))
  unfolding release_addresses
  released e d w s r sd fd l st i =
      subst
        (λ us.
          Returns (Settled state base n)
            ((freeaddrinfo us >> (put_sock (record s { res = []; cur = [] }) >> pure e)) (at w s)))
        (sym r)
        (
          record s { res = []; cur = [] },
          refl,
          inl (ok_of e i, st, (d, sd, fd), refl, omega (arith, l)),
        )
