-- ===== src/Net/Dial.antt =====
-- The loop of gpr_net_connect, and what comes behind it.
use mathlib.Core.Path.{subst}
use gpr.Base.{
  ℕ, suc, ◌≡◌, refl, sym, List, [], ◌∷◌, Option, none, some, Bool, true, false, if◌then◌else◌, inl,
  inr,
}
use gpr.Machine.{World, Cmd, ◌>>=◌, ◌>>◌, pure, Returns, Returns-bind}
use gpr.Err.{GprErr}
use gpr.Net.{connected, Addrinfo, GprSocket, Net, Kernel, get_sock, Returns-call, ticked, failing}
use gpr.Net.Setup.{close_socket}
use gpr.Net.Steps.{init_client_socket, connect_to_peer, is_ok}
use gpr.Net.Ops.{is_pending, set_cur, release_addresses, connect_loop, linked_up, if_left}
use gpr.Net.Own.{at, Facts, Owns, enter, Resolves, Kept, keeps_connect}
use gpr.Net.Make.{Made, init_client-Made}
use gpr.Net.Serve.{Closed, Looped, Settled, returns_if, goes_on, released_failing}
use gpr.Net.Listen.{unnamed, typed}

module _ (k : Kernel) (debug : Bool) (local : Option (List ℕ)) (resolves : Resolves k)
    (base : List ℕ) (n : ℕ) (res : List Addrinfo) where
  -- The loop is not left with a connection in progress.
  abbrev pub Dialled : Option GprErr → World Net → Type 0
  Dialled none w = ⊥
  Dialled (some e) w = Looped k debug base n res e w

  dial_round :
      (a : Addrinfo) (rest : List Addrinfo) (go : GprErr → Cmd Net (Option GprErr))
      → ((e : GprErr)
          → is_ok e ≡ false
          → is_pending e ≡ false
          → (y : Option ℕ) (v : World Net) → Owns base n res (a ∷ rest) y v
          → Returns Dialled (go e v))
      → (w : World Net) (s : GprSocket) → Facts base n res (a ∷ rest) none w s
      → Returns Dialled (
          (init_client_socket k debug local >>= λ e.
          if is_ok e
          then (connect_to_peer k debug local >>= λ e'.
              if is_ok e' then pure (some e') else if is_pending e' then pure none else go e')
          else go e)
            (at w s))
  dial_round a rest go again w s f =
      Returns-bind (Made k debug base n res rest a) Dialled
        (init_client_socket k debug local (at w s)) _
        (init_client-Made k debug base n res rest a local w s f)
        (λ e w' (y, own, still, ready).
          returns_if Dialled (is_ok e)
            (connect_to_peer k debug local >>= λ e'.
              if is_ok e' then pure (some e') else if is_pending e' then pure none else go e')
            (go e) w'
            (λ i.
              let (d, same) = ready i in
              reached d w' (subst (λ z. Owns base n res (a ∷ rest) z w') same own))
            (λ i. again e i still y w' own))
    where
      reached :
          (d : ℕ) (v : World Net)
          → Owns base n res (a ∷ rest) (some d) v
          → Returns Dialled (
              (connect_to_peer k debug local >>= λ e'.
              if is_ok e' then pure (some e') else if is_pending e' then pure none else go e')
                v)
      reached d v (s', here, g) =
          Returns-bind (Kept k debug base n res (a ∷ rest) (some d)) Dialled
            (connect_to_peer k debug local v) _
            (enter (Kept k debug base n res (a ∷ rest) (some d)) (connect_to_peer k debug local) v
              s' here (keeps_connect k debug base n res rest a (some d) resolves local v s' g))
            (λ e' u (own, still).
              returns_if Dialled (is_ok e') (pure (some e'))
                (if is_pending e' then pure none else go e') u (λ i. inl (d, a, rest, own, i))
                (λ i. rw still (again e' i still (some d) u own)))

  pub connect_loop-Dialled :
      (addresses : List Addrinfo) (err : GprErr) (w : World Net)
      → Closed base n res addresses w
      → (addresses ≡ [] → (is_ok err ≡ false) × (is_pending err ≡ false))
      → Returns Dialled (connect_loop k debug local err addresses w)
  unfolding connect_loop
  connect_loop-Dialled [] err w c none_ = inr (c, (none_ refl).0, (none_ refl).1)
  connect_loop-Dialled (a ∷ rest) err w (s, here, f, c) none_ =
      enter Dialled (connect_loop k debug local err (a ∷ rest)) w s here (
        dial_round a rest
          (λ e. close_socket debug >> set_cur rest >> connect_loop k debug local e rest)
          (λ e i still y v own.
            goes_on debug base n res rest a Dialled (connect_loop k debug local e rest) y v own
              (λ u c'. connect_loop-Dialled rest e u c' (λ q. (i, still))))
          w s f)

module _ (k : Kernel) (debug : Bool) (base : List ℕ) (n : ℕ) (b : Addrinfo)
    (found : List Addrinfo) where
  linked_up-Settled :
      (e : GprErr) (d : ℕ) (c : Addrinfo) (more : List Addrinfo) (w : World Net)
      → Owns base (suc n) (b ∷ found) (c ∷ more) (some d) w
      → is_ok e ≡ true
      → Returns (Settled connected base n) (linked_up k debug (release_addresses e) w)
  unfolding linked_up
  linked_up-Settled e d c more w (s, here, f) i =
      enter (Settled connected base n) (linked_up k debug (release_addresses e)) w s here (
        Returns-call (Settled connected base n) (k.getsockname s.socket) (at w s) _
          (λ info r.
            Returns-call (Settled connected base n) (k.getpeername s.socket)
              (at (ticked w) (record s { sock_info = info })) _
              (λ peer r'.
                typed k debug base n b found connected e d c more (ticked (ticked w))
                  (record s { sock_info = info; peer_info = peer; state = connected }) f refl i)
              (λ errno.
                unnamed k debug base n b found connected "getpeername: [Errno %d] %s" (c ∷ more)
                  (some d) (failing errno (at (ticked w) (record s { sock_info = info })))
                  (record s { sock_info = info }, refl, f)))
          (λ errno.
            unnamed k debug base n b found connected "getsockname: [Errno %d] %s" (c ∷ more)
              (some d) (failing errno (at w s)) (s, refl, f)))

  pub dialled :
      (e : GprErr) (w : World Net)
      → Looped k debug base (suc n) (b ∷ found) e w
      → Returns
          (Settled connected base n)
          ((get_sock >>= λ t. if_left k debug t.cur (linked_up k debug) (release_addresses e)) w)
  dialled e w (inl (d, c, more, (s, here, f), i)) =
      enter (Settled connected base n)
        (get_sock >>= λ t. if_left k debug t.cur (linked_up k debug) (release_addresses e)) w s here
        (subst
          (λ us.
            Returns (Settled connected base n)
              (if_left k debug us (linked_up k debug) (release_addresses e) (at w s)))
          (sym f.3) (linked_up-Settled e d c more (at w s) (s, refl, f) i))
  dialled e w (inr ((s, here, f, c), i, still)) =
      enter (Settled connected base n)
        (get_sock >>= λ t. if_left k debug t.cur (linked_up k debug) (release_addresses e)) w s here
        (subst
          (λ us.
            Returns (Settled connected base n)
              (if_left k debug us (linked_up k debug) (release_addresses e) (at w s)))
          (sym f.3)
          (released_failing k debug base n b found connected e (at w s) (s, refl, f, c) i still))
