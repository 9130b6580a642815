-- ===== src/Net/Make.antt =====
-- init_server_socket and init_client_socket: the endpoint that they leave.
use mathlib.Core.Path.{subst}
use gpr.Base.{ℕ, ◌≡◌, refl, sym, ap, List, ◌∷◌, Option, none, some, Bool, true, false, and-false}
use gpr.Machine.{World, done, Cmd, ◌>>=◌, ◌>>◌, pure, Returns, Returns-bind, Returns-mono, and_then}
use gpr.Err.{GprErr, gpr_err_raise}
use gpr.Net.{Addrinfo, GprSocket, Net, Kernel, call, put_sock, Returns-call, ticked, failing}
use gpr.Net.Steps.{
  current, set_nonblocking, reuse_address, open_endpoint, endpoint_err, init_server_socket,
  init_client_socket, opened, is_ok, is_none,
}
use gpr.Net.Ops.{is_pending}
use gpr.Net.Own.{at, Facts, Owns, Kept, Keeps, Keeps-if, Keeps-nonblocking, Keeps-reuse}

module _ (k : Kernel) (debug : Bool) (base : List ℕ) (n : ℕ) (res rest : List Addrinfo)
    (a : Addrinfo) where
  -- The endpoint that is made: the socket has it, and it is open.
  abbrev pub Made : GprErr → World Net → Type 0
  Made e w =
      (y : Option ℕ) × Owns base n res (a ∷ rest) y w
      × (is_pending e ≡ false)
      × (is_ok e ≡ true → (d : ℕ) × (y ≡ some d))

  -- The socket with the endpoint that the system gave, in some memory.
  abbrev Opened : GprSocket → Option ℕ → World Net → Type 0
  Opened s fd w' =
      (v : World Net) × (w' ≡ at v (record s { socket = fd }))
      × Facts base n res (a ∷ rest) fd v (record s { socket = fd })

  opens :
      (w : World Net) (s : GprSocket)
      → Facts base n res (a ∷ rest) none w s
      → Returns (Opened s) (open_endpoint k debug (at w s))
  unfolding open_endpoint
  opens w s f =
      subst
        (λ us. Returns (Opened s) (
          and_then (current us (at w s)) (λ b.
            call (k.open_socket b.ai_family b.ai_socktype b.ai_protocol) >>= λ fd.
            put_sock (record s { socket = fd })
            >> (λ v. done tt (record v { heap = record v.heap { fds = opened fd v.heap.fds } }))
            >> pure fd)))
        (sym f.3)
        (Returns-call (Opened s) (k.open_socket a.ai_family a.ai_socktype a.ai_protocol) (at w s) _
          (λ d e. (
            record (ticked w) { heap = record (ticked w).heap { fds = d ∷ w.heap.fds } },
            refl,
            (refl, ap (λ us. d ∷ us) f.1, f.2, f.3, f.4),
          ))
          (λ e. (failing e w, refl, (refl, f.1, f.2, f.3, f.4))))

  endpoint-Made :
      (go : Cmd Net GprErr)
      → ((d : ℕ) → Keeps k debug base n res (a ∷ rest) (some d) go)
      → (w : World Net) (s : GprSocket) → Facts base n res (a ∷ rest) none w s
      → Returns Made ((open_endpoint k debug >>= λ fd. endpoint_err k debug fd go) (at w s))
  unfolding gpr_err_raise
  endpoint-Made go keep w s f =
      Returns-bind (Opened s) Made (open_endpoint k debug (at w s))
        (λ fd. endpoint_err k debug fd go) (opens w s f)
        (λ fd w' (v, e, g).
          subst (λ u. Returns Made (endpoint_err k debug fd go u)) (sym e) (made fd v g))
    where
      made :
          (fd : Option ℕ) (v : World Net)
          → Facts base n res (a ∷ rest) fd v (record s { socket = fd })
          → Returns Made (endpoint_err k debug fd go (at v (record s { socket = fd })))
      made none v g = (none, (record s { socket = none }, refl, g), refl, λ i. cc)
      made (some d) v g =
          Returns-mono (Kept k debug base n res (a ∷ rest) (some d)) Made _
            (keep d v (record s { socket = some d }) g)
            (λ e u (own, still). (some d, own, still, λ i. (d, refl)))

  pub init_server-Made :
      (w : World Net) (s : GprSocket)
      → Facts base n res (a ∷ rest) none w s
      → Returns Made (init_server_socket k debug (at w s))
  unfolding init_server_socket
  init_server-Made w s f = rw (and-false debug) (
      endpoint-Made (reuse_address k debug (set_nonblocking k debug))
        (λ d.
          Keeps-reuse k debug base n res (a ∷ rest) (some d) _
            (Keeps-nonblocking k debug base n res (a ∷ rest) (some d)))
        w s f)

  pub init_client-Made :
      (local : Option (List ℕ)) (w : World Net) (s : GprSocket)
      → Facts base n res (a ∷ rest) none w s
      → Returns Made (init_client_socket k debug local (at w s))
  unfolding init_client_socket
  init_client-Made local w s f = rw (and-false debug) (
      endpoint-Made _
        (λ d.
          Keeps-if k debug base n res (a ∷ rest) (some d) (is_none local) _ _
            (Keeps-nonblocking k debug base n res (a ∷ rest) (some d))
            (Keeps-reuse k debug base n res (a ∷ rest) (some d) _
              (Keeps-nonblocking k debug base n res (a ∷ rest) (some d))))
        w s f)
