-- ===== src/Net/Connect.antt =====
-- gpr_net_connect from its start to its end.
use mathlib.Core.Path.{subst}
use gpr.Base.{
  ℕ, suc, ◌≡◌, ◌≢◌, refl, sym, ap, List, [], ◌∷◌, Option, none, some, Bool, if◌then◌else◌, inr,
  and-false,
}
use gpr.Machine.{World, Cmd, ◌>>=◌, ◌>>◌, pure, Returns, Returns-bind}
use gpr.Err.{GprErr, ok, network_error, gpr_err_raise}
use gpr.Net.{
  closed, connected, Addrinfo, Answer, result, failed, GprSocket, Net, Kernel, get_sock, ticked,
}
use gpr.Net.Setup.{is_nil}
use gpr.Net.Steps.{resolve_hostname, is_ok, resolved}
use gpr.Net.Ops.{set_cur, connect_loop, connect_from, gpr_net_connect, some_address, after_dialling}
use gpr.Net.Own.{at, enter, Resolves}
use gpr.Net.Serve.{Closed, Settled, not_ok, not_pending}
use gpr.Net.Dial.{Dialled, connect_loop-Dialled, dialled}

module _ (k : Kernel) (debug : Bool) (local : Option (List ℕ)) (resolves : Resolves k) where
  from-Settled :
      (base : List ℕ) (n : ℕ) (b : Addrinfo) (found : List Addrinfo) (w : World Net) (s : GprSocket)
      → Closed base (suc n) (b ∷ found) (b ∷ found) (at w s)
      → s.cur ≡ b ∷ found
      → Returns (Settled connected base n) (connect_from k debug local ok (at w s))
  unfolding connect_from
  from-Settled base n b found w s c cur =
      Returns-bind (Dialled k debug local resolves base (suc n) (b ∷ found))
        (Settled connected base n) (connect_loop k debug local ok s.cur (at w s)) _
        (subst
          (λ us.
            Returns (Dialled k debug local resolves base (suc n) (b ∷ found))
              (connect_loop k debug local ok us (at w s)))
          (sym cur)
          (connect_loop-Dialled k debug local resolves base (suc n) (b ∷ found) (b ∷ found) ok
            (at w s) c (λ q. absurd (cc))))
        ended
    where
      ended :
          (o : Option GprErr) (v : World Net)
          → Dialled k debug local resolves base (suc n) (b ∷ found) o v
          → Returns (Settled connected base n) (after_dialling k debug o v)
      ended none v l = absurd l
      ended (some e) v l = dialled k debug base n b found e v l

  -- Behind the resolution of the name.
  abbrev dial_from : Cmd Net GprErr → Cmd Net GprErr
  dial_from resolve = resolve >>= λ err.
      if is_ok err
      then (get_sock >>= λ t. set_cur t.res >> connect_from k debug local err)
      else pure err

  resolved-Settled :
      (w : World Net) (s : GprSocket) (o : Answer (List Addrinfo))
      → ((found : List Addrinfo) → o ≡ result found → found ≢ [])
      → s.socket ≡ none
      → s.state ≡ closed
      → s.res ≡ []
      → Returns
          (Settled connected w.heap.fds w.heap.lists)
          (dial_from (resolved k debug o) (ticked (at w s)))
  unfolding gpr_err_raise
  resolved-Settled w s (failed e) some_ none_ c r = (
    s,
    refl,
    inr (
      not_ok network_error refl,
      not_pending network_error refl,
      c,
      none_,
      refl,
      ap (λ us. if is_nil us then w.heap.lists else suc w.heap.lists) (sym r),
    ),
  )
  resolved-Settled w s (result []) some_ none_ c r = absurd (some_ [] refl refl)
  resolved-Settled w s (result (b ∷ found)) some_ none_ c r =
      from-Settled w.heap.fds w.heap.lists b found
        (record w {
          msg = [];
          heap = record w.heap { clock = suc w.heap.clock; lists = suc w.heap.lists };
        })
        (record s { res = b ∷ found; cur = b ∷ found })
        (record s { res = b ∷ found; cur = b ∷ found }, refl, (none_, refl, refl, refl, refl), c)
        refl

resolve-eq :
    (k : Kernel) (debug : Bool) (addr : Option (List ℕ)) (service : List ℕ) (w : World Net)
    (s : GprSocket)
    → resolve_hostname k debug addr (some service) (at w s)
      ≡ resolved k debug (k.getaddrinfo addr (some service) s.hints w.heap.clock) (ticked (at w s))
unfolding resolve_hostname
resolve-eq k debug addr service w s = rw (and-false debug) refl

-- gpr_net_connect on a closed socket without addresses, in either build and for any answers of the
-- system: it returns, and its code is not GPR_ERR_PENDING, also where the socket is non-blocking. On
-- success the socket is connected, its descriptor is the only one that is new, and the address list is
-- freed. On failure the socket is closed, no descriptor is new, and an address list that was not freed
-- is still the socket's. There are an address and a service, and getaddrinfo gives at least one address
-- when it succeeds.
pub net_connect-Settled :
    (k : Kernel) (debug : Bool) (addr service : List ℕ) (local : Option (List ℕ)) (w : World Net)
    (s : GprSocket)
    → Resolves k
    → w.heap.sock ≡ some s
    → s.socket ≡ none
    → s.state ≡ closed
    → s.res ≡ []
    → Returns
        (Settled connected w.heap.fds w.heap.lists)
        (gpr_net_connect k debug (some addr) (some service) local w)
unfolding gpr_net_connect
net_connect-Settled k debug addr service local w s resolves here none_ c r =
    enter (Settled connected w.heap.fds w.heap.lists)
      (gpr_net_connect k debug (some addr) (some service) local) w s here
      (rw (and-false debug) (
        subst
          (λ us. Returns (Settled connected w.heap.fds w.heap.lists) (
            (if some_address us
                then connect_from k debug local ok
                else dial_from k debug local resolves
                    (resolve_hostname k debug (some addr) (some service)))
              (at w s)))
          (sym r)
          (rw (resolve-eq k debug (some addr) service w s) (
            resolved-Settled k debug local resolves w s
              (k.getaddrinfo (some addr) (some service) s.hints w.heap.clock)
              (λ found e. resolves (some addr) (some service) s.hints w.heap.clock found e) none_ c
              r))))
