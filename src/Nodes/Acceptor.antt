-- ===== src/Nodes/Acceptor.antt =====
-- `StartTCPAcceptor` of internal/controller/node_manager.go. The sockets of the package net are a parameter with a
-- state of its own, in which the goroutine that closes the listener acts too.
use fa_st_gshare_autoscaler.Common.{
  Bool, List, Option, String, [], if◌then◌else◌, none, refl, some, suc, zero, ℕ, ◌++◌, ◌∷◌, ◌≡◌,
}

-- `net.Listen`, whose flag is `false` for an error, and `Accept`, for which `none` is an error.
pub record Sockets (W K : Type 0) : Type 0 where
  pub listen : String → W → W × Bool
  pub accept : W → W × Option K

module _ {W K : Type 0} (sockets : Sockets W K) where
  abbrev handled : Option K → List K → List K
  handled none started = started
  handled (some conn) started = started ++ (conn ∷ [])

  -- So many rounds of the loop, which has no other end: the connections that were handed to
  -- `handleNodeConnection`, in order. A round whose call fails goes on with the next.
  unfoldable pub accept_rounds : ℕ → W → List K → W × List K
  accept_rounds zero w started = (w, started)
  accept_rounds (suc rounds) w started =
      let (w', conn) = sockets.accept w in accept_rounds rounds w' (handled conn started)

  -- `StartTCPAcceptor`, as far as that many rounds; `none` is the error of `net.Listen`.
  unfoldable pub start_tcp_acceptor : ℕ → String → W → W × Option (List K)
  unfolding accept_rounds
  start_tcp_acceptor rounds addr w =
      let (w', listening) = sockets.listen addr w in
      let (w'', started) = accept_rounds rounds w' [] in
      if listening then (w'', some started) else (w', none)

  -- Once the listener is closed, so that every call of `Accept` fails and leaves it closed, the loop
  -- goes round without a new connection and without an end.
  accept_rounds-closed :
      (IsClosed : W → Type 0)
      → ((w : W) → IsClosed w → IsClosed (sockets.accept w).0 × ((sockets.accept w).1 ≡ none))
      → (rounds : ℕ) (w : W) (started : List K) → IsClosed w
      → IsClosed (accept_rounds rounds w started).0 × ((accept_rounds rounds w started).1 ≡ started)
  unfolding accept_rounds
  accept_rounds-closed IsClosed stays zero w started h = (h, refl)
  accept_rounds-closed IsClosed stays (suc rounds) w started h =
      let (again, failed) = stays w h in
      rw (failed, accept_rounds)
        (accept_rounds-closed IsClosed stays rounds (sockets.accept w).0 started again)
