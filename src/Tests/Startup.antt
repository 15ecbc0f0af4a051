-- ===== src/Tests/Startup.antt =====
-- The start of the process (cmd/main.go) on a concrete platform: its state is the list of the calls
-- made, the latest first; one lister comes out nil, which stops nothing, and the second check is refused.
use fa_st_gshare_autoscaler.Process.{Platform, default_flags, main}
use fa_st_gshare_autoscaler.Common.{Bool, List, [], false, refl, true, ℕ, ◌∷◌, ◌≡◌}

abbrev call : Bool → ℕ → List ℕ → List ℕ × Bool
call b n w = (n ∷ w, b)

abbrev platform : Platform (List ℕ) ℕ ℕ
platform = record {
  new_manager = λ o. call true 1;
  new_prometheus = λ url. call true 2;
  accept_nodes = λ nm address w. 3 ∷ w;
  fastpod_informer =
      λ namespace. record { start = λ w. 41 ∷ w; wait_for_cache_sync = call true 42 };
  node_informer = record { start = λ w. 43 ∷ w; wait_for_cache_sync = call false 44 };
  add_to_scheme = λ w. 4 ∷ w;
  complete = call true 5;
  add_healthz_check = call true 6;
  add_readyz_check = call false 7;
  start_manager = call true 8;
}

-- The manager is not started.
refused : main platform default_flags [] ≡ (7 ∷ 6 ∷ 5 ∷ 4 ∷ 44 ∷ 43 ∷ 42 ∷ 41 ∷ 3 ∷ 2 ∷ 1 ∷ [], 1)
unfolding main
refused = refl
