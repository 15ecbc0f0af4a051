-- ===== src/Controller/Healthy.antt =====
-- What every run of the calls of internal/controller leaves of the packers of the GPUs.
use fa_st_gshare_autoscaler.Update.Bookkeeping.{update_function-IsHealthy}
use fa_st_gshare_autoscaler.Deletion.Freed.{handle_deleted-IsHealthy}
use fa_st_gshare_autoscaler.Release.{Releaser, WorkItem, conclude, give_back, process_item}
use fa_st_gshare_autoscaler.Prepare.Sound.{AnswersInRange, IsHealthy, IsHealthy-weaken}
use fa_st_gshare_autoscaler.Select.Sound.{AreInRange, OffersInRange, OffersInRange-adjust}
use fa_st_gshare_autoscaler.Gpu.Valid.{AreSound-weaken}
use fa_st_gshare_autoscaler.Controller.{
  ReleasesInRange, Step, Steps, beats, begin, checks, deletes, greets, loses, manager_of, releases,
  then_step, updates,
}
use fa_st_gshare_autoscaler.Update.{Backend}
use fa_st_gshare_autoscaler.Functions.{State}
use fa_st_gshare_autoscaler.Prepare.{Site}
use fa_st_gshare_autoscaler.Select.{VirtualGpu}
use fa_st_gshare_autoscaler.Nodes.{
  Handshake, Node, NodeManager, Nodes, acknowledge, beat, check_health, check_node,
  check_node_liveness, greet, is_late, lose_node, mark_not_ready, resolve, shake_hands, store_node,
  update_heartbeat,
}
use fa_st_gshare_autoscaler.Gpu.{AllocationTypes}
use fa_st_gshare_autoscaler.Common.{
  int_eq, string_eq, All-append, Bool, Float, InRange, List, Option, Option-cases, String, [],
  arith, delete, false, if_cases, inl, inr, insert, lookup, map_values, none, refl, some, true, ℕ,
  ℤ, ◌+◌, ◌<◌, ◌==◌, ◌^◌, ◌∷◌, ◌≡◌,
}

module _ {C : Type 0} where
  OffersInRange-delete :
      (name : String) (nodes : Nodes C VirtualGpu)
      → OffersInRange nodes
      → OffersInRange (delete name nodes)
  unfolding delete
  OffersInRange-delete name [] h = tt
  OffersInRange-delete name ((k, n) ∷ rest) (r, h) =
      if_cases OffersInRange (k == name) _ _ (OffersInRange-delete name rest h)
        (r, OffersInRange-delete name rest h)

  OffersInRange-map_values :
      (change : Node C VirtualGpu → Node C VirtualGpu) (nodes : Nodes C VirtualGpu)
      → ((n : Node C VirtualGpu)
          → AreInRange n.available_gpus
          → AreInRange (change n).available_gpus)
      → OffersInRange nodes
      → OffersInRange (map_values change nodes)
  unfolding map_values
  OffersInRange-map_values change [] keeps h = tt
  OffersInRange-map_values change ((k, n) ∷ rest) keeps (r, h) =
      (keeps n r, OffersInRange-map_values change rest keeps h)

  conclude-InRange :
      (item : WorkItem) (nm : NodeManager C VirtualGpu) (o : Option (List VirtualGpu))
      → ((vs : List VirtualGpu) → o ≡ some vs → AreInRange vs)
      → OffersInRange nm.nodes
      → OffersInRange (conclude item nm o).0.nodes
  unfolding conclude
  conclude-InRange item nm none range h = h
  conclude-InRange item nm (some vs) range h =
      OffersInRange-adjust item.node_name (give_back item.gpu_uuid vs) nm.nodes
        (λ n r. All-append (λ v. InRange v.sm_percentage) n.available_gpus vs r (range vs refl)) h

  process_item-InRange :
      (release : Releaser C VirtualGpu) (item : WorkItem) (nm : NodeManager C VirtualGpu)
      → ReleasesInRange release
      → OffersInRange nm.nodes
      → OffersInRange (process_item release item nm).0.nodes
  unfolding process_item
  process_item-InRange release item nm range h =
      elim (Option-cases (lookup item.node_name nm.nodes)) [
        | inl e ↦ rw (e, process_item) h
        | inr (n, e) ↦
            rw (e, process_item)
              (conclude-InRange item nm (release n.grpc_client item.gpu_uuid)
                (range n.grpc_client item.gpu_uuid) h)
      ]

  module _ (h : Handshake C VirtualGpu) (now : ℤ) (nm : NodeManager C VirtualGpu)
      (known : OffersInRange nm.nodes) where
    store_node-InRange :
        (name ip : String) (port : ℤ) (o : Option (List VirtualGpu))
        → ((vs : List VirtualGpu) → o ≡ some vs → AreInRange vs)
        → OffersInRange (store_node h now nm name ip port o).0.nodes
    unfolding store_node insert
    store_node-InRange name ip port none range = known
    store_node-InRange name ip port (some vs) range =
        (range vs refl, OffersInRange-delete name nm.nodes known)

    module _ (range : (vs : List VirtualGpu) → h.gpus ≡ some vs → AreInRange vs) where
      check_health-InRange :
          (name ip : String) (port : ℤ) (o : Option Bool)
          → OffersInRange (check_health h now nm name ip port o).0.nodes
      unfolding check_health
      check_health-InRange name ip port none = known
      check_health-InRange name ip port (some false) = known
      check_health-InRange name ip port (some true) = store_node-InRange name ip port h.gpus range

      acknowledge-InRange :
          (name ip : String) (port : ℤ) (b : Bool)
          → OffersInRange (acknowledge h now nm name ip port b).0.nodes
      unfolding acknowledge
      acknowledge-InRange name ip port false = known
      acknowledge-InRange name ip port true = check_health-InRange name ip port h.health

      greet-InRange : (o : Option (String × ℤ)) → OffersInRange (greet h now nm o).0.nodes
      unfolding greet
      greet-InRange none = known
      greet-InRange (some (hostname, port)) =
          acknowledge-InRange (resolve h hostname).0 (resolve h hostname).1 port h.ack_sent

      shake_hands-InRange : OffersInRange (shake_hands h now nm).0.nodes
      unfolding shake_hands
      shake_hands-InRange = greet-InRange h.hello

  update_heartbeat-InRange :
      (name : String) (now : ℤ) (nm : NodeManager C VirtualGpu)
      → OffersInRange nm.nodes
      → OffersInRange (update_heartbeat name now nm).0.nodes
  unfolding update_heartbeat
  update_heartbeat-InRange name now nm h = elim (Option-cases (lookup name nm.nodes)) [
    | inl e ↦ rw (e, update_heartbeat) h
    | inr (n, e) ↦
        rw (e, update_heartbeat) (OffersInRange-adjust name (beat now) nm.nodes (λ x r. r) h)
  ]

module _ {C F : Type 0} ⦃f : Float F⦄ (elapsed : ℤ → ℤ → F) where
  check_node_liveness-InRange :
      (now : ℤ) (nm : NodeManager C VirtualGpu)
      → OffersInRange nm.nodes
      → OffersInRange (check_node_liveness elapsed now nm).nodes
  unfolding check_node_liveness
  check_node_liveness-InRange now nm h =
      OffersInRange-map_values (check_node elapsed now nm.check_ticker_itv) nm.nodes
        (λ n r.
          if_cases (λ (x : Node C VirtualGpu). AreInRange x.available_gpus)
            (is_late elapsed now nm.check_ticker_itv n) (mark_not_ready n) n r r)
        h

module _ {W C S F T : Type 0} ⦃f : Float F⦄ ⦃a : AllocationTypes T⦄ (b : Backend W C S F T)
    (answers : AnswersInRange b.request) (itv : ℤ) (elapsed : ℤ → ℤ → F) where
  -- A call of the node manager or of the release worker leaves the GPUs.
  managed :
      (n : ℕ) (site : Site W C F T) (nodes : Nodes C VirtualGpu)
      → IsHealthy (n + 0) site
      → OffersInRange nodes
      → IsHealthy n (record site { nodes = nodes })
  managed n site nodes h range = record {
    gpus = AreSound-weaken (n + 0) n site.heap (omega arith) h.gpus;
    offers = range;
  }

  pub Step-IsHealthy :
      (n : ℕ) (st : State W C F T) (k : ℕ) (st' : State W C F T)
      → Step b itv elapsed st k st'
      → 1 + (n + k) < 2 ^ 63
      → IsHealthy (n + k) st.site
      → IsHealthy n st'.site
  unfolding lose_node
  Step-IsHealthy n st k st' (updates obj rates min_rps preferred s) few h =
      update_function-IsHealthy b n obj rates min_rps preferred s answers few h
  Step-IsHealthy n st k st' (deletes name s) few h =
      handle_deleted-IsHealthy n name s (IsHealthy-weaken (n + 0) n s.site (omega arith) h)
  Step-IsHealthy n st k st' (releases release item s range) few h =
      managed n s.site _ h (process_item-InRange release item (manager_of itv s) range h.offers)
  Step-IsHealthy n st k st' (greets g now s range) few h =
      managed n s.site _ h (shake_hands-InRange g now (manager_of itv s) h.offers range)
  Step-IsHealthy n st k st' (beats name now s) few h =
      managed n s.site _ h (update_heartbeat-InRange name now (manager_of itv s) h.offers)
  Step-IsHealthy n st k st' (loses name s) few h =
      managed n s.site _ h
        (OffersInRange-adjust name mark_not_ready s.site.nodes (λ x r. r) h.offers)
  Step-IsHealthy n st k st' (checks now s) few h =
      managed n s.site _ h (check_node_liveness-InRange elapsed now (manager_of itv s) h.offers)

  -- Whatever calls the goroutines of the controller make, in whatever order (updates of
  -- functions, clean-ups of deleted functions, releases of GPUs, handshakes, heartbeats, lost
  -- nodes and liveness checks), the packer of every GPU stays valid and has ids for n more
  -- items, if at the start every packer is valid and has ids for n items more than the calls may
  -- take together, a new packer has that many as well, and every share of SMs that a node
  -- offers, at the start or in an answer, is an int64.
  pub Steps-IsHealthy :
      (n : ℕ) (st : State W C F T) (k : ℕ) (st' : State W C F T)
      → Steps b itv elapsed st k st'
      → 1 + (n + k) < 2 ^ 63
      → IsHealthy (n + k) st.site
      → IsHealthy n st'.site
  Steps-IsHealthy n st k st' (begin s) few h = IsHealthy-weaken (n + 0) n s.site (omega arith) h
  Steps-IsHealthy n st k st' (then_step s s' s'' k1 k2 run step) few h =
      Step-IsHealthy n s' k2 s'' step (omega arith) (
        Steps-IsHealthy (n + k2) s k1 s' run (omega arith)
          (IsHealthy-weaken (n + (k1 + k2)) (n + k2 + k1) s.site (omega arith) h))
