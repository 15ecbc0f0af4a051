-- ===== src/Nodes/Liveness.antt =====
-- When a node of internal/controller/node_manager.go counts as ready.
use fa_st_gshare_autoscaler.Nodes.{
  Beat, Node, NodeManager, Nodes, adjust, alive, beat, decode_error, get_node_status, heartbeats,
  lose_node, mark_not_ready, new_node_manager, not_alive, not_ready, read_error, ready,
  update_heartbeat,
}
use fa_st_gshare_autoscaler.Common.{
  string_eq, Bool, Bool-cases, Eq-cases, InRange, List, Option-cases, String, [], ap, arith, beq_ne,
  beq_self, false, if◌then◌else◌, inl, inr, lookup, ltb_ℤ, mul64, mul64-InRange, negsuc, none, pos,
  quot64, refl, some, sym, true, ℕ, ℤ, ◌/◌, ◌<◌, ◌==◌, ◌^◌, ◌↔◌, ◌∙◌, ◌∷◌, ◌≡◌, ◌≢◌, ◌≤ℤ◌,
}
use mathlib.Core.Option
use text.Mathlib.TextEquality.{eq_iff}

whole_seconds : (a : ℕ) → a < 2 ^ 63 → quot64 (pos a) (pos 1_000_000_000) ≡ pos (a / 1_000_000_000)
unfolding quot64
whole_seconds a h = ground arith

at_least_ten :
    (i : ℤ)
    → InRange i
    → pos 10
      ≤ℤ quot64 (if ltb_ℤ i (pos 10_000_000_000) then pos 10_000_000_000 else i) (pos 1_000_000_000)
at_least_ten i r = elim (Bool-cases (ltb_ℤ i (pos 10_000_000_000))) [
  | inl low ↦ rw low (rw (whole_seconds 10_000_000_000 (omega arith)) (omega arith))
  | inr high ↦ rw high (high_lem i r high)
]
  where
    high_lem :
        (i : ℤ)
        → InRange i
        → ltb_ℤ i (pos 10_000_000_000) ≡ false
        → pos 10 ≤ℤ quot64 i (pos 1_000_000_000)
    high_lem (pos n) r h = rw (whole_seconds n r.below) (ground arith)
    high_lem (negsuc n) r h = ground arith

-- The interval between checks is at least ten seconds, whatever is asked for, also where the
-- product of the interval and a second overflows.
check_ticker_itv-new :
    (C V : Type 0) (n : ℤ) → pos 10 ≤ℤ (new_node_manager {C = C} {V = V} n).check_ticker_itv
unfolding new_node_manager
check_ticker_itv-new C V n =
    at_least_ten (mul64 n (pos 1_000_000_000)) (mul64-InRange n (pos 1_000_000_000))

-- Whether every line of the connection is a good heartbeat.
abbrev pub all_alive : List Beat → Bool
all_alive [] = true
all_alive (alive now ∷ rest) = all_alive rest
all_alive (read_error ∷ rest) = false
all_alive (decode_error ∷ rest) = false
all_alive (not_alive ∷ rest) = false

module _ {C V : Type 0} where
  pub lookup-adjust :
      (k j : String) (change : Node C V → Node C V) (m : Nodes C V)
      → lookup j (adjust k change m)
        ≡ (if k == j then Option.map change (lookup j m) else lookup j m)
  unfolding lookup adjust
  lookup-adjust k j change [] = ground arith
  lookup-adjust k j change ((i, n) ∷ m) =
      ground (arith, lookup-adjust k j change m, eq_iff i k, eq_iff i j, eq_iff k j)

  -- After UpdateHeartbeat a known node is ready with the new time, every other name has the
  -- entry that it had, and the call succeeds exactly if the node is known.
  pub update_heartbeat_lem :
      (name j : String) (now : ℤ) (nm : NodeManager C V)
      → (lookup j (update_heartbeat name now nm).0.nodes
          ≡ (if name == j then Option.map (beat now) (lookup j nm.nodes) else lookup j nm.nodes))
        × (((update_heartbeat name now nm).1 ≡ true) ↔ (lookup name nm.nodes ≢ none))
  unfolding update_heartbeat
  update_heartbeat_lem name j now nm = elim (Option-cases (lookup name nm.nodes)) [
    | inl e ↦
        rw (e, update_heartbeat)
          (
            elim (Eq-cases name j) [
              | inl hit ↦ rw (sym (ap (λ k. lookup k nm.nodes) hit) ∙ e) (ground arith)
              | inr miss ↦ rw (beq_ne name j miss)
            ],
            (λ p. ground arith, λ h. absurd (h refl)),
          )
    | inr (n, e) ↦
        rw (e, update_heartbeat)
          (lookup-adjust name j (beat now) nm.nodes, (λ p q. ground arith, λ h. refl))
  ]

  pub lookup-lose_node :
      (name j : String) (nm : NodeManager C V)
      → lookup j (lose_node name nm).nodes
        ≡ (if name == j then Option.map mark_not_ready (lookup j nm.nodes) else lookup j nm.nodes)
  unfolding lose_node
  lookup-lose_node name j nm = lookup-adjust name j mark_not_ready nm.nodes

  -- The heartbeats of one connection leave the entry of every node with another name alone.
  pub heartbeats_others :
      (name j : String) (beats : List Beat) (nm : NodeManager C V)
      → name ≢ j
      → lookup j (heartbeats name beats nm).nodes ≡ lookup j nm.nodes
  unfolding heartbeats
  heartbeats_others name j [] nm ne = refl
  heartbeats_others name j (alive now ∷ rest) nm ne =
      heartbeats_others name j rest (update_heartbeat name now nm).0 ne
      ∙ (update_heartbeat_lem name j now nm).0
      ∙ rw (beq_ne name j ne)
  heartbeats_others name j (read_error ∷ rest) nm ne =
      lookup-lose_node name j nm ∙ rw (beq_ne name j ne)
  heartbeats_others name j (decode_error ∷ rest) nm ne =
      lookup-lose_node name j nm ∙ rw (beq_ne name j ne)
  heartbeats_others name j (not_alive ∷ rest) nm ne =
      lookup-lose_node name j nm ∙ rw (beq_ne name j ne)

  lost :
      (name : String) (nm : NodeManager C V) (n : Node C V)
      → lookup name nm.nodes ≡ some n
      → get_node_status name (lose_node name nm) ≡ not_ready
  unfolding get_node_status
  lost name nm n e = ground (arith, lookup-lose_node name name nm, beq_self name)

  -- A known node that is ready stays ready as long as its connection brings good heartbeats, and
  -- is not ready once a line fails, whatever was to follow.
  pub status-heartbeats :
      (name : String) (beats : List Beat) (nm : NodeManager C V) (n : Node C V)
      → lookup name nm.nodes ≡ some n
      → n.status ≡ ready
      → get_node_status name (heartbeats name beats nm)
        ≡ (if all_alive beats then ready else not_ready)
  unfolding heartbeats get_node_status
  status-heartbeats name [] nm n e r = ground arith
  status-heartbeats name (alive now ∷ rest) nm n e r =
      status-heartbeats name rest (update_heartbeat name now nm).0 (beat now n)
        ((update_heartbeat_lem name name now nm).0 ∙ rw (beq_self name) (rw e)) refl
  status-heartbeats name (read_error ∷ rest) nm n e r = lost name nm n e
  status-heartbeats name (decode_error ∷ rest) nm n e r = lost name nm n e
  status-heartbeats name (not_alive ∷ rest) nm n e r = lost name nm n e
