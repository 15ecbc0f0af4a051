-- ===== src/Nodes/Connection.antt =====
-- `handleNodeConnection` of internal/controller/node_manager.go as a whole: which handshakes are
-- accepted, and what the connection leaves in the manager.
use fa_st_gshare_autoscaler.Nodes.Liveness.{
  all_alive, heartbeats_others, lookup-lose_node, update_heartbeat_lem,
}
use fa_st_gshare_autoscaler.Nodes.{
  Beat, Handshake, Node, NodeManager, acknowledge, alive, beat, check_health, decode_error, greet,
  handle_node_connection, heartbeats, joined, lose_node, mark_not_ready, not_alive, not_ready,
  read_error, ready, resolve, shake_hands, store_node, update_heartbeat,
}
use fa_st_gshare_autoscaler.Common.{
  int_eq, string_eq, Bool, List, Option, String, [], arith, beq_self, false, if◌then◌else◌, inl,
  inr, insert, lookup, lookup-insert_ne, lookup-insert_self, none, refl, some, true, ℤ, ◌∙◌, ◌∷◌,
  ◌≡◌, ◌≢◌, ◌⊎◌,
}

-- The time of the last heartbeat before the first line that is none, or else the time of the handshake.
abbrev pub last_good : ℤ → List Beat → ℤ
last_good now [] = now
last_good now (alive t ∷ rest) = last_good t rest
last_good now (read_error ∷ rest) = now
last_good now (decode_error ∷ rest) = now
last_good now (not_alive ∷ rest) = now

module _ {C V : Type 0} where
  -- What is needed to be let in, and one of the reasons not to be.
  pub record IsAccepted (h : Handshake C V) (hostname : String) (port : ℤ) (gpus : List V)
      : Type 0 where
    pub greeted : h.hello ≡ some (hostname, port)
    pub acknowledged : h.ack_sent ≡ true
    pub healthy : h.health ≡ some true
    pub listed : h.gpus ≡ some gpus

  abbrev pub IsRefused : Handshake C V → Type 0
  IsRefused h = (h.hello ≡ none) ⊎ (h.ack_sent ≡ false) ⊎ (h.health ≢ some true) ⊎ (h.gpus ≡ none)

  -- The entry of a node after its connection has brought those lines.
  abbrev pub entry_after : Handshake C V → String → ℤ → List V → ℤ → List Beat → Node C V
  entry_after h hostname port gpus now beats = record {
    ip = (resolve h hostname).1;
    grpc_port = port;
    status = if all_alive beats then ready else not_ready;
    grpc_client = h.client;
    last_heartbeat = last_good now beats;
    node_name = (resolve h hostname).0;
    available_gpus = gpus;
    physical_gpus = [];
  }

  pub record Joins (h : Handshake C V) (now : ℤ) (beats : List Beat) (nm nm' : NodeManager C V)
      : Type 0 where
    pub hostname : String
    pub port : ℤ
    pub gpus : List V
    pub accepted : IsAccepted h hostname port gpus
    pub entry :
        lookup (resolve h hostname).0 nm'.nodes ≡ some (entry_after h hostname port gpus now beats)
    pub others : (j : String) → (resolve h hostname).0 ≢ j → lookup j nm'.nodes ≡ lookup j nm.nodes

  abbrev pub Connects : Handshake C V → ℤ → List Beat → NodeManager C V → NodeManager C V → Type 0
  Connects h now beats nm nm' = (IsRefused h × (nm' ≡ nm)) ⊎ Joins h now beats nm nm'

  abbrev after : Node C V → ℤ → List Beat → Node C V
  after n now beats = record n {
    status = if all_alive beats then ready else not_ready;
    last_heartbeat = last_good now beats;
  }

  lookup-lost :
      (name : String) (now : ℤ) (nm : NodeManager C V) (n : Node C V)
      → lookup name nm.nodes ≡ some (beat now n)
      → lookup name (lose_node name nm).nodes ≡ some (mark_not_ready (beat now n))
  lookup-lost name now nm n e = lookup-lose_node name name nm ∙ rw (beq_self name) (rw e refl)

  lookup-heartbeats :
      (name : String) (now : ℤ) (beats : List Beat) (nm : NodeManager C V) (n : Node C V)
      → lookup name nm.nodes ≡ some (beat now n)
      → lookup name (heartbeats name beats nm).nodes ≡ some (after n now beats)
  unfolding heartbeats
  lookup-heartbeats name now [] nm n e = e
  lookup-heartbeats name now (alive t ∷ rest) nm n e =
      lookup-heartbeats name t rest (update_heartbeat name t nm).0 n
        ((update_heartbeat_lem name name t nm).0 ∙ rw (beq_self name) (rw e refl))
  lookup-heartbeats name now (read_error ∷ rest) nm n e = lookup-lost name now nm n e
  lookup-heartbeats name now (decode_error ∷ rest) nm n e = lookup-lost name now nm n e
  lookup-heartbeats name now (not_alive ∷ rest) nm n e = lookup-lost name now nm n e

module _ {C V : Type 0} (h : Handshake C V) (now : ℤ) (beats : List Beat)
    (nm : NodeManager C V) where
  -- The rest of the connection, from the result of the handshake.
  abbrev serve : NodeManager C V × Option String → NodeManager C V
  serve q = elim q.1 [ none ↦ q.0 | some name ↦ heartbeats name beats q.0 ]

  module _ (hostname : String) (port : ℤ) (greeted : h.hello ≡ some (hostname, port))
      (acknowledged : h.ack_sent ≡ true) where
    abbrev name : String
    name = (resolve h hostname).0

    abbrev ip : String
    ip = (resolve h hostname).1

    store_node-Connects :
        h.health ≡ some true
        → (gpus : Option (List V)) → h.gpus ≡ gpus
        → Connects h now beats nm (serve (store_node h now nm name ip port gpus))
    unfolding store_node
    store_node-Connects healthy none e = inl (inr (inr (inr e)), refl)
    store_node-Connects healthy (some gpus) e =
        let n = record (joined h ip port now gpus) { node_name = name } in
        let nm' = record nm { nodes = insert name n nm.nodes } in
        inr (record {
          hostname = hostname;
          port = port;
          gpus = gpus;
          accepted = record {
            greeted = greeted;
            acknowledged = acknowledged;
            healthy = healthy;
            listed = e;
          };
          entry = lookup-heartbeats name now beats nm' n (lookup-insert_self name n nm.nodes);
          others =
              λ j ne. heartbeats_others name j beats nm' ne ∙ lookup-insert_ne name j n nm.nodes ne;
        })

    check_health-Connects :
        (health : Option Bool)
        → h.health ≡ health
        → Connects h now beats nm (serve (check_health h now nm name ip port health))
    unfolding check_health
    check_health-Connects none e = inl (inr (inr (inl (λ p. ground arith))), refl)
    check_health-Connects (some false) e = inl (inr (inr (inl (λ p. ground arith))), refl)
    check_health-Connects (some true) e = store_node-Connects e h.gpus refl

  acknowledge-Connects :
      (hostname : String) (port : ℤ)
      → h.hello ≡ some (hostname, port)
      → (sent : Bool) → h.ack_sent ≡ sent
      → Connects h now beats nm
          (serve (acknowledge h now nm (resolve h hostname).0 (resolve h hostname).1 port sent))
  unfolding acknowledge
  acknowledge-Connects hostname port greeted false e = inl (inr (inl e), refl)
  acknowledge-Connects hostname port greeted true e =
      check_health-Connects hostname port greeted e h.health refl

  greet-Connects :
      (hello : Option (String × ℤ))
      → h.hello ≡ hello
      → Connects h now beats nm (serve (greet h now nm hello))
  unfolding greet
  greet-Connects none e = inl (inl e, refl)
  greet-Connects (some (hostname, port)) e = acknowledge-Connects hostname port e h.ack_sent refl

  -- A connection is refused, because the hello message cannot be read or decoded, the
  -- acknowledgement cannot be sent, the health check fails or says unhealthy, or the call for
  -- the GPUs fails, and leaves the manager as it was; or all this succeeds, and the connection
  -- leaves, under the name of the daemon pod's node, or else the host name, an entry with what
  -- the handshake told and no allocated GPU, which is ready exactly if every line read was a
  -- good heartbeat, last heard of at the last heartbeat before the first bad line, or else at
  -- the handshake, and leaves every other entry as it was. No other connection acts in between.
  pub handle_node_connection-Connects :
      Connects h now beats nm (handle_node_connection h now beats nm)
  unfolding handle_node_connection shake_hands
  handle_node_connection-Connects = greet-Connects h.hello refl
