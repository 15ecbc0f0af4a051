-- ===== src/Nodes/Listing.antt =====
-- `ListNodes` of internal/controller/node_manager.go.
use fa_st_gshare_autoscaler.Nodes.{Node, NodeManager, Nodes}
use fa_st_gshare_autoscaler.Common.{
  string_eq, All, AreDistinct, Eq-cases, String, [], arith, beq_ne, beq_self, if◌then◌else◌, inl,
  inr, insert, lookup, lookup-insert_ne, lookup-insert_self, refl, some, subst, sym, ◌==◌, ◌∙◌, ◌∷◌,
  ◌≡◌, ◌≢◌,
}

module _ {C V : Type 0} where
  -- The loop over the map, which fills the copy.
  unfoldable pub copy_nodes : Nodes C V → Nodes C V → Nodes C V
  unfolding insert
  copy_nodes [] copied = copied
  copy_nodes ((k, n) ∷ rest) copied = copy_nodes rest (insert k n copied)

  -- `ListNodes`
  unfoldable pub list_nodes : NodeManager C V → Nodes C V
  unfolding copy_nodes
  list_nodes nm = copy_nodes nm.nodes []

  lookup-copy_nodes_ne :
      (name : String) (nodes copied : Nodes C V)
      → All (λ e. name ≢ e.0) nodes
      → lookup name (copy_nodes nodes copied) ≡ lookup name copied
  unfolding copy_nodes
  lookup-copy_nodes_ne name [] copied h = refl
  lookup-copy_nodes_ne name ((k, n) ∷ rest) copied (ne, h) =
      lookup-copy_nodes_ne name rest (insert k n copied) h
      ∙ lookup-insert_ne k name n copied (λ e. ne (sym e))

  lookup-copy_nodes :
      (name : String) (n : Node C V) (nodes copied : Nodes C V)
      → AreDistinct nodes
      → lookup name nodes ≡ some n
      → lookup name (copy_nodes nodes copied) ≡ some n
  unfolding copy_nodes lookup
  lookup-copy_nodes name n [] copied distinct e = ground arith
  lookup-copy_nodes name n ((k, m) ∷ rest) copied (p, distinct) e = elim (Eq-cases k name) [
    | inl hit ↦
        lookup-copy_nodes_ne name rest (insert k m copied)
          (subst (λ y. All (λ x. y ≢ x.0) rest) hit p)
        ∙ subst (λ y. lookup y (insert k m copied) ≡ some m) hit (lookup-insert_self k m copied)
        ∙ subst (λ y. (if y == name then some m else lookup name rest) ≡ some n → some m ≡ some n)
            (sym hit) (λ q. rw (beq_self name) at q) e
    | inr miss ↦
        lookup-copy_nodes name n rest (insert k m copied) distinct (rw (beq_ne k name miss) at e)
  ]

  -- In a map without double keys, ListNodes returns a map in which every node has the entry that the
  -- manager has for it.
  lookup-list_nodes :
      (name : String) (n : Node C V) (nm : NodeManager C V)
      → AreDistinct nm.nodes
      → lookup name nm.nodes ≡ some n
      → lookup name (list_nodes nm) ≡ some n
  unfolding list_nodes
  lookup-list_nodes name n nm distinct e = lookup-copy_nodes name n nm.nodes [] distinct e
