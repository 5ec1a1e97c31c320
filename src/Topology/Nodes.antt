-- ===== src/Topology/Nodes.antt =====
-- The nodes that `create_agent` of iams/utils/arangodb.py inserts
use industrial_ams.Base.{
  append_assoc, append-nil, ◌&&◌, Option-cases, String, Bool, false, Option, none, some, List, [],
  ◌∷◌, ◌++◌, if◌then◌else◌, Bool-cases, inl, inr, ◌≡◌, refl, sym, ap, ◌∙◌,
}
use Prim.Native.String.{◌++◌ as ◌+++◌}
use industrial_ams.Py.Text.{same_text, is_written}
use industrial_ams.Py.Dict.{add_key}
use industrial_ams.Topology.{
  Edge, Node, Command, add_agent, add_node, add_edge, set_update, update_agents, is_in, node_key,
  need_node, need_end, edge_commands, walk, create_agent,
}

-- What is appended to an ordered set of nodes
abbrev pub need : String → List String → List String
need node nodes = add_key node nodes

abbrev pub need_to : {W : Type 0} → Edge W → List String → List String
need_to edge nodes = elim edge.agent [ none ↦ add_key edge.node_to nodes | some agent ↦ nodes ]

-- The set of the nodes that the edges need: where an edge begins, and where one ends that names no agent
unfoldable pub needed : {W : Type 0} → List (Edge W) → List String → List String
unfolding add_key
needed [] nodes = nodes
needed (edge ∷ edges) nodes = needed edges (need_to edge (add_key edge.node_from nodes))

module _ {W : Type 0} where
  -- The keys of the nodes that are inserted
  unfoldable pub inserted : List (Command W) → List String
  inserted [] = []
  inserted (add_node key agent default ∷ commands) = key ∷ inserted commands
  inserted (add_agent name abilities pool ∷ commands) = inserted commands
  inserted (add_edge symmetric from to weight ∷ commands) = inserted commands
  inserted (set_update agent ∷ commands) = inserted commands
  inserted (update_agents ∷ commands) = inserted commands

  pub inserted-append :
      (calls more : List (Command W)) → inserted (calls ++ more) ≡ inserted calls ++ inserted more
  unfolding inserted
  inserted-append [] more = refl
  inserted-append (add_node key agent default ∷ calls) more =
      ap (λ l. key ∷ l) (inserted-append calls more)
  inserted-append (add_agent name abilities pool ∷ calls) more = inserted-append calls more
  inserted-append (add_edge symmetric from to weight ∷ calls) more = inserted-append calls more
  inserted-append (set_update agent ∷ calls) more = inserted-append calls more
  inserted-append (update_agents ∷ calls) more = inserted-append calls more

-- Adding to an ordered set, by the test that the code makes
add_key-in :
    (k : String) (nodes : List String)
    → add_key k nodes ≡ (if is_in k nodes then nodes else nodes ++ (k ∷ []))
unfolding add_key is_in
add_key-in k [] = refl
add_key-in k (node ∷ nodes) = elim (Bool-cases (same_text node k)) [
  | inl same ↦ rw same refl
  | inr other ↦ rw other (
      ap (λ l. node ∷ l) (add_key-in k nodes) ∙ elim (Bool-cases (is_in k nodes)) [
        | inl there ↦ rw there refl
        | inr missing ↦ rw missing refl
      ])
]

abbrev pub keys : String → List String → List String
keys name [] = []
keys name (node ∷ nodes) = node_key name node ∷ keys name nodes

keys-append :
    (name : String) (nodes more : List String)
    → keys name (nodes ++ more) ≡ keys name nodes ++ keys name more
keys-append name [] more = refl
keys-append name (node ∷ nodes) more =
    ap (λ l. node_key name node ∷ l) (keys-append name nodes more)

module _ {W : Type 0} (name : String) where
  -- The commands so far have inserted what the set has gained.
  abbrev Tracks : List String → List (Command W) × List String → Type 0
  Tracks start (commands, nodes) = keys name start ++ inserted commands ≡ keys name nodes

  need_node-set :
      (node : String) (r : List (Command W) × List String)
      → (need_node name node r).1 ≡ add_key node r.1
  need_node-set node (commands, nodes) = elim (Bool-cases (is_in node nodes)) [
    | inl there ↦ rw (add_key-in node nodes, there) refl
    | inr missing ↦ rw (add_key-in node nodes, missing) refl
  ]

  need_node-Tracks :
      (start : List String) (node : String) (r : List (Command W) × List String)
      → Tracks start r
      → Tracks start (need_node name node r)
  unfolding inserted
  need_node-Tracks start node (commands, nodes) h = elim (Bool-cases (is_in node nodes)) [
    | inl there ↦ rw there h
    | inr missing ↦ rw missing (
        ap (λ l. keys name start ++ l)
          (inserted-append commands (add_node (node_key name node) ("agent/" +++ name) false ∷ []))
        ∙ (sym (append_assoc (keys name start) (inserted commands) (node_key name node ∷ []))
            ∙ (ap (λ l. l ++ (node_key name node ∷ [])) h
                ∙ sym (keys-append name nodes (node ∷ [])))))
  ]

  need_end-set :
      (edge : Edge W) (r : List (Command W) × List String)
      → (need_end name edge.node_to edge.agent r).1 ≡ need_to edge r.1
  need_end-set edge r = elim (Option-cases edge.agent) [
    | inl own ↦ rw own (need_node-set edge.node_to r)
    | inr (agent, other) ↦ rw other refl
  ]

  need_end-Tracks :
      (start : List String) (node : String) (agent : Option String)
      (r : List (Command W) × List String)
      → Tracks start r
      → Tracks start (need_end name node agent r)
  need_end-Tracks start node none r h = need_node-Tracks start node r h
  need_end-Tracks start node (some agent) r h = h

module _ {W : Type 0} (known : String → Bool) (name : String) where
  no_nodes :
      (agent : Option String) (edge : Edge W) → inserted (edge_commands known name agent edge) ≡ []
  unfolding inserted
  no_nodes none edge = refl
  no_nodes (some agent) edge = elim (Bool-cases (is_written agent)) [
    | inl other ↦ elim (Bool-cases (edge.symmetric && known agent)) [
      | inl told ↦ rw (other, told) refl
      | inr quiet ↦ rw (other, quiet) refl
    ]
    | inr own ↦ rw own refl
  ]

  walk-inserted :
      (edges : List (Edge W)) (nodes : List String)
      → keys name nodes ++ inserted (walk known name edges nodes) ≡ keys name (needed edges nodes)
  unfolding walk needed inserted
  walk-inserted [] nodes = append-nil (keys name nodes)
  walk-inserted (edge ∷ edges) nodes =
      let r : List (Command W) × List String =
        need_end name edge.node_to edge.agent (need_node name edge.node_from ([], nodes)) in
      let tracks : keys name nodes ++ inserted r.0 ≡ keys name r.1 =
        need_end-Tracks name nodes edge.node_to edge.agent
          (need_node name edge.node_from ([], nodes))
          (need_node-Tracks name nodes edge.node_from ([], nodes) (append-nil (keys name nodes))) in
      let set : r.1 ≡ need_to edge (add_key edge.node_from nodes) =
        need_end-set name edge (need_node name edge.node_from ([], nodes))
        ∙ ap (need_to edge) (need_node-set name edge.node_from ([], nodes)) in
      let rest = walk known name edges r.1 in
      let own : inserted (r.0 ++ (edge_commands known name edge.agent edge ++ rest))
          ≡ inserted r.0 ++ inserted rest =
        inserted-append r.0 (edge_commands known name edge.agent edge ++ rest)
        ∙ ap (λ l. inserted r.0 ++ l)
            (inserted-append (edge_commands known name edge.agent edge) rest
              ∙ ap (λ l. l ++ inserted rest) (no_nodes edge.agent edge)) in
      ap (λ l. keys name nodes ++ l) own
      ∙ (sym (append_assoc (keys name nodes) (inserted r.0) (inserted rest))
          ∙ (ap (λ l. l ++ inserted rest) tracks
              ∙ (walk-inserted edges r.1 ∙ ap (λ n. keys name (needed edges n)) set)))

  -- The nodes of the topology that are inserted are the default node, the nodes where edges begin and
  -- those where edges end that have no agent at all: each once, in the order in which they are named.
  pub create_agent-inserted :
      (node : Node W)
      → inserted (create_agent known name node) ≡ keys name (needed node.edges (node.default' ∷ []))
  unfolding create_agent inserted
  create_agent-inserted node =
      ap (λ l. node_key name node.default' ∷ l)
        (inserted-append (walk known name node.edges (node.default' ∷ [])) (update_agents ∷ [])
          ∙ append-nil (inserted (walk known name node.edges (node.default' ∷ []))))
      ∙ walk-inserted node.edges (node.default' ∷ [])
