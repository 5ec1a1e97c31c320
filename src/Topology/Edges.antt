-- ===== src/Topology/Edges.antt =====
-- The edges that `create_agent` of iams/utils/arangodb.py inserts
use text.Mathlib.TextPositions.{eq_refl}
use Prim.Native.String.{◌++◌ as ◌+++◌}
use industrial_ams.Base.{
  All, ◌&&◌, Option-cases, String, Bool, true, false, Option, none, some, List, [], ◌∷◌, ◌++◌, map,
  if◌then◌else◌, Bool-cases, inl, inr, ◌≡◌, refl, ap, ◌∙◌, arith, append-nil,
}
use industrial_ams.Py.Text.{is_written}
use industrial_ams.Py.Dict.{add_key}
use industrial_ams.Topology.{
  Edge, Node, Command, add_agent, add_node, add_edge, set_update, update_agents, is_in, node_key,
  need_node, need_end, edge_commands, walk, create_agent,
}
use industrial_ams.Topology.Nodes.{needed, need_to, inserted, keys, create_agent-inserted}

-- An edge as a document: whether it is symmetric, its ends, and its weight
pub record Link (W : Type 0) : Type 0 where
  pub symmetric : Bool
  pub from : String
  pub to : String
  pub weight : W

-- The agent where an edge ends: the empty text and None stand for the own one.
abbrev pub end_of : String → Option String → String
end_of name none = name
end_of name (some agent) = if is_written agent then agent else name

abbrev pub link_of : {W : Type 0} → String → Edge W → Link W
link_of name edge = record {
  symmetric = edge.symmetric;
  from = "topology/" +++ node_key name edge.node_from;
  to = "topology/" +++ node_key (end_of name edge.agent) edge.node_to;
  weight = edge.weight;
}

module _ {W : Type 0} where
  -- The edges that are inserted
  unfoldable pub links : List (Command W) → List (Link W)
  links [] = []
  links (add_edge symmetric from to weight ∷ commands) =
      record { symmetric = symmetric; from = from; to = to; weight = weight } ∷ links commands
  links (add_node key agent default ∷ commands) = links commands
  links (add_agent name abilities pool ∷ commands) = links commands
  links (set_update agent ∷ commands) = links commands
  links (update_agents ∷ commands) = links commands

  links-append : (calls more : List (Command W)) → links (calls ++ more) ≡ links calls ++ links more
  unfolding links
  links-append [] more = refl
  links-append (add_edge symmetric from to weight ∷ calls) more =
      ap (λ l. record { symmetric = symmetric; from = from; to = to; weight = weight } ∷ l)
        (links-append calls more)
  links-append (add_node key agent default ∷ calls) more = links-append calls more
  links-append (add_agent name abilities pool ∷ calls) more = links-append calls more
  links-append (set_update agent ∷ calls) more = links-append calls more
  links-append (update_agents ∷ calls) more = links-append calls more

  need_node-links :
      (name node : String) (r : List (Command W) × List String)
      → links r.0 ≡ []
      → links (need_node name node r).0 ≡ []
  unfolding links
  need_node-links name node (commands, nodes) h = elim (Bool-cases (is_in node nodes)) [
    | inl there ↦ rw there h
    | inr missing ↦ rw missing (
        links-append commands (add_node (node_key name node) ("agent/" +++ name) false ∷ [])
        ∙ ap (λ l. l ++ []) h)
  ]

  need_end-links :
      (name node : String) (agent : Option String) (r : List (Command W) × List String)
      → links r.0 ≡ []
      → links (need_end name node agent r).0 ≡ []
  need_end-links name node none r h = need_node-links name node r h
  need_end-links name node (some agent) r h = h

module _ {W : Type 0} (known : String → Bool) (name : String) where
  one_link :
      (agent : Option String) (edge : Edge W)
      → edge.agent ≡ agent
      → links (edge_commands known name agent edge) ≡ link_of name edge ∷ []
  unfolding links
  one_link none edge e = rw e refl
  one_link (some agent) edge e = elim (Bool-cases (is_written agent)) [
    | inl other ↦ elim (Bool-cases (edge.symmetric && known agent)) [
      | inl told ↦ rw (e, other, told) refl
      | inr quiet ↦ rw (e, other, quiet) refl
    ]
    | inr own ↦ rw (e, own) refl
  ]

  walk-links :
      (edges : List (Edge W)) (nodes : List String)
      → links (walk known name edges nodes) ≡ map (link_of name) edges
  unfolding walk links
  walk-links [] nodes = refl
  walk-links (edge ∷ edges) nodes =
      let r : List (Command W) × List String =
        need_end name edge.node_to edge.agent (need_node name edge.node_from ([], nodes)) in
      let no_links : links r.0 ≡ [] =
        need_end-links name edge.node_to edge.agent (need_node name edge.node_from ([], nodes))
          (need_node-links name edge.node_from ([], nodes) refl) in
      let rest = walk known name edges r.1 in
      let own = edge_commands known name edge.agent edge in
      links-append r.0 (own ++ rest)
      ∙ (ap (λ l. l ++ links (own ++ rest)) no_links
          ∙ (links-append own rest
              ∙ (ap (λ l. l ++ links rest) (one_link edge.agent edge refl)
                  ∙ ap (λ l. link_of name edge ∷ l) (walk-links edges r.1))))

  -- Each edge is inserted once, in the order in which they are given, into the collection of its
  -- kind, from a node of the agent to a node of the agent that it names, or of the own one if it
  -- names none.
  pub create_agent-links :
      (node : Node W) → links (create_agent known name node) ≡ map (link_of name) node.edges
  unfolding create_agent links
  create_agent-links node =
      links-append (walk known name node.edges (node.default' ∷ [])) (update_agents ∷ [])
      ∙ (append-nil (links (walk known name node.edges (node.default' ∷ [])))
          ∙ walk-links node.edges (node.default' ∷ []))

-- Where an edge begins is a node that is needed.
grown :
    (x k : String) (nodes : List String) → is_in x nodes ≡ true → is_in x (add_key k nodes) ≡ true
unfolding is_in add_key
grown x k [] h = cc h
grown x k (node ∷ nodes) h = ground (arith, grown x k nodes, h)

added : (k : String) (nodes : List String) → is_in k (add_key k nodes) ≡ true
unfolding is_in add_key
added k [] = rw (eq_refl k) refl
added k (node ∷ nodes) = ground (arith, added k nodes)

module _ {W : Type 0} where
  kept_to :
      (x : String) (edge : Edge W) (nodes : List String)
      → is_in x nodes ≡ true
      → is_in x (need_to edge nodes) ≡ true
  kept_to x edge nodes h = elim (Option-cases edge.agent) [
    | inl own ↦ rw own (grown x edge.node_to nodes h)
    | inr (agent, other) ↦ rw other h
  ]

  still_needed :
      (x : String) (edges : List (Edge W)) (nodes : List String)
      → is_in x nodes ≡ true
      → is_in x (needed edges nodes) ≡ true
  unfolding needed
  still_needed x [] nodes h = h
  still_needed x (edge ∷ edges) nodes h =
      let nodes' : List String = add_key edge.node_from nodes in
      still_needed x edges (need_to edge nodes')
        (kept_to x edge nodes' (grown x edge.node_from nodes h))

  -- No edge begins at a node that is missing.
  pub begins-needed :
      (edges : List (Edge W)) (nodes : List String)
      → All (λ edge. is_in edge.node_from (needed edges nodes) ≡ true) edges
  unfolding needed
  begins-needed [] nodes = tt
  begins-needed (edge ∷ edges) nodes =
      let nodes' : List String = add_key edge.node_from nodes in
      (
        still_needed edge.node_from edges (need_to edge nodes')
            (kept_to edge.node_from edge nodes' (added edge.node_from nodes)),
        begins-needed edges (need_to edge nodes'),
      )

  -- The topology of an agent: the nodes that are inserted are the default node, the nodes where
  -- edges begin and those where edges end that have no agent at all, each once and in the order in
  -- which they are named; each edge is inserted once, into the collection of its kind, to a node of
  -- the agent that it names, or of the own one if it names none; and no edge begins at a node that
  -- is missing.
  pub create_agent-graph :
      (known : String → Bool) (name : String) (node : Node W)
      → let nodes = needed node.edges (node.default' ∷ []) in
        let commands = create_agent known name node in
        (inserted commands ≡ keys name nodes)
        × ((links commands ≡ map (link_of name) node.edges)
            × All (λ edge. is_in edge.node_from nodes ≡ true) node.edges)
  create_agent-graph known name node = (
    create_agent-inserted known name node,
    (create_agent-links known name node, begins-needed node.edges (node.default' ∷ [])),
  )
