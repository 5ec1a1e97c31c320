-- ===== src/Topology/Tests.antt =====
-- The agent of a buffer in the topology of iams/utils/arangodb.py, and the theorems at it
use industrial_ams.Base.{
  All, ℕ, String, Bool, true, false, Option, none, some, List, [], ◌∷◌, ◌≡◌, refl,
}
use industrial_ams.Topology.{
  Edge, Node, add_agent, add_node, add_edge, set_update, update_agents, create_agent, walk, is_in,
}
use industrial_ams.Topology.Nodes.{needed, inserted}
use industrial_ams.Topology.Edges.{links, create_agent-graph}
use industrial_ams.Py.Dict.{add_key}

-- An edge to a node of its own, one to another agent, and one that ends where the first begins
abbrev edges : Option String → List (Edge ℕ)
edges own =
    record { node_from = "A"; node_to = "B"; agent = own; weight = 2; symmetric = false }
    ∷ (record { node_from = "B"; node_to = "T1"; agent = some "b"; weight = 1; symmetric = true }
        ∷ (record { node_from = "A"; node_to = "A"; agent = own; weight = 1; symmetric = false }
            ∷ []))

abbrev buffer : Option String → Node ℕ
buffer own = record { default' = "A"; pools = "p" ∷ ("q" ∷ []); edges = edges own; abilities = [] }

abbrev known : String → Bool
known agent = true

create_agent-graph_example :
    let commands = create_agent known "a" (buffer none) in
    (inserted commands ≡ "a:A" ∷ ("a:B" ∷ []))
    × ((links commands
          ≡ record { symmetric = false; from = "topology/a:A"; to = "topology/a:B"; weight = 2 }
            ∷ (record { symmetric = true; from = "topology/a:B"; to = "topology/b:T1"; weight = 1 }
                ∷ (record {
                  symmetric = false;
                  from = "topology/a:A";
                  to = "topology/a:A";
                  weight = 1;
                }
                    ∷ [])))
        × All (λ edge. is_in edge.node_from ("A" ∷ ("B" ∷ [])) ≡ true) (edges none))
unfolding needed add_key
create_agent-graph_example = create_agent-graph known "a" (buffer none)

-- All that is asked of the database
whole :
    create_agent known "a" (buffer none)
    ≡ add_agent "a" [] (some "p")
      ∷ (add_node "a:A" "agent/a" true
          ∷ (add_node "a:B" "agent/a" false
              ∷ (add_edge false "topology/a:A" "topology/a:B" 2
                  ∷ (add_edge true "topology/a:B" "topology/b:T1" 1
                      ∷ (set_update "b"
                          ∷ (add_edge false "topology/a:A" "topology/a:A" 1
                              ∷ (update_agents ∷ [])))))))
unfolding create_agent walk is_in
whole = refl

-- With the empty text for no agent, as the protocol has it, an end of an edge may not be inserted.
abbrev short : Node ℕ
short = record {
  default' = "A";
  pools = [];
  edges =
      record { node_from = "A"; node_to = "B"; agent = some ""; weight = 2; symmetric = false }
      ∷ [];
  abilities = [];
}

missing_end :
    create_agent known "a" short
    ≡ add_agent "a" [] none
      ∷ (add_node "a:A" "agent/a" true
          ∷ (add_edge false "topology/a:A" "topology/a:B" 2 ∷ (update_agents ∷ [])))
unfolding create_agent walk is_in
missing_end = refl
