-- ===== src/Topology.antt =====
-- `create_agent` of iams/utils/arangodb.py: what it asks the database to insert, in which order. The
-- database is a parameter: here it answers whether it knows an agent, and no insertion fails.
pub mod Nodes
pub mod Edges
mod Tests
use industrial_ams.Base.{
  String, Bool, true, false, not, ◌||◌, ◌&&◌, Option, none, some, List, [], ◌∷◌, ◌++◌,
  if◌then◌else◌,
}
use Prim.Native.String.{◌++◌ as ◌+++◌}
use industrial_ams.Py.Text.{same_text, is_written}

-- `Edge` and `Node` of the protocol, with weights of a type W
pub record Edge (W : Type 0) : Type 0 where
  pub node_from : String
  pub node_to : String
  pub agent : Option String
  pub weight : W
  pub symmetric : Bool

pub record Node (W : Type 0) : Type 0 where
  pub default' : String
  pub pools : List String
  pub edges : List (Edge W)
  pub abilities : List String

-- What the database is asked for: documents of the collections agent, topology, symmetric and
-- directed, the flag `update` of an agent, and the method `update_agents`
pub data Command (W : Type 0) : Type 0 where
  add_agent : String → List String → Option String → Command W
  add_node : String → String → Bool → Command W
  add_edge : Bool → String → String → W → Command W
  set_update : String → Command W
  update_agents : Command W

-- `x in nodes`
unfoldable pub is_in : String → List String → Bool
is_in x [] = false
is_in x (node ∷ nodes) = same_text node x || is_in x nodes

abbrev pub node_key : String → String → String
node_key name node = name +++ (":" +++ node)

-- A node that is not in `nodes` is inserted and appended.
abbrev pub need_node :
    {W : Type 0} → String → String → List (Command W) × List String → List (Command W) × List String
need_node name node (commands, nodes) = if is_in node nodes then (commands, nodes) else (
  commands ++ (add_node (node_key name node) ("agent/" +++ name) false ∷ []),
  nodes ++ (node ∷ []),
)

-- `edge.node_to not in nodes and edge.agent is None`
abbrev pub need_end :
    {W : Type 0}
    → String
    → String
    → Option String
    → List (Command W) × List String
    → List (Command W) × List String
need_end name node none r = need_node name node r
need_end name node (some agent) r = r

-- `node.pools[0]`, if there is one
abbrev first_pool : List String → Option String
first_pool [] = none
first_pool (pool ∷ pools) = some pool

module _ {W : Type 0} (known : String → Bool) where
  abbrev own_edge : String → Edge W → List (Command W)
  own_edge name edge =
      add_edge edge.symmetric ("topology/" +++ node_key name edge.node_from)
        ("topology/" +++ node_key name edge.node_to) edge.weight
      ∷ []

  -- An edge to another agent: if it is symmetric and the agent is known, that agent is updated too.
  abbrev foreign_edge : String → String → Edge W → List (Command W)
  foreign_edge name agent edge =
      add_edge edge.symmetric ("topology/" +++ node_key name edge.node_from)
        ("topology/" +++ node_key agent edge.node_to) edge.weight
      ∷ (if edge.symmetric && known agent then set_update agent ∷ [] else [])

  -- `if edge.agent`: the empty text counts as no agent here.
  abbrev edge_commands : String → Option String → Edge W → List (Command W)
  edge_commands name none edge = own_edge name edge
  edge_commands name (some agent) edge =
      if is_written agent then foreign_edge name agent edge else own_edge name edge

  -- The loop over the edges
  unfoldable pub walk : String → List (Edge W) → List String → List (Command W)
  unfolding is_in
  walk name [] nodes = []
  walk name (edge ∷ edges) nodes =
      let (commands, nodes') =
        need_end name edge.node_to edge.agent (need_node name edge.node_from ([], nodes)) in
      let rest = walk name edges nodes' in commands ++ (edge_commands name edge.agent edge ++ rest)

  unfoldable pub create_agent : String → Node W → List (Command W)
  unfolding walk
  create_agent name node =
      add_agent name node.abilities (first_pool node.pools)
      ∷ (add_node (node_key name node.default') ("agent/" +++ name) true
          ∷ (walk name node.edges (node.default' ∷ []) ++ (update_agents ∷ [])))
