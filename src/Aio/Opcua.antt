-- ===== src/Aio/Opcua.antt =====
-- `class OPCUACoroutine` in iams/aio/opcua.py: the cache of its nodes, reading and writing, and the
-- stop. The client of asyncua is a parameter: a node is of a type N, and where a path leads does
-- not change.
pub mod Caching
mod Tests
use industrial_ams.Base.{
  not, ◌+◌, ℕ, String, Bool, true, false, ◌&&◌, Option, none, some, List, [], ◌∷◌, if◌then◌else◌,
}
use industrial_ams.Py.{Error, Result, ok, err, key_error, Method}
use industrial_ams.Py.Text.{same_text}
use industrial_ams.Py.Dict.{Dict, lookup, put}
use industrial_ams.Aio.Retry.{Reply, gives, again, escapes, Progress, retry}

-- `path`: None, a list or tuple of names, or the identifier of a node
pub data NodePath : Type 0 where
  missing : NodePath
  names : List String → NodePath
  identifier : String → NodePath

-- `_nodes` and `_paths`
pub record Cache (N : Type 0) : Type 0 where
  pub nodes : Dict N
  pub paths : List (List String × N)

-- `==` of two paths
unfoldable pub same_path : List String → List String → Bool
same_path [] [] = true
same_path [] (y ∷ ys) = false
same_path (x ∷ xs) [] = false
same_path (x ∷ xs) (y ∷ ys) = let rest = same_path xs ys in same_text x y && rest

unfoldable pub lookup_path : {N : Type 0} → List String → List (List String × N) → Option N
unfolding same_path
lookup_path path [] = none
lookup_path path ((other, node) ∷ paths) =
    if same_path other path then some node else lookup_path path paths

-- What the client answers: `get_child`, which may raise, and `get_node`
pub record Client (N : Type 0) : Type 0 where
  pub get_child : List String → Result N
  pub get_node : String → N

-- `self._nodes[name]`: None is never a key.
abbrev pub named : {N : Type 0} → Option String → Cache N → Option N
named none cache = none
named (some name) cache = lookup name cache.nodes

module _ {N : Type 0} (client : Client N) where
  -- A path that is not in `_paths` is browsed and kept.
  abbrev browsed_child : List String → Result N → Method (Cache N) N
  browsed_child path (ok node) cache =
      (ok node, record cache { paths = (path, node) ∷ cache.paths })
  browsed_child path (err x) cache = (err x, cache)

  abbrev browsed : List String → Option N → Method (Cache N) N
  browsed path (some node) cache = (ok node, cache)
  browsed path none cache = browsed_child path (client.get_child path) cache

  abbrev resolved : NodePath → Method (Cache N) N
  resolved missing cache = (err key_error, cache)
  resolved (names path) cache = browsed path (lookup_path path cache.paths) cache
  resolved (identifier id) cache = (ok (client.get_node id), cache)

  -- `if name is not None: self._nodes[name] = node`
  abbrev kept : Option String → Result N × Cache N → Result N × Cache N
  kept none r = r
  kept (some name) (ok node, cache) = (ok node, record cache { nodes = put name node cache.nodes })
  kept (some name) (err x, cache) = (err x, cache)

  abbrev found : Option String → NodePath → Option N → Method (Cache N) N
  found name path (some node) cache = (ok node, cache)
  found name path none cache = kept name (resolved path cache)

  unfoldable pub get_node : Option String → NodePath → Method (Cache N) N
  unfolding lookup_path lookup put
  get_node name path cache = found name path (named name cache) cache

  abbrev cons_node : Result N × Cache N → Result (List N) × Cache N → Result (List N) × Cache N
  cons_node (err x, cache) rest = (err x, cache)
  cons_node (ok node, cache) (err x, last) = (err x, last)
  cons_node (ok node, cache) (ok nodes, last) = (ok (node ∷ nodes), last)

  -- `[await self.get_node(path=path) for path in nodes]`
  unfoldable pub get_nodes : List NodePath → Method (Cache N) (List N)
  unfolding get_node
  get_nodes [] cache = (ok [], cache)
  get_nodes (path ∷ paths) cache =
      let first = get_node none path cache in
      let rest = get_nodes paths first.1 in cons_node first rest

  module _ {V : Type 0} (read_values : List N → Result (List V)) where
    abbrev values_of : Result (List N) × Cache N → Result (List V) × Cache N
    values_of (err x, cache) = (err x, cache)
    values_of (ok nodes, cache) = (read_values nodes, cache)

    -- `read_many`: nothing is asked for an empty list.
    abbrev pub read_many : List NodePath → Method (Cache N) (List V)
    read_many [] cache = (ok [], cache)
    read_many (path ∷ paths) cache = values_of (get_nodes (path ∷ paths) cache)

-- Whether `_stop` is set, and how often the client was told to disconnect
pub record Session : Type 0 where
  pub stopped : Bool
  pub disconnects : ℕ

-- `stop`: however `disconnect` ends, its exceptions are caught.
abbrev pub stop : Session → Session
stop s = if s.stopped then s else record { stopped = true; disconnects = s.disconnects + 1 }

-- What ends a wait of `loop`, and how `check_connection` then ends
pub data Check : Type 0 where
  checks : Bool → Check
  cancelled : Check

-- `loop` over what is to come: it ends at the first check that raises, or when it is canceled.
unfoldable pub loop : List Check → Session → Bool × Session
loop [] s = (true, s)
loop (checks true ∷ turns) s = loop turns s
loop (checks false ∷ turns) s = (false, stop s)
loop (cancelled ∷ turns) s = (false, stop s)

-- How an attempt of `connect` ends: the exceptions that `start` names, and others
pub data Connecting : Type 0 where
  connected refused timed_out unknown_host failed : Connecting

abbrev pub connect_reply : Connecting → Reply (Unit {0})
connect_reply connected = gives tt
connect_reply refused = again
connect_reply timed_out = again
connect_reply unknown_host = again
connect_reply failed = escapes

-- The attempts of `start`: what is slept, and how they end
abbrev pub start : List Connecting → List ℕ × Progress (Unit {0})
start attempts = retry connect_reply 0 attempts

-- `write_many`: the values that are handed to the client, by whether it raises, and the result
abbrev pub write_many : {D : Type 0} → Bool → List D → Option (List D) × Bool
write_many raises [] = (none, true)
write_many raises (item ∷ items) = (some (item ∷ items), not raises)
