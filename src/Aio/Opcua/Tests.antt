-- ===== src/Aio/Opcua/Tests.antt =====
-- Runs of the cache of iams/aio/opcua.py, and the theorem at a concrete client
use industrial_ams.Base.{ℕ, ◌+◌, true, false, some, List, [], ◌∷◌, map, ◌≡◌, refl, length}
use industrial_ams.Py.{Result, ok, err, key_error, not_found}
use industrial_ams.Py.Dict.{lookup, put}
use industrial_ams.Aio.Retry.{returned, retry}
use industrial_ams.Aio.Opcua.{
  NodePath, missing, names, identifier, Cache, Client, same_path, lookup_path, get_node, get_nodes,
  read_many, checks, cancelled, stop, loop, connected, refused, unknown_host, start,
}
use industrial_ams.Aio.Opcua.Caching.{direct_all, IsFaithful, read_many-direct}

-- A path leads to the number of its names, the empty one nowhere.
abbrev client : Client ℕ
client = record {
  get_child = λ path. elim path [ [] ↦ err not_found | x ∷ xs ↦ ok (length xs + 1) ];
  get_node = λ id. 9;
}

abbrev empty : Cache ℕ
empty = record { nodes = []; paths = [] }

abbrev doubled : List ℕ → Result (List ℕ)
doubled nodes = ok (map (λ n. n + n) nodes)

empty-IsFaithful : IsFaithful client empty
unfolding IsFaithful lookup_path
empty-IsFaithful path node h = cc h

abbrev paths : List NodePath
paths = names ("a" ∷ ("b" ∷ [])) ∷ (identifier "ns=2" ∷ (names ("a" ∷ ("b" ∷ [])) ∷ []))

read_many-direct_example :
    let (result, after) = read_many client doubled paths empty in
    (result ≡ ok (4 ∷ (18 ∷ (4 ∷ [])))) × IsFaithful client after
unfolding direct_all
read_many-direct_example = read_many-direct client doubled paths empty empty-IsFaithful

-- A path is browsed once.
one_entry : (get_nodes client paths empty).1.paths ≡ ("a" ∷ ("b" ∷ []), 2) ∷ []
unfolding get_nodes get_node lookup_path same_path
one_entry = refl

-- A node that has a name is found by it, whatever the path.
by_name :
    let cache = (get_node client (some "x") (names ("a" ∷ [])) empty).1 in
    (get_node client (some "x") (names []) cache).0 ≡ ok 1
unfolding get_node lookup_path same_path lookup put
by_name = refl

no_path : (get_node client (some "x") missing empty).0 ≡ err key_error
unfolding get_node lookup
no_path = refl

-- The client is told to disconnect once, although stop is called again.
stopped_once :
    let (goes, s) =
      loop (checks true ∷ (cancelled ∷ [])) (record { stopped = false; disconnects = 0 }) in
    (stop s).disconnects ≡ 1
unfolding loop
stopped_once = refl

late : start (unknown_host ∷ (refused ∷ (connected ∷ []))) ≡ (1 ∷ (2 ∷ []), returned tt)
unfolding retry
late = refl
