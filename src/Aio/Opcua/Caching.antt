-- ===== src/Aio/Opcua/Caching.antt =====
-- The cache of iams/aio/opcua.py against a client that is asked each time
use text.Mathlib.TextEquality.{eq_iff}
use mathlib.Core.Option.{some-injective}
use industrial_ams.Base.{
  String, true, none, some, List, [], ◌∷◌, if◌then◌else◌, Bool-cases, Option-cases, inl, inr, ◌≡◌,
  refl, sym, ap, ◌∙◌, subst, arith,
}
use industrial_ams.Py.{Result, ok, err, key_error}
use industrial_ams.Aio.Opcua.{
  NodePath, missing, names, identifier, Cache, Client, same_path, lookup_path, get_node, get_nodes,
  values_of, read_many, resolved, browsed, browsed_child, cons_node,
}

same_path_eq : (xs ys : List String) → same_path xs ys ≡ true → xs ≡ ys
unfolding same_path
same_path_eq [] [] h = refl
same_path_eq [] (y ∷ ys) h = cc h
same_path_eq (x ∷ xs) [] h = cc h
same_path_eq (x ∷ xs) (y ∷ ys) h = ground (arith, eq_iff x y, same_path_eq xs ys, h)

module _ {N : Type 0} (client : Client N) where
  -- Each path that is kept leads where the client says.
  unfoldable pub IsFaithful : Cache N → Type 0
  IsFaithful cache =
      (path : List String) (node : N)
      → lookup_path path cache.paths ≡ some node
      → client.get_child path ≡ ok node

  -- The client alone
  abbrev pub direct : NodePath → Result N
  direct missing = err key_error
  direct (names path) = client.get_child path
  direct (identifier id) = ok (client.get_node id)

  abbrev direct_cons : Result N → Result (List N) → Result (List N)
  direct_cons (err x) rest = err x
  direct_cons (ok node) (err x) = err x
  direct_cons (ok node) (ok nodes) = ok (node ∷ nodes)

  unfoldable pub direct_all : List NodePath → Result (List N)
  direct_all [] = ok []
  direct_all (path ∷ paths) = direct_cons (direct path) (direct_all paths)

  kept_path :
      (path : List String) (node : N) (cache : Cache N)
      → client.get_child path ≡ ok node
      → IsFaithful cache
      → IsFaithful (record cache { paths = (path, node) ∷ cache.paths })
  unfolding IsFaithful lookup_path
  kept_path path node cache e h other n at =
      let found : (if same_path path other then some node else lookup_path other cache.paths)
          ≡ some n =
        at in
      elim (Bool-cases (same_path path other)) [
        | inl same ↦
            let here : some node ≡ some n = sym (rw same refl) ∙ found in
            ap client.get_child (sym (same_path_eq path other same))
            ∙ (e ∙ ap ok (some-injective node n here))
        | inr differs ↦
            let before : lookup_path other cache.paths ≡ some n = sym (rw differs refl) ∙ found in
            h other n before
      ]

  asked :
      (path : List String) (answer : Result N) (cache : Cache N)
      → client.get_child path ≡ answer
      → IsFaithful cache
      → let (result, after) = browsed_child client path answer cache in
        (result ≡ answer) × IsFaithful after
  asked path (ok node) cache e h = (refl, kept_path path node cache e h)
  asked path (err x) cache e h = (refl, h)

  browsed-direct :
      (path : List String) (cache : Cache N)
      → IsFaithful cache
      → let (result, after) = browsed client path (lookup_path path cache.paths) cache in
        (result ≡ client.get_child path) × IsFaithful after
  unfolding IsFaithful
  browsed-direct path cache h = elim (Option-cases (lookup_path path cache.paths)) [
    | inr (node, there) ↦ rw there (sym (h path node there), h)
    | inl new ↦ rw new (asked path (client.get_child path) cache refl h)
  ]

  resolved-direct :
      (path : NodePath) (cache : Cache N)
      → IsFaithful cache
      → let (result, after) = resolved client path cache in
        (result ≡ direct path) × IsFaithful after
  resolved-direct missing cache h = (refl, h)
  resolved-direct (names path) cache h = browsed-direct path cache h
  resolved-direct (identifier id) cache h = (refl, h)

  get_node-direct :
      (path : NodePath) (cache : Cache N)
      → IsFaithful cache
      → let (result, after) = get_node client none path cache in
        (result ≡ direct path) × IsFaithful after
  unfolding get_node
  get_node-direct path cache h = resolved-direct path cache h

  cons-direct :
      (first : Result N × Cache N) (rest : Result (List N) × Cache N) (one : Result N)
      (all : Result (List N))
      → (first.0 ≡ one) × IsFaithful first.1
      → (rest.0 ≡ all) × IsFaithful rest.1
      → ((cons_node client first rest).0 ≡ direct_cons one all)
        × IsFaithful (cons_node client first rest).1
  cons-direct (err x, cache) rest one all h r = (ap (λ o. direct_cons o all) h.0, h.1)
  cons-direct (ok node, cache) (err x, last) one all h r =
      (ap (direct_cons (ok node)) r.0 ∙ ap (λ o. direct_cons o all) h.0, r.1)
  cons-direct (ok node, cache) (ok nodes, last) one all h r =
      (ap (direct_cons (ok node)) r.0 ∙ ap (λ o. direct_cons o all) h.0, r.1)

  -- With such a cache a list of paths is resolved as if the client were asked each time, an
  -- exception included, and the cache stays one that agrees with the client.
  pub get_nodes-direct :
      (paths : List NodePath) (cache : Cache N)
      → IsFaithful cache
      → let (result, after) = get_nodes client paths cache in
        (result ≡ direct_all paths) × IsFaithful after
  unfolding get_nodes direct_all
  get_nodes-direct [] cache h = (refl, h)
  get_nodes-direct (path ∷ paths) cache h =
      let first = get_node client none path cache in
      let one = get_node-direct path cache h in
      cons-direct first (get_nodes client paths first.1) (direct path) (direct_all paths) one
        (get_nodes-direct paths first.1 one.1)

  module _ {V : Type 0} (read_values : List N → Result (List V)) where
    abbrev read_direct_of : Result (List N) → Result (List V)
    read_direct_of (err x) = err x
    read_direct_of (ok nodes) = read_values nodes

    -- Reading without a cache: each path is resolved by the client.
    abbrev pub read_direct : List NodePath → Result (List V)
    read_direct [] = ok []
    read_direct (path ∷ paths) = read_direct_of (direct_all (path ∷ paths))

    values-direct :
        (r : Result (List N) × Cache N) (all : Result (List N))
        → r.0 ≡ all
        → (values_of client read_values r).0 ≡ read_direct_of all
    values-direct (err x, cache) all h = ap read_direct_of h
    values-direct (ok nodes, cache) all h = ap read_direct_of h

    values_cache : (r : Result (List N) × Cache N) → (values_of client read_values r).1 ≡ r.1
    values_cache (err x, cache) = refl
    values_cache (ok nodes, cache) = refl

    -- With a cache whose paths lead where the client says, read_many gives what the client gives when it
    -- is asked for each path anew, an exception included; and the cache stays such a cache.
    pub read_many-direct :
        (paths : List NodePath) (cache : Cache N)
        → IsFaithful cache
        → let (result, after) = read_many client read_values paths cache in
          (result ≡ read_direct paths) × IsFaithful after
    read_many-direct [] cache h = (refl, h)
    read_many-direct (path ∷ paths) cache h =
        let r = get_nodes client (path ∷ paths) cache in
        let all = get_nodes-direct (path ∷ paths) cache h in
        (
          values-direct r (direct_all (path ∷ paths)) all.0,
          subst IsFaithful (sym (values_cache r)) all.1,
        )
