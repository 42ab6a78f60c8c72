-- ===== src/Dag/Origin.antt =====
-- The DAG that holds the genesis vertex alone.
use mathlib.Core.Path.{subst}
use libtaurus.Prelude.{
  ◌<◌, ◌≡◌, refl, ap, ◌∙◌, none, some, List, [], ◌∷◌, ◌++◌, ite, arith, ◌≟◌, u64_mod, ok, >>=-eq-ok,
  ok-injective, try_fold,
}
use libtaurus.Map
use libtaurus.Map.{get, get-nil, get-insert, get-remove, contains_key}
use libtaurus.Hash.{Hash, Hash-Key}
use libtaurus.Vertex.{Vertex, parent_constraints}
use libtaurus.Constraint.{unity}
use libtaurus.Dag.{Dag, State, Config, check, empty}
use libtaurus.Dag.Insert.{remove_all, insert_vertex, insert_initial, accept_initial, new}
use libtaurus.Dag.Shape.{IsGrounded, IsExtended, insert_vertex-IsExtended}

module _ (hash : Vertex → Hash) (config : Config) (genesis : Vertex) (root : genesis.parents ≡ [])
    (fits : genesis.height < u64_mod) where
  -- A map with one entry.
  pub single :
      {V : Type 0} (k : Hash) (v : V) (j : Hash)
      → get (Map.insert [] k v) j ≡ ite (k ≟ j) (some v) none
  unfolding get Map.insert
  single k v j = refl

  none_left : (ps : List Hash) → remove_all [] ps ≡ []
  unfolding remove_all Map.remove
  none_left [] = refl
  none_left (p ∷ ps) = none_left ps

  pub alone-IsGrounded :
      (d : Dag) (s : State)
      → IsExtended hash (empty config) genesis d
      → IsGrounded hash
          (record d { pending_query = Map.remove d.pending_query (hash genesis); state = s })
  alone-IsGrounded d s x =
      let at_graph : (j : Hash) → get d.graph j ≡ ite (hash genesis ≟ j) (some genesis) none =
        λ j. ap (λ m. get m j) x.graph ∙ single (hash genesis) genesis j in
      let at_vertex : (j : Hash) → get d.vertex j ≡ ite (hash genesis ≟ j) (some genesis) none =
        λ j. ap (λ m. get m j) x.vertex ∙ single (hash genesis) genesis j in
      let at_frontier : (j : Hash) → get d.frontier j ≡ ite (hash genesis ≟ j) (some genesis) none =
        λ j.
          ap (λ m. get m j) x.frontier
          ∙ ap (λ m. get (Map.insert m (hash genesis) genesis) j) (none_left genesis.parents)
          ∙ single (hash genesis) genesis j in
      let at_pending : (j : Hash) → get (Map.remove d.pending_query (hash genesis)) j ≡ none = λ j.
        get-remove d.pending_query (hash genesis) j
        ∙ ap (λ o. ite (hash genesis ≟ j) none o)
            (ap (λ m. get m j) x.pending_query ∙ single (hash genesis) genesis j)
        ∙ gone j in
      record {
        known = λ h v e. ground (arith, at_graph h, at_vertex h, e);
        hashed = λ h v e. ground (arith, at_graph h, e);
        small = λ h v e. ground (arith, at_vertex h, e, fits);
        linked = λ h p v e c. ground (arith, at_graph h, e, c, root);
        tip = λ h v e. ground (arith, at_graph h, at_frontier h, e);
        childless = λ h k v c e. ground (arith, at_graph k, e, root);
        shown = λ h c f. ground (arith, at_graph h, at_frontier h, c);
        asked = λ h v e. ground (arith, at_pending h, e);
      }
    where
      gone :
          (j : Hash)
          → ite (hash genesis ≟ j) none (ite (hash genesis ≟ j) (some genesis) none) ≡ none
      gone j = ground arith

  -- The DAG that starts from a genesis vertex without parents is grounded.
  pub new-IsGrounded : (dag : Dag) → new hash config (genesis ∷ []) ≡ ok dag → IsGrounded hash dag
  unfolding new try_fold insert_initial
  new-IsGrounded dag h =
      let (_, _, h₁) = >>=-eq-ok (check config) _ h in
      let (dag', e, h₂) = >>=-eq-ok (insert_initial hash (empty config) genesis) _ h₁ in
      let (d, k, h₃) = >>=-eq-ok (insert_vertex hash (empty config) genesis) _ e in
      let (s, _, h₄) =
        >>=-eq-ok
          (try_fold (accept_initial hash) d.state
            (parent_constraints genesis ++ unity (hash genesis) ∷ []))
          _ h₃ in
      subst (IsGrounded hash) (ok-injective h₄ ∙ ok-injective h₂)
        (alone-IsGrounded d s (insert_vertex-IsExtended hash (empty config) genesis d k))
