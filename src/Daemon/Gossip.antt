-- ===== src/Daemon/Gossip.antt =====
-- How the daemon treats gossiped vertices, against what the DAG says of them.
use libtaurus.Prelude.{ℕ, ◌≡◌, refl, false, some, List, ◌↔◌, is_empty, Result, ok, err, map_err}
use libtaurus.Map.{contains_key}
use libtaurus.Hash.{Hash, Hash-Key}
use libtaurus.Vertex.{Vertex, VertexError, sanity_checks}
use libtaurus.Dag.{
  Dag, DagError, missing_parents, bad_height, conflicting_ancestors, self_referential_parent,
  of_vertex,
}
use libtaurus.Dag.Check.{check_vertex, missing}
use libtaurus.Dag.Pending.{try_insert}
use libtaurus.Dag.Refusals.{try_insert-refused}
use libtaurus.Consensus.Task.{of_dag}
use libtaurus.Consensus.Api.{ApiError, submit, replied, of_task}
use libtaurus.P2p.Broadcast.{Broadcast, accept, vertex}
use libtaurus.Daemon.{verdict, rejecting, handle_gossipsub}

-- The errors for which a peer is punished.
pub data IsPunished : DagError → Type 0 where
  wrong_height : (expected found : ℕ) → IsPunished (bad_height expected found)
  conflict_above : IsPunished conflicting_ancestors
  own_parent : IsPunished self_referential_parent
  malformed : (e : VertexError) → IsPunished (of_vertex e)

-- The result of a submission to a task that replies.
abbrev pub submitted_to : (Vertex → Hash) → Dag → Vertex → Result ApiError (List Hash)
submitted_to hash dag vx = submit (replied (map_err of_dag (try_insert hash dag vx).1))

check_vertex-missing :
    (hash : Vertex → Hash) (dag : Dag) (vx : Vertex)
    → sanity_checks vx ≡ ok tt
    → contains_key dag.graph (hash vx) ≡ false
    → is_empty (missing dag vx) ≡ false
    → check_vertex hash dag vx ≡ err (missing_parents (missing dag vx))
unfolding check_vertex
check_vertex-missing hash dag vx sane fresh some_missing = rw (sane, fresh, some_missing) refl

module _ {MessageId Peer Topic : Type 0} (hash : Vertex → Hash) (dag : Dag) where
  -- A gossiped vertex that passes the sanity checks, is not in the graph and has unknown parents is
  -- accepted, and exactly its unknown parents are fetched from the peer that sent it.
  pub handle_gossipsub-missing :
      (msg : Broadcast MessageId Peer Topic) (vx : Vertex)
      → msg.content ≡ vertex vx
      → sanity_checks vx ≡ ok tt
      → contains_key dag.graph (hash vx) ≡ false
      → is_empty (missing dag vx) ≡ false
      → handle_gossipsub msg (submitted_to hash dag) ≡ (accept msg, some (msg.src, missing dag vx))
  unfolding handle_gossipsub verdict
  handle_gossipsub-missing msg vx content sane fresh some_missing =
      let (refused, _) =
        try_insert-refused hash dag vx (missing_parents (missing dag vx))
          (check_vertex-missing hash dag vx sane fresh some_missing) in
      rw (content, refused) refl

-- A message is rejected, which punishes its sender, exactly for the errors of a punished kind.
pub verdict-rejecting :
    (r : Result ApiError (List Hash))
    → (verdict r ≡ rejecting) ↔ ((e : DagError) × (r ≡ err (of_task (of_dag e))) × IsPunished e)
unfolding verdict
verdict-rejecting r = (to r, λ (e, k, p). rw (k) (from e p))
  where
    to :
        (r : Result ApiError (List Hash))
        → verdict r ≡ rejecting
        → (e : DagError) × (r ≡ err (of_task (of_dag e))) × IsPunished e
    to (ok _) h = cc
    to (err (of_task (of_dag (bad_height x y)))) h = (bad_height x y, refl, wrong_height x y)
    to (err (of_task (of_dag conflicting_ancestors))) h =
        (conflicting_ancestors, refl, conflict_above)
    to (err (of_task (of_dag self_referential_parent))) h =
        (self_referential_parent, refl, own_parent)
    to (err (of_task (of_dag (of_vertex e)))) h = (of_vertex e, refl, malformed e)
    to _ h = cc

    from : (e : DagError) → IsPunished e → verdict (err (of_task (of_dag e))) ≡ rejecting
    from _ (wrong_height x y) = refl
    from _ conflict_above = refl
    from _ own_parent = refl
    from _ (malformed e) = refl
