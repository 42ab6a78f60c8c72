-- ===== src/Sequencer/Ticking.antt =====
-- The proposal of the sequencer on the frontier of a DAG that can be reached.
use mathlib.Core.Path.{subst}
use libtaurus.Prelude.{
  ℕ, ◌<◌, ◌≡◌, refl, sym, ◌∙◌, some, List, [], ◌∷◌, map, ok, panic, u64_mod, All, Result, maximum,
  add64, ok-injective, ap, Bool, false, ◌&&◌, contains,
}
use libtaurus.Map.{get, contains_key}
use libtaurus.Hash.{Hash, Hash-Key}
use libtaurus.Vertex.{Vertex, empty, sanity_checks, VertexError}
use libtaurus.Consensus.Api.{VertexMeta, meta_of}
use libtaurus.Dag.{Dag, Config}
use libtaurus.Dag.Answers.{Grown-HasFrontier}
use libtaurus.Dag.Built.{AreKnown, with_parents-expected}
use libtaurus.Dag.Check.{expected_height}
use libtaurus.Dag.Grown.{Grown, Grown-IsSound}
use libtaurus.Dag.Total.{maximum-some}
use libtaurus.Dag.Query.{get_frontier, query}
use libtaurus.Dag.Frontier.{HasFrontier, is_strong}
use libtaurus.Sequencer.{propose}
use libtaurus.Sequencer.Proposal.{metas-hash, propose-with_parents}

-- A vertex of the frontier that `query` finds strongly preferred.
abbrev pub is_eligible : Dag → Hash → Bool
is_eligible dag h = contains_key dag.frontier h && is_strong (query dag h)

-- What the sequencer proposes on the DAG that gave these vertices: it panics where no vertex of the
-- frontier is strongly preferred, and otherwise gives a vertex on those that are, in the order in which
-- they were given, whose height is the one that the DAG expects of it.
pub data IsProposal (hash : Vertex → Hash) (dag : Dag) (now : ℕ) (vs : List Vertex)
    : Result VertexError Vertex → Type 0 where
  stalled : ((h : Hash) → is_eligible dag h ≡ false) → IsProposal hash dag now vs panic
  proposed :
      {u : Vertex}
      → ((h : Hash) → contains u.parents h ≡ is_eligible dag h)
      → u.parents ≡ map hash vs
      → u.timestamp ≡ now
      → All (λ v. get dag.graph (hash v) ≡ some v) vs
      → expected_height dag u ≡ ok u.height
      → sanity_checks u ≡ ok tt
      → IsProposal hash dag now vs (ok u)

module _ (hash : Vertex → Hash) (config : Config) (genesis : Vertex) (root : genesis.parents ≡ [])
    (fits : genesis.height < u64_mod) (dag : Dag) (g : Grown hash config genesis dag) where
  all-AreKnown :
      (vs : List Vertex) → All (λ v. get dag.graph (hash v) ≡ some v) vs → AreKnown hash dag vs
  all-AreKnown [] a = tt
  all-AreKnown (v ∷ vs) (p, ps) = (
    (Grown-IsSound hash config genesis root fits g).grounded.known (hash v) v p,
    all-AreKnown vs ps,
  )

  built-IsProposal :
      (now : ℕ) (v : Vertex) (vs : List Vertex)
      → HasFrontier hash dag (v ∷ vs)
      → IsProposal hash dag now (v ∷ vs) (propose now (map (meta_of hash) (v ∷ vs)))
  unfolding propose
  built-IsProposal now v vs f =
      let (m, e) =
        maximum-some v.height (map (λ (q : VertexMeta). q.height) (map (meta_of hash) vs)) in
      let u : Vertex = record (empty now) {
        height = add64 1 m;
        parents = map (λ (q : VertexMeta). q.hash) (map (meta_of hash) (v ∷ vs));
      } in
      let runs : propose now (map (meta_of hash) (v ∷ vs)) ≡ ok u = rw (e, propose) refl in
      let (expected, sane) =
        with_parents-expected hash dag (empty now) (v ∷ vs) u refl (all-AreKnown (v ∷ vs) f.inside)
          (sym (propose-with_parents hash now (v ∷ vs) refl f.once) ∙ runs) in
      let on : u.parents ≡ map hash (v ∷ vs) = metas-hash hash (v ∷ vs) in
      rw (runs)
        (proposed (λ h. ap (λ hs. contains hs h) on ∙ f.exact h) on refl f.inside expected sane)

  -- On the frontier of a DAG that is reached from a genesis vertex without parents by submitting
  -- vertices whose height is a `u64` other than 0, by retrying what waits and by recording votes, the
  -- sequencer panics if no vertex of the frontier is strongly preferred. Otherwise it proposes a vertex
  -- on exactly the strongly preferred vertices of the frontier, which are in the graph; it passes the
  -- sanity checks, and its height is the one that the DAG expects.
  pub propose-IsProposal :
      (now : ℕ) (vs : List Vertex)
      → get_frontier dag ≡ ok vs
      → IsProposal hash dag now vs (propose now (map (meta_of hash) vs))
  unfolding propose maximum
  propose-IsProposal now vs e =
      let (ws, q, f) = Grown-HasFrontier hash config genesis root fits dag g in
      let same : ws ≡ vs = ok-injective (sym q ∙ e) in
      branch vs (subst (HasFrontier hash dag) same f)
    where
      branch :
          (vs : List Vertex)
          → HasFrontier hash dag vs
          → IsProposal hash dag now vs (propose now (map (meta_of hash) vs))
      branch [] f = stalled (λ h. sym (f.exact h))
      branch (v ∷ vs) f = built-IsProposal now v vs f
