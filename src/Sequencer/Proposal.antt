-- ===== src/Sequencer/Proposal.antt =====
-- The proposal of the sequencer, against the way in which a vertex is built.
use libtaurus.Prelude.{
  ℕ, ◌≡◌, refl, true, false, not, List, [], ◌∷◌, map, arith, length, unique, distinct, unique_iff,
  is_empty, ◌==◌, ℕ-Key, ℕ_discrete,
}
use libtaurus.Hash.{Hash, Hash-Key}
use libtaurus.Vertex.{Vertex, empty, with_parents}
use libtaurus.Consensus.Api.{VertexMeta, meta_of}
use libtaurus.Sequencer.{propose}

pub metas-hash :
    (hash : Vertex → Hash) (ps : List Vertex)
    → map (λ (m : VertexMeta). m.hash) (map (meta_of hash) ps) ≡ map hash ps
metas-hash hash [] = refl
metas-hash hash (p ∷ ps) = rw (metas-hash hash ps) refl

metas-height :
    (hash : Vertex → Hash) (ps : List Vertex)
    → map (λ (m : VertexMeta). m.height) (map (meta_of hash) ps) ≡ map (λ (p : Vertex). p.height) ps
metas-height hash [] = refl
metas-height hash (p ∷ ps) = rw (metas-height hash ps) refl

no_twins : (hs : List Hash) → distinct hs ≡ true → not (length hs == length (unique hs)) ≡ false
unfolding ℕ_discrete
no_twins hs d = ground (arith, (unique_iff hs).1 d)

-- On a frontier of at least one vertex, none twice, the sequencer proposes exactly the vertex that
-- `with_parents` builds on it.
pub propose-with_parents :
    (hash : Vertex → Hash) (now : ℕ) (frontier : List Vertex)
    → is_empty frontier ≡ false
    → distinct (map hash frontier) ≡ true
    → propose now (map (meta_of hash) frontier) ≡ with_parents hash (empty now) frontier
unfolding propose with_parents
propose-with_parents hash now [] e d = cc
propose-with_parents hash now (p ∷ ps) e d =
    rw (metas-hash hash (p ∷ ps), metas-height hash (p ∷ ps), no_twins (map hash (p ∷ ps)) d) refl
