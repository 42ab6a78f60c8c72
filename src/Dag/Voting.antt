-- ===== src/Dag/Voting.antt =====
-- The recursions of a vote through the constraint graph end, and find what they index.
use mathlib.Core.Path.{subst}
use libtaurus.Prelude.{
  ℕ, zero, suc, ◌≤◌, ◌<◌, ◌≡◌, refl, sym, true, false, some, List, inl, inr, arith, leb,
  Option-cases, Bool-cases, All, All-weaken, unwrap, Returns, returns, Returns-bind, Returns-weaken,
  Returns-try_map, Returns-try_fold,
}
use libtaurus.Map
use libtaurus.Map.{Map, get, get-insert, contains_key}
use libtaurus.Hash.{Hash, Hash-Key}
use libtaurus.Constraint.{Constraint, Constraint-Key, ConflictSetKey-Key, conflict_set_key}
use libtaurus.Vertex.{Vertex}
use libtaurus.Dag.{DagError, ConflictSet, State}
use libtaurus.Dag.Levels.{from, from-lt, from-pos}
use libtaurus.Dag.Registering.{state_of-registered}
use libtaurus.Dag.Relabel.{Relabels, Relabels-trans, insert-Relabels}
use libtaurus.Dag.Vote.{progeny_with_chits, reject_progeny}
use libtaurus.Dag.Wired.{
  IsRegistered, IsLevel, IsLevel-unique, IsChild, IsWired, IsComplete, KeepsSets,
}

pub key_some :
    {V : Type 0} (m : Map Constraint V) (c : Constraint)
    → contains_key m c ≡ true
    → Returns {E = DagError} (λ v. get m c ≡ some v) (unwrap (get m c))
key_some m c k = elim (Option-cases (get m c)) [
  | inl e ↦ ground (arith, e, k)
  | inr (v, e) ↦ rw (e) (returns refl)
]

module _ (hash : Vertex → Hash) (graph : Map Hash Vertex) where
  -- A constraint that a vote reaches: it has a conflict set, and its vertices are in the graph.
  pub record IsReached (state : State) (c : Constraint) : Type 0 where
    pub registered : IsRegistered state c
    pub level : ℕ
    pub at : IsLevel graph c level

  pub IsReached-kept :
      (s t : State) (c : Constraint) → KeepsSets s t → IsReached s c → IsReached t c
  IsReached-kept s t c k r = record {
    registered = k.kept c r.registered;
    level = r.level;
    at = r.at;
  }

  -- And so few vertices are as high as it, or higher.
  pub record IsWithin (fuel : ℕ) (state : State) (c : Constraint) : Type 0 where
    pub reached : IsReached state c
    pub enough : from reached.level graph ≤ fuel

  IsWithin-kept :
      (fuel : ℕ) (s t : State) (c : Constraint)
      → KeepsSets s t
      → IsWithin fuel s c
      → IsWithin fuel t c
  IsWithin-kept fuel s t c k r = record {
    reached = record {
      registered = k.kept c r.reached.registered;
      level = r.reached.level;
      at = r.reached.at;
    };
    enough = r.enough;
  }

  pub IsComplete-kept :
      (s t : State) → KeepsSets s t → IsComplete hash graph s → IsComplete hash graph t
  IsComplete-kept s t b k = record { registered = λ c m. b.kept c (k.registered c m) }

  -- The vertex that a constraint's level is the height of.
  record IsPeak (n : ℕ) : Type 0 where
    pub hash_of : Hash
    pub vertex : Vertex
    pub found : get graph hash_of ≡ some vertex
    pub peak : n ≡ vertex.height

  peak : (c : Constraint) (n : ℕ) → IsLevel graph c n → IsPeak n
  peak c n l = elim (Bool-cases (leb l.left.height l.right.height)) [
    | inl e ↦ record {
      hash_of = c.right;
      vertex = l.right;
      found = l.right_found;
      peak = ground (arith, l.level, e);
    }
    | inr e ↦ record {
      hash_of = c.left;
      vertex = l.left;
      found = l.left_found;
      peak = ground (arith, l.level, e);
    }
  ]

  room-pos : (c : Constraint) (n : ℕ) → IsLevel graph c n → 0 < from n graph
  room-pos c n l = let p = peak c n l in rw (p.peak) (from-pos graph p.hash_of p.vertex p.found)

  room-child :
      (c d : Constraint) (m n : ℕ) → IsLevel graph c m → m < n → from n graph < from m graph
  room-child c d m n l b =
      let p = peak c m l in
      subst (λ k. from n graph < from k graph) (sym p.peak)
        (from-lt graph p.hash_of p.vertex n p.found (omega (arith, p.peak, b)))

  module _ (state : State) (w : IsWired hash graph state) (k : IsComplete hash graph state) where
    children-IsReached :
        (c : Constraint) (r : IsReached state c) (s : ConflictSet) (fuel : ℕ)
        → get state (conflict_set_key c) ≡ some s
        → from r.level graph ≤ suc fuel
        → (ds : List Constraint) → get s.children c ≡ some ds
        → All (IsWithin fuel state) ds
    children-IsReached c r s fuel e enough ds f =
        All-weaken (IsChild hash graph c) (IsWithin fuel state) ds
          (λ d h. record {
            reached = record {
              registered = k.registered d h.committed;
              level = h.child_level;
              at = h.above;
            };
            enough =
                let same = IsLevel-unique graph c r.level h.level r.at h.below in
                omega (
                  arith,
                  room-child c d r.level h.child_level r.at (omega (arith, same, h.rises)),
                  enough,
                );
          })
          ((w.entry c s e).below ds f)

    pub progeny_with_chits-Returns :
        (fuel : ℕ) (c : Constraint)
        → IsWithin fuel state c
        → Returns (λ _. Unit {0}) (progeny_with_chits fuel state c)
    unfolding progeny_with_chits
    progeny_with_chits-Returns zero c r =
        absurd (omega (arith, room-pos c r.reached.level r.reached.at, r.enough))
    progeny_with_chits-Returns (suc fuel) c r =
        Returns-bind (state_of-registered state c r.reached.registered) λ s e.
          Returns-bind (key_some s.children c (w.entry c s e).children) λ ds f.
            Returns-bind
              (Returns-try_map (IsWithin fuel state) (λ _. Unit {0}) (progeny_with_chits fuel state)
                (progeny_with_chits-Returns fuel) ds
                (children-IsReached c r.reached s fuel e r.enough ds f))
              λ ps _. Returns-bind (key_some s.chit c (w.entry c s e).chit) λ b _. returns tt

  -- A rejection changes decisions only.
  pub reject_progeny-Returns :
      (fuel : ℕ) (state : State) (c : Constraint)
      → IsWired hash graph state
      → IsComplete hash graph state
      → IsWithin fuel state c
      → Returns (Relabels hash graph state) (reject_progeny fuel state c)
  unfolding reject_progeny
  reject_progeny-Returns zero state c w k r =
      absurd (omega (arith, room-pos c r.reached.level r.reached.at, r.enough))
  reject_progeny-Returns (suc fuel) state c w k r =
      Returns-bind (state_of-registered state c r.reached.registered) λ s e.
        Returns-bind (key_some s.children c (w.entry c s e).children) λ ds f.
          Returns-try_fold (IsWithin fuel state) (Relabels hash graph state) (reject_progeny fuel)
            (λ t d h b.
              Returns-weaken
                (reject_progeny-Returns fuel t d b.wired (IsComplete-kept state t b.keeps k)
                  (IsWithin-kept fuel state t d b.keeps h))
                λ u b'. Relabels-trans hash graph b b')
            ds
            (Map.insert state (conflict_set_key c)
              (record s { decision = Map.insert s.decision c false }))
            (children-IsReached state w k c r.reached s fuel e r.enough ds f)
            (insert-Relabels hash graph state c s
              (record s { decision = Map.insert s.decision c false }) w e
              (record { parents = refl; children = refl; chits = λ d q. q; counts = λ d q. q }))
