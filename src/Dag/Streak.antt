-- ===== src/Dag/Streak.antt =====
-- How many votes in a row a constraint needs.
use mathlib.Core.Path.{subst}
use libtaurus.Prelude.{
  ℕ, suc, ◌≤◌, ◌≡◌, ◌≢◌, inl, inr, Bool, true, false, ◌&&◌, List, [], ◌∷◌, ◌++◌, ◌==◌, ◌≟◌,
  if◌then◌else◌, arith, ok, >>=-eq-ok, ok-injective, Option-cases, try_fold,
}
use libtaurus.Map
use libtaurus.Map.{get, get-insert, get-nil, contains_key}
use libtaurus.Hash.{Hash, Hash-Key}
use libtaurus.Constraint.{Constraint, Constraint-Key, ConflictSetKey-Key, conflict_set_key, unity}
use libtaurus.Vertex.{Vertex}
use libtaurus.Dag.{Dag, Config, ConflictSet, State}
use libtaurus.Dag.Ancestors.{state_of, get_active_ancestor_constraints}
use libtaurus.Dag.Counting.{
  IsTallied, NoVotes-IsTallied, IsCounted, counted-same, counted-opposite, counted-apart,
  vote_against-NoVotes, vote_for-IsVotedFor,
}
use libtaurus.Dag.Decisions.{accepted}
use libtaurus.Dag.Insert.{new}
use libtaurus.Dag.Pending.{try_insert}
use libtaurus.Dag.Tally.{award_chit-NoVotes, try_insert-NoVotes, new-NoVotes}
use libtaurus.Dag.Vote.{
  award_chit, vote_for, vote, record_pending, record_query_result, unwrap_result,
}

-- A constraint, and whether the peers preferred it.
pub record Ballot : Type 0 where
  pub on : Constraint
  pub preferred : Bool

-- How many of the last votes in a row were for a constraint, the last vote standing first. A vote for the
-- opposite constraint, which has the same conflict set, ends a row, and so does a vote against the
-- constraint; votes on other conflict sets do not count.
unfoldable pub streak : Constraint → List Ballot → ℕ
streak c [] = 0
streak c (b ∷ bs) =
    let before = streak c bs in
    if b.on == c
    then (if b.preferred then suc before else 0)
    else if b.preferred && (conflict_set_key b.on == conflict_set_key c)
    then 0
    else before

-- The DAGs that can be reached in a vote, with the votes on constraints so far: the DAG starts from a
-- genesis vertex, vertices are submitted or tried again, a vertex is taken from the pending queries and
-- may get its chit, and votes on constraints are counted, in any order.
pub data Polled (hash : Vertex → Hash) (config : Config) (genesis : Vertex)
    : List Ballot → Dag → Type 0 where
  rooted : {dag : Dag} → new hash config (genesis ∷ []) ≡ ok dag → Polled hash config genesis [] dag
  submitted :
      {bs : List Ballot} {dag : Dag} (vx : Vertex)
      → Polled hash config genesis bs dag
      → Polled hash config genesis bs (try_insert hash dag vx).0
  asked :
      {bs : List Ballot} {dag : Dag} {state : State} (vhash : Hash) (preferred : Bool)
      → award_chit preferred dag.state (unity vhash) ≡ ok state
      → Polled hash config genesis bs dag
      → Polled hash config genesis bs
          (record dag { pending_query = Map.remove dag.pending_query vhash; state = state })
  voted :
      {bs : List Ballot} {dag dag' : Dag} (b : Ballot)
      → vote b.preferred dag b.on ≡ ok dag'
      → Polled hash config genesis bs dag
      → Polled hash config genesis (b ∷ bs) dag'

counted-IsTallied :
    (state : State) (d : Constraint) (s t : ConflictSet) (known : state_of state d ≡ ok s)
    (k : IsCounted d s t) (c : Constraint) (bs : List Ballot)
    → IsTallied c (streak c bs) state
    → IsTallied c
        (streak c (record { on = d; preferred = true } ∷ bs))
        (Map.insert state (conflict_set_key d) t)
unfolding streak
counted-IsTallied state d s t known k c bs i = elim (d ≟ c) [
  | yes p ↦
      let e : (d == c) ≡ true = ground (arith, p) in
      rw (e) (
        subst
          (λ (x : Constraint).
            IsTallied x (streak c bs) state
            → IsTallied x (suc (streak c bs)) (Map.insert state (conflict_set_key d) t))
          p (counted-same state d s t known k (streak c bs)) i)
  | no n ↦
      let e : (d == c) ≡ false = ground (arith, n) in
      elim (conflict_set_key d ≟ conflict_set_key c) [
        | yes q ↦
            let f : (conflict_set_key d == conflict_set_key c) ≡ true = ground (arith, q) in
            rw (e, f) (counted-opposite state d s t known k c n q)
        | no q ↦
            let f : (conflict_set_key d == conflict_set_key c) ≡ false = ground (arith, q) in
            rw (e, f) (counted-apart state d s t known k c (streak c bs) q i)
      ]
]

voted-IsTallied :
    (dag : Dag) (d : Constraint) (preferred : Bool) (dag' : Dag) (c : Constraint) (bs : List Ballot)
    → vote preferred dag d ≡ ok dag'
    → IsTallied c (streak c bs) dag.state
    → IsTallied c (streak c (record { on = d; preferred = preferred } ∷ bs)) dag'.state
unfolding streak
voted-IsTallied dag d true dag' c bs h i =
    let v = vote_for-IsVotedFor dag d dag' h in
    NoVotes-IsTallied c (streak c (record { on = d; preferred = true } ∷ bs)) v.kept
      (counted-IsTallied dag.state d v.before v.after v.known v.counted c bs i)
voted-IsTallied dag d false dag' c bs h i =
    let (k, cleared) = vote_against-NoVotes dag d dag' h in
    elim (d ≟ c) [
      | yes p ↦
          let e : (d == c) ≡ true = ground (arith, p) in
          rw (e) (subst (λ (x : Constraint). IsTallied x 0 dag'.state) p cleared)
      | no n ↦
          let e : (d == c) ≡ false = ground (arith, n) in
          rw (e) (NoVotes-IsTallied c (streak c bs) k i)
    ]

module _ (hash : Vertex → Hash) (config : Config) (genesis : Vertex) where
  -- The counters of every such DAG are bounded by the votes in a row.
  Polled-IsTallied :
      {bs : List Ballot} {dag : Dag} (c : Constraint)
      → Polled hash config genesis bs dag
      → IsTallied c (streak c bs) dag.state
  unfolding streak
  Polled-IsTallied c (rooted {dag} h) =
      NoVotes-IsTallied c 0 (new-NoVotes hash config (genesis ∷ []) dag h) (record {
        bound = λ m l e. ground (arith, get-nil {V = ConflictSet} (conflict_set_key c), l);
      })
  Polled-IsTallied c (submitted {bs} {dag} vx p) =
      NoVotes-IsTallied c (streak c bs) (try_insert-NoVotes hash dag vx) (Polled-IsTallied c p)
  Polled-IsTallied c (asked {bs} {dag} {state} vhash preferred e p) =
      NoVotes-IsTallied c (streak c bs)
        (award_chit-NoVotes preferred dag.state (unity vhash) state e) (Polled-IsTallied c p)
  Polled-IsTallied c (voted {bs} {dag} {dag'} b e p) =
      voted-IsTallied dag b.on b.preferred dag' c bs e (Polled-IsTallied c p)

  -- Whenever a vote turns a constraint on two different vertices into an accepted one, it was at least
  -- the `thresh_accepted`th vote in a row for that constraint in its conflict set, from the start of the
  -- DAG on: the early commitment never applies to it.
  pub vote_for-late :
      {bs : List Ballot} {dag : Dag} (p : Polled hash config genesis bs dag) (c : Constraint)
      (dag' : Dag)
      → c.left ≢ c.right
      → vote_for dag c ≡ ok dag'
      → accepted dag.state c ≡ false
      → accepted dag'.state c ≡ true
      → dag.config.thresh_accepted ≤ streak c (record { on = c; preferred = true } ∷ bs)
  vote_for-late {bs} {dag} p c dag' d h refused a =
      let v = vote_for-IsVotedFor dag c dag' h in
      let i =
        counted-IsTallied dag.state c v.before v.after v.known v.counted c bs
          (Polled-IsTallied c p) in
      let put = get-insert dag.state (conflict_set_key c) v.after (conflict_set_key c) in
      let most : v.count ≤ streak c (record { on = c; preferred = true } ∷ bs) =
        i.bound v.count (ground (arith, put, v.counted.voted)) (ground (arith, put, v.counts)) in
      let reached : dag.config.thresh_accepted ≤ v.count = v.late d refused a in
      omega (arith, most, reached)

-- These ballots, after those before.
cast : Bool → List Constraint → List Ballot → List Ballot
cast preferred [] bs = bs
cast preferred (c ∷ cs) bs = cast preferred cs (record { on = c; preferred = preferred } ∷ bs)

module _ (hash : Vertex → Hash) (config : Config) (genesis : Vertex) where
  votes-Polled :
      (preferred : Bool) (cs : List Constraint) (bs : List Ballot) (dag dag' : Dag)
      → Polled hash config genesis bs dag
      → try_fold (vote preferred) dag cs ≡ ok dag'
      → Polled hash config genesis (cast preferred cs bs) dag'
  unfolding cast try_fold
  votes-Polled preferred [] bs dag dag' p h =
      subst (Polled hash config genesis bs) (ok-injective h) p
  votes-Polled preferred (c ∷ cs) bs dag dag' p h =
      let (d, e, h₁) = >>=-eq-ok (vote preferred dag c) _ h in
      votes-Polled preferred cs (record { on = c; preferred = preferred } ∷ bs) d dag'
        (voted (record { on = c; preferred = preferred }) e p) h₁

  -- `record_query_result` takes such steps: its votes are on the constraints of the vertex, and then on
  -- its unity constraint.
  record_query_result-Polled :
      (vhash : Hash) (preferred : Bool) (bs : List Ballot) (dag dag' : Dag)
      → Polled hash config genesis bs dag
      → record_query_result dag vhash preferred ≡ ok dag'
      → (cs : List Constraint) × Polled hash config genesis
          (cast preferred (cs ++ unity vhash ∷ []) bs)
          dag'
  unfolding record_query_result record_pending
  record_query_result-Polled vhash preferred bs dag dag' p h =
      elim (Option-cases (get dag.pending_query vhash)) [
        | inl e ↦ ground (arith, e)
        | inr (vx, e) ↦
            let taken = record dag { pending_query = Map.remove dag.pending_query vhash } in
            let h₀ = rw (e, record_query_result) at h in
            let (state, a, h₁) = >>=-eq-ok (award_chit preferred dag.state (unity vhash)) _ h₀ in
            let (cs, _, h₂) =
              >>=-eq-ok
                (unwrap_result
                  (get_active_ancestor_constraints (record taken { state = state }) vx))
                _ h₁ in
            (
              cs,
              votes-Polled preferred (cs ++ unity vhash ∷ []) bs (record taken { state = state })
                  dag' (asked vhash preferred a p) h₂,
            )
      ]
