-- ===== src/Dag/Retrying.antt =====
-- The loop of `retry_pending` ends: each round shortens the queue or puts a known vertex into the graph.
use libtaurus.Prelude.{
  ℕ, zero, suc, ◌≤◌, ◌<◌, ◌≡◌, refl, ap, ◌∙◌, true, Option, none, some, List, [], ◌∷◌, ◌++◌,
  reverse, inl, inr, arith, Result, ok, err, insert,
}
use libtaurus.Map
use libtaurus.Map.{Map, get, contains_key}
use libtaurus.Hash.{Hash, Hash-Key}
use libtaurus.Vertex.{Vertex}
use libtaurus.Dag.{Dag, DagError, missing_parents, waiting_on_parents}
use libtaurus.Dag.Heights.{check_vertex-IsChecked}
use libtaurus.Dag.Knowing.{
  IsRaised, IsKnown, IsKnown-outcome, unplaced, unplaced-known, unplaced-lt,
}
use libtaurus.Dag.Pending.{Retry, on_error, try_insert, retried, retry_one, retry_loop}
use libtaurus.Dag.Sound.{IsSound}
use libtaurus.Dag.Total.{
  IsOutcome, refused, accepted, IsTried, try_insert-IsTried, try_insert-rootless,
}

-- `I` is what each attempt keeps.
module _ (hash : Vertex → Hash) (I : Dag → Type 0)
    (keep : (dag : Dag) (vx : Vertex) (r : Dag × Result DagError (List Hash))
      → IsSound hash dag
      → IsTried hash dag vx r
      → I dag
      → I r.0) where
  -- The vertices that wait to be put into the graph.
  abbrev pub left_out : Dag → ℕ
  left_out dag = unplaced dag.graph dag.vertex

  data IsRound (dag : Dag) : Dag × Result DagError (List Hash) → Type 0 where
    stays :
        {dag' : Dag} {e : DagError}
        → IsSound hash dag'
        → IsKnown hash dag'.vertex
        → left_out dag' ≤ left_out dag
        → IsRound dag (dag', err e)
    places :
        {dag' : Dag} {ready : List Hash}
        → IsSound hash dag'
        → IsKnown hash dag'.vertex
        → left_out dag' < left_out dag
        → IsRound dag (dag', ok ready)

  tried-IsRound :
      (dag : Dag) (k : IsKnown hash dag.vertex) (vx : Vertex)
      → IsRaised vx
      → contains_key dag.vertex (hash vx) ≡ true
      → (r : Dag × Result DagError (List Hash)) → IsSound hash r.0
      → IsOutcome hash dag vx r
      → IsRound dag r
  tried-IsRound dag k vx raised here r s (refused {e} c) =
      stays s (IsKnown-outcome hash dag vx r raised k (refused c)) (remembered e)
    where
      remembered : (e : DagError) → left_out (on_error hash dag vx e) ≤ left_out dag
      remembered (missing_parents l) =
          omega (arith, unplaced-known dag.graph dag.vertex (hash vx) vx here)
      remembered (waiting_on_parents l) =
          omega (arith, unplaced-known dag.graph dag.vertex (hash vx) vx here)
      remembered e = omega arith
  tried-IsRound dag k vx raised here r s (accepted {dag'} c x) =
      let graph' = Map.insert dag.graph (hash vx) vx in
      let count : left_out dag' ≡ unplaced graph' (Map.insert dag.vertex (hash vx) vx) =
        ap (λ m. unplaced m dag'.vertex) x.graph ∙ ap (unplaced graph') x.vertex in
      places s (IsKnown-outcome hash dag vx r raised k (accepted c x)) (
        omega (
          arith,
          count,
          unplaced-known graph' dag.vertex (hash vx) vx here,
          unplaced-lt dag.graph dag.vertex (hash vx) vx here
              (check_vertex-IsChecked dag vx hash c).fresh,
        ))

  -- A known vertex is tried.
  known-IsTried :
      (dag : Dag)
      → IsSound hash dag
      → IsKnown hash dag.vertex
      → (h : Hash) (vx : Vertex) → get dag.vertex h ≡ some vx
      → IsTried hash dag vx (try_insert hash dag vx)
  known-IsTried dag i k h vx e = elim (k.raised h vx e) [
    | inl risen ↦ try_insert-IsTried hash dag i vx (i.grounded.small h vx e) risen
    | inr root ↦ try_insert-rootless hash dag i vx root
  ]

  known-IsRound :
      (dag : Dag)
      → IsSound hash dag
      → IsKnown hash dag.vertex
      → (h : Hash) (vx : Vertex) → get dag.vertex h ≡ some vx
      → IsRound dag (try_insert hash dag vx)
  known-IsRound dag i k h vx e =
      let here : contains_key dag.vertex (hash vx) ≡ true = rw (k.named h vx e, e) refl in
      let t = known-IsTried dag i k h vx e in
      tried-IsRound dag k vx (k.raised h vx e) here (try_insert hash dag vx) t.sound t.outcome

  -- The loop ends, after some number of rounds, with a sound DAG.
  pub record EndsFrom (r : Retry) : Type 0 where
    pub rounds : ℕ
    pub out : Retry
    pub ends : retry_loop hash rounds r ≡ ok out
    pub sound : IsSound hash out.dag
    pub known : IsKnown hash out.dag.vertex
    pub kept : I out.dag

  abbrev pub at : Dag → List Hash → List Hash → Retry
  at dag queue successes = record { dag = dag; queue = queue; successes = successes }

  -- The loop ends from any queue, while fewer than `n` known vertices are left out.
  abbrev pub Ends : ℕ → Type 0
  Ends n =
      (dag : Dag) (queue successes : List Hash)
      → IsSound hash dag
      → IsKnown hash dag.vertex
      → I dag
      → left_out dag < n
      → EndsFrom (at dag queue successes)

  one_round :
      (dag : Dag) (h : Hash) (rest successes : List Hash) (r : Retry)
      → retry_one hash (at dag (h ∷ rest) successes) h rest ≡ ok r
      → EndsFrom r
      → EndsFrom (at dag (h ∷ rest) successes)
  unfolding retry_loop
  one_round dag h rest successes r e f = record {
    rounds = suc f.rounds;
    out = f.out;
    ends = rw (e) f.ends;
    sound = f.sound;
    known = f.known;
    kept = f.kept;
  }

  sooner : (n : ℕ) → Ends n → Ends (suc n)
  unfolding retry_loop retry_one
  sooner n fewer dag [] successes i k j b = record {
    rounds = 0;
    out = at dag [] successes;
    ends = refl;
    sound = i;
    known = k;
    kept = j;
  }
  sooner n fewer dag (h ∷ rest) successes i k j b =
      look (get dag.vertex h) refl
        (λ dag' i' k' j' b'. sooner n fewer dag' rest successes i' k' j' b')
    where
      Shorter : Type 0
      Shorter =
          (dag' : Dag)
          → IsSound hash dag'
          → IsKnown hash dag'.vertex
          → I dag'
          → left_out dag' < suc n
          → EndsFrom (at dag' rest successes)

      tried :
          (r : Dag × Result DagError (List Hash))
          → retry_one hash (at dag (h ∷ rest) successes) h rest
            ≡ retried hash (at dag (h ∷ rest) successes) h rest r
          → IsRound dag r
          → I r.0
          → Shorter
          → EndsFrom (at dag (h ∷ rest) successes)
      tried r e (stays {dag'} i' k' b') j' shorter =
          one_round dag h rest successes (at dag' rest successes) e
            (shorter dag' i' k' j' (omega (arith, b, b')))
      tried r e (places {dag'} {ready} i' k' b') j' shorter =
          one_round dag h rest successes (at dag' (reverse ready ++ rest) (insert h successes)) e (
            fewer dag' (reverse ready ++ rest) (insert h successes) i' k' j' (omega (arith, b, b')))

      look :
          (o : Option Vertex)
          → get dag.vertex h ≡ o
          → Shorter
          → EndsFrom (at dag (h ∷ rest) successes)
      look none e shorter =
          one_round dag h rest successes (at dag rest successes) (rw (e, retry_one) refl)
            (shorter dag i k j b)
      look (some vx) e shorter =
          tried (try_insert hash dag vx) (rw (e, retry_one) refl) (known-IsRound dag i k h vx e)
            (keep dag vx (try_insert hash dag vx) i (known-IsTried dag i k h vx e) j) shorter

  pub always : (n : ℕ) → Ends n
  always zero dag queue successes i k j b = absurd (omega (arith, b))
  always (suc n) dag queue successes i k j b = sooner n (always n) dag queue successes i k j b
