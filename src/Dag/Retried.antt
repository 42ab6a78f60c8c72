-- ===== src/Dag/Retried.antt =====
-- `retry_pending` ends, whatever it is to retry, and further rounds change nothing.
use mathlib.Core.Path.{subst}
use libtaurus.Prelude.{
  ℕ, zero, suc, ◌+◌, >>=-eq-ok, ok-injective, ◌≡◌, refl, sym, ap, ◌∙◌, List, [], ◌∷◌, reverse,
  arith, Result, ok,
}
use libtaurus.Hash.{Hash, Hash-Key}
use libtaurus.Vertex.{Vertex}
use libtaurus.Dag.{Dag, DagError}
use libtaurus.Dag.Knowing.{IsKnown}
use libtaurus.Dag.Pending.{Retry, retry_one, retry_loop, retry_pending}
use libtaurus.Dag.Sound.{IsSound}
use libtaurus.Dag.Total.{IsTried}
use libtaurus.Dag.Retrying.{at, always, left_out}

-- `I` is what each attempt keeps.
module _ (hash : Vertex → Hash) (I : Dag → Type 0)
    (keep : (dag : Dag) (vx : Vertex) (r : Dag × Result DagError (List Hash))
      → IsSound hash dag
      → IsTried hash dag vx r
      → I dag
      → I r.0) where
  -- A loop that has ended does not use further rounds.
  retry_loop-more :
      (n : ℕ) (dag : Dag) (queue successes : List Hash) (out : Retry)
      → retry_loop hash n (at hash I keep dag queue successes) ≡ ok out
      → retry_loop hash (suc n) (at hash I keep dag queue successes) ≡ ok out
  unfolding retry_loop
  retry_loop-more zero dag [] successes out e = e
  retry_loop-more zero dag (h ∷ rest) successes out e = cc
  retry_loop-more (suc n) dag [] successes out e = e
  retry_loop-more (suc n) dag (h ∷ rest) successes out e =
      let (r, f, g) =
        >>=-eq-ok (retry_one hash (at hash I keep dag (h ∷ rest) successes) h rest) _ e in
      rw (f) (retry_loop-more n r.dag r.queue r.successes out g)

  pub retry_pending-more :
      (k rounds : ℕ) (dag : Dag) (hashes : List Hash) (out : Dag × List Hash)
      → retry_pending hash rounds dag hashes ≡ ok out
      → retry_pending hash (k + rounds) dag hashes ≡ ok out
  unfolding retry_pending
  retry_pending-more k rounds dag hashes out e =
      let (r, f, g) =
        >>=-eq-ok (retry_loop hash rounds (at hash I keep dag (reverse hashes) [])) _ e in
      rw (further k r f) g
    where
      further :
          (k : ℕ) (r : Retry)
          → retry_loop hash rounds (at hash I keep dag (reverse hashes) []) ≡ ok r
          → retry_loop hash (k + rounds) (at hash I keep dag (reverse hashes) []) ≡ ok r
      further zero r f =
          subst (λ n. retry_loop hash n (at hash I keep dag (reverse hashes) []) ≡ ok r)
            (omega arith) f
      further (suc k) r f =
          subst (λ n. retry_loop hash n (at hash I keep dag (reverse hashes) []) ≡ ok r)
            (omega arith) (retry_loop-more (k + rounds) dag (reverse hashes) [] r (further k r f))

  -- What `retry_pending` returns.
  pub record HasRetried (dag : Dag) (hashes : List Hash) : Type 0 where
    pub rounds : ℕ
    pub after : Dag
    pub successes : List Hash
    pub ends : retry_pending hash rounds dag hashes ≡ ok (after, successes)
    pub sound : IsSound hash after
    pub known : IsKnown hash after.vertex
    pub kept : I after

  -- On a sound DAG whose known vertices are under their hashes, `retry_pending` ends for every list of
  -- hashes, without a panic, and the DAG stays sound.
  pub retry_pending-HasRetried :
      (dag : Dag) (hashes : List Hash)
      → IsSound hash dag
      → IsKnown hash dag.vertex
      → I dag
      → HasRetried dag hashes
  unfolding retry_pending
  retry_pending-HasRetried dag hashes i k j =
      let f =
        always hash I keep (suc (left_out hash I keep dag)) dag (reverse hashes) [] i k j
          (omega arith) in
      record {
        rounds = f.rounds;
        after = f.out.dag;
        successes = f.out.successes;
        ends = rw (f.ends) refl;
        sound = f.sound;
        known = f.known;
        kept = f.kept;
      }

  -- Whatever the rounds that it is given, a call that returns keeps the DAG sound.
  pub retry_pending-keeps :
      (rounds : ℕ) (dag : Dag) (hashes : List Hash) (out : Dag × List Hash)
      → IsSound hash dag
      → IsKnown hash dag.vertex
      → I dag
      → retry_pending hash rounds dag hashes ≡ ok out
      → IsSound hash out.0 × IsKnown hash out.0.vertex × I out.0
  retry_pending-keeps rounds dag hashes out i k j e =
      let t = retry_pending-HasRetried dag hashes i k j in
      let same : out ≡ (t.after, t.successes) = ok-injective (
        sym (retry_pending-more t.rounds rounds dag hashes out e)
        ∙ ap (λ n. retry_pending hash n dag hashes) (omega arith)
        ∙ retry_pending-more rounds t.rounds dag hashes (t.after, t.successes) t.ends) in
      subst (λ (o : Dag × List Hash). IsSound hash o.0 × IsKnown hash o.0.vertex × I o.0) (sym same)
        (t.sound, t.known, t.kept)
