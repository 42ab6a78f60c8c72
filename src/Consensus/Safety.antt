-- ===== src/Consensus/Safety.antt =====
-- The consensus task, from its start on, never accepts two conflicting constraints.
use mathlib.Core.Path.{subst}
use libtaurus.Prelude.{
  ℕ, ◌≡◌, refl, List, [], ◌∷◌, Key, ok, >>=-eq-ok, ok-injective, map_err, map_err-eq-ok,
}
use libtaurus.Hash.{Hash}
use libtaurus.Vertex.{Vertex}
use libtaurus.Dag.Insert.{new}
use libtaurus.Dag.Safety.{IsConsistent}
use libtaurus.Dag.Runs.{Reach, started, Reach-IsConsistent}
use libtaurus.Consensus.Task.{
  Task, Config, Action, Effects, check, of_dag, genesis_vertex, new_task, handle,
}
use libtaurus.Consensus.Runs.{handle-Reach}

-- The states of the task: it starts from its configuration, and then handles actions in any order, with
-- any random draws.
pub data Served {Peer : Type 0} ⦃key : Key Peer⦄ (hash : Vertex → Hash) (config : Config)
    : Task Peer → Type 0 where
  started_task : {t : Task Peer} → new_task hash config ≡ ok t → Served hash config t
  handled :
      {t t' : Task Peer} {fx : Effects Peer} (rounds : ℕ) (draws : Vertex → List ℕ)
      (a : Action Peer)
      → Served hash config t
      → handle hash rounds draws t a ≡ ok (t', fx)
      → Served hash config t'

module _ {Peer : Type 0} ⦃key : Key Peer⦄ (hash : Vertex → Hash) (config : Config) where
  pub Served-Reach :
      {t : Task Peer} → Served hash config t → Reach hash config.dag_config genesis_vertex t.dag
  unfolding new_task
  Served-Reach (started_task {t} h) =
      let (_, _, h₁) = >>=-eq-ok (check config) _ h in
      let (d, e, h₂) =
        >>=-eq-ok (map_err of_dag (new hash config.dag_config (genesis_vertex ∷ []))) _ h₁ in
      subst (λ (x : Task Peer). Reach hash config.dag_config genesis_vertex x.dag) (ok-injective h₂)
        (started (map_err-eq-ok of_dag (new hash config.dag_config (genesis_vertex ∷ [])) e))
  Served-Reach (handled {t} {t'} {fx} rounds draws a s h) =
      handle-Reach hash config.dag_config genesis_vertex rounds draws t a t' fx (Served-Reach s) h

  -- Whatever actions the consensus task handles after its start, whichever peers it polls and whatever
  -- they answer, it holds no constraint and its opposite both as accepted.
  pub Served-IsConsistent : {t : Task Peer} → Served hash config t → IsConsistent t.dag.state
  Served-IsConsistent s =
      Reach-IsConsistent hash config.dag_config genesis_vertex refl (Served-Reach s)
