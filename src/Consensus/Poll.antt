-- ===== src/Consensus/Poll.antt =====
-- When a poll ends, and what it then says.
use libtaurus.Prelude.{
  ℕ, suc, ◌+◌, ◌*◌, ◌≤◌, ◌<◌, ◌≡◌, refl, Bool, true, false, List, [], ◌∷◌, ◌⊎◌, ◌↔◌, ◌≢◌, arith,
  length,
}
use libtaurus.P2p.Request.{Response, error, vertex, preference}
use libtaurus.Consensus.Pollster.{
  Pollster, Polled, recorded, waiting, panicked, count, tally_for, tally_against, run,
}

-- The responses that vote for the vertex, and those that vote against it, an error among the latter.
abbrev pub for : List Response → ℕ
for [] = 0
for (preference pref ∷ rs) = tally_for pref (for rs)
for (error code ∷ rs) = for rs
for (vertex vx ∷ rs) = for rs

abbrev pub against : List Response → ℕ
against [] = 0
against (preference pref ∷ rs) = tally_against pref (against rs)
against (error code ∷ rs) = suc (against rs)
against (vertex vx ∷ rs) = against rs

-- No response carries a vertex.
abbrev pub are_answers : List Response → Bool
are_answers [] = true
are_answers (vertex vx ∷ rs) = false
are_answers (preference pref ∷ rs) = are_answers rs
are_answers (error code ∷ rs) = are_answers rs

answers-length : (rs : List Response) → are_answers rs ≡ true → length rs ≡ for rs + against rs
answers-length [] h = refl
answers-length (preference pref ∷ rs) h = ground (arith, answers-length rs h)
answers-length (error code ∷ rs) h = ground (arith, answers-length rs h)
answers-length (vertex vx ∷ rs) h = cc

count-waiting :
    (q f a : ℕ) (rs : List Response)
    → are_answers rs ≡ true
    → (count q f a rs ≡ waiting) ↔ ((f + for rs < q) × (a + against rs < q))
unfolding count
count-waiting q f a [] h = ground arith
count-waiting q f a (preference pref ∷ rs) h =
    ground (arith, count-waiting q (tally_for pref f) (tally_against pref a) rs h)
count-waiting q f a (error code ∷ rs) h = ground (arith, count-waiting q f (suc a) rs h)
count-waiting q f a (vertex vx ∷ rs) h = cc

count-recorded :
    (q f a : ℕ) (rs : List Response) (b : Bool)
    → count q f a rs ≡ recorded b
    → ((b ≡ true) × (q ≤ f + for rs)) ⊎ ((b ≡ false) × (q ≤ a + against rs))
unfolding count
count-recorded q f a [] b h = ground arith
count-recorded q f a (preference pref ∷ rs) b h =
    ground (arith, count-recorded q (tally_for pref f) (tally_against pref a) rs b)
count-recorded q f a (error code ∷ rs) b h = ground (arith, count-recorded q f (suc a) rs b)
count-recorded q f a (vertex vx ∷ rs) b h = ground arith

count-panicked :
    (q f a : ℕ) (rs : List Response) → are_answers rs ≡ true → count q f a rs ≢ panicked
unfolding count
count-panicked q f a [] h = ground arith
count-panicked q f a (preference pref ∷ rs) h =
    ground (arith, count-panicked q (tally_for pref f) (tally_against pref a) rs h)
count-panicked q f a (error code ∷ rs) h = ground (arith, count-panicked q f (suc a) rs h)
count-panicked q f a (vertex vx ∷ rs) h = cc

module _ {Peer : Type 0} (p : Pollster Peer) (responses : List Response) where
  -- A poll whose peers answer with preferences and errors waits for ever exactly if neither side
  -- reaches the quorum.
  pub run-waiting :
      are_answers responses ≡ true
      → (run p responses ≡ waiting)
        ↔ ((for responses < p.quorum_size) × (against responses < p.quorum_size))
  run-waiting h = ground (arith, count-waiting p.quorum_size 0 0 responses h)

  -- A poll that records a preference has a quorum of responses for what it records.
  pub run-recorded :
      (b : Bool)
      → run p responses ≡ recorded b
      → ((b ≡ true) × (p.quorum_size ≤ for responses))
        ⊎ ((b ≡ false) × (p.quorum_size ≤ against responses))
  run-recorded b h = ground (arith, count-recorded p.quorum_size 0 0 responses b h)

  -- If the peers answer with preferences and errors, and at least one less than twice the quorum of
  -- them answer, the poll records a preference.
  pub run-ends :
      are_answers responses ≡ true
      → 2 * p.quorum_size ≤ length responses + 1
      → (b : Bool) × (run p responses ≡ recorded b)
  run-ends h enough = ends (run p responses) refl
    where
      ends : (r : Polled) → run p responses ≡ r → (b : Bool) × (run p responses ≡ recorded b)
      ends (recorded b) e = (b, e)
      ends waiting e = absurd (
          omega (
            arith,
            ((run-waiting h).0 e).0,
            ((run-waiting h).0 e).1,
            answers-length responses h,
            enough,
          ))
      ends panicked e = absurd (count-panicked p.quorum_size 0 0 responses h e)
