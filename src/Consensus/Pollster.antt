-- ===== src/Consensus/Pollster.antt =====
-- src/consensus/pollster.rs: a poll of the peers on one vertex. The responses are the list of those
-- that arrive, in order; the pollster keeps a sender of its own channel, so that no end of the channel
-- is ever seen, and a poll whose responses are used up waits.
use libtaurus.Prelude.{
  ℕ, suc, Bool, ◌&&◌, Option, some, List, [], ◌∷◌, map, if◌then◌else◌, ltb, leb,
}
use libtaurus.Hash.{Hash}
use libtaurus.P2p.Request.{Request, get_preference, Response, error, vertex, preference}

-- How a poll ends: it records a preference, waits for more responses, or panics on a vertex in place
-- of a preference.
pub data Polled : Type 0 where
  recorded : Bool → Polled
  waiting panicked : Polled

pub record Pollster (Peer : Type 0) : Type 0 where
  pub vhash : Hash
  pub peers_to_poll : List Peer
  pub quorum_size : ℕ

-- The requests that `run` sends first, each to one peer.
abbrev pub requests : {Peer : Type 0} → Pollster Peer → List (Request × Option Peer)
requests p = map (λ peer. (get_preference p.vhash, some peer)) p.peers_to_poll

-- Whether no side has its quorum yet.
abbrev pub is_open : ℕ → ℕ → ℕ → Bool
is_open quorum count_for count_against = ltb count_for quorum && ltb count_against quorum

abbrev pub tally_for : Bool → ℕ → ℕ
tally_for pref n = if pref then suc n else n

abbrev pub tally_against : Bool → ℕ → ℕ
tally_against pref n = if pref then n else suc n

-- The loop of `run` with the counts so far, and what it records at its end.
unfoldable pub count : ℕ → ℕ → ℕ → List Response → Polled
count quorum count_for count_against [] =
    if is_open quorum count_for count_against then waiting else recorded (leb quorum count_for)
count quorum count_for count_against (preference pref ∷ responses) =
    let rest =
      count quorum (tally_for pref count_for) (tally_against pref count_against) responses in
    if is_open quorum count_for count_against then rest else recorded (leb quorum count_for)
count quorum count_for count_against (error code ∷ responses) =
    let rest = count quorum count_for (suc count_against) responses in
    if is_open quorum count_for count_against then rest else recorded (leb quorum count_for)
count quorum count_for count_against (vertex vx ∷ responses) =
    if is_open quorum count_for count_against then panicked else recorded (leb quorum count_for)

-- `run`
abbrev pub run : {Peer : Type 0} → Pollster Peer → List Response → Polled
run p responses = count p.quorum_size 0 0 responses
