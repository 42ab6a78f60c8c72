-- ===== src/P2p/Suite.antt =====
-- The tests of src/p2p/broadcast.rs, as functions that return whether their assertions hold. The
-- identifiers are numbers.
use libtaurus.Prelude.{ℕ, ◌≡◌, refl, Bool, true, false}
use libtaurus.Vertex.{empty}
use libtaurus.P2p.Broadcast.{
  Broadcast, Acceptance, accepted, ignored, rejected, accept, ignore, reject, vertex,
}

abbrev hello : Broadcast ℕ ℕ ℕ
hello = record { id = 1; src = 2; topic = 3; content = vertex (empty 0) }

abbrev is_accepted : Acceptance → Bool
is_accepted accepted = true
is_accepted _ = false

abbrev is_ignored : Acceptance → Bool
is_ignored ignored = true
is_ignored _ = false

abbrev is_rejected : Acceptance → Bool
is_rejected rejected = true
is_rejected _ = false

-- `message_accept`
abbrev test_message_accept : Bool
test_message_accept = is_accepted (accept hello).acceptance

-- `message_ignore`
abbrev test_message_ignore : Bool
test_message_ignore = is_ignored (ignore hello).acceptance

-- `message_reject`
abbrev test_message_reject : Bool
test_message_reject = is_rejected (reject hello).acceptance

test_message_accept_passes : test_message_accept ≡ true
test_message_accept_passes = refl

test_message_ignore_passes : test_message_ignore ≡ true
test_message_ignore_passes = refl

test_message_reject_passes : test_message_reject ≡ true
test_message_reject_passes = refl
