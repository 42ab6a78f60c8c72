-- ===== src/Dag/Counting.antt =====
-- What a vote on one constraint does to the counters of votes, and when it accepts the constraint.
use mathlib.Core.Path.{subst}
use libtaurus.Prelude.{
  ℕ, suc, ◌≤◌, ◌≡◌, ◌≢◌, refl, ap, inl, inr, Bool, true, false, some, List, ◌==◌, if◌then◌else◌,
  arith, Bool-cases, ok, add64, unwrap, >>=-eq-ok, ok-injective, unwrap-eq-ok,
}
use libtaurus.Map
use libtaurus.Map.{get, get-insert, get-nil, contains_key}
use libtaurus.Hash.{Hash-Key}
use libtaurus.Constraint.{
  Constraint, Constraint-Key, ConflictSetKey-Key, conflict, conflict_set_key,
}
use libtaurus.Dag.{Dag, ConflictSet, State, depth}
use libtaurus.Dag.Ancestors.{state_of}
use libtaurus.Dag.Commit.{can_accept-late}
use libtaurus.Dag.Decisions.{accepted}
use libtaurus.Dag.Tally.{
  count_of, is_last, set_last, NoVotes, NoVotes-refl, insert-NoVotes, accept-NoVotes,
}
use libtaurus.Dag.Vote.{
  count_vote, accept, vote_for, vote_against, prefer, can_accept, confidence_of,
  opposite_confidence, has_conflict,
}

-- Where the last vote of the conflict set of a constraint was for it, its counter is at most this number.
pub record IsTallied (c : Constraint) (n : ℕ) (state : State) : Type 0 where
  pub bound : (m : ℕ) → is_last state c ≡ true → count_of state c ≡ some m → m ≤ n

pub NoVotes-IsTallied :
    {s t : State} (c : Constraint) (n : ℕ) → NoVotes s t → IsTallied c n s → IsTallied c n t
NoVotes-IsTallied c n k i = record {
  bound =
      λ m l e. elim (k.at c m l e) [ inl (l', e') ↦ i.bound m l' e' | inr z ↦ ground (arith, z) ];
}

add64-bound : (k n : ℕ) → k ≤ n → add64 k 1 ≤ suc n
add64-bound k n h = omega (arith, h)

-- The counter after a vote: it goes on from before only where the last vote was the same.
pub record IsCounted (d : Constraint) (s t : ConflictSet) : Type 0 where
  pub voted : t.last ≡ d
  pub others : (c : Constraint) → c ≢ d → get t.count c ≡ get s.count c
  pub bound :
      (m n : ℕ)
      → ((k : ℕ) → set_last (some s) d ≡ true → get s.count d ≡ some k → k ≤ n)
      → get t.count d ≡ some m
      → m ≤ suc n

count_vote-IsCounted :
    (s : ConflictSet) (d : Constraint) (t : ConflictSet) → count_vote s d ≡ ok t → IsCounted d s t
unfolding count_vote
count_vote-IsCounted s d t h = elim (Bool-cases (s.last == d)) [
  | inl e ↦
      let h' = rw (e) at h in
      let (k, f, h₁) = >>=-eq-ok (unwrap (get s.count d)) _ h' in
      let there = unwrap-eq-ok (get s.count d) f in
      subst (IsCounted d s) (ok-injective h₁) (record {
        voted = ground (arith, e);
        others = λ c p. ground (arith, p, get-insert s.count d (add64 k 1) c);
        bound = λ m n b g.
            ground (arith, get-insert s.count d (add64 k 1) d, g, add64-bound k n (b k e there));
      })
  | inr e ↦
      let h' = rw (e) at h in
      subst (IsCounted d s) (ok-injective h') (record {
        voted = refl;
        others = λ c p. ground (arith, p, get-insert s.count d 1 c);
        bound = λ m n b g. ground (arith, get-insert s.count d 1 d, g);
      })
]

-- The confidence and the preference do not enter into it.
prefer-IsCounted :
    (s : ConflictSet) (c : Constraint) (m n : ℕ) (t : ConflictSet)
    → IsCounted c (prefer s c m n) t
    → IsCounted c s t
prefer-IsCounted s c m n t k = record { voted = k.voted; others = k.others; bound = k.bound }

count_vote-decision :
    (s : ConflictSet) (c : Constraint) (t : ConflictSet)
    → count_vote s c ≡ ok t
    → t.decision ≡ s.decision
unfolding count_vote
count_vote-decision s c t h = ground arith

-- A conflict set is replaced by one in which a vote was counted.
module _ (state : State) (d : Constraint) (s t : ConflictSet) (known : state_of state d ≡ ok s)
    (k : IsCounted d s t) where
  pub counted-same :
      (n : ℕ) → IsTallied d n state → IsTallied d (suc n) (Map.insert state (conflict_set_key d) t)
  counted-same n i =
      let here = unwrap-eq-ok (get state (conflict_set_key d)) known in
      record {
        bound = λ m l e.
            k.bound m n (λ j l' e'. i.bound j (rw (here) l') (rw (here) e'))
              (ground (arith, get-insert state (conflict_set_key d) t (conflict_set_key d), e));
      }

  pub counted-opposite :
      (c : Constraint)
      → d ≢ c
      → conflict_set_key d ≡ conflict_set_key c
      → IsTallied c 0 (Map.insert state (conflict_set_key d) t)
  counted-opposite c p q = record {
    bound = λ m l e.
        ground
          (arith, get-insert state (conflict_set_key d) t (conflict_set_key c), k.voted, l, p, q);
  }

  pub counted-apart :
      (c : Constraint) (n : ℕ)
      → conflict_set_key d ≢ conflict_set_key c
      → IsTallied c n state
      → IsTallied c n (Map.insert state (conflict_set_key d) t)
  counted-apart c n q i = record {
    bound = λ m l e.
        ground
          (arith, get-insert state (conflict_set_key d) t (conflict_set_key c), l, e, q, i.bound m);
  }

-- A vote against a constraint counts no vote, and clears the counter of that constraint.
pub vote_against-NoVotes :
    (dag : Dag) (d : Constraint) (dag' : Dag)
    → vote_against dag d ≡ ok dag'
    → NoVotes dag.state dag'.state × IsTallied d 0 dag'.state
unfolding vote_against
vote_against-NoVotes dag d dag' h =
    let (s, e, h₁) = >>=-eq-ok (state_of dag.state d) _ h in
    let s' = record s { count = Map.insert s.count d 0 } in
    let t = Map.insert dag.state (conflict_set_key d) s' in
    subst (λ (x : Dag). NoVotes dag.state x.state × IsTallied d 0 x.state) (ok-injective h₁)
      (
        insert-NoVotes dag.state d s e {t = t} s'
            (λ c m l k. ground (arith, get-insert s.count d 0 c, l, k)) refl,
        record {
          bound = λ m l k. ground (
            arith,
            get-insert dag.state (conflict_set_key d) s' (conflict_set_key d),
            get-insert s.count d 0 d,
            k,
          );
        },
      )

-- What a vote for a constraint comes to.
pub record IsVotedFor (dag : Dag) (c : Constraint) (dag' : Dag) : Type 0 where
  pub before : ConflictSet
  pub after : ConflictSet
  pub known : state_of dag.state c ≡ ok before
  pub counted : IsCounted c before after
  pub same : after.decision ≡ before.decision
  pub kept : NoVotes (Map.insert dag.state (conflict_set_key c) after) dag'.state
  pub count : ℕ
  pub counts : get after.count c ≡ some count
  pub late :
      c.left ≢ c.right
      → accepted dag.state c ≡ false
      → accepted dag'.state c ≡ true
      → dag.config.thresh_accepted ≤ count

-- What the test of acceptance leads to, once a conflict set with the same decisions is in place.
decided-late :
    (dag : Dag) (c : Constraint) (dag' : Dag) (s t : ConflictSet)
    → state_of dag.state c ≡ ok s
    → t.decision ≡ s.decision
    → (decided : Bool) (n : ℕ) (parents : List Constraint)
    → can_accept
        (record dag { state = Map.insert dag.state (conflict_set_key c) t })
        n
        parents
        (has_conflict dag.state (conflict c))
      ≡ ok decided
    → (if decided
        then accept (record dag { state = Map.insert dag.state (conflict_set_key c) t }) c
        else ok (record dag { state = Map.insert dag.state (conflict_set_key c) t }))
      ≡ ok dag'
    → c.left ≢ c.right
    → accepted dag.state c ≡ false
    → accepted dag'.state c ≡ true
    → dag.config.thresh_accepted ≤ n
decided-late dag c dag' s t known same true n parents g h d refused a =
    let here = unwrap-eq-ok (get dag.state (conflict_set_key c)) known in
    can_accept-late (record dag { state = Map.insert dag.state (conflict_set_key c) t }) dag.state c
      n parents d (ground (arith, here)) g
decided-late dag c dag' s t known same false n parents g h d refused a =
    let here = unwrap-eq-ok (get dag.state (conflict_set_key c)) known in
    let a' : accepted (Map.insert dag.state (conflict_set_key c) t) c ≡ true =
      rw (← ok-injective h) at a in
    ground (
      arith,
      here,
      get-insert dag.state (conflict_set_key c) t (conflict_set_key c),
      ap (λ m. get m c) same,
      refused,
      a',
    )

pub vote_for-IsVotedFor :
    (dag : Dag) (c : Constraint) (dag' : Dag) → vote_for dag c ≡ ok dag' → IsVotedFor dag c dag'
unfolding vote_for
vote_for-IsVotedFor dag c dag' h =
    let (c_conf, _, h₁) = >>=-eq-ok (confidence_of (depth dag) dag.state c) _ h in
    let (opp_conf, _, h₂) =
      >>=-eq-ok (opposite_confidence (depth dag) dag.state (conflict c)) _ h₁ in
    let (s, e, h₃) = >>=-eq-ok (state_of dag.state c) _ h₂ in
    let preferring = prefer s c c_conf opp_conf in
    let (s', e', h₄) = >>=-eq-ok (count_vote preferring c) _ h₃ in
    let (c_count, f, h₅) = >>=-eq-ok (unwrap (get s'.count c)) _ h₄ in
    let (c_parents, _, h₆) = >>=-eq-ok (unwrap (get s'.parents c)) _ h₅ in
    let counting = record dag { state = Map.insert dag.state (conflict_set_key c) s' } in
    let (decided, g, h₇) =
      >>=-eq-ok (can_accept counting c_count c_parents (has_conflict dag.state (conflict c))) _
        h₆ in
    let same = count_vote-decision preferring c s' e' in
    record {
      before = s;
      after = s';
      known = e;
      counted = prefer-IsCounted s c c_conf opp_conf s' (count_vote-IsCounted preferring c s' e');
      same = same;
      kept = kept decided counting h₇;
      count = c_count;
      counts = unwrap-eq-ok (get s'.count c) f;
      late = decided-late dag c dag' s s' e same decided c_count c_parents g h₇;
    }
  where
    kept :
        (decided : Bool) (counting : Dag)
        → (if decided then accept counting c else ok counting) ≡ ok dag'
        → NoVotes counting.state dag'.state
    kept true counting g = accept-NoVotes counting c dag' g
    kept false counting g =
        subst (λ (x : Dag). NoVotes counting.state x.state) (ok-injective g)
          (NoVotes-refl counting.state)
