-- ===== src/Paxos/Proposer/Commit.antt =====
-- What a proposal that succeeds has done, for any voters and any interference between its rounds.
use dstore.Prelude.{
  ℕ, zero, suc, ◌≡◌, refl, inl, inr, Bool, ◌&&◌, not, Option, none, some, List, some-ne-none,
  Bool-cases, Option-cases,
}
use dstore.Bytes.{Bytes}
use dstore.View.{View}
use dstore.Paxos.Ballot.{Ballot, is_zero}
use dstore.Paxos.Proposer.{
  Row, Reply, Round, ok, err, prepare_msg, accept_msg, prepare_round, accept_round,
}
use dstore.Paxos.Proposer.Propose.{
  Network, Change, commit, reject, Outcome, ballot_above, handle_round_error, is_unknown, retry,
  after_commit, after_reject, after_change, after_prepare, attempt, propose_from, propose,
}

module _ (N : Network) {E S : Type 0} (reg : Bytes) (fn : S → Row → Ballot → S × Change E)
    (not_after : ℕ) where
  -- The rounds behind an outcome: under one view, a quorum promised the outcome's ballot and `cur` is the
  -- best row promised; the change function made the outcome's value of it; a quorum accepted it.
  pub record Committed (s' : S) (o : Outcome E) : Type 0 where
    pub view : View
    pub world : N.World
    pub before : S
    pub cur : Row
    pub prepared :
        prepare_round N.decode view (N.broadcast world view (prepare_msg view reg o.ballot)).1
        ≡ ok cur
    pub changed : fn before cur o.ballot ≡ (s', commit o.value o.has_value)
    pub accepted :
        accept_round N.decode view
          (N.broadcast
            (N.broadcast world view (prepare_msg view reg o.ballot)).0
            view
            (accept_msg view reg o.ballot o.value o.has_value not_after)).1
        ≡ ok tt

  -- A run that ends without an error has committed.
  abbrev Sound : N.World × S × Outcome E → Type 0
  Sound done = done.2.error ≡ none → Committed done.1 done.2

  module _ (next : N.World → S → Ballot → N.World × S × Outcome E)
      (sound : (w : N.World) (s : S) (b : Ballot) → Sound (next w s b)) where
    retry-Sound : (w : N.World) (s : S) (r : Round (N.World × Ballot)) → Sound (retry N next w s r)
    unfolding retry
    retry-Sound w s (ok again) h = sound again.0 s again.1 h
    retry-Sound w s (err e) h = some-ne-none h

    after_reject-Sound :
        (cur : Row) (e : E) (w : N.World) (s : S) (last : Ballot) (round : Round (Unit {0}))
        → Sound (after_reject N next cur e w s last round)
    unfolding after_reject
    after_reject-Sound cur e w s last (ok u) = λ h. some-ne-none h
    after_reject-Sound cur e w s last (err ae) = elim (Bool-cases (is_unknown N ae)) [
      | inl t ↦ rw t (λ h. some-ne-none h)
      | inr f ↦ rw f (retry-Sound w s (handle_round_error N ae w last))
    ]

    module _ (v : View) (w : N.World) (before : S) (last b : Ballot) (cur : Row) where
      -- The world after the prepare round at `b`.
      abbrev after : N.World
      after = (N.broadcast w v (prepare_msg v reg b)).0

      abbrev voters_say : Bytes → Bool → N.World × List Reply
      voters_say value has_value =
          N.broadcast after v (accept_msg v reg b value has_value not_after)

      after_commit-Sound :
          (s : S) (value : Bytes) (has_value : Bool)
          → prepare_round N.decode v (N.broadcast w v (prepare_msg v reg b)).1 ≡ ok cur
          → fn before cur b ≡ (s, commit value has_value)
          → (round : Round (Unit {0}))
          → accept_round N.decode v (voters_say value has_value).1 ≡ round
          → Sound
              (after_commit N next b value has_value (voters_say value has_value).0 s last round)
      unfolding after_commit
      after_commit-Sound s value has_value p c (ok u) a = λ h. record {
        view = v;
        world = w;
        before = before;
        cur = cur;
        prepared = p;
        changed = c;
        accepted = a;
      }
      after_commit-Sound s value has_value p c (err ae) a = elim (Bool-cases (is_unknown N ae)) [
        | inl t ↦ rw t (λ h. some-ne-none h)
        | inr f ↦ rw f (
            retry-Sound (voters_say value has_value).0 s
              (handle_round_error N ae (voters_say value has_value).0 last))
      ]

      after_change-Sound :
          (change : S × Change E)
          → prepare_round N.decode v (N.broadcast w v (prepare_msg v reg b)).1 ≡ ok cur
          → fn before cur b ≡ change
          → Sound (after_change N next v reg not_after b cur after last change)
      unfolding after_change
      after_change-Sound (s, commit value has_value) p c =
          after_commit-Sound s value has_value p c
            (accept_round N.decode v (voters_say value has_value).1) refl
      after_change-Sound (s, reject e) p c =
          elim (Bool-cases (is_zero cur.accepted && not cur.has_value)) [
            | inl t ↦ rw t (λ h. some-ne-none h)
            | inr f ↦ rw f (after_reject-Sound cur e _ s last _)
          ]

    after_prepare-Sound :
        (v : View) (w : N.World) (s : S) (last b : Ballot) (round : Round Row)
        → prepare_round N.decode v (N.broadcast w v (prepare_msg v reg b)).1 ≡ round
        → Sound (
            after_prepare N next fn v reg not_after b
              (N.broadcast w v (prepare_msg v reg b)).0
              s
              last
              round)
    unfolding after_prepare
    after_prepare-Sound v w s last b (ok cur) p =
        after_change-Sound v w s last b cur (fn s cur b) p refl
    after_prepare-Sound v w s last b (err e) p = retry-Sound _ s _

    attempt-Sound :
        (v : View) (s : S) (last : Ballot) (drawn : N.World × Option Ballot)
        → Sound (attempt N next fn v reg not_after s last drawn)
    unfolding attempt
    attempt-Sound v s last (w, none) = λ h. some-ne-none h
    attempt-Sound v s last (w, some b) = after_prepare-Sound v w s last b _ refl

  propose_from-Sound :
      (n : ℕ) (w : N.World) (s : S) (last : Ballot)
      → Sound (propose_from N reg fn not_after n w s last)
  unfolding propose_from
  propose_from-Sound zero w s last = λ h. some-ne-none h
  propose_from-Sound (suc n) w s last = elim (Option-cases (N.current w)) [
    | inl e ↦ rw (e, propose_from) (λ h. some-ne-none h)
    | inr (v, e) ↦
        rw (e, propose_from)
          (attempt-Sound (propose_from N reg fn not_after n) (propose_from-Sound n) v s last
            (ballot_above N 2 w last))
  ]

  -- Where Propose returns no error, under one view a quorum promised the ballot returned, the change
  -- function made the value returned of the best row that they promised, and a quorum of the voters
  -- accepted that value at that ballot.
  pub propose-Committed :
      (attempts : ℕ) (w : N.World) (s : S)
      → (propose N reg fn not_after attempts w s).2.error ≡ none
      → Committed
          (propose N reg fn not_after attempts w s).1
          (propose N reg fn not_after attempts w s).2
  unfolding propose
  propose-Committed attempts w s = propose_from-Sound attempts w s _
