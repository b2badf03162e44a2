-- ===== src/Paxos/Protocol/Safety.antt =====
-- What the logs' invariants give: a chosen value is an ancestor of every later proposal.
use dstore.Prelude.{
  ℕ, ◌≤◌, ◌≡◌, refl, inl, inr, sym, ap, ◌∙◌, Bool, true, ◌&&◌, List, [], ◌∷◌, count, elem, In,
  arith, length, length-map,
}
use mathlib.Core.Path.{subst}
use dstore.Bytes.{Bytes}
use dstore.View.{View, Voter, quorum, voter_ids}
use dstore.View.Laws.{count_overlap, count_pos}
use dstore.Paxos.Ballot.{
  Ballot, zero_ballot, ◌≼◌, ◌≺◌, ≼_trans, ≺_irrefl, ≺-≼_trans, ≼_total, ≼_antisym,
}
use dstore.Paxos.Protocol.{Promise, Vote, Proposal}
use dstore.Paxos.Protocol.Log.{Backed, IsRowOf, History, Logs}

-- A quorum of the voters voted for the value at the ballot: it is decided there.
abbrev pub Chosen : View → List Vote → Ballot → Bytes → Bool → Type 0
Chosen v vs b x has =
    (ids : List ℕ) × (quorum v ≤ count (λ a. elem a ids) (voter_ids v))
    × ((a : ℕ) → elem a ids ≡ true → In (record { by = a; at = b; value = x; has_value = has }) vs)

-- The proposal is the one of the value at the ballot, or was computed from the row of a proposal that
-- descends from it.
pub data Descends (qs : List Proposal) (b : Ballot) (x : Bytes) (has : Bool)
    : Proposal → Type 0 where
  itself : (p : Proposal) → p.at ≡ b → p.value ≡ x → p.has_value ≡ has → Descends qs b x has p
  computed :
      (p q : Proposal)
      → In q qs
      → IsRowOf p.parent q
      → Descends qs b x has q
      → Descends qs b x has p

length-voter_ids : (v : View) → length (voter_ids v) ≡ length v.voters
unfolding voter_ids
length-voter_ids v = length-map (λ (vo : Voter). vo.id) v.voters

-- Two quorums of one view share a voter.
pub quorum_overlap :
    (v : View) (xs ys : List ℕ)
    → quorum v ≤ count (λ a. elem a xs) (voter_ids v)
    → quorum v ≤ count (λ a. elem a ys) (voter_ids v)
    → (a : ℕ) × (elem a xs ≡ true) × (elem a ys ≡ true)
unfolding quorum
quorum_overlap v xs ys hx hy =
    let (a, both) =
      count_pos (λ a. elem a xs && elem a ys) (voter_ids v)
        (omega (
          arith,
          count_overlap (λ a. elem a xs) (λ a. elem a ys) (voter_ids v),
          length-voter_ids v,
        )) in
    (a, ground arith, ground arith)

Descends-weaken :
    {qs : List Proposal} {b : Ballot} {x : Bytes} {has : Bool} {p : Proposal} (q : Proposal)
    → Descends qs b x has p
    → Descends (q ∷ qs) b x has p
Descends-weaken q (itself p a e h) = itself p a e h
Descends-weaken q (computed p r m e d) = computed p r (inr m) e (Descends-weaken q d)

module _ (v : View) (ps : List Promise) (vs : List Vote) where
  -- Two proposals at one ballot are one.
  same_ballot :
      (qs : List Proposal) (p q : Proposal)
      → History v ps qs
      → In p qs
      → In q qs
      → p.at ≡ q.at
      → p ≡ q
  same_ballot [] p q h m n e = elim m [ ]
  same_ballot (r ∷ rest) p q (fresh, _, _, h) (inl s) (inl t) e = sym s ∙ t
  same_ballot (r ∷ rest) p q (fresh, _, _, h) (inl s) (inr n) e =
      absurd (fresh q n (sym e ∙ sym (ap (λ (x : Proposal). x.at) s)))
  same_ballot (r ∷ rest) p q (fresh, _, _, h) (inr m) (inl t) e =
      absurd (fresh p m (e ∙ sym (ap (λ (x : Proposal). x.at) t)))
  same_ballot (r ∷ rest) p q (fresh, _, _, h) (inr m) (inr n) e = same_ballot rest p q h m n e

  module _ (all : List Proposal) (l : Logs v ps vs all) (b : Ballot) (x : Bytes) (has : Bool)
      (chosen : Chosen v vs b x has) where
    -- The proposal that was chosen.
    chosen_proposal : (q : Proposal) × In q all × (q.at ≡ b) × (q.value ≡ x) × (q.has_value ≡ has)
    chosen_proposal =
        let (ids, enough, voted) = chosen in
        let (a, e, _) = quorum_overlap v ids ids enough enough in
        l.vote_origin (record { by = a; at = b; value = x; has_value = has }) (voted a e)

    chosen_nonzero : zero_ballot ≺ b
    chosen_nonzero =
        let (ids, enough, voted) = chosen in
        let (a, e, _) = quorum_overlap v ids ids enough enough in
        l.vote_nonzero (record { by = a; at = b; value = x; has_value = has }) (voted a e)

    -- A backed proposal above the chosen ballot has a parent at or above it.
    parent_above : (p : Proposal) → Backed v ps p → b ≺ p.at → b ≼ p.parent.accepted
    parent_above p (ids, enough, promised) lt =
        let (ids', enough', voted) = chosen in
        let (a, e, e') = quorum_overlap v ids ids' enough enough' in
        let (pr, m, by, at, le) = promised a e in
        ≼_trans b pr.accepted p.parent.accepted
          (l.promise_votes pr (record { by = a; at = b; value = x; has_value = has }) m (voted a e')
            (sym by) (subst (λ (y : Ballot). b ≺ y) (sym at) lt))
          le

    at_chosen : (p : Proposal) → In p all → p.at ≡ b → Descends all b x has p
    at_chosen p m e =
        let (c, n, at, value, hv) = chosen_proposal in
        let same : c ≡ p = same_ballot all c p l.history n m (at ∙ sym e) in
        itself p e (ap (λ (y : Proposal). y.value) (sym same) ∙ value)
          (ap (λ (y : Proposal). y.has_value) (sym same) ∙ hv)

    not_from_zero : (y : Ballot) → b ≼ zero_ballot → y ≺ y
    not_from_zero y le = absurd (≺_irrefl zero_ballot (≺-≼_trans _ _ _ chosen_nonzero le))

    descends :
        (qs : List Proposal) (p : Proposal)
        → ((q : Proposal) → In q qs → In q all)
        → History v ps qs
        → In p qs
        → b ≼ p.at
        → Descends all b x has p
    descends [] p inc h m le = elim m [ ]
    descends (q ∷ qs) p inc (fresh, backed, parent, h) (inr m) le =
        descends qs p (λ r n. inc r (inr n)) h m le
    descends (q ∷ qs) p inc (fresh, backed, parent, h) (inl e) le =
        let le' : b ≼ q.at = subst (λ (y : Proposal). b ≼ y.at) (sym e) le in
        subst (Descends all b x has) e (elim (≼_total q.at b) [
          | inl ge ↦ at_chosen q (inc q (inl refl)) (≼_antisym q.at b ge le')
          | inr gt ↦ elim parent [
            | inl z ↦
                absurd
                  (≺_irrefl b (not_from_zero b (subst (λ y. b ≼ y) z (parent_above q backed gt))))
            | inr (r, m, row) ↦ computed q r (inc r (inr m)) row (
                descends qs r (λ s n. inc s (inr n)) h m
                  (subst (λ y. b ≼ y) (sym row.0) (parent_above q backed gt)))
          ]
        ])

    -- Every proposal at or above the chosen ballot descends from the chosen value.
    pub chosen-Descends : (p : Proposal) → In p all → b ≼ p.at → Descends all b x has p
    chosen-Descends p m le = descends all p (λ q n. n) l.history m le
