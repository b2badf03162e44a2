-- ===== src/Paxos/Protocol/Invariant.antt =====
-- Each kind of step keeps what Log.antt says of the logs and of one cell.
use dstore.Prelude.{ℕ, ◌≡◌, refl, ◌≢◌, ◌⊎◌, inl, inr, sym, ap, ◌∙◌, Bool, List, [], ◌∷◌, In}
use mathlib.Core.Path.{subst}
use dstore.Bytes.{Bytes}
use dstore.View.{View}
use dstore.Paxos.Ballot.{Ballot, zero_ballot, ◌≼◌, ◌≺◌, ≼_refl, ≼_trans, ≺→≼, ≺_irrefl, ≼-≺_trans}
use dstore.Paxos.Protocol.{Promise, Vote, Proposal}
use dstore.Paxos.Protocol.Cell.{Cell}
use dstore.Paxos.Protocol.Log.{Fits, Backed, IsRowOf, History, Logs}

-- Entries of other acceptors do not matter to a cell.
pub Fits-promise_other :
    {ps : List Promise} {vs : List Vote} {i : ℕ} {c : Cell} (e : Promise)
    → e.by ≢ i
    → Fits ps vs i c
    → Fits (e ∷ ps) vs i c
Fits-promise_other e ne f = record {
  promise_le = λ p h own. elim h [
    | inl q ↦ absurd (ne (ap (λ (x : Promise). x.by) q ∙ own))
    | inr m ↦ f.promise_le p m own
  ];
  vote_le = f.vote_le;
  origin = f.origin;
}

pub Fits-vote_other :
    {ps : List Promise} {vs : List Vote} {i : ℕ} {c : Cell} (e : Vote)
    → e.by ≢ i
    → Fits ps vs i c
    → Fits ps (e ∷ vs) i c
Fits-vote_other e ne f = record {
  promise_le = f.promise_le;
  vote_le = λ w h own. elim h [
    | inl q ↦ absurd (ne (ap (λ (x : Vote). x.by) q ∙ own))
    | inr m ↦ f.vote_le w m own
  ];
  origin = elim f.origin [ inl z ↦ inl z | inr m ↦ inr (inr m) ];
}

-- A promise at `b`, logged.
pub Fits-promised :
    {ps : List Promise} {vs : List Vote} {i : ℕ} (c : Cell) (b : Ballot) (e : Promise)
    → Fits ps vs i c
    → c.promise ≺ b
    → e.at ≡ b
    → Fits (e ∷ ps) vs i (record c { promise = b })
Fits-promised c b e f h q = record {
  promise_le = λ p m own. elim m [
    | inl t ↦ rw (ap (λ (x : Promise). x.at) (sym t) ∙ q) (≼_refl b)
    | inr m' ↦ ≼_trans _ _ _ (f.promise_le p m' own) (≺→≼ _ _ h)
  ];
  vote_le = f.vote_le;
  origin = f.origin;
}

-- A vote at `b`, logged.
pub Fits-voted :
    {ps : List Promise} {vs : List Vote} (i : ℕ) (c : Cell) (b : Ballot) (x : Bytes) (has : Bool)
    → Fits ps vs i c
    → c.promise ≼ b
    → c.accepted ≼ b
    → Fits ps
        (record { by = i; at = b; value = x; has_value = has } ∷ vs)
        i
        (record { promise = b; accepted = b; value = x; has_value = has })
Fits-voted i c b x has f hp ha = record {
  promise_le = λ p m own. ≼_trans _ _ _ (f.promise_le p m own) hp;
  vote_le = λ w m own. elim m [
    | inl t ↦ rw (ap (λ (y : Vote). y.at) (sym t)) (≼_refl b)
    | inr m' ↦ ≼_trans _ _ _ (f.vote_le w m' own) ha
  ];
  origin = inr (inl refl);
}

module _ (v : View) where
  Backed-promise :
      (ps : List Promise) (e : Promise) (q : Proposal) → Backed v ps q → Backed v (e ∷ ps) q
  Backed-promise ps e q (ids, enough, each) =
      (ids, enough, λ a h. let (p, m, by, at, le) = each a h in (p, inr m, by, at, le))

  History-promise :
      (ps : List Promise) (e : Promise) (qs : List Proposal)
      → History v ps qs
      → History v (e ∷ ps) qs
  History-promise ps e [] h = tt
  History-promise ps e (q ∷ qs) (fresh, backed, parent, rest) =
      (fresh, Backed-promise ps e q backed, parent, History-promise ps e qs rest)

  module _ {ps : List Promise} {vs : List Vote} {qs : List Proposal} where
    -- A promise that reports the cell's row.
    pub Logs-promise :
        (i : ℕ) (c : Cell) (b : Ballot)
        → Fits ps vs i c
        → Logs v ps vs qs
        → Logs v
            (record {
              by = i;
              at = b;
              accepted = c.accepted;
              value = c.value;
              has_value = c.has_value;
            }
              ∷ ps)
            vs
            qs
    Logs-promise i c b f l = record {
      promise_votes = λ p w m n own lt. elim m [
        | inl t ↦
            rw (← ap (λ (x : Promise). x.accepted) t)
              (f.vote_le w n (own ∙ sym (ap (λ (x : Promise). x.by) t)))
        | inr m' ↦ l.promise_votes p w m' n own lt
      ];
      promise_origin = λ p m. elim m [
        | inl t ↦
            subst
              (λ (x : Promise).
                (x.accepted ≡ zero_ballot)
                ⊎ In
                    (record {
                      by = x.by;
                      at = x.accepted;
                      value = x.value;
                      has_value = x.has_value;
                    })
                    vs)
              t f.origin
        | inr m' ↦ l.promise_origin p m'
      ];
      vote_origin = l.vote_origin;
      vote_nonzero = l.vote_nonzero;
      history = History-promise ps _ qs l.history;
    }

    -- A vote for a proposal, at a ballot that the cell's promise is not above.
    pub Logs-vote :
        (w : Vote) (c : Cell) (q : Proposal)
        → Fits ps vs w.by c
        → c.promise ≼ w.at
        → zero_ballot ≺ w.at
        → In q qs
        → (q.at ≡ w.at) × (q.value ≡ w.value) × (q.has_value ≡ w.has_value)
        → Logs v ps vs qs
        → Logs v ps (w ∷ vs) qs
    Logs-vote w c q f le nz mem same l = record {
      promise_votes = λ p x m n own lt. elim n [
        | inl t ↦
            let le' : p.at ≼ w.at =
              ≼_trans _ _ _ (f.promise_le p m (sym own ∙ sym (ap (λ (y : Vote). y.by) t))) le in
            absurd (
              ≺_irrefl p.at (≼-≺_trans p.at x.at p.at (subst (λ (y : Vote). p.at ≼ y.at) t le') lt))
        | inr n' ↦ l.promise_votes p x m n' own lt
      ];
      promise_origin = λ p m. elim (l.promise_origin p m) [ inl z ↦ inl z | inr o ↦ inr (inr o) ];
      vote_origin = λ x n. elim n [
        | inl t ↦ (
          q,
          mem,
          same.0 ∙ ap (λ (y : Vote). y.at) t,
          same.1 ∙ ap (λ (y : Vote). y.value) t,
          same.2 ∙ ap (λ (y : Vote). y.has_value) t,
        )
        | inr n' ↦ l.vote_origin x n'
      ];
      vote_nonzero = λ x n. elim n [
        | inl t ↦ rw (← ap (λ (y : Vote). y.at) t) nz
        | inr n' ↦ l.vote_nonzero x n'
      ];
      history = l.history;
    }

    -- A backed proposal at a fresh ballot.
    pub Logs-propose :
        (q : Proposal)
        → ((p : Proposal) → In p qs → p.at ≢ q.at)
        → Backed v ps q
        → (q.parent.accepted ≡ zero_ballot) ⊎ ((p : Proposal) × In p qs × IsRowOf q.parent p)
        → Logs v ps vs qs
        → Logs v ps vs (q ∷ qs)
    Logs-propose q fresh backed parent l = record {
      promise_votes = l.promise_votes;
      promise_origin = l.promise_origin;
      vote_origin =
          λ w n. let (p, m, at, value, has) = l.vote_origin w n in (p, inr m, at, value, has);
      vote_nonzero = l.vote_nonzero;
      history = (fresh, backed, parent, l.history);
    }
