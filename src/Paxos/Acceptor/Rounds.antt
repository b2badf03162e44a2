-- ===== src/Paxos/Acceptor/Rounds.antt =====
-- What the two rounds do to an acceptor: `prepare` and `accept` on every branch.
use dstore.Prelude.{
  ℕ, ◌≤◌, ◌≡◌, refl, ◌≢◌, ◌⊎◌, inl, inr, Bool, true, false, some, arith, if◌then◌else◌, Bool-cases,
  Option-cases, ltb, ◌==◌, ◌&&◌, not,
}
use dstore.Wire.{Msg, err_msg, msg_of, empty_msg, t_promise, t_accepted, t_err, retired}
use dstore.Paxos.Ballot
use dstore.Paxos.Ballot.{Ballot, parse_or_zero, above, less, ◌≼◌, ◌≺◌, above→≺, not-less→≼}
use dstore.Paxos.Disk.{Disk, Row}
use dstore.Paxos.Acceptor.{
  Acceptor, usable_ballot, row_promise, row_accepted, promise_row, prepare, refusal, accept_row,
  accept_live, accept,
}
use dstore.Paxos.Acceptor.Observe.{
  promise_of, accepted_of, current_row, Stored, store_row_cases, row_at-Stored_self,
  parse_or_zero-bytes,
}

refusal-type : (D : Disk) (a : Acceptor D) (r : Msg) → refusal D a ≡ some r → r.type ≡ t_err
unfolding refusal
refusal-type D a r h = ground arith

-- The row that a vote for the message's value at a ballot leaves.
abbrev pub vote_row : Msg → Ballot → Row
vote_row m b = record {
  promised = Ballot.bytes b;
  accepted = Ballot.bytes b;
  value = m.value;
  has_value = m.has_value;
}

if_both {ℓ κ} :
    {A : Type ℓ} (P : A → Type κ) (b : Bool) (x y : A) → P x → P y → P (if b then x else y)
if_both P true x y p q = p
if_both P false x y p q = q

module _ (D : Disk) (a : Acceptor D) (m : Msg) where
  -- A promise was given: its ballot is above the old promise and is the new one, the accepted row is as
  -- before and is what the reply reports, and no other register and no other field changed.
  pub record Promised (a' : Acceptor D) (reply : Msg) : Type 0 where
    pub ballot : Ballot
    pub usable : usable_ballot m.ballot ≡ some ballot
    pub above_old : promise_of D a m.reg ≺ ballot
    pub promise_new : promise_of D a' m.reg ≡ ballot
    pub accepted_kept : accepted_of D a' m.reg ≡ accepted_of D a m.reg
    pub is_promise : reply.type ≡ t_promise
    pub reports_ballot : parse_or_zero reply.accepted ≡ accepted_of D a m.reg
    pub reports_value : reply.value ≡ (current_row D a m.reg).value
    pub reports_has : reply.has_value ≡ (current_row D a m.reg).has_value
    pub stored :
        Stored D a m.reg (record (current_row D a m.reg) { promised = Ballot.bytes ballot }) a'

  -- A vote was given: its ballot is at least the old promise and the old accepted ballot and is now both,
  -- the message's value is the row's, its deadline has not passed, and nothing else changed.
  pub record Voted (now : ℕ) (a' : Acceptor D) : Type 0 where
    pub ballot : Ballot
    pub usable : usable_ballot m.ballot ≡ some ballot
    pub in_time : (m.not_after ≡ 0) ⊎ (now ≤ m.not_after)
    pub old_promise : promise_of D a m.reg ≼ ballot
    pub old_accepted : accepted_of D a m.reg ≼ ballot
    pub promise_new : promise_of D a' m.reg ≡ ballot
    pub accepted_new : accepted_of D a' m.reg ≡ ballot
    pub stored : Stored D a m.reg (vote_row m ballot) a'

  abbrev pub PrepareOutcome : Acceptor D × Msg → Type 0
  PrepareOutcome (a', reply) = Promised a' reply ⊎ ((a' ≡ a) × (reply.type ≢ t_promise))

  abbrev pub AcceptOutcome : ℕ → Acceptor D × Msg → Type 0
  AcceptOutcome now (a', reply) =
      (Voted now a' × (reply.type ≡ t_accepted)) ⊎ ((a' ≡ a) × (reply.type ≢ t_accepted))

  abbrev promise_reply : Msg
  promise_reply =
      let r = current_row D a m.reg in
      record empty_msg {
        type = t_promise;
        accepted = r.accepted;
        value = r.value;
        has_value = r.has_value;
      }

  promised_of_Stored :
      (b : Ballot) (a' : Acceptor D) (reply : Msg)
      → usable_ballot m.ballot ≡ some b
      → promise_of D a m.reg ≺ b
      → Stored D a m.reg (record (current_row D a m.reg) { promised = Ballot.bytes b }) a'
      → reply ≡ promise_reply
      → Promised a' reply
  unfolding row_promise row_accepted
  promised_of_Stored b a' reply u h s e = record {
    ballot = b;
    usable = u;
    above_old = h;
    promise_new = rw (row_at-Stored_self D m.reg s) (parse_or_zero-bytes m.ballot b u);
    accepted_kept = rw (row_at-Stored_self D m.reg s);
    is_promise = rw e;
    reports_ballot = rw e;
    reports_value = rw e;
    reports_has = rw e;
    stored = s;
  }

  promise_row_lem :
      (b : Ballot)
      → usable_ballot m.ballot ≡ some b
      → PrepareOutcome (promise_row D a m.reg b (D.row_at a.db m.reg))
  unfolding promise_row
  promise_row_lem b u = elim (Bool-cases (above b (promise_of D a m.reg))) [
    | inr h ↦ rw (h, promise_row) (inr (refl, λ e. cc))
    | inl h ↦
        elim (store_row_cases D a m.reg
          (record (current_row D a m.reg) { promised = Ballot.bytes b }) promise_reply) [
            | inl e ↦ rw (h, promise_row, e) (inr (refl, λ e'. cc))
            | inr (s, e) ↦
                rw (h, promise_row) (inl (promised_of_Stored b _ _ u (above→≺ b _ h) s e))
          ]
  ]

  -- `prepare` gives a promise, or changes nothing and does not answer with one.
  pub prepare_cases : PrepareOutcome (prepare D a m)
  unfolding prepare
  prepare_cases = elim (Option-cases (refusal D a)) [
    | inr (r, e) ↦ rw (e, prepare) (inr (refl, λ t. cc (refusal-type D a r e)))
    | inl e ↦ elim (Option-cases (usable_ballot m.ballot)) [
      | inl e' ↦ rw (e, e', prepare) (inr (refl, λ t. cc))
      | inr (b, e') ↦ elim (D.read_law a.db m.reg) [
        | inl e'' ↦ rw (e, e', e'', prepare) (inr (refl, λ t. cc))
        | inr e'' ↦ rw (e, e', e'', prepare) (promise_row_lem b e')
      ]
    ]
  ]

  Voted-of_Stored :
      (now : ℕ) (b : Ballot) (a' : Acceptor D)
      → usable_ballot m.ballot ≡ some b
      → (m.not_after ≡ 0) ⊎ (now ≤ m.not_after)
      → promise_of D a m.reg ≼ b
      → accepted_of D a m.reg ≼ b
      → Stored D a m.reg (vote_row m b) a'
      → Voted now a'
  unfolding row_promise row_accepted
  Voted-of_Stored now b a' u t p q s = record {
    ballot = b;
    usable = u;
    in_time = t;
    old_promise = p;
    old_accepted = q;
    promise_new = rw (row_at-Stored_self D m.reg s) (parse_or_zero-bytes m.ballot b u);
    accepted_new = rw (row_at-Stored_self D m.reg s) (parse_or_zero-bytes m.ballot b u);
    stored = s;
  }

  accept_row_lem :
      (now : ℕ) (b : Ballot)
      → usable_ballot m.ballot ≡ some b
      → (m.not_after ≡ 0) ⊎ (now ≤ m.not_after)
      → AcceptOutcome now (accept_row D a m b (D.row_at a.db m.reg))
  unfolding accept_row
  accept_row_lem now b u t = elim (Bool-cases (less b (promise_of D a m.reg))) [
    | inl h ↦ rw (h, accept_row) (inr (refl, λ e. cc))
    | inr h ↦ elim (Bool-cases (less b (accepted_of D a m.reg))) [
      | inl h' ↦ rw (h, h', accept_row) (inr (refl, λ e. cc))
      | inr h' ↦ elim (store_row_cases D a m.reg (vote_row m b) (msg_of t_accepted)) [
        | inl e ↦ rw (h, h', accept_row, e) (inr (refl, λ e'. cc))
        | inr (s, e) ↦
            rw (h, h', accept_row)
              (inl (Voted-of_Stored now b _ u t (not-less→≼ b _ h) (not-less→≼ b _ h') s, rw e))
      ]
    ]
  ]

  in_time_of :
      (now : ℕ)
      → (not (m.not_after == 0) && ltb m.not_after now) ≡ false
      → (m.not_after ≡ 0) ⊎ (now ≤ m.not_after)
  in_time_of now h = ground arith

  accept_live_lem : (now : ℕ) → AcceptOutcome now (accept_live D now a m)
  unfolding accept_live
  accept_live_lem now = elim (Option-cases (usable_ballot m.ballot)) [
    | inl e ↦ rw (e, accept_live) (inr (refl, λ t. cc))
    | inr (b, e) ↦ elim (Bool-cases (not (m.not_after == 0) && ltb m.not_after now)) [
      | inl late ↦ rw (e, late, accept_live) (inr (refl, λ t. cc))
      | inr early ↦ elim (D.read_law a.db m.reg) [
        | inl f ↦ rw (e, early, f, accept_live) (inr (refl, λ t. cc))
        | inr f ↦ rw (e, early, f, accept_live) (accept_row_lem now b e (in_time_of now early))
      ]
    ]
  ]

  -- `accept` gives a vote, or changes nothing and does not answer with one.
  pub accept_cases : (now : ℕ) → AcceptOutcome now (accept D now a m)
  unfolding accept
  accept_cases now =
      if_both (AcceptOutcome now) a.retired (a, err_msg retired) (accept_live D now a m)
        (inr (refl, λ t. cc)) (accept_live_lem now)
