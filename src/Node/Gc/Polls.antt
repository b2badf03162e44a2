-- ===== src/Node/Gc/Polls.antt =====
-- node/gc.go: how the coordinator finds that the mark has ended (the polling loop of runCycle), and what it makes
-- of missing objects. A poll is the workers' replies in order, none where a worker did not answer; the
-- polls end where the timeout or the context does. Whether a key is of a leaf is the parameter `is_leaf`.
use mathlib.Core.Path.{subst}
use mathlib.Core.List.{append_assoc, append-nil}
use mathlib.Core.Option.{some-injective}
use dstore.Prelude.{
  ℕ, ◌≡◌, ◌≢◌, refl, sym, ap, ◌⊎◌, inl, inr, ◌+◌, ◌%◌, ◌^◌, Bool, true, false, ◌&&◌, ◌||◌, not,
  Option, none, some, List, [], ◌∷◌, ◌++◌, leb, ◌==◌, if◌then◌else◌, length, any, arith, Bool-cases,
  length-nil, All, some-ne-none, ◌∙◌,
}
use dstore.Node.Gc.Handlers.{StatusReply, no_mark, status}

-- The sums of a poll.
pub record PollSum : Type 0 where
  pub sent : ℕ
  pub recv : ℕ
  pub all_idle : Bool
  pub missing : List ℕ

unfoldable pub add_status : StatusReply → PollSum → Option PollSum
add_status no_mark p = none
add_status (status sent recv idle marked missing) p = some (record {
  sent = (p.sent + sent) % 2 ^ 64;
  recv = (p.recv + recv) % 2 ^ 64;
  all_idle = p.all_idle && idle;
  missing = p.missing ++ missing;
})

unfoldable pub add_reply : Option StatusReply → Option PollSum → Option PollSum
unfolding add_status
add_reply none p = none
add_reply (some r) none = none
add_reply (some r) (some p) = add_status r p

-- The workers of one poll in order; none is the flag `bad`.
unfoldable pub poll_workers : List (Option StatusReply) → Option PollSum → Option PollSum
unfolding add_reply
poll_workers [] p = p
poll_workers (r ∷ rs) p = poll_workers rs (add_reply r p)

-- One poll, from the number of batches that the coordinator itself has sent.
unfoldable pub poll : ℕ → List (Option StatusReply) → Option PollSum
unfolding poll_workers
poll coord_sent rs =
    poll_workers rs (some (record { sent = coord_sent; recv = 0; all_idle = true; missing = [] }))

pub data MarkEnd : Type 0 where
  ended : PollSum → MarkEnd
  worker_error mark_timeout : MarkEnd

-- Nothing has moved since the poll with the sums `sent` and `recv`.
abbrev pub is_still : ℕ → ℕ → PollSum → Bool
is_still sent recv p = p.all_idle && (p.sent == p.recv && (p.sent == sent && p.recv == recv))

unfoldable pub after_poll : ℕ → ℕ → ℕ → (ℕ → ℕ → ℕ → MarkEnd) → Option PollSum → MarkEnd
after_poll stable sent recv rest none = worker_error
after_poll stable sent recv rest (some p) =
    let stable' = if is_still sent recv p then stable + 1 else 0 in
    if leb 2 stable' then ended p else rest stable' p.sent p.recv

unfoldable pub poll_loop : ℕ → (stable sent recv : ℕ) → List (List (Option StatusReply)) → MarkEnd
unfolding after_poll poll
poll_loop coord_sent stable sent recv [] = mark_timeout
poll_loop coord_sent stable sent recv (rs ∷ polls) =
    after_poll stable sent recv (λ st s r. poll_loop coord_sent st s r polls) (poll coord_sent rs)

-- Missing objects are tolerated where all are leaves.
unfoldable pub proceeds : (ℕ → Bool) → Bool → MarkEnd → Bool
proceeds is_leaf tolerate (ended p) =
    length p.missing == 0 || not (not tolerate || any (λ k. not (is_leaf k)) p.missing)
proceeds is_leaf tolerate worker_error = false
proceeds is_leaf tolerate mark_timeout = false

-- What single workers say.
abbrev pub IsIdle : Option StatusReply → Type 0
IsIdle none = ⊥
IsIdle (some no_mark) = ⊥
IsIdle (some (status sent recv idle marked missing)) = idle ≡ true

abbrev pub sent_by : Option StatusReply → ℕ
sent_by (some (status sent recv idle marked missing)) = sent
sent_by _ = 0

abbrev pub recv_by : Option StatusReply → ℕ
recv_by (some (status sent recv idle marked missing)) = recv
recv_by _ = 0

abbrev pub total : (Option StatusReply → ℕ) → List (Option StatusReply) → ℕ
total f [] = 0
total f (r ∷ rs) = f r + total f rs

abbrev pub missing_by : Option StatusReply → List ℕ
missing_by (some (status sent recv idle marked missing)) = missing
missing_by _ = []

abbrev pub all_missing : List (Option StatusReply) → List ℕ
all_missing [] = []
all_missing (r ∷ rs) = missing_by r ++ all_missing rs

-- A poll in which every worker answers and is idle, and that finds as many batches received as the workers and
-- the coordinator say they have sent.
pub record Settled (coord_sent : ℕ) (rs : List (Option StatusReply)) (p : PollSum) : Type 0 where
  pub idle : All IsIdle rs
  pub sent : p.sent % 2 ^ 64 ≡ (coord_sent + total sent_by rs) % 2 ^ 64
  pub recv : p.recv % 2 ^ 64 ≡ total recv_by rs % 2 ^ 64
  pub balanced : p.sent ≡ p.recv
  pub missing : p.missing ≡ all_missing rs

-- What the workers add to the sums.
record Added (p : PollSum) (rs : List (Option StatusReply)) (q : PollSum) : Type 0 where
  idle : q.all_idle ≡ true → (p.all_idle ≡ true) × All IsIdle rs
  sent : q.sent % 2 ^ 64 ≡ (p.sent + total sent_by rs) % 2 ^ 64
  recv : q.recv % 2 ^ 64 ≡ (p.recv + total recv_by rs) % 2 ^ 64
  missing : q.missing ≡ p.missing ++ all_missing rs

poll_workers-bad :
    (rs : List (Option StatusReply)) (q : PollSum) → poll_workers rs none ≡ some q → ⊥
unfolding poll_workers add_reply
poll_workers-bad [] q h = some-ne-none (sym h)
poll_workers-bad (none ∷ rs) q h = poll_workers-bad rs q h
poll_workers-bad (some r ∷ rs) q h = poll_workers-bad rs q h

both-true : (a b : Bool) → (a && b) ≡ true → (a ≡ true) × (b ≡ true)
both-true true b h = (refl, h)
both-true false b h = cc

poll_workers-Added :
    (rs : List (Option StatusReply)) (p q : PollSum)
    → poll_workers rs (some p) ≡ some q
    → Added p rs q
unfolding poll_workers add_reply add_status
poll_workers-Added [] p q h =
    subst (λ x. Added p [] x) (some-injective p q h)
      (record {
        idle = λ i. (i, tt);
        sent = omega arith;
        recv = omega arith;
        missing = sym (append-nil p.missing);
      })
poll_workers-Added (none ∷ rs) p q h = absurd (poll_workers-bad rs q h)
poll_workers-Added (some no_mark ∷ rs) p q h = absurd (poll_workers-bad rs q h)
poll_workers-Added (some (status s r i m ms) ∷ rs) p q h =
    let a = poll_workers-Added rs _ q h in
    record {
      idle = λ e.
          let (b, all) = a.idle e in let (was, now) = both-true p.all_idle i b in (was, (now, all));
      sent = omega (arith, a.sent);
      recv = omega (arith, a.recv);
      missing = a.missing ∙ append_assoc p.missing ms (all_missing rs);
    }

poll-Settled :
    (c : ℕ) (rs : List (Option StatusReply)) (q : PollSum)
    → poll c rs ≡ some q
    → q.all_idle ≡ true
    → q.sent ≡ q.recv
    → Settled c rs q
unfolding poll
poll-Settled c rs q h i b =
    let a = poll_workers-Added rs _ q h in
    record {
      idle = (a.idle i).1;
      sent = a.sent;
      recv = omega (arith, a.recv);
      balanced = b;
      missing = a.missing;
    }

-- Two polls in a row find the same.
pub data Twice (coord_sent : ℕ) (p : PollSum) : List (List (Option StatusReply)) → Type 0 where
  here :
      (q r : List (Option StatusReply)) (polls : List (List (Option StatusReply))) (first : PollSum)
      → Settled coord_sent q first
      → Settled coord_sent r p
      → first.sent ≡ p.sent
      → Twice coord_sent p (q ∷ r ∷ polls)
  later :
      (q : List (Option StatusReply)) (polls : List (List (Option StatusReply)))
      → Twice coord_sent p polls
      → Twice coord_sent p (q ∷ polls)

-- The next poll finds the same as the sums at hand.
abbrev Again : ℕ → ℕ → PollSum → List (List (Option StatusReply)) → Type 0
Again c sent p [] = ⊥
Again c sent p (r ∷ polls) = Settled c r p × (sent ≡ p.sent)

end_if :
    (P : MarkEnd → Type 0) (b : Bool) (x y : MarkEnd)
    → (b ≡ true → P x)
    → (b ≡ false → P y)
    → P (if b then x else y)
end_if P true x y f g = f refl
end_if P false x y f g = g refl

is_still-parts :
    (sent recv : ℕ) (p : PollSum)
    → is_still sent recv p ≡ true
    → (p.all_idle ≡ true) × ((p.sent ≡ p.recv) × (p.sent ≡ sent))
is_still-parts sent recv p h = (ground arith, (ground arith, ground arith))

ended-same : (p q : PollSum) → ended p ≡ ended q → p ≡ q
ended-same p q e =
    ap (λ x. elim x as (λ y. PollSum) [ ended y ↦ y | worker_error ↦ p | mark_timeout ↦ p ]) e

Again-Twice :
    (c : ℕ) (rs : List (Option StatusReply)) (q p : PollSum)
    (polls : List (List (Option StatusReply)))
    → Settled c rs q
    → Again c q.sent p polls
    → Twice c p (rs ∷ polls)
Again-Twice c rs q p [] s h = absurd h
Again-Twice c rs q p (r ∷ polls) s (t, e) = here rs r polls q s t e

module _ (c : ℕ) (rs : List (Option StatusReply)) (polls : List (List (Option StatusReply)))
    (p : PollSum)
    (rest : (st s r : ℕ)
      → poll_loop c st s r polls ≡ ended p
      → Twice c p polls ⊎ ((st ≢ 0) × Again c s p polls)) where
  abbrev go : ℕ → ℕ → ℕ → MarkEnd
  go st s r = poll_loop c st s r polls

  still-Twice :
      (stable sent recv : ℕ) (q : PollSum)
      → poll c rs ≡ some q
      → is_still sent recv q ≡ true
      → (if leb 2 (stable + 1) then ended q else go (stable + 1) q.sent q.recv) ≡ ended p
      → Twice c p (rs ∷ polls) ⊎ ((stable ≢ 0) × (Settled c rs p × (sent ≡ p.sent)))
  still-Twice stable sent recv q e t =
      let (i, (b, s)) = is_still-parts sent recv q t in
      let now : Settled c rs q = poll-Settled c rs q e i b in
      end_if
        (λ x.
          x ≡ ended p
          → Twice c p (rs ∷ polls) ⊎ ((stable ≢ 0) × (Settled c rs p × (sent ≡ p.sent))))
        (leb 2 (stable + 1)) _ _
        (λ l h.
          let same = ended-same q p h in
          inr (
            (λ z. absurd (ground (arith, z, l))),
            (subst (λ x. Settled c rs x) same now, subst (λ x. sent ≡ x.sent) same (sym s)),
          ))
        (λ _ h. elim (rest (stable + 1) q.sent q.recv h) [
          | inl w ↦ inl (later rs polls w)
          | inr (_, a) ↦ inl (Again-Twice c rs q p polls now a)
        ])

  after_poll-Twice :
      (stable sent recv : ℕ) (o : Option PollSum)
      → poll c rs ≡ o
      → after_poll stable sent recv go o ≡ ended p
      → Twice c p (rs ∷ polls) ⊎ ((stable ≢ 0) × (Settled c rs p × (sent ≡ p.sent)))
  unfolding after_poll
  after_poll-Twice stable sent recv none e = λ h. cc
  after_poll-Twice stable sent recv (some q) e = elim (Bool-cases (is_still sent recv q)) [
    | inl t ↦ rw t (still-Twice stable sent recv q e t)
    | inr f ↦ rw f (λ h. elim (rest 0 q.sent q.recv h) [
      | inl w ↦ inl (later rs polls w)
      | inr (z, _) ↦ absurd (z refl)
    ])
  ]

loop-Twice :
    (c stable sent recv : ℕ) (polls : List (List (Option StatusReply))) (p : PollSum)
    → poll_loop c stable sent recv polls ≡ ended p
    → Twice c p polls ⊎ ((stable ≢ 0) × Again c sent p polls)
unfolding poll_loop
loop-Twice c stable sent recv [] p h = cc
loop-Twice c stable sent recv (rs ∷ polls) p h =
    after_poll-Twice c rs polls p (λ st s r e. loop-Twice c st s r polls p e) stable sent recv
      (poll c rs) refl h

or-nor : (a t m : Bool) → (a || not (not t || m)) ≡ true → (a ≡ true) ⊎ ((t ≡ true) × (m ≡ false))
or-nor true t m h = inl refl
or-nor false true false h = inr (refl, refl)
or-nor false true true h = cc
or-nor false false m h = cc

All-leaves :
    (is_leaf : ℕ → Bool) (ks : List ℕ)
    → any (λ k. not (is_leaf k)) ks ≡ false
    → All (λ k. is_leaf k ≡ true) ks
All-leaves is_leaf [] h = tt
All-leaves is_leaf (k ∷ ks) h = (ground arith, All-leaves is_leaf ks (ground arith))

ended-cases :
    (is_leaf : ℕ → Bool) (tolerate : Bool) (coord_sent : ℕ)
    (polls : List (List (Option StatusReply))) (r : MarkEnd)
    → poll_loop coord_sent 0 0 0 polls ≡ r
    → proceeds is_leaf tolerate r ≡ true
    → (p : PollSum) × (Twice coord_sent p polls
        × ((p.missing ≡ []) ⊎ ((tolerate ≡ true) × All (λ k. is_leaf k ≡ true) p.missing)))
unfolding proceeds
ended-cases is_leaf tolerate coord_sent polls worker_error e h = cc
ended-cases is_leaf tolerate coord_sent polls mark_timeout e h = cc
ended-cases is_leaf tolerate coord_sent polls (ended p) e h = (
  p,
  (
    elim (loop-Twice coord_sent 0 0 0 polls p e) [ inl w ↦ w | inr (z, _) ↦ absurd (z refl) ],
    elim (or-nor (length p.missing == 0) tolerate (any (λ k. not (is_leaf k)) p.missing) h) [
      | inl l ↦ inl (length-nil p.missing l)
      | inr (t, m) ↦ inr (t, All-leaves is_leaf p.missing m)
    ],
  ),
)

-- The coordinator hands a mark over to the sweep only after two polls in a row in which every worker answered
-- and was idle, and as many batches were received, by the workers' counts, as the workers and the
-- coordinator had sent, modulo 2 ^ 64 and the same number in both; and only where no worker of the second
-- reports a missing object, or that is tolerated and all that they report are leaves.
pub proceeds-Twice :
    (is_leaf : ℕ → Bool) (tolerate : Bool) (coord_sent : ℕ)
    (polls : List (List (Option StatusReply)))
    → proceeds is_leaf tolerate (poll_loop coord_sent 0 0 0 polls) ≡ true
    → (p : PollSum) × (Twice coord_sent p polls
        × ((p.missing ≡ []) ⊎ ((tolerate ≡ true) × All (λ k. is_leaf k ≡ true) p.missing)))
proceeds-Twice is_leaf tolerate coord_sent polls h =
    ended-cases is_leaf tolerate coord_sent polls (poll_loop coord_sent 0 0 0 polls) refl h
