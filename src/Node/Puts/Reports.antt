-- ===== src/Node/Puts/Reports.antt =====
-- What a node reports of a batch: every owner of a key holds it or has failed.
use mathlib.Core.Path.{subst}
use mathlib.Core.Option.{some-injective}
use dstore.Prelude.{
  ℕ, ◌≡◌, ◌≢◌, refl, sym, ◌∙◌, ap, ◌⊎◌, inl, inr, ◌+◌, Bool, true, false, ◌&&◌, ◌||◌, Option, none,
  some, List, [], ◌∷◌, ◌++◌, leb, ◌==◌, ==_iff, if◌then◌else◌, elem, any, length, arith, Bool-cases,
  elem-append, or-right, and-both,
}
use dstore.View.{View}
use dstore.View.Tables.{write_set}
use dstore.Node.Puts.{
  Reason, PutResult, PutTx, new_put_tx, flush_chunk, send_to, send_all, add, add_all, wait, Failed,
  confirmed_by, failed_at, wait_all, finish,
}

or-left : (a b : Bool) → a ≡ true → (a || b) ≡ true
or-left true b h = refl
or-left false b h = cc

or-last : (a b : Bool) → b ≡ true → (a || b) ≡ true
or-last true b h = refl
or-last false b h = h

not-same : (p q : ℕ) → p ≢ q → (p == q) ≡ false
not-same p q n = elim (Bool-cases (p == q)) [ inl t ↦ absurd (n ((==_iff p q).0 t)) | inr f ↦ f ]

any-append :
    {A : Type 0} (p : A → Bool) (xs ys : List A) → any p (xs ++ ys) ≡ (any p xs || any p ys)
any-append p [] ys = refl
any-append p (x ∷ xs) ys = ground (arith, any-append p xs ys)

-- Whether the key has been handed to the forward of the owner.
abbrev pub is_sent : ℕ → ℕ → List (ℕ × List ℕ) → Bool
is_sent o k fwd = any (λ f. f.0 == o && elem k f.1) fwd

abbrev pub is_holder : ℕ → ℕ → List (ℕ × ℕ) → Bool
is_holder o k holders = any (λ p. p.0 == k && p.1 == o) holders

abbrev pub has_failed : ℕ → ℕ → List Failed → Bool
has_failed o k fs = any (λ f. f.key == k && f.node == o) fs

send_to-sent : (o k : ℕ) (fwd : List (ℕ × List ℕ)) → is_sent o k (send_to o k fwd) ≡ true
unfolding send_to
send_to-sent o k [] = ground arith
send_to-sent o k (f ∷ fs) = elim (Bool-cases (f.0 == o)) [
  | inl t ↦ rw t (ground (arith, t, elem-append k f.1 (k ∷ [])))
  | inr u ↦ rw u (ground (arith, send_to-sent o k fs))
]

send_to-keeps :
    (p o k x : ℕ) (fwd : List (ℕ × List ℕ))
    → is_sent o x fwd ≡ true
    → is_sent o x (send_to p k fwd) ≡ true
unfolding send_to
send_to-keeps p o k x [] h = cc
send_to-keeps p o k x (f ∷ fs) h = elim (Bool-cases (f.0 == p)) [
  | inl t ↦ rw t (ground (arith, elem-append x f.1 (k ∷ [])))
  | inr u ↦ rw u (ground (arith, send_to-keeps p o k x fs))
]

wait-reports :
    (k : ℕ) (r : Option PutResult) (ks : List ℕ)
    → elem k ks ≡ true
    → (elem k (wait r ks).0 ≡ true) ⊎ (any (λ f. f.0 == k) (wait r ks).1 ≡ true)
unfolding wait
wait-reports k r [] h = cc
wait-reports k none (x ∷ xs) h = ground (arith, wait-reports k none xs)
wait-reports k (some r) (x ∷ xs) h = elim (Bool-cases (elem x r.confirmed)) [
  | inl t ↦ rw t (ground (arith, wait-reports k (some r) xs))
  | inr u ↦ rw u (ground (arith, wait-reports k (some r) xs))
]

confirmed_by-holder :
    (o k : ℕ) (ks : List ℕ) → elem k ks ≡ true → is_holder o k (confirmed_by o ks) ≡ true
unfolding confirmed_by
confirmed_by-holder o k [] h = cc
confirmed_by-holder o k (x ∷ xs) h = ground (arith, confirmed_by-holder o k xs)

failed_at-failed :
    (o k : ℕ) (fs : List (ℕ × Reason))
    → any (λ f. f.0 == k) fs ≡ true
    → has_failed o k (failed_at o fs) ≡ true
unfolding failed_at
failed_at-failed o k [] h = cc
failed_at-failed o k (f ∷ fs) h = ground (arith, failed_at-failed o k fs)

send_all-keeps :
    (self o k x : ℕ) (os : List ℕ) (fwd : List (ℕ × List ℕ))
    → is_sent o x fwd ≡ true
    → is_sent o x (send_all self k os fwd) ≡ true
unfolding send_all
send_all-keeps self o k x [] fwd h = h
send_all-keeps self o k x (p ∷ ps) fwd h = elim (Bool-cases (p == self)) [
  | inl t ↦ rw t (send_all-keeps self o k x ps fwd h)
  | inr u ↦ rw u (send_all-keeps self o k x ps (send_to p k fwd) (send_to-keeps p o k x fwd h))
]

send_all-sent :
    (self o k : ℕ) (os : List ℕ) (fwd : List (ℕ × List ℕ))
    → elem o os ≡ true
    → o ≢ self
    → is_sent o k (send_all self k os fwd) ≡ true
unfolding send_all
send_all-sent self o k [] fwd h n = cc
send_all-sent self o k (p ∷ ps) fwd h n = elim (Bool-cases (p == o)) [
  | inl t ↦
      let e : p ≡ o = (==_iff p o).0 t in
      let f : (p == self) ≡ false = not-same p self (λ q. n (sym e ∙ q)) in
      rw f (
        send_all-keeps self o k k ps (send_to p k fwd)
          (subst (λ i. is_sent i k (send_to p k fwd) ≡ true) e (send_to-sent p k fwd)))
  | inr u ↦ send_all-sent self o k ps _ (ground arith) n
]

module _ (salt : ℕ → ℕ) (v : View) (self : ℕ) (put_chunk_bytes : ℕ) where
  fwd_if : (b : Bool) (x y : PutTx) → x.fwd ≡ y.fwd → (if b then x else y).fwd ≡ y.fwd
  fwd_if true x y e = e
  fwd_if false x y e = refl

  flush_chunk-fwd : (tx : PutTx) → (flush_chunk tx).fwd ≡ tx.fwd
  unfolding flush_chunk
  flush_chunk-fwd tx =
      fwd_if (length tx.chunk == 0) tx
        (record tx { stored = tx.stored ++ tx.chunk ∷ []; chunk = []; chunk_bytes = 0 }) refl

  add-fwd :
      (k size : ℕ) (tx : PutTx)
      → (add salt v self true put_chunk_bytes k size tx).fwd
        ≡ send_all self k (write_set salt v k) tx.fwd
  unfolding add
  add-fwd k size tx =
      let tx1 : PutTx = record tx {
        keys = tx.keys ++ k ∷ [];
        chunk = tx.chunk ++ k ∷ [];
        chunk_bytes = tx.chunk_bytes + size;
      } in
      ap (λ f. send_all self k (write_set salt v k) f)
        (fwd_if (leb put_chunk_bytes tx1.chunk_bytes) (flush_chunk tx1) tx1 (flush_chunk-fwd tx1))

  module _ (o k : ℕ) where
    add_all-keeps :
        (rs : List (ℕ × ℕ)) (tx : PutTx)
        → is_sent o k tx.fwd ≡ true
        → is_sent o k (add_all salt v self true put_chunk_bytes rs tx).fwd ≡ true
    unfolding add_all
    add_all-keeps [] tx h = h
    add_all-keeps (r ∷ rs) tx h = add_all-keeps rs _ (
        subst (λ f. is_sent o k f ≡ true) (sym (add-fwd r.0 r.1 tx))
          (send_all-keeps self o r.0 k (write_set salt v r.0) tx.fwd h))

    add_all-sent :
        (rs : List (ℕ × ℕ)) (tx : PutTx)
        → any (λ r. r.0 == k) rs ≡ true
        → elem o (write_set salt v k) ≡ true
        → o ≢ self
        → is_sent o k (add_all salt v self true put_chunk_bytes rs tx).fwd ≡ true
    unfolding add_all
    add_all-sent [] tx h w n = cc
    add_all-sent (r ∷ rs) tx h w n = elim (Bool-cases (r.0 == k)) [
      | inl t ↦
          let e : k ≡ r.0 = sym ((==_iff r.0 k).0 t) in
          add_all-keeps rs _ (
            subst (λ f. is_sent o k f ≡ true) (sym (add-fwd r.0 r.1 tx))
              (subst (λ i. is_sent o i (send_all self r.0 (write_set salt v r.0) tx.fwd) ≡ true)
                (sym e)
                (send_all-sent self o r.0 (write_set salt v r.0) tx.fwd
                  (subst (λ i. elem o (write_set salt v i) ≡ true) e w) n)))
      | inr u ↦ add_all-sent rs _ (or-right (r.0 == k) (any (λ x. x.0 == k) rs) h u) w n
    ]

wait_all-reports :
    (replies : ℕ → Option PutResult) (o k : ℕ) (fwd : List (ℕ × List ℕ))
    → is_sent o k fwd ≡ true
    → (is_holder o k (wait_all replies fwd).0 ≡ true)
      ⊎ (has_failed o k (wait_all replies fwd).1 ≡ true)
unfolding wait_all
wait_all-reports replies o k [] h = cc
wait_all-reports replies o k (f ∷ fs) h = elim (Bool-cases (f.0 == o && elem k f.1)) [
  | inl t ↦
      let (e, i) = and-both (f.0 == o) (elem k f.1) t in
      let same : f.0 ≡ o = (==_iff f.0 o).0 e in
      elim (wait-reports k (replies f.0) f.1 i) [
        | inl w ↦ inl (
            any-append _ (confirmed_by f.0 (wait (replies f.0) f.1).0) _
            ∙ or-left _ _ (
                subst (λ p. is_holder p k (confirmed_by f.0 (wait (replies f.0) f.1).0) ≡ true) same
                  (confirmed_by-holder f.0 k _ w)))
        | inr w ↦ inr (
            any-append _ (failed_at f.0 (wait (replies f.0) f.1).1) _
            ∙ or-left _ _ (
                subst (λ p. has_failed p k (failed_at f.0 (wait (replies f.0) f.1).1) ≡ true) same
                  (failed_at-failed f.0 k _ w)))
      ]
  | inr u ↦
      elim (wait_all-reports replies o k fs
        (or-right (f.0 == o && elem k f.1) (is_sent o k fs) h u)) [
          | inl w ↦ inl (
              any-append _ (confirmed_by f.0 (wait (replies f.0) f.1).0) _
              ∙ or-last (is_holder o k (confirmed_by f.0 (wait (replies f.0) f.1).0)) _ w)
          | inr w ↦ inr (
              any-append _ (failed_at f.0 (wait (replies f.0) f.1).1) _
              ∙ or-last (has_failed o k (failed_at f.0 (wait (replies f.0) f.1).1)) _ w)
        ]
]

-- Where a batch from a client ends without an error of the store, each other owner of each of its keys is
-- reported: as a holder of the key, or with a failure.
pub finish-reports :
    (salt : ℕ → ℕ) (v : View) (self put_chunk_bytes : ℕ) (rs : List (ℕ × ℕ))
    (replies : ℕ → Option PutResult) (store_failed : Bool) (holders : List (ℕ × ℕ))
    (failures : List Failed) (o k : ℕ)
    → finish self replies store_failed (add_all salt v self true put_chunk_bytes rs new_put_tx)
      ≡ some (holders, failures)
    → any (λ r. r.0 == k) rs ≡ true
    → elem o (write_set salt v k) ≡ true
    → o ≢ self
    → (is_holder o k holders ≡ true) ⊎ (has_failed o k failures ≡ true)
unfolding finish
finish-reports salt v self put_chunk_bytes rs replies true holders failures o k e i w n = cc
finish-reports salt v self put_chunk_bytes rs replies false holders failures o k e i w n =
    let tx = add_all salt v self true put_chunk_bytes rs new_put_tx in
    let s = add_all-sent salt v self put_chunk_bytes o k rs new_put_tx i w n in
    subst
      (λ (r : List (ℕ × ℕ) × List Failed). (is_holder o k r.0 ≡ true) ⊎ (has_failed o k r.1 ≡ true))
      (some-injective _ _ e)
      (elim (wait_all-reports replies o k tx.fwd s) [
        | inl h ↦ inl (
            any-append _ (confirmed_by self tx.keys) _
            ∙ or-last (is_holder o k (confirmed_by self tx.keys)) _ h)
        | inr h ↦ inr h
      ])
