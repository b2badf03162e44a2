-- ===== src/Node/Puts.antt =====
-- node/put.go: a batch of records that a node takes (putTx). Its records go to the store in chunks and, from a
-- client, to each key's other owners; `replies` gives what an owner's put has answered, none where it failed
-- or was given up, and `store_failed` whether some chunk could not be stored.
pub mod Reports
use mathlib.Core.Path.{subst}
use dstore.Prelude.{
  ℕ, ◌≡◌, ◌≢◌, refl, sym, ◌∙◌, ap, ◌⊎◌, inl, inr, ◌+◌, Bool, true, false, ◌&&◌, ◌||◌, not, Option,
  none, some, List, [], ◌∷◌, ◌++◌, leb, ◌==◌, ==_iff, if◌then◌else◌, elem, any, length, arith,
  Bool-cases,
}
use dstore.View.{View}
use dstore.View.Tables.{write_set}

pub data Reason : Type 0 where
  no_reply rejected_by_owner unconfirmed : Reason

-- A put-result: the keys confirmed, and those with a reason for their rejection.
pub record PutResult : Type 0 where
  pub confirmed : List ℕ
  pub rejected : List ℕ

pub record PutTx : Type 0 where
  pub keys : List ℕ
  pub chunk : List ℕ
  pub chunk_bytes : ℕ
  -- The chunks given to storeWorker.
  pub stored : List (List ℕ)
  pub fwd : List (ℕ × List ℕ)

abbrev pub new_put_tx : PutTx
new_put_tx = record { keys = []; chunk = []; chunk_bytes = 0; stored = []; fwd = [] }

unfoldable pub flush_chunk : PutTx → PutTx
flush_chunk tx =
    if length tx.chunk == 0
    then tx
    else record tx { stored = tx.stored ++ tx.chunk ∷ []; chunk = []; chunk_bytes = 0 }

-- forwarder and send: the keys handed to an owner's forward, which is made on first use.
unfoldable pub send_to : ℕ → ℕ → List (ℕ × List ℕ) → List (ℕ × List ℕ)
send_to o k [] = (o, k ∷ []) ∷ []
send_to o k (f ∷ fs) = if f.0 == o then (f.0, f.1 ++ k ∷ []) ∷ fs else f ∷ send_to o k fs

unfoldable pub send_all : ℕ → ℕ → List ℕ → List (ℕ × List ℕ) → List (ℕ × List ℕ)
unfolding send_to
send_all self k [] fwd = fwd
send_all self k (o ∷ os) fwd = send_all self k os (if o == self then fwd else send_to o k fwd)

module _ (salt : ℕ → ℕ) (v : View) (self : ℕ) (client : Bool) (put_chunk_bytes : ℕ) where
  -- add, where no chunk has failed so far; `size` is the length of the record.
  unfoldable pub add : ℕ → ℕ → PutTx → PutTx
  unfolding flush_chunk send_all write_set
  add k size tx =
      let tx1 : PutTx = record tx {
        keys = tx.keys ++ k ∷ [];
        chunk = tx.chunk ++ k ∷ [];
        chunk_bytes = tx.chunk_bytes + size;
      } in
      let tx2 = if leb put_chunk_bytes tx1.chunk_bytes then flush_chunk tx1 else tx1 in
      if client then record tx2 { fwd = send_all self k (write_set salt v k) tx2.fwd } else tx2

  unfoldable pub add_all : List (ℕ × ℕ) → PutTx → PutTx
  unfolding add
  add_all [] tx = tx
  add_all (r ∷ rs) tx = add_all rs (add (r.0) (r.1) tx)

-- wait
unfoldable pub wait : Option PutResult → List ℕ → List ℕ × List (ℕ × Reason)
wait r [] = ([], [])
wait none (k ∷ ks) = let rest = wait none ks in (rest.0, (k, no_reply) ∷ rest.1)
wait (some r) (k ∷ ks) =
    let rest = wait (some r) ks in
    if elem k r.confirmed
    then (k ∷ rest.0, rest.1)
    else (rest.0, (k, if elem k r.rejected then rejected_by_owner else unconfirmed) ∷ rest.1)

pub record Failed : Type 0 where
  pub key : ℕ
  pub node : ℕ
  pub reason : Reason

unfoldable pub confirmed_by : ℕ → List ℕ → List (ℕ × ℕ)
confirmed_by o [] = []
confirmed_by o (k ∷ ks) = (k, o) ∷ confirmed_by o ks

unfoldable pub failed_at : ℕ → List (ℕ × Reason) → List Failed
failed_at o [] = []
failed_at o (f ∷ fs) = record { key = f.0; node = o; reason = f.1 } ∷ failed_at o fs

-- finish: the pairs of a key and an owner that holds it, and the failures.
unfoldable pub wait_all : (ℕ → Option PutResult) → List (ℕ × List ℕ) → List (ℕ × ℕ) × List Failed
unfolding wait confirmed_by failed_at
wait_all replies [] = ([], [])
wait_all replies (f ∷ fs) =
    let w = wait (replies (f.0)) (f.1) in
    let rest = wait_all replies fs in
    (confirmed_by (f.0) (w.0) ++ rest.0, failed_at (f.0) (w.1) ++ rest.1)

unfoldable pub finish :
    ℕ → (ℕ → Option PutResult) → Bool → PutTx → Option (List (ℕ × ℕ) × List Failed)
unfolding flush_chunk wait_all confirmed_by
finish self replies store_failed tx =
    let w = wait_all replies tx.fwd in
    if store_failed then none else some (confirmed_by self tx.keys ++ w.0, w.1)
