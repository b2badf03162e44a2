-- ===== src/Samples/Cluster.antt =====
-- One voter behind a transport that delivers every message at time 10, and a codec that spells out.
use dstore.Prelude.{ℕ, ◌+◌, ◌≡◌, refl, ap, Option, none, some, [], ◌∷◌, ◌++◌, length, take, drop}
use dstore.Bytes.{Bytes}
use dstore.Paxos.Acceptor.{Acceptor}
use dstore.Paxos.Acceptor.Handle.{handle}
use dstore.Paxos.Proposer.Propose.{Network}
use dstore.Catalog.{RefValue, Lease, Codec}
use dstore.Samples.Memory.{memory, one_voter, fresh_acceptor}

pub record Machine : Type 0 where
  pub acceptor : Acceptor memory
  pub counter : ℕ

abbrev pub cluster : Network
cluster = record {
  World = Machine;
  self = 7;
  decode = memory.decode;
  current = λ w. some one_voter;
  adopt = λ w v. w;
  broadcast = λ w v m.
      let done = handle memory 10 w.acceptor m in
      (
        record { acceptor = done.0; counter = w.counter },
        record { id = 7; msg = some done.1 } ∷ [],
      );
  next_counter =
      λ w. (record { acceptor = w.acceptor; counter = w.counter + 1 }, some (w.counter + 1));
  bump = λ w c. some (record { acceptor = w.acceptor; counter = c });
  pause = λ w. some w;
}

abbrev pub new_machine : Machine
new_machine = record { acceptor = fresh_acceptor 7; counter = 0 }

abbrev pub write_ref : RefValue → Bytes
write_ref r = r.deleted_at ∷ length r.content ∷ r.content ++ r.version

abbrev pub read_ref : Bytes → Option RefValue
read_ref (d ∷ n ∷ rest) =
    some (record { content = take n rest; deleted_at = d; version = drop n rest })
read_ref _ = none

abbrev pub read_a_lease : Bytes → Option Lease
read_a_lease (e ∷ holder) = some (record { holder = holder; expires = e })
read_a_lease [] = none

pub take-append : (xs ys : Bytes) → take (length xs) (xs ++ ys) ≡ xs
take-append [] ys = refl
take-append (x ∷ xs) ys = ap (λ (l : Bytes). x ∷ l) (take-append xs ys)

pub drop-append : (xs ys : Bytes) → drop (length xs) (xs ++ ys) ≡ ys
drop-append [] ys = refl
drop-append (x ∷ xs) ys = drop-append xs ys

abbrev pub plain_codec : Codec
plain_codec = record {
  encode_ref = write_ref;
  decode_ref = read_ref;
  encode_lease = λ l. l.expires ∷ l.holder;
  decode_lease = read_a_lease;
  encode_view = memory.encode;
  decode_view = memory.decode;
  ref_law = λ r. rw (take-append r.content r.version, drop-append r.content r.version) refl;
  lease_law = λ l. refl;
}
