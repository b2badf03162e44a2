-- ===== src/Samples/Marking.antt =====
-- Two workers that mark an object and the one under it.
use dstore.Prelude.{
  All, arith, sym, Option, ◌⊎◌, ℕ, ◌≡◌, inl, inr, refl, Bool, true, false, none, some, List, [],
  ◌∷◌, ◌==◌, if◌then◌else◌, ==_iff, Bool-cases,
}
use dstore.View.{View, contains}
use dstore.View.Tables.{write_set}
use dstore.Bytes.{beq_bytes, be_bytes, be_value}
use mathlib.Core.Path.{subst}
use dstore.Placement.{
  less, score, fmix64, log2_fix, log2_bits, less_log, checked_score, bit_len, log2_rounds,
}
use dstore.Node.Gc.Sweep.{Local, live, pack_of}
use dstore.Node.Gc.Mark.{
  MarkState, process, start_batch, end_batch, next_send, worker, deliver, visit, send_from,
  send_batch, counted,
}
use dstore.Node.Gc.Handlers.{
  StatusReply, status, KeysMsg, take_keys, received, is_duplicate, last_seq, is_idle_mark,
}
use dstore.Node.Gc.Polls.{PollSum, Twice, proceeds, poll_loop, proceeds-Twice}
use dstore.Node.Gc.Input.{
  sweep_input_for, from_mark, from_disk, load_mark, persist_mark, Segment, HeaderCodec, header_of,
}
use dstore.Node.Gc.Input.File.{IsKey, loaded, load_mark-persist_mark}
use dstore.Node.Gc.Cluster.State.{
  Part, Cluster, put_part, rooted, with_packet, takes_root, begins, processes, ends, sends, arrives,
  ClusterRun, begin, next, Quiet, Reached, root, child,
}
use dstore.Node.Gc.Cluster.Kept.{ClusterRun-live, ClusterRun-load_mark}
use dstore.Samples.Transitions.{idle_view}

abbrev two_copies : View
two_copies = record idle_view { replicas = 2 }

abbrev own : ℕ → ℕ
own id = id

abbrev is_six : ℕ → Bool
is_six k = k == 6

abbrev six_under : ℕ → List ℕ
six_under k = if k == 5 then 6 ∷ [] else []

abbrev fresh : MarkState
fresh = record {
  epoch = 1;
  nonce = [];
  count = 3;
  elig_below = 9;
  placement = two_copies;
  acked = 1 ∷ 2 ∷ [];
  eligible = (5, 1) ∷ (6, 1) ∷ (7, 1) ∷ [];
  marked = [];
  visited = [];
  forward = [];
  queue = [];
  sender = [];
  seqs = [];
  out = [];
  sent = 0;
  recv = 0;
  seq_seen = [];
  missing = [];
  frozen = false;
  busy = 0;
  dirty = false;
}

abbrev c0 : Cluster
c0 = record { part = λ n. record { mark = fresh; batch = [] }; flight = []; roots = [] }

abbrev with_mark : ℕ → MarkState → Cluster → Cluster
with_mark n ms c = put_part n (record (c.part n) { mark = ms }) c

abbrev c1 : Cluster
c1 = put_part 1 (rooted 5 (c0.part 1)) (record c0 { roots = 5 ∷ [] })

abbrev begun : Cluster → Cluster
begun c =
    put_part 1
      (record { mark = (start_batch (c.part 1).mark).1; batch = (start_batch (c.part 1).mark).0 }) c

abbrev done : ℕ → Cluster → Cluster
done k c =
    put_part 1
      (record { mark = process own is_six 1 (some (six_under k)) k (c.part 1).mark; batch = [] }) c

abbrev c4 : Cluster
c4 = with_mark 1 (end_batch ((done 5 (begun c1)).part 1).mark) (done 5 (begun c1))

abbrev c7 : Cluster
c7 = with_mark 1 (end_batch ((done 6 (begun c4)).part 1).mark) (done 6 (begun c4))

abbrev out_to : Cluster → Cluster
out_to c =
    with_mark 1 (next_send 2 (c.part 1).mark).0
      (record c { flight = with_packet 2 (next_send 2 (c.part 1).mark).1 c.flight })

abbrev c9 : Cluster
c9 = out_to (out_to c7)

abbrev message : KeysMsg
message = record {
  epoch = 1;
  nonce = [];
  sender = 1 ∷ [];
  seq = 1;
  keys = some (5 ∷ 6 ∷ []);
  expand = false;
}

abbrev marked_all : Cluster
marked_all =
    with_mark 2 (take_keys message (some (5 ∷ 6 ∷ [])) (c9.part 2).mark).0
      (record c9 { flight = [] })

fresh_run : ClusterRun own is_six six_under two_copies (1 ∷ 2 ∷ []) c0
fresh_run =
    begin (λ n. record { mark = fresh; batch = [] })
      (λ n. record {
        placement_is = refl;
        acked_are = refl;
        visited_none = refl;
        forward_none = refl;
        batch_none = refl;
      })

five_run : ClusterRun own is_six six_under two_copies (1 ∷ 2 ∷ []) c4
unfolding rooted start_batch
five_run =
    next
      (next (next (next fresh_run (takes_root 1 5)) (begins 1 refl))
        (processes 1 5 [] (some (6 ∷ [])) refl (inr refl)))
      (ends 1 refl)

six_run : ClusterRun own is_six six_under two_copies (1 ∷ 2 ∷ []) c7
unfolding rooted start_batch process deliver worker visit less score fmix64 log2_fix log2_bits
    less_log checked_score bit_len log2_rounds end_batch beq_bytes be_bytes is_duplicate last_seq
six_run =
    next (next (next five_run (begins 1 refl)) (processes 1 6 [] (some []) refl (inr refl)))
      (ends 1 refl)

marked_run : ClusterRun own is_six six_under two_copies (1 ∷ 2 ∷ []) marked_all
unfolding rooted start_batch process deliver worker visit less score fmix64 log2_fix log2_bits
    less_log checked_score bit_len log2_rounds end_batch beq_bytes be_bytes is_duplicate last_seq
    next_send send_from send_batch counted with_packet
marked_run =
    next (next (next six_run (sends 1 2)) (sends 1 2))
      (arrives 2 message (5 ∷ 6 ∷ []) [] [] refl refl refl)

every_part :
    (P : Part → Type 0)
    → P (marked_all.part 1)
    → P (marked_all.part 2)
    → P (c0.part 0)
    → (n : ℕ) → P (marked_all.part n)
every_part P one two rest n = elim (Bool-cases (n == 1)) [
  | inl t ↦ subst (λ i. P (marked_all.part i)) (sym ((==_iff n 1).0 t)) one
  | inr f ↦ elim (Bool-cases (n == 2)) [
    | inl t ↦ subst (λ i. P (marked_all.part i)) (sym ((==_iff n 2).0 t)) two
    | inr g ↦ rw (f, g) rest
  ]
]

at_rest : Quiet own is_six six_under marked_all
unfolding rooted start_batch process deliver worker visit less score fmix64 log2_fix log2_bits
    less_log checked_score bit_len log2_rounds end_batch beq_bytes be_bytes is_duplicate last_seq
    next_send send_from send_batch counted with_packet take_keys received is_idle_mark
at_rest = record {
  idle = every_part (λ p. is_idle_mark p.mark ≡ true) refl refl refl;
  flight = refl;
  missing = every_part (λ p. p.mark.missing ≡ []) refl refl refl;
}

six-Reached : Reached own is_six six_under marked_all.roots 6
six-Reached = child 5 6 (root 5 refl) refl refl

abbrev second : Local
second = record {
  self = 2;
  salt = own;
  is_corrupt = λ k. false;
  pinned = λ k below. false;
  settled = λ pack v. false;
}

-- A codec for the header of the second worker's mark.
abbrev plain_header : HeaderCodec
plain_header = record {
  encode = λ h. h.epoch ∷ h.count ∷ [];
  decode = λ b. some (header_of (marked_all.part 2).mark);
}

ClusterRun-live_example :
    live second (from_mark (λ n. some 9) (marked_all.part 2).mark) idle_view 6 ≡ true
unfolding sweep_input_for less score fmix64 log2_fix log2_bits less_log checked_score bit_len
    log2_rounds beq_bytes be_bytes write_set contains take_keys
ClusterRun-live_example =
    ClusterRun-live second is_six six_under two_copies (1 ∷ 2 ∷ []) marked_all 6 marked_run at_rest
      six-Reached refl refl refl (λ n. some 9) plain_header [] none idle_view
      (from_mark (λ n. some 9) (marked_all.part 2).mark) refl

abbrev old_pack : List Segment
old_pack = record { id = 1; keys = 6 ∷ 8 ∷ [] } ∷ []

abbrev second_mark : MarkState
second_mark = (marked_all.part 2).mark

second_keys : All IsKey second_mark.marked
unfolding less score fmix64 log2_fix log2_bits less_log checked_score bit_len log2_rounds beq_bytes
    be_bytes write_set contains take_keys
second_keys = (omega arith, (omega arith, tt))

ClusterRun-load_mark_example :
    live second (loaded (λ n. some 9) plain_header old_pack second_mark) idle_view 6 ≡ true
unfolding sweep_input_for from_disk less score fmix64 log2_fix log2_bits less_log checked_score
    bit_len log2_rounds beq_bytes be_bytes write_set contains take_keys pack_of load_mark
    persist_mark be_value
ClusterRun-load_mark_example =
    ClusterRun-load_mark second is_six six_under two_copies (1 ∷ 2 ∷ []) marked_all 6 marked_run
      at_rest six-Reached refl refl refl (λ n. some 9) plain_header old_pack idle_view
      (loaded (λ n. some 9) plain_header old_pack second_mark) refl (omega arith) second_keys refl
      (λ h. refl)

load_mark-persist_mark_example :
    load_mark (λ n. some 9) plain_header old_pack (persist_mark plain_header second_mark)
    ≡ some (loaded (λ n. some 9) plain_header old_pack second_mark)
load_mark-persist_mark_example =
    load_mark-persist_mark (λ n. some 9) plain_header old_pack second_mark refl (omega arith)
      second_keys

-- A poll of the two workers at rest: the first has sent a batch, which the second has received.
abbrev rest_poll : List (Option StatusReply)
rest_poll = some (status 1 0 true 2 []) ∷ some (status 0 1 true 2 []) ∷ []

abbrev busy_poll : List (Option StatusReply)
busy_poll = some (status 1 0 true 2 []) ∷ some (status 0 0 false 0 []) ∷ []

proceeds-Twice_example :
    (p : PollSum) × (Twice 0 p (busy_poll ∷ rest_poll ∷ rest_poll ∷ rest_poll ∷ [])
      × ((p.missing ≡ []) ⊎ ((false ≡ true) × All (λ k. is_six k ≡ true) p.missing)))
unfolding proceeds poll_loop
proceeds-Twice_example =
    proceeds-Twice is_six false 0 (busy_poll ∷ rest_poll ∷ rest_poll ∷ rest_poll ∷ []) refl
