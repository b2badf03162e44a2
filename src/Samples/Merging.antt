-- ===== src/Samples/Merging.antt =====
-- Merges of a small working copy, and a worker's mark from a batch to its status.
use dstore.Prelude.{ℕ, ◌≡◌, refl, ap, ◌∙◌, inl, inr, true, false, none, some, [], ◌∷◌, In}
use dstore.Bytes.{beq_bytes}
use dstore.Worktree.{Entry, Change, modified, deleted, meta_changed}
use dstore.Worktree.Merge.{merge, judge, judge_at, against, by_path, later_or, file_verdict}
use dstore.Worktree.Merge.Paths.{OnePerPath}
use dstore.Worktree.Merge.Safe.{Admits, merge-Admits}
use dstore.Worktree.Merge.Covers.{Fate, merge-Fate}
use dstore.Node.Gc.Mark.{MarkState}
use dstore.Node.Gc.Handlers.{MarkNode, KeysMsg, handle_keys, handle_status}
use dstore.Node.Gc.Worker.{OnDisk, receives, begin, next}
use dstore.Node.Gc.Persist.{handle_status-OnDisk}
use dstore.Samples.Transitions.{idle_view}

abbrev a_file : ℕ → Entry
a_file k = record {
  mode = 0x81a4;
  content_key = k ∷ [];
  link_target = [];
  rdev = [];
  uid = 0;
  gid = 0;
  mtime = 5;
  xattrs_in = [];
  xattrs_key = [];
}

abbrev touched : Change
touched = record {
  path = 97 ∷ [];
  kind = meta_changed;
  old = some (a_file 1);
  new = some (a_file 1);
}

abbrev removed : Change
removed = record { path = 98 ∷ []; kind = deleted; old = some (a_file 2); new = none }

abbrev edited_a : Change
edited_a = record { path = 97 ∷ []; kind = modified; old = some (a_file 1); new = some (a_file 3) }

abbrev edited_b : Change
edited_b = record { path = 98 ∷ []; kind = modified; old = some (a_file 2); new = some (a_file 4) }

one_change : OnePerPath (touched ∷ removed ∷ [])
unfolding beq_bytes
one_change = (
  λ d m e. elim m [
    | inl h ↦
        let no : false ≡ true =
          ap (λ p. beq_bytes p (97 ∷ [])) (ap (λ (x : Change). x.path) h ∙ e) in
        cc no
    | inr n ↦ absurd n
  ],
  (λ d m. absurd m, _),
)

merge-Admits_example :
    In edited_a (edited_a ∷ edited_b ∷ [])
    × ((l : Change) → In l (touched ∷ removed ∷ []) → Admits (touched ∷ removed ∷ []) edited_a l)
unfolding merge judge judge_at against by_path later_or beq_bytes file_verdict
merge-Admits_example =
    merge-Admits (touched ∷ removed ∷ []) (edited_a ∷ edited_b ∷ []) edited_a one_change (inl refl)

merge-Fate_example :
    Fate
      (touched ∷ removed ∷ [])
      edited_b
      (merge (touched ∷ removed ∷ []) (edited_a ∷ edited_b ∷ []))
merge-Fate_example =
    merge-Fate (touched ∷ removed ∷ []) (edited_a ∷ edited_b ∷ []) edited_b (inr (inl refl))

abbrev fresh_mark : MarkState
fresh_mark = record {
  epoch = 4;
  nonce = 9 ∷ [];
  count = 1;
  elig_below = 9;
  placement = idle_view;
  acked = 1 ∷ 2 ∷ [];
  eligible = (77, 3) ∷ [];
  marked = [];
  visited = [];
  forward = [];
  queue = [];
  sender = [];
  seqs = [];
  out = [];
  sent = 0;
  recv = 0;
  seq_seen = [];
  missing = [];
  frozen = false;
  busy = 0;
  dirty = false;
}

abbrev start_node : MarkNode
start_node = record { mark = some fresh_mark; disk = none }

abbrev batch : KeysMsg
batch = record {
  epoch = 4;
  nonce = 9 ∷ [];
  sender = 2 ∷ [];
  seq = 1;
  keys = some (77 ∷ []);
  expand = false;
}

abbrev after_batch : MarkNode
after_batch = (handle_keys batch start_node).0

handle_status-OnDisk_example :
    (ms : MarkState) × ((handle_status true false 4 (9 ∷ []) after_batch).0.mark ≡ some ms)
    × OnDisk ((handle_status true false 4 (9 ∷ []) after_batch).0.disk) ms
unfolding handle_keys handle_status beq_bytes
handle_status-OnDisk_example =
    handle_status-OnDisk (λ id. id) (λ k. true) 1 true false 4 (9 ∷ [])
      (next (begin fresh_mark refl refl refl) (receives batch)) refl
