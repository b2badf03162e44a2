-- ===== src/Node/Gc/Cluster/Arriving.antt =====
-- A packet that arrives is what the worker marks, and what it works on where the packet says so.
use mathlib.Core.Path.{subst}
use dstore.Prelude.{
  ◌+◌, ◌%◌, ◌^◌, ℕ, ◌≡◌, refl, sym, ◌∙◌, ap, ◌⊎◌, inl, inr, Bool, true, false, ◌&&◌, some, List, [],
  ◌∷◌, ◌++◌, ◌==◌, if◌then◌else◌, elem, arith, Bool-cases, cons-elem, elem-left, elem-right,
  or-right,
}
use dstore.View.{View}
use dstore.Node.Gc.Mark.{MarkState, mark_key, mark_keys}
use dstore.Node.Gc.Handlers.{KeysMsg, last_seq, is_duplicate, take_keys, received}
use dstore.Node.Gc.Cluster.Grows.{
  Grows, Grows-same, Grows-then, mark_key-Grows, IsMarked, IsMarked-mark_key, IsMarked-Grows,
}
use dstore.Node.Gc.Cluster.State.{Packet, Part, brings, brings_work}
use dstore.Node.Gc.Cluster.Leads.{Carries, News}
use dstore.Node.Gc.Cluster.Steps.{News-Grows}

mark_keys-Grows : (ks : List ℕ) (ms : MarkState) → Grows ms (mark_keys ms ks)
unfolding mark_keys
mark_keys-Grows [] ms = Grows-same ms
mark_keys-Grows (k ∷ ks) ms = Grows-then (mark_key-Grows ms k) (mark_keys-Grows ks (mark_key ms k))

mark_keys-IsMarked :
    (k : ℕ) (ks : List ℕ) (ms : MarkState) → elem k ks ≡ true → IsMarked (mark_keys ms ks) k
unfolding mark_keys
mark_keys-IsMarked k [] ms h = cc
mark_keys-IsMarked k (x ∷ xs) ms h = elim (cons-elem k x xs h) [
  | inl e ↦
      IsMarked-Grows k (mark_keys-Grows xs (mark_key ms x))
        (subst (λ i. IsMarked (mark_key ms x) i) (sym e) (IsMarked-mark_key ms x))
  | inr r ↦ mark_keys-IsMarked k xs (mark_key ms x) r
]

if-lists :
    (ms : MarkState) (b : Bool) (x : List ℕ)
    → ((if b then record ms { marked = x } else ms).visited ≡ ms.visited)
      × ((if b then record ms { marked = x } else ms).forward ≡ ms.forward)
if-lists ms true x = (refl, refl)
if-lists ms false x = (refl, refl)

mark_key-lists :
    (ms : MarkState) (k : ℕ)
    → ((mark_key ms k).visited ≡ ms.visited) × ((mark_key ms k).forward ≡ ms.forward)
unfolding mark_key
mark_key-lists ms k = if-lists ms _ (k ∷ ms.marked)

mark_keys-lists :
    (ks : List ℕ) (ms : MarkState)
    → ((mark_keys ms ks).visited ≡ ms.visited) × ((mark_keys ms ks).forward ≡ ms.forward)
unfolding mark_keys
mark_keys-lists [] ms = (refl, refl)
mark_keys-lists (k ∷ ks) ms =
    let (v, f) = mark_keys-lists ks (mark_key ms k) in
    let (u, g) = mark_key-lists ms k in (v ∙ u, f ∙ g)

-- What stays of the packets, and what the arrived one brought.
module _ (q : Packet) (after : List Packet) where
  brings-split :
      (before : List Packet) (o k : ℕ)
      → brings o k (before ++ q ∷ after) ≡ true
      → (brings o k (before ++ after) ≡ true) ⊎ ((o ≡ q.to) × (elem k q.keys ≡ true))
  brings-split [] o k h = ground arith
  brings-split (b ∷ bs) o k h = elim (Bool-cases (b.to == o && elem k b.keys)) [
    | inl t ↦ inl (rw t refl)
    | inr f ↦
        elim (brings-split bs o k
          (or-right (b.to == o && elem k b.keys) (brings o k (bs ++ q ∷ after)) h f)) [
            | inl i ↦ inl (rw (f, i) refl)
            | inr i ↦ inr i
          ]
  ]

  work-split :
      (before : List Packet) (o k : ℕ)
      → brings_work o k (before ++ q ∷ after) ≡ true
      → (brings_work o k (before ++ after) ≡ true)
        ⊎ ((o ≡ q.to) × ((q.expand ≡ true) × (elem k q.keys ≡ true)))
  work-split [] o k h = ground arith
  work-split (b ∷ bs) o k h = elim (Bool-cases (b.to == o && b.expand && elem k b.keys)) [
    | inl t ↦ inl (rw t refl)
    | inr f ↦
        elim (work-split bs o k (
          or-right (b.to == o && b.expand && elem k b.keys) (brings_work o k (bs ++ q ∷ after)) h
            f)) [ inl i ↦ inl (rw (f, i) refl) | inr i ↦ inr i ]
  ]

module _ (salt : ℕ → ℕ) (is_leaf : ℕ → Bool) (kids : ℕ → List ℕ) (placement : View)
    (acked : List ℕ) where
  module _ (n : ℕ) (m : KeysMsg) (keys : List ℕ) (p : Part) where
    abbrev pub arrived : Part
    arrived = record p { mark = (take_keys m (some keys) p.mark).0 }

    abbrev taken : Part
    taken = record p { mark = received m keys p.mark }

    arrived-taken :
        p.mark.frozen ≡ false
        → is_duplicate m.seq (last_seq m.sender p.mark.seq_seen) ≡ false
        → arrived ≡ taken
    unfolding take_keys
    arrived-taken f d = rw (f, d) refl

    abbrev counted_mark : MarkState
    counted_mark = record p.mark {
      seq_seen = (m.sender, m.seq) ∷ p.mark.seq_seen;
      recv = (p.mark.recv + 1) % 2 ^ 64;
    }

    abbrev noted : MarkState
    noted = mark_keys counted_mark keys

    noted-Grows : Grows p.mark noted
    noted-Grows =
        Grows-then
          (record {
            placement = refl;
            busy = refl;
            acked = refl;
            eligible = refl;
            queue = λ a h. h;
            keys = λ o a h. h;
            expand = λ o a h. h;
            marked = λ a h. h;
            visited = λ a h. h;
            missing = λ h. h;
          })
          (mark_keys-Grows keys counted_mark)

    queue-keeps :
        (e : Bool) (k : ℕ)
        → elem k noted.queue ≡ true
        → elem k (if e then noted.queue ++ keys else noted.queue) ≡ true
    queue-keeps true k h = elem-left k noted.queue keys h
    queue-keeps false k h = h

    queue-takes :
        (e : Bool) (k : ℕ)
        → e ≡ true
        → elem k keys ≡ true
        → elem k (if e then noted.queue ++ keys else noted.queue) ≡ true
    queue-takes true k e h = elem-right k noted.queue keys h
    queue-takes false k e h = cc

    taken-Grows : Grows p.mark taken.mark
    unfolding received
    taken-Grows = record {
      placement = noted-Grows.placement;
      busy = noted-Grows.busy;
      acked = noted-Grows.acked;
      eligible = noted-Grows.eligible;
      queue = λ k h. queue-keeps m.expand k (noted-Grows.queue k h);
      keys = noted-Grows.keys;
      expand = noted-Grows.expand;
      marked = noted-Grows.marked;
      visited = noted-Grows.visited;
      missing = noted-Grows.missing;
    }

    taken-lists : (taken.mark.visited ≡ p.mark.visited) × (taken.mark.forward ≡ p.mark.forward)
    unfolding received
    taken-lists = (mark_keys-lists keys counted_mark)

    module _ (before after : List Packet) (fl : List Packet)
        (e : fl ≡ before ++ record { to = n; keys = keys; expand = m.expand } ∷ after) where
      taken-Carries : Carries salt is_leaf kids placement acked n p taken fl (before ++ after)
      unfolding received
      taken-Carries =
          let q : Packet = record { to = n; keys = keys; expand = m.expand } in
          record {
            at = λ k h. elim h [ inl i ↦ inl (inl (taken-Grows.queue k i)) | inr b ↦ inl (inr b) ];
            expand = λ w k h. inl (taken-Grows.expand w k h);
            keys = λ o k h. inl (taken-Grows.keys o k h);
            work = λ w k h.
                elim (work-split q after before w k (ap (λ x. brings_work w k x) (sym e) ∙ h)) [
                  | inl i ↦ inl i
                  | inr (t, (x, i)) ↦ inr (t, inl (queue-takes m.expand k x i))
                ];
            told = λ w k h.
                elim (brings-split q after before w k (ap (λ x. brings w k x) (sym e) ∙ h)) [
                  | inl i ↦ inl i
                  | inr (t, i) ↦ inr (t, mark_keys-IsMarked k keys counted_mark i)
                ];
            visited = taken-Grows.visited;
            marked = λ k h. IsMarked-Grows k taken-Grows h;
          }

      module _ (f : p.mark.frozen ≡ false)
          (d : is_duplicate m.seq (last_seq m.sender p.mark.seq_seen) ≡ false) where
        pub arrived-Carries :
            Carries salt is_leaf kids placement acked n p arrived fl (before ++ after)
        arrived-Carries =
            subst (λ x. Carries salt is_leaf kids placement acked n p x fl (before ++ after))
              (sym (arrived-taken f d)) taken-Carries

        pub arrived-News :
            (roots : List ℕ) → News salt is_leaf kids placement acked p arrived roots roots
        arrived-News roots =
            subst (λ x. News salt is_leaf kids placement acked p x roots roots)
              (sym (arrived-taken f d))
              (News-Grows salt is_leaf kids placement acked n p taken fl roots roots taken-Grows
                taken-lists.0 taken-lists.1 (λ k h. inl h) refl)
