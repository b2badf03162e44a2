-- ===== src/View/Tables.antt =====
-- view/view.go: the placement over a view. The tables of the current and of the pending node set are
-- computed when used, which is what they cache; `salt` is that of Placement.antt.
use dstore.Prelude.{
  ℕ, Bool, true, false, ◌||◌, ◌≡◌, refl, sym, ◌∙◌, ap, Option, none, some, List, [], ◌∷◌, ◌++◌, map,
  ◌==◌, ==_iff, if◌then◌else◌, elem, any, elem-append,
}
use dstore.View.{View, Node, Pending, zone_or_id}
use dstore.Placement.{Member, Entry, owners, slot, owner_ids, rank_ids, is_owner}

-- members
unfoldable pub members : List Node → List Member
unfolding zone_or_id
members ns = map (λ (n : Node). record { id = n.id; weight = n.weight; zone = zone_or_id n }) ns

-- The loop that appends the ids that `seen`, the set of the first list, has not.
unfoldable pub append_unseen : List ℕ → List ℕ → List ℕ
append_unseen seen [] = []
append_unseen seen (id ∷ ids) =
    let rest = append_unseen seen ids in if elem id seen then rest else id ∷ rest

module _ (salt : ℕ → ℕ) where
  unfoldable pub current_owners : View → ℕ → List ℕ
  unfolding owner_ids members
  current_owners v key = owner_ids salt v.replicas (members v.nodes) key

  unfoldable pub pending_owners : Option Pending → ℕ → List ℕ
  unfolding owner_ids members
  pending_owners none key = []
  pending_owners (some p) key = owner_ids salt p.replicas (members p.nodes) key

  unfoldable pub write_set : View → ℕ → List ℕ
  unfolding current_owners pending_owners append_unseen
  write_set v key =
      let out = current_owners v key in out ++ append_unseen out (pending_owners v.pending key)

  unfoldable pub pending_ranks : Option Pending → ℕ → List ℕ
  unfolding rank_ids members
  pending_ranks none key = []
  pending_ranks (some p) key = rank_ids salt (members p.nodes) key

  unfoldable pub read_order : View → ℕ → List ℕ
  unfolding rank_ids members pending_ranks append_unseen
  read_order v key =
      let out = rank_ids salt (members v.nodes) key in
      out ++ append_unseen out (pending_ranks v.pending key)

  unfoldable pub is_current_owner : View → ℕ → ℕ → Bool
  unfolding is_owner members
  is_current_owner v key id = is_owner salt v.replicas (members v.nodes) key id

  unfoldable pub is_pending_owner : Option Pending → ℕ → ℕ → Bool
  unfolding is_owner members
  is_pending_owner none key id = false
  is_pending_owner (some p) key id = is_owner salt p.replicas (members p.nodes) key id

  unfoldable pub in_write_set : View → ℕ → ℕ → Bool
  unfolding is_current_owner is_pending_owner
  in_write_set v key id = is_current_owner v key id || is_pending_owner v.pending key id

or_assoc : (a b c : Bool) → (a || (b || c)) ≡ ((a || b) || c)
or_assoc true b c = refl
or_assoc false b c = refl

-- The ids of a list of entries hold an id exactly when some entry does.
any-elem :
    (id : ℕ) (es : List Entry)
    → any (λ (e : Entry). e.member.id == id) es ≡ elem id (map (λ (e : Entry). e.member.id) es)
any-elem id [] = refl
any-elem id (e ∷ es) = ap (λ b. e.member.id == id || b) (any-elem id es)

-- What the filter on `seen` drops is already there.
or_same : (a b : Bool) → (a || b) ≡ (a || (a || b))
or_same true b = refl
or_same false b = refl

or_skip : (a b c : Bool) → (b ≡ true → a ≡ true) → (a || c) ≡ (a || (b || c))
or_skip true b c h = refl
or_skip false true c h = cc (h refl)
or_skip false false c h = refl

or_swap : (a b c : Bool) → (b || (a || c)) ≡ (a || (b || c))
or_swap true true c = refl
or_swap true false c = refl
or_swap false b c = refl

elem_of_eq : (id x : ℕ) (xs : List ℕ) → elem x xs ≡ true → (x == id) ≡ true → elem id xs ≡ true
elem_of_eq id x xs m e = ap (λ y. elem y xs) (sym ((==_iff x id).0 e)) ∙ m

elem-kept :
    (id : ℕ) (seen : List ℕ) (x : ℕ) (xs rest : List ℕ) (b : Bool)
    → elem x seen ≡ b
    → (elem id seen || elem id rest) ≡ (elem id seen || elem id xs)
    → (elem id seen || elem id (if b then rest else x ∷ rest))
      ≡ (elem id seen || (x == id || elem id xs))
elem-kept id seen x xs rest true h r =
    r ∙ or_skip (elem id seen) (x == id) (elem id xs) (elem_of_eq id x seen h)
elem-kept id seen x xs rest false h r =
    sym (or_swap (elem id seen) (x == id) (elem id rest))
    ∙ ap (λ b. x == id || b) r
    ∙ or_swap (elem id seen) (x == id) (elem id xs)

elem-unseen :
    (id : ℕ) (seen ids : List ℕ)
    → (elem id seen || elem id (append_unseen seen ids)) ≡ (elem id seen || elem id ids)
unfolding append_unseen
elem-unseen id seen [] = refl
elem-unseen id seen (x ∷ xs) =
    elem-kept id seen x xs (append_unseen seen xs) (elem x seen) refl (elem-unseen id seen xs)

module _ (salt : ℕ → ℕ) where
  current_lem :
      (v : View) (key id : ℕ) → is_current_owner salt v key id ≡ elem id (current_owners salt v key)
  unfolding is_current_owner current_owners is_owner owner_ids
  current_lem v key id = any-elem id (owners salt (slot key) v.replicas (members v.nodes))

  pending_lem :
      (p : Option Pending) (key id : ℕ)
      → is_pending_owner salt p key id ≡ elem id (pending_owners salt p key)
  unfolding is_pending_owner pending_owners is_owner owner_ids
  pending_lem none key id = refl
  pending_lem (some p) key id = any-elem id (owners salt (slot key) p.replicas (members p.nodes))

  -- InWriteSet answers for an id what WriteSet lists: the owners under the nodes and those under the
  -- pending nodes.
  pub in_write_set-write_set :
      (v : View) (key id : ℕ) → in_write_set salt v key id ≡ elem id (write_set salt v key)
  unfolding in_write_set write_set
  in_write_set-write_set v key id =
      let cur = current_owners salt v key in
      let pen = pending_owners salt v.pending key in
      ap (λ b. b || is_pending_owner salt v.pending key id) (current_lem v key id)
      ∙ ap (λ b. elem id cur || b) (pending_lem v.pending key id)
      ∙ sym (elem-unseen id cur pen)
      ∙ sym (elem-append id cur (append_unseen cur pen))
