-- ===== src/Props/Tree/Refines.antt =====
-- A tree is a finite map from folded paths to values: what `Get` answers after `Set` and `Delete`, at
-- the path that was written and at every other.
use fuzzball_emerald.Prelude.{
  ◌≡◌, ◌≢◌, refl, sym, ap, ◌∙◌, true, List, [], ◌∷◌, Option, none, some, if◌then◌else◌, Bytes,
  bytes_eq, bytes_eq_iff, Bool-cases, inl, inr,
}
use fuzzball_emerald.Ascii.{fold}
use fuzzball_emerald.Props.Value.{Value, is_empty}
use fuzzball_emerald.Props.Tree.{
  Node, Tree, kids_of, child, descend, lookup_node, value_of, get, set, delete, split, delete_segs,
  delete_found, set_segs,
}
use fuzzball_emerald.Props.Tree.Sorted.{IsSorted}
use fuzzball_emerald.Props.Tree.Map.{
  value_at, same_path, erased, value_at-set_node, value_at-delete_node,
}

descend_same :
    (p q : List Bytes) (o : Option Node)
    → ((k : Node) → lookup_node p k ≡ lookup_node q k)
    → descend (lookup_node p) o ≡ descend (lookup_node q) o
descend_same p q none h = refl
descend_same p q (some k) h = h k

-- Segments that are equal up to case lead to one node.
lookup_node-same :
    (p q : List Bytes) (n : Node) → same_path p q ≡ true → lookup_node p n ≡ lookup_node q n
unfolding lookup_node
lookup_node-same [] [] n h = refl
lookup_node-same [] (c ∷ q) n h = cc
lookup_node-same (a ∷ p) [] n h = cc
lookup_node-same (a ∷ p) (c ∷ q) n h = elim (Bool-cases (bytes_eq (fold a) (fold c))) [
  | inl eq ↦
      ap (λ f. descend (lookup_node p) (child f (kids_of n))) ((bytes_eq_iff _ _).0 eq)
      ∙ descend_same p q (child (fold c) (kids_of n)) (λ k. lookup_node-same p q k (rw eq at h))
  | inr ne ↦ cc (rw ne at h)
]

-- The tree of a world: every directory is sorted, and the root carries no value.
pub record IsTree (t : Tree) : Type 0 where
  pub sorted : IsSorted t.root
  pub bare_root : value_of (some t.root) ≡ none

get_at : (t : Tree) (q : Bytes) → get t q ≡ value_at (split q) t.root
unfolding get
get_at t q = refl

root_value :
    (t : Tree) (q : List Bytes) → IsTree t → same_path [] q ≡ true → value_at q t.root ≡ none
unfolding lookup_node
root_value t [] h e = h.bare_root
root_value t (c ∷ q) h e = cc

-- Where no node is, no value is.
missing_value :
    (p q : List Bytes) (t : Tree)
    → lookup_node p t.root ≡ none
    → value_at q t.root ≡ erased p q t.root
missing_value p q t h = elim (Bool-cases (same_path p q)) [
  | inl e ↦ rw e (ap value_of (sym (lookup_node-same p q t.root e) ∙ h))
  | inr e ↦ rw e
]

delete_found-value :
    (p q : List Bytes) (o : Option Node) (t : Tree)
    → lookup_node p t.root ≡ o
    → IsTree t
    → value_at q (delete_found p o t).0.root ≡ erased p q t.root
unfolding delete_found
delete_found-value p q none t e h = missing_value p q t e
delete_found-value p q (some n) t e h = value_at-delete_node p q t.root h.sorted

delete_segs-value :
    (p q : List Bytes) (t : Tree)
    → IsTree t
    → value_at q (delete_segs p t).0.root ≡ erased p q t.root
unfolding delete_segs
delete_segs-value [] q t h = elim (Bool-cases (same_path [] q)) [
  | inl e ↦ rw e (root_value t q h e)
  | inr e ↦ rw e
]
delete_segs-value (a ∷ p) q t h = delete_found-value (a ∷ p) q (lookup_node (a ∷ p) t.root) t refl h

-- After `Delete`, in a tree whose directories are sorted and whose root carries no value, `Get`
-- answers nothing at the path, however it is spelled in case, and at every other what it did.
pub get-delete :
    (t : Tree) (p q : Bytes)
    → IsTree t
    → get (delete t p).0 q ≡ (if same_path (split p) (split q) then none else get t q)
unfolding delete get
get-delete t p q h = delete_segs-value (split p) (split q) t h

-- What a `Set` stores: nothing where the value is empty.
abbrev pub stored : Value → Option Value
stored v = if is_empty v.content then none else some v

set_segs-value :
    (a : Bytes) (p q : List Bytes) (v : Value) (t : Tree)
    → IsTree t
    → value_at q (set_segs (a ∷ p) v t).root
      ≡ (if same_path (a ∷ p) q then stored v else value_at q t.root)
unfolding set_segs
set_segs-value a p q v t h = elim (Bool-cases (is_empty v.content)) [
  | inl e ↦ rw e (delete_segs-value (a ∷ p) q t h)
  | inr e ↦ rw e (value_at-set_node v.content v.blessed (a ∷ p) q t.root h.sorted)
]

-- After `Set` at a path that names something, in a tree whose directories are sorted and whose root
-- carries no value, `Get` answers the value at that path, however it is spelled in case, or nothing
-- where the value is one that unsets; and at every other path what it did.
pub get-set :
    (t : Tree) (p q : Bytes) (v : Value)
    → IsTree t
    → split p ≢ []
    → get (set t p v) q ≡ (if same_path (split p) (split q) then stored v else get t q)
unfolding set get
get-set t p q v h named = at_segments (split p) named
  where
    at_segments :
        (segs : List Bytes)
        → segs ≢ []
        → value_at (split q) (set_segs segs v t).root
          ≡ (if same_path segs (split q) then stored v else value_at (split q) t.root)
    at_segments [] ne = absurd (ne refl)
    at_segments (a ∷ segs) ne = set_segs-value a segs (split q) v t h
