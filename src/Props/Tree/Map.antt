-- ===== src/Props/Tree/Map.antt =====
-- The value under each list of segments after a node was written or pruned below another.
use fuzzball_emerald.Prelude.{
  ◌≡◌, refl, sym, ap, ◌∙◌, Bool, true, false, ◌&&◌, List, [], ◌∷◌, Option, none, some, arith,
  if◌then◌else◌, Bytes, bytes_eq, bytes_eq_iff, Bool-cases, inl, inr,
}
use mathlib.Core.Option
use fuzzball_emerald.Ascii.{fold}
use fuzzball_emerald.Props.Value.{Content, Value}
use fuzzball_emerald.Props.Tree.{
  Node, node, Kids, nil, cons, kids_of, child, fresh, make_child, with_kids, set_node, write_value,
  clear_value, prune_child, delete_node, is_bare, lookup_node, value_of,
}
use fuzzball_emerald.Props.Tree.Sorted.{
  IsSorted, IsTame, write_value-IsTame, set_node-IsTame, delete_node-IsTame, kids_sorted,
}
use fuzzball_emerald.Props.Tree.Lookup.{
  found_or, found_or-IsSorted, child-make_child_self, child-make_child_ne, pruned,
  child-prune_child_self, child-prune_child_ne,
}

-- The value under a list of segments.
abbrev pub value_at : List Bytes → Node → Option Value
value_at segs n = value_of (lookup_node segs n)

abbrev value_below : List Bytes → Option Node → Option Value
value_below segs none = none
value_below segs (some k) = value_at segs k

-- Two lists of segments name one property: they are equal up to case.
abbrev pub same_path : List Bytes → List Bytes → Bool
same_path [] [] = true
same_path (a ∷ p) (b ∷ q) = bytes_eq (fold a) (fold b) && same_path p q
same_path [] (_ ∷ _) = false
same_path (_ ∷ _) [] = false

value_at-cons :
    (seg : Bytes) (segs : List Bytes) (n : Node)
    → value_at (seg ∷ segs) n ≡ value_below segs (child (fold seg) (kids_of n))
unfolding lookup_node
value_at-cons seg segs n = ground arith

kids_of-with_kids : (n : Node) (ks : Kids) → kids_of (with_kids n ks) ≡ ks
kids_of-with_kids (node name key val blessed kids) ks = refl

value_of-with_kids : (n : Node) (ks : Kids) → value_at [] (with_kids n ks) ≡ value_at [] n
unfolding lookup_node
value_of-with_kids (node name key none blessed kids) ks = refl
value_of-with_kids (node name key (some v) blessed kids) ks = refl

value_at-fresh : (segs : List Bytes) (name : Bytes) → value_at segs (fresh name) ≡ none
unfolding lookup_node child
value_at-fresh [] name = refl
value_at-fresh (seg ∷ segs) name = refl

value_at-found_or :
    (segs : List Bytes) (name : Bytes) (o : Option Node)
    → value_at segs (found_or name o) ≡ value_below segs o
value_at-found_or segs name none = value_at-fresh segs name
value_at-found_or segs name (some k) = refl

-- What a write of a value leaves at each path.
abbrev pub written : Content → Bool → List Bytes → List Bytes → Node → Option Value
written v b p q n =
    if same_path p q then some (record { content = v; blessed = b }) else value_at q n

kids_of-write_value : (v : Content) (b : Bool) (n : Node) → kids_of (write_value v b n) ≡ kids_of n
kids_of-write_value v b (node name key val blessed kids) = refl

kids_of-clear_value : (n : Node) → kids_of (clear_value n) ≡ kids_of n
kids_of-clear_value (node name key val blessed kids) = refl

value_at-write_value :
    (v : Content) (b : Bool) (n : Node)
    → value_at [] (write_value v b n) ≡ some (record { content = v; blessed = b })
unfolding lookup_node
value_at-write_value v b (node name key val blessed kids) = refl

value_below-other :
    (p q : List Bytes) (a c : Bytes) (x y : Option Value)
    → bytes_eq (fold a) (fold c) ≡ false
    → (if same_path (a ∷ p) (c ∷ q) then x else y) ≡ y
value_below-other p q a c x y ne = rw ne

value_below-same :
    (p q : List Bytes) (a c : Bytes) (x y : Option Value)
    → bytes_eq (fold a) (fold c) ≡ true
    → (if same_path (a ∷ p) (c ∷ q) then x else y) ≡ (if same_path p q then x else y)
value_below-same p q a c x y eq = rw eq

-- Through the child under one key: what was there, seen from the directory.
value_at-descend :
    (a c : Bytes) (q : List Bytes) (n : Node)
    → fold a ≡ fold c
    → value_at q (found_or a (child (fold a) (kids_of n))) ≡ value_at (c ∷ q) n
value_at-descend a c q n e =
    value_at-found_or q a (child (fold a) (kids_of n))
    ∙ ap (λ f. value_below q (child f (kids_of n))) e
    ∙ sym (value_at-cons c q n)

module _ (v : Content) (b : Bool) where
  pub value_at-set_node :
      (p q : List Bytes) (n : Node)
      → IsSorted n
      → value_at q (set_node p (write_value v b) n) ≡ written v b p q n
  unfolding set_node
  value_at-set_node [] [] n s = value_at-write_value v b n
  value_at-set_node [] (c ∷ q) n s =
      value_at-cons c q (write_value v b n)
      ∙ rw (kids_of-write_value v b n) (sym (value_at-cons c q n))
  value_at-set_node (a ∷ p) [] n s = value_of-with_kids n _
  value_at-set_node (a ∷ p) (c ∷ q) n s =
      let w = set_node p (write_value v b) in
      let tame = set_node-IsTame p (write_value v b) (write_value-IsTame v b) in
      let ks = kids_of n in
      value_at-cons c q (with_kids n (make_child a w ks))
      ∙ rw (kids_of-with_kids n (make_child a w ks))
          (elim (Bool-cases (bytes_eq (fold a) (fold c))) [
            | inl eq ↦
                let e : fold a ≡ fold c = (bytes_eq_iff _ _).0 eq in
                ap (λ f. value_below q (child f (make_child a w ks))) (sym e)
                ∙ ap (value_below q) (child-make_child_self a w tame ks)
                ∙ value_at-set_node p q (found_or a (child (fold a) ks))
                    (found_or-IsSorted a (fold a) ks (kids_sorted s))
                ∙ ap (λ o. if same_path p q then some (record { content = v; blessed = b }) else o)
                    (value_at-descend a c q n e)
                ∙ sym (value_below-same p q a c _ _ eq)
            | inr ne ↦
                ap (value_below q) (child-make_child_ne a w tame (fold c) ks ne (kids_sorted s))
                ∙ sym (value_at-cons c q n)
                ∙ sym (value_below-other p q a c _ _ ne)
          ])

-- What a deletion leaves at each path.
abbrev pub erased : List Bytes → List Bytes → Node → Option Value
erased p q n = if same_path p q then none else value_at q n

value_at-clear_value : (n : Node) → value_at [] (clear_value n) ≡ none
unfolding lookup_node
value_at-clear_value (node name key val blessed kids) = refl

value_at-bare : (q : List Bytes) (k : Node) → is_bare k ≡ true → value_at q k ≡ none
unfolding lookup_node child
value_at-bare [] (node name key none blessed nil) h = refl
value_at-bare (c ∷ q) (node name key none blessed nil) h = refl
value_at-bare q (node name key none blessed (cons k ks)) h = cc
value_at-bare q (node name key (some v) blessed kids) h = cc

-- Splicing out a bare child changes no value.
value_below-pruned :
    (q : List Bytes) (f : Bytes) (w : Node → Node) (tame : IsTame w) (o : Option Node)
    → value_below q (pruned f w tame o) ≡ value_below q (Option.map w o)
value_below-pruned q f w tame none = refl
value_below-pruned q f w tame (some k) = elim (Bool-cases (is_bare (w k))) [
  | inl bare ↦ rw bare (sym (value_at-bare q (w k) bare))
  | inr kept ↦ rw kept
]

erase_below :
    (p q : List Bytes) (o : Option Node)
    → ((k : Node) → o ≡ some k → value_at q (delete_node p k) ≡ erased p q k)
    → value_below q (Option.map (delete_node p) o)
      ≡ (if same_path p q then none else value_below q o)
erase_below p q none h = ground arith
erase_below p q (some k) h = h k refl

pub value_at-delete_node :
    (p q : List Bytes) (n : Node) → IsSorted n → value_at q (delete_node p n) ≡ erased p q n
unfolding delete_node
value_at-delete_node [] [] n s = value_at-clear_value n
value_at-delete_node [] (c ∷ q) n s =
    value_at-cons c q (clear_value n) ∙ rw (kids_of-clear_value n) (sym (value_at-cons c q n))
value_at-delete_node (a ∷ p) [] n s = value_of-with_kids n _
value_at-delete_node (a ∷ p) (c ∷ q) n s =
    let w = delete_node p in
    let tame = delete_node-IsTame p in
    let ks = kids_of n in
    value_at-cons c q (with_kids n (prune_child (fold a) w ks))
    ∙ rw (kids_of-with_kids n (prune_child (fold a) w ks))
        (elim (Bool-cases (bytes_eq (fold a) (fold c))) [
          | inl eq ↦
              let e : fold a ≡ fold c = (bytes_eq_iff _ _).0 eq in
              ap (λ f. value_below q (child f (prune_child (fold a) w ks))) (sym e)
              ∙ ap (value_below q) (child-prune_child_self (fold a) w tame ks (kids_sorted s))
              ∙ value_below-pruned q (fold a) w tame (child (fold a) ks)
              ∙ erase_below p q (child (fold a) ks) (λ k found.
                value_at-delete_node p q k
                  (rw found at (found_or-IsSorted a (fold a) ks (kids_sorted s))))
              ∙ ap (λ o. if same_path p q then none else o)
                  (ap (λ f. value_below q (child f ks)) e ∙ sym (value_at-cons c q n))
              ∙ sym (value_below-same p q a c _ _ eq)
          | inr ne ↦
              ap (value_below q)
                (child-prune_child_ne (fold a) w tame (fold c) ks ne (kids_sorted s))
              ∙ sym (value_at-cons c q n)
              ∙ sym (value_below-other p q a c _ _ ne)
        ])
