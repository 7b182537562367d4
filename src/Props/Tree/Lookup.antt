-- ===== src/Props/Tree/Lookup.antt =====
-- One directory as a map: the child under a key after `makeChild` and after a child is pruned.
use mathlib.Core.Path.{subst}
use fuzzball_emerald.Prelude.{
  ◌≡◌, refl, sym, ◌∙◌, true, false, Option, none, some, if◌then◌else◌, Bytes, bytes_eq,
  bytes_eq_iff, Bool-cases, inl, inr,
}
use fuzzball_emerald.Ascii.{fold}
use fuzzball_emerald.Props.Order.{
  bytes_lt, bytes_lt_total, bytes_lt_irrefl, bytes_lt_asym, bytes_lt-ne, bytes_eq_refl,
  bytes_eq_comm,
}
use fuzzball_emerald.Props.Tree.{
  Node, Kids, nil, cons, key_of, child, fresh, make_child, prune_child, is_bare,
}
use fuzzball_emerald.Props.Tree.Sorted.{
  AllAbove, IsSorted, sorted_node, IsSortedKids, sorted_nil, sorted_cons, IsTame, AllAbove-trans,
}

-- The node that a write through a child's pointer starts from.
abbrev pub found_or : Bytes → Option Node → Node
found_or name none = fresh name
found_or name (some k) = k

fold_eq : (f g : Bytes) → bytes_eq f g ≡ true → f ≡ g
fold_eq f g h = (bytes_eq_iff f g).0 h

pub child_hit : (f : Bytes) (k : Node) (ks : Kids) → key_of k ≡ f → child f (cons k ks) ≡ some k
unfolding child
child_hit f k ks e = rw (e, bytes_lt_irrefl f, bytes_eq_refl f)

pub child_past :
    (f : Bytes) (k : Node) (ks : Kids)
    → bytes_lt (key_of k) f ≡ true
    → child f (cons k ks) ≡ child f ks
unfolding child
child_past f k ks h = rw h

pub child_short :
    (f : Bytes) (k : Node) (ks : Kids) → bytes_lt f (key_of k) ≡ true → child f (cons k ks) ≡ none
unfolding child
child_short f k ks h =
    let lt = bytes_lt_asym f (key_of k) h in
    let ne = bytes_eq_comm (key_of k) f ∙ bytes_lt-ne f (key_of k) h in rw (lt, ne)

pub child-nil : (f : Bytes) → child f nil ≡ none
unfolding child
child-nil f = refl

child_behind :
    (f : Bytes) (k : Node) (ks ks' : Kids)
    → child f ks' ≡ child f ks
    → child f (cons k ks') ≡ child f (cons k ks)
unfolding child
child_behind f k ks ks' e = rw e

child_other :
    (f : Bytes) (k k' : Node) (ks : Kids)
    → key_of k' ≡ key_of k
    → bytes_eq (key_of k) f ≡ false
    → child f (cons k' ks) ≡ child f (cons k ks)
unfolding child
child_other f k k' ks e ne = rw (e, ne)

pub child-AllAbove : (f : Bytes) (ks : Kids) → AllAbove f ks → child f ks ≡ none
child-AllAbove f nil a = unfold child in refl
child-AllAbove f (cons k ks) a = child_short f k ks a.0

-- A child whose key is another is not missed where those behind it lie above it.
child_skips :
    (j : Bytes) (k : Node) (ks : Kids)
    → bytes_eq (key_of k) j ≡ false
    → AllAbove (key_of k) ks
    → child j ks ≡ child j (cons k ks)
child_skips j k ks ne a = elim (Bool-cases (bytes_lt (key_of k) j)) [
  | inl lt ↦ sym (child_past j k ks lt)
  | inr ge ↦
      let below : bytes_lt j (key_of k) ≡ true = bytes_lt_total _ _ ge ne in
      child-AllAbove j ks (AllAbove-trans j (key_of k) ks below a) ∙ sym (child_short j k ks below)
]

-- The node that a write starts from is sorted, found or fresh.
pub found_or-IsSorted :
    (name f : Bytes) (ks : Kids) → IsSortedKids ks → IsSorted (found_or name (child f ks))
unfolding child
found_or-IsSorted name f nil h = sorted_node refl sorted_nil
found_or-IsSorted name f (cons k ks) (sorted_cons s a h) =
    elim (Bool-cases (bytes_lt (key_of k) f)) [
      | inl lt ↦ rw lt (found_or-IsSorted name f ks h)
      | inr ge ↦ elim (Bool-cases (bytes_eq (key_of k) f)) [
        | inl eq ↦ rw (ge, eq) s
        | inr ne ↦ rw (ge, ne) (sorted_node refl sorted_nil)
      ]
    ]

module _ (name : Bytes) (write : Node → Node) (tame : IsTame write) where
  pub child-make_child_self :
      (ks : Kids)
      → child (fold name) (make_child name write ks)
        ≡ some (write (found_or name (child (fold name) ks)))
  unfolding make_child
  child-make_child_self nil =
      rw (child-nil (fold name))
        (child_hit _ (write (fresh name)) nil (tame.keeps_key (fresh name)))
  child-make_child_self (cons k ks) = elim (Bool-cases (bytes_lt (key_of k) (fold name))) [
    | inl lt ↦ rw lt (
        rw (child_past (fold name) k ks lt, child_past (fold name) k (make_child name write ks) lt)
          (child-make_child_self ks))
    | inr ge ↦ elim (Bool-cases (bytes_eq (key_of k) (fold name))) [
      | inl eq ↦
          let e : key_of k ≡ fold name = fold_eq _ _ eq in
          rw (ge, eq)
            (rw (child_hit (fold name) k ks e) (child_hit _ (write k) ks (tame.keeps_key k ∙ e)))
      | inr ne ↦
          rw (ge, ne)
            (rw (child_short (fold name) k ks (bytes_lt_total _ _ ge ne))
              (child_hit _ (write (fresh name)) (cons k ks) (tame.keeps_key (fresh name))))
    ]
  ]

  -- A fresh child in front of what lies above it is not met by another key.
  child-skips_fresh :
      (j : Bytes) (ks : Kids)
      → bytes_eq (fold name) j ≡ false
      → AllAbove (fold name) ks
      → child j (cons (write (fresh name)) ks) ≡ child j ks
  child-skips_fresh j ks ne a =
      let e = tame.keeps_key (fresh name) in
      sym (child_skips j (write (fresh name)) ks (rw e ne) (subst (λ g. AllAbove g ks) (sym e) a))

  pub child-make_child_ne :
      (j : Bytes) (ks : Kids)
      → bytes_eq (fold name) j ≡ false
      → IsSortedKids ks
      → child j (make_child name write ks) ≡ child j ks
  unfolding make_child
  child-make_child_ne j nil ne h = child-skips_fresh j nil ne tt
  child-make_child_ne j (cons k ks) ne (sorted_cons s a h) =
      elim (Bool-cases (bytes_lt (key_of k) (fold name))) [
        | inl lt ↦
            rw lt (child_behind j k ks (make_child name write ks) (child-make_child_ne j ks ne h))
        | inr ge ↦ elim (Bool-cases (bytes_eq (key_of k) (fold name))) [
          | inl eq ↦
              let apart : bytes_eq (key_of k) j ≡ false =
                rw (fold_eq (key_of k) (fold name) eq) ne in
              rw (ge, eq) (child_other j k (write k) ks (tame.keeps_key k) apart)
          | inr differ ↦
              let above : bytes_lt (fold name) (key_of k) ≡ true = bytes_lt_total _ _ ge differ in
              rw (ge, differ)
                (child-skips_fresh j (cons k ks) ne (above, AllAbove-trans _ (key_of k) ks above a))
        ]
      ]

module _ (f : Bytes) (write : Node → Node) (tame : IsTame write) where
  -- What is found under the pruned key: nothing where the child was left bare.
  abbrev pub pruned : Option Node → Option Node
  pruned none = none
  pruned (some k) = if is_bare (write k) then none else some (write k)

  pub child-prune_child_self :
      (ks : Kids) → IsSortedKids ks → child f (prune_child f write ks) ≡ pruned (child f ks)
  unfolding prune_child
  child-prune_child_self nil h = rw (child-nil f)
  child-prune_child_self (cons k ks) (sorted_cons s a h) =
      elim (Bool-cases (bytes_lt (key_of k) f)) [
        | inl lt ↦ rw lt (
            rw (child_past f k ks lt, child_past f k (prune_child f write ks) lt)
              (child-prune_child_self ks h))
        | inr ge ↦ elim (Bool-cases (bytes_eq (key_of k) f)) [
          | inr ne ↦
              let above = bytes_lt_total _ _ ge ne in rw (ge, ne) (rw (child_short f k ks above))
          | inl eq ↦
              let e : key_of k ≡ f = fold_eq _ _ eq in
              elim (Bool-cases (is_bare (write k))) [
                | inl bare ↦
                    rw (ge, eq, bare)
                      (rw (child_hit f k ks e)
                        (rw bare (child-AllAbove f ks (subst (λ g. AllAbove g ks) e a))))
                | inr kept ↦
                    rw (ge, eq, kept)
                      (rw (child_hit f k ks e)
                        (rw kept (child_hit f (write k) ks (tame.keeps_key k ∙ e))))
              ]
        ]
      ]

  pub child-prune_child_ne :
      (j : Bytes) (ks : Kids)
      → bytes_eq f j ≡ false
      → IsSortedKids ks
      → child j (prune_child f write ks) ≡ child j ks
  unfolding prune_child
  child-prune_child_ne j nil ne h = refl
  child-prune_child_ne j (cons k ks) ne (sorted_cons s a h) =
      elim (Bool-cases (bytes_lt (key_of k) f)) [
        | inl lt ↦
            rw lt (child_behind j k ks (prune_child f write ks) (child-prune_child_ne j ks ne h))
        | inr ge ↦ elim (Bool-cases (bytes_eq (key_of k) f)) [
          | inr differ ↦ rw (ge, differ)
          | inl eq ↦
              let apart : bytes_eq (key_of k) j ≡ false = rw (fold_eq (key_of k) f eq) ne in
              elim (Bool-cases (is_bare (write k))) [
                | inl bare ↦ rw (ge, eq, bare) (child_skips j k ks apart a)
                | inr kept ↦
                    rw (ge, eq, kept) (child_other j k (write k) ks (tame.keeps_key k) apart)
              ]
        ]
      ]
