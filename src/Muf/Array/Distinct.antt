-- ===== src/Muf/Array/Distinct.antt =====
-- Ordered keys: which keys a list has after one is added or removed.
use fuzzball_emerald.Prelude.{
  ◌≡◌, refl, sym, ap, ◌∙◌, Bool, true, false, ◌||◌, List, [], ◌∷◌, ◌++◌, arith, if◌then◌else◌,
  Bool-cases, inl, inr,
}
use fuzzball_emerald.Prelude.Int.{pos, negsuc}
use fuzzball_emerald.Props.Order.{bytes_lt_irrefl}
use fuzzball_emerald.Muf.Array.{Key, int, str, key_eq, key_lt, remove_key}
use fuzzball_emerald.Muf.Array.Lookup.{key_eq_iff, key_eq_comm}
use fuzzball_emerald.Muf.Array.Sorted.{IsBelow, IsSortedKeys, mem, Distinct, or_false}

key_lt_irrefl : (a : Key) → key_lt a a ≡ false
unfolding key_lt
key_lt_irrefl (int (pos n)) = ground arith
key_lt_irrefl (int (negsuc n)) = ground arith
key_lt_irrefl (str s) = bytes_lt_irrefl s

pub not_both : (t : Bool) → t ≡ true → t ≡ false → ⊥
not_both true h k = ground arith
not_both false h k = ground arith

key_lt-ne : (a b : Key) → key_lt a b ≡ true → key_eq a b ≡ false
key_lt-ne a b h = elim (Bool-cases (key_eq a b)) [
  | inl e ↦
      absurd
        (not_both (key_lt a b) h (ap (key_lt a) (sym ((key_eq_iff a b).0 e)) ∙ key_lt_irrefl a))
  | inr e ↦ e
]

key_eq_refl : (a : Key) → key_eq a a ≡ true
key_eq_refl a = (key_eq_iff a a).1 refl

pub mem-IsBelow : (a : Key) (xs : List Key) → IsBelow a xs → mem a xs ≡ false
mem-IsBelow a [] h = refl
mem-IsBelow a (x ∷ xs) h = rw (key_lt-ne a x h.0) (mem-IsBelow a xs h.1)

pub mem-append : (j k : Key) (xs : List Key) → mem j (xs ++ k ∷ []) ≡ (key_eq j k || mem j xs)
mem-append j k [] = refl
mem-append j k (x ∷ xs) = rw (mem-append j k xs) (swap (key_eq j x) (key_eq j k) (mem j xs))
  where
    swap : (s t u : Bool) → (s || (t || u)) ≡ (t || (s || u))
    swap true true u = refl
    swap true false u = refl
    swap false true u = refl
    swap false false u = refl

pub Distinct-append :
    (k : Key) (xs : List Key) → IsSortedKeys xs → mem k xs ≡ false → Distinct (xs ++ k ∷ [])
Distinct-append k [] h m = (refl, tt)
Distinct-append k (x ∷ xs) h m =
    let (ne, new) = or_false (key_eq k x) (mem k xs) m in
    (
      mem-append x k xs ∙ rw (key_eq_comm x k, ne) (mem-IsBelow x xs h.0),
      Distinct-append k xs h.1 new,
    )

IsBelow-remove : (a k : Key) (xs : List Key) → IsBelow a xs → IsBelow a (remove_key k xs)
unfolding remove_key
IsBelow-remove a k [] h = tt
IsBelow-remove a k (x ∷ xs) h = elim (Bool-cases (key_eq x k)) [
  | inl e ↦ rw e (h.1)
  | inr e ↦ rw e (h.0, IsBelow-remove a k xs h.1)
]

pub remove_key-IsSortedKeys :
    (k : Key) (xs : List Key) → IsSortedKeys xs → IsSortedKeys (remove_key k xs)
unfolding remove_key
remove_key-IsSortedKeys k [] h = tt
remove_key-IsSortedKeys k (x ∷ xs) h = elim (Bool-cases (key_eq x k)) [
  | inl e ↦ rw e (h.1)
  | inr e ↦ rw e (IsBelow-remove x k xs h.0, remove_key-IsSortedKeys k xs h.1)
]

pub mem-remove_key :
    (j k : Key) (xs : List Key)
    → IsSortedKeys xs
    → mem j (remove_key k xs) ≡ (if key_eq j k then false else mem j xs)
unfolding remove_key
mem-remove_key j k [] h = same_either (key_eq j k)
  where
    same_either : (t : Bool) → false ≡ (if t then false else false)
    same_either true = refl
    same_either false = refl
mem-remove_key j k (x ∷ xs) h = elim (Bool-cases (key_eq x k)) [
  | inl e ↦ elim (Bool-cases (key_eq j k)) [
    | inl f ↦
        let jx : j ≡ x = (key_eq_iff j k).0 f ∙ sym ((key_eq_iff x k).0 e) in
        rw e (rw f (ap (λ y. mem y xs) jx ∙ mem-IsBelow x xs h.0))
    | inr f ↦
        let ne : key_eq j x ≡ false = ap (key_eq j) ((key_eq_iff x k).0 e) ∙ f in rw e (rw (f, ne))
  ]
  | inr e ↦ elim (Bool-cases (key_eq j k)) [
    | inl f ↦
        let ne : key_eq j x ≡ false =
          ap (λ y. key_eq y x) ((key_eq_iff j k).0 f) ∙ key_eq_comm k x ∙ e in
        rw e (rw (mem-remove_key j k xs h.1) (rw (f, ne)))
    | inr f ↦ rw e (rw (mem-remove_key j k xs h.1) (rw f))
  ]
]
