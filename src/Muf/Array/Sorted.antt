-- ===== src/Muf/Array/Sorted.antt =====
-- The keys of a keyed array: in order, none twice, and those of its map.
use fuzzball_emerald.Prelude.{
  ◌≡◌, refl, ap, ◌∙◌, Bool, true, false, ◌||◌, List, [], ◌∷◌, arith, All, Bool-cases, inl, inr,
}
use fuzzball_emerald.Prelude.Int.{pos, negsuc}
use fuzzball_emerald.Props.Order.{bytes_lt_trans, bytes_lt_total}
use fuzzball_emerald.Muf.Array.{Key, int, str, key_eq, key_lt, insert_key, sort_keys}
use fuzzball_emerald.Muf.Array.Lookup.{key_eq_comm}

pub key_lt_trans : (a b c : Key) → key_lt a b ≡ true → key_lt b c ≡ true → key_lt a c ≡ true
unfolding key_lt
key_lt_trans (int a) (int b) (int c) h k = ground arith
key_lt_trans (int a) (int b) (str c) h k = refl
key_lt_trans (int a) (str b) (int c) h k = ground arith
key_lt_trans (int a) (str b) (str c) h k = refl
key_lt_trans (str a) (int b) c h k = ground arith
key_lt_trans (str a) (str b) (int c) h k = ground arith
key_lt_trans (str a) (str b) (str c) h k = bytes_lt_trans a b c h k

key_lt_total : (a b : Key) → key_lt a b ≡ false → key_eq a b ≡ false → key_lt b a ≡ true
unfolding key_lt key_eq
key_lt_total (int (pos a)) (int (pos b)) h k = ground arith
key_lt_total (int (pos a)) (int (negsuc b)) h k = ground arith
key_lt_total (int (negsuc a)) (int (pos b)) h k = ground arith
key_lt_total (int (negsuc a)) (int (negsuc b)) h k = ground arith
key_lt_total (int a) (str b) h k = ground arith
key_lt_total (str a) (int b) h k = refl
key_lt_total (str a) (str b) h k = bytes_lt_total a b h k

abbrev pub IsBelow : Key → List Key → Type 0
IsBelow k = All (λ x. key_lt k x ≡ true)

-- Strictly ascending.
abbrev pub IsSortedKeys : List Key → Type 0
IsSortedKeys [] = Unit
IsSortedKeys (k ∷ ks) = IsBelow k ks × IsSortedKeys ks

abbrev pub mem : Key → List Key → Bool
mem k [] = false
mem k (x ∷ xs) = key_eq k x || mem k xs

pub or_false : (s t : Bool) → (s || t) ≡ false → (s ≡ false) × (t ≡ false)
or_false true t h = ground arith
or_false false t h = (refl, h)

or_swap : (s t u : Bool) → (s || (t || u)) ≡ (t || (s || u))
or_swap true true u = refl
or_swap true false u = refl
or_swap false true u = refl
or_swap false false u = refl

mem-insert_key : (j k : Key) (xs : List Key) → mem j (insert_key k xs) ≡ (key_eq j k || mem j xs)
unfolding insert_key
mem-insert_key j k [] = refl
mem-insert_key j k (x ∷ xs) = elim (Bool-cases (key_lt x k)) [
  | inl e ↦ rw e (rw (mem-insert_key j k xs) (or_swap (key_eq j x) (key_eq j k) (mem j xs)))
  | inr e ↦ rw e
]

IsBelow-insert :
    (a k : Key) (xs : List Key) → key_lt a k ≡ true → IsBelow a xs → IsBelow a (insert_key k xs)
unfolding insert_key
IsBelow-insert a k [] h b = (h, tt)
IsBelow-insert a k (x ∷ xs) h b = elim (Bool-cases (key_lt x k)) [
  | inl e ↦ rw e (b.0, IsBelow-insert a k xs h b.1)
  | inr e ↦ rw e (h, b)
]

pub IsBelow-trans : (a b : Key) (xs : List Key) → key_lt a b ≡ true → IsBelow b xs → IsBelow a xs
IsBelow-trans a b [] h l = tt
IsBelow-trans a b (x ∷ xs) h l = (key_lt_trans a b x h l.0, IsBelow-trans a b xs h l.1)

insert_key-IsSortedKeys :
    (k : Key) (xs : List Key) → IsSortedKeys xs → mem k xs ≡ false → IsSortedKeys (insert_key k xs)
unfolding insert_key
insert_key-IsSortedKeys k [] h m = (tt, tt)
insert_key-IsSortedKeys k (x ∷ xs) h m =
    let (ne, new) = or_false (key_eq k x) (mem k xs) m in
    elim (Bool-cases (key_lt x k)) [
      | inl e ↦ rw e (IsBelow-insert x k xs e h.0, insert_key-IsSortedKeys k xs h.1 new)
      | inr e ↦
          let lt : key_lt k x ≡ true = key_lt_total x k e (key_eq_comm x k ∙ ne) in
          rw e ((lt, IsBelow-trans k x xs lt h.0), h)
    ]

-- No key twice.
abbrev pub Distinct : List Key → Type 0
Distinct [] = Unit
Distinct (x ∷ xs) = (mem x xs ≡ false) × Distinct xs

pub mem-sort_keys : (j : Key) (xs : List Key) → mem j (sort_keys xs) ≡ mem j xs
unfolding sort_keys
mem-sort_keys j [] = refl
mem-sort_keys j (x ∷ xs) =
    mem-insert_key j x (sort_keys xs) ∙ ap (λ t. key_eq j x || t) (mem-sort_keys j xs)

pub sort_keys-IsSortedKeys : (xs : List Key) → Distinct xs → IsSortedKeys (sort_keys xs)
unfolding sort_keys
sort_keys-IsSortedKeys [] d = tt
sort_keys-IsSortedKeys (x ∷ xs) d =
    insert_key-IsSortedKeys x (sort_keys xs) (sort_keys-IsSortedKeys xs d.1)
      (mem-sort_keys x xs ∙ d.0)
