-- ===== src/Muf/Array/Lookup.antt =====
-- What an array holds after a value is stored in it or taken from it.
use fuzzball_emerald.Prelude.{
  ℕ, zero, suc, ◌+◌, ◌<◌, Bytes, ◌≡◌, ◌↔◌, refl, sym, ap, ◌∙◌, Bool, true, false, List, [], ◌∷◌,
  ◌++◌, Option, none, some, arith, ◌==◌, ltb, if◌then◌else◌, bytes_eq_iff, get_elem?, length,
  Bool-cases, inl, inr,
}
use fuzzball_emerald.Prelude.Int.{pos, negsuc, eqb_ℤ_iff}
use fuzzball_emerald.Props.Order.{bytes_eq_comm}
use fuzzball_emerald.Muf.Array.{
  Key, int, str, key_eq, find, put, erase, replace_at, enumerate, indices, Array, packed, dict, get,
  is_present, remove_key, set_dict, set, delete,
}

pub key_eq_iff : (a b : Key) → (key_eq a b ≡ true) ↔ (a ≡ b)
unfolding key_eq
key_eq_iff (int a) (int b) = ground (arith, eqb_ℤ_iff a b)
key_eq_iff (str a) (str b) = ground (arith, bytes_eq_iff a b)
key_eq_iff (int a) (str b) = ground arith
key_eq_iff (str a) (int b) = ground arith

pub key_eq_comm : (a b : Key) → key_eq a b ≡ key_eq b a
unfolding key_eq
key_eq_comm (int (pos a)) (int (pos b)) = ground arith
key_eq_comm (int (negsuc a)) (int (negsuc b)) = ground arith
key_eq_comm (int (pos a)) (int (negsuc b)) = refl
key_eq_comm (int (negsuc a)) (int (pos b)) = refl
key_eq_comm (str a) (str b) = bytes_eq_comm a b
key_eq_comm (int a) (str b) = refl
key_eq_comm (str a) (int b) = refl

-- Two keys that are equal compare alike with a third.
key_eq_alike : (a b c : Key) → key_eq a b ≡ true → key_eq c a ≡ key_eq c b
key_eq_alike a b c h = ap (key_eq c) ((key_eq_iff a b).0 h)

key_eq_apart : (a b c : Key) → key_eq a b ≡ false → key_eq c a ≡ true → key_eq c b ≡ false
key_eq_apart a b c h e = ap (λ x. key_eq x b) ((key_eq_iff c a).0 e) ∙ h

module _ {A : Type 0} where
  asked_twice :
      (t : Bool) (x y z : A) → (if t then x else y) ≡ (if t then x else (if t then z else y))
  asked_twice true x y z = refl
  asked_twice false x y z = refl

  asked_in_turn :
      (s t : Bool) (x y z : A)
      → (s ≡ true → t ≡ false)
      → (if t then y else (if s then x else z)) ≡ (if s then x else (if t then y else z))
  asked_in_turn true t x y z h = rw (h refl)
  asked_in_turn false t x y z h = refl

  if_same : (t : Bool) (x : A) → x ≡ (if t then x else x)
  if_same true x = refl
  if_same false x = refl

module _ {V : Type 0} where
  pub find-put :
      (j k : Key) (v : V) (es : List (Key × V))
      → find j (put k v es) ≡ (if key_eq j k then some v else find j es)
  unfolding find put
  find-put j k v [] = refl
  find-put j k v ((i, w) ∷ es) = elim (Bool-cases (key_eq k i)) [
    | inl e ↦
        rw e
          (rw (sym (key_eq_alike k i j e)) (asked_twice (key_eq j k) (some v) (find j es) (some w)))
    | inr ne ↦ rw ne (
        rw (find-put j k v es) (
          asked_in_turn (key_eq j k) (key_eq j i) (some v) (some w) (find j es)
            (key_eq_apart k i j ne)))
  ]

  pub find-erase :
      (j k : Key) (es : List (Key × V))
      → find j (erase k es) ≡ (if key_eq j k then none else find j es)
  unfolding find erase
  find-erase j k [] = if_same (key_eq j k) none
  find-erase j k ((i, w) ∷ es) = elim (Bool-cases (key_eq k i)) [
    | inl e ↦ rw e (
        rw (find-erase j k es)
          (rw (sym (key_eq_alike k i j e)) (asked_twice (key_eq j k) none (find j es) (some w))))
    | inr ne ↦ rw ne (
        rw (find-erase j k es) (
          asked_in_turn (key_eq j k) (key_eq j i) none (some w) (find j es)
            (key_eq_apart k i j ne)))
  ]

  find-past : (i n : ℕ) (vs : List V) → n < i → find (int (pos n)) (enumerate i vs) ≡ none
  unfolding find enumerate key_eq
  find-past i n [] h = refl
  find-past i n (v ∷ vs) h =
      let other : (n == i) ≡ false = ground arith in rw other (find-past (suc i) n vs (omega arith))

  find-enumerate :
      (i m : ℕ) (vs : List V) → find (int (pos (m + i))) (enumerate i vs) ≡ get_elem? vs m
  unfolding find enumerate key_eq
  find-enumerate i m [] = refl
  find-enumerate i zero (v ∷ vs) = let hit : (0 + i == i) ≡ true = ground arith in rw hit
  find-enumerate i (suc m) (v ∷ vs) =
      let miss : (suc m + i == i) ≡ false = ground arith in
      let moved : suc m + i ≡ m + suc i = omega arith in
      rw miss
        (ap (λ n. find (int (pos n)) (enumerate (suc i) vs)) moved ∙ find-enumerate (suc i) m vs)

  find-negative : (i n : ℕ) (vs : List V) → find (int (negsuc n)) (enumerate i vs) ≡ none
  unfolding find enumerate key_eq
  find-negative i n [] = refl
  find-negative i n (v ∷ vs) = find-negative (suc i) n vs

  find-str : (i : ℕ) (s : Bytes) (vs : List V) → find (str s) (enumerate i vs) ≡ none
  unfolding find enumerate key_eq
  find-str i s [] = refl
  find-str i s (v ∷ vs) = find-str (suc i) s vs

  -- A packed array and the keyed one that it is made into hold the same.
  pub find-packed : (vs : List V) (j : Key) → find j (enumerate 0 vs) ≡ get (packed vs) (some j)
  unfolding get
  find-packed vs (int (pos n)) =
      ap (λ m. find (int (pos m)) (enumerate 0 vs)) (omega arith) ∙ find-enumerate 0 n vs
  find-packed vs (int (negsuc n)) = find-negative 0 n vs
  find-packed vs (str s) = find-str 0 s vs

  set_dict_lem :
      (vs : List V) (k j : Key) (v : V)
      → get (set_dict (enumerate 0 vs) (indices 0 vs) (some k) v) (some j)
        ≡ (if key_eq j k then some v else get (packed vs) (some j))
  unfolding get set_dict
  set_dict_lem vs k j v =
      find-put j k v (enumerate 0 vs)
      ∙ ap (λ o. if key_eq j k then some v else o) (find-packed vs j)

  get_elem?-replace_at :
      (n m : ℕ) (v : V) (vs : List V)
      → ltb n (length vs) ≡ true
      → get_elem? (replace_at n v vs) m ≡ (if m == n then some v else get_elem? vs m)
  unfolding replace_at
  get_elem?-replace_at n m v [] h = ground arith
  get_elem?-replace_at zero zero v (x ∷ vs) h = ground arith
  get_elem?-replace_at zero (suc m) v (x ∷ vs) h = ground arith
  get_elem?-replace_at (suc n) zero v (x ∷ vs) h = ground arith
  get_elem?-replace_at (suc n) (suc m) v (x ∷ vs) h = ground (arith, get_elem?-replace_at n m v vs)

  get_elem?-append :
      (m : ℕ) (v : V) (vs : List V)
      → get_elem? (vs ++ v ∷ []) m ≡ (if m == length vs then some v else get_elem? vs m)
  get_elem?-append zero v [] = ground arith
  get_elem?-append (suc m) v [] = ground arith
  get_elem?-append zero v (x ∷ vs) = ground arith
  get_elem?-append (suc m) v (x ∷ vs) = ground (arith, get_elem?-append m v vs)

  replaced :
      (n : ℕ) (j : Key) (v : V) (vs : List V)
      → ltb n (length vs) ≡ true
      → get (packed (replace_at n v vs)) (some j)
        ≡ (if key_eq j (int (pos n)) then some v else get (packed vs) (some j))
  unfolding get key_eq
  replaced n (int (pos m)) v vs h = get_elem?-replace_at n m v vs h
  replaced n (int (negsuc m)) v vs h = refl
  replaced n (str s) v vs h = refl

  appended :
      (n : ℕ) (j : Key) (v : V) (vs : List V)
      → n ≡ length vs
      → get (packed (vs ++ v ∷ [])) (some j)
        ≡ (if key_eq j (int (pos n)) then some v else get (packed vs) (some j))
  unfolding get key_eq
  appended n (int (pos m)) v vs h = rw h (get_elem?-append m v vs)
  appended n (int (negsuc m)) v vs h = refl
  appended n (str s) v vs h = refl

  -- After `Set` at a key, `Get` answers the value at that key and at every other what it did, whether
  -- the array is packed, grows by one or is made into a keyed one.
  pub get-set_array :
      (a : Array V) (k j : Key) (v : V)
      → get (set a (some k) v) (some j) ≡ (if key_eq j k then some v else get a (some j))
  unfolding set
  get-set_array (packed vs) (int (pos n)) j v = elim (Bool-cases (ltb n (length vs))) [
    | inl e ↦ rw e (replaced n j v vs e)
    | inr e ↦ elim (Bool-cases (n == length vs)) [
      | inl e' ↦ rw e (rw e' (appended n j v vs (ground arith)))
      | inr e' ↦ rw e (rw e' (set_dict_lem vs (int (pos n)) j v))
    ]
  ]
  get-set_array (packed vs) (int (negsuc n)) j v = set_dict_lem vs (int (negsuc n)) j v
  get-set_array (packed vs) (str s) j v = set_dict_lem vs (str s) j v
  get-set_array (dict es ks) k j v = unfold get set_dict in find-put j k v es

  absent :
      (j k : Key) (es : List (Key × V))
      → find k es ≡ none
      → find j es ≡ (if key_eq j k then none else find j es)
  absent j k es h = elim (Bool-cases (key_eq j k)) [
    | inl e ↦ rw e (ap (λ x. find x es) ((key_eq_iff j k).0 e) ∙ h)
    | inr e ↦ rw e
  ]

  delete_from :
      (o : Option V) (j k : Key) (es : List (Key × V)) (ks : List Key)
      → find k es ≡ o
      → get (if is_present o then dict (erase k es) (remove_key k ks) else dict es ks) (some j)
        ≡ (if key_eq j k then none else find j es)
  unfolding get
  delete_from none j k es ks h = absent j k es h
  delete_from (some v) j k es ks h = find-erase j k es

  -- After `Delete` of a key of a keyed array, `Get` answers nothing at that key, and at every other key
  -- what it did.
  pub get-delete_array :
      (es : List (Key × V)) (ks : List Key) (k j : Key)
      → get (delete (dict es ks) (some k)) (some j)
        ≡ (if key_eq j k then none else get (dict es ks) (some j))
  unfolding get delete
  get-delete_array es ks k j = delete_from (find k es) j k es ks refl
