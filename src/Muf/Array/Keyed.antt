-- ===== src/Muf/Array/Keyed.antt =====
-- The keys of a keyed array are in order and those of its map, and the operations keep them so.
use fuzzball_emerald.Prelude.{
  ℕ, suc, ◌<◌, ◌≡◌, refl, sym, ap, ◌∙◌, Bool, true, false, ◌||◌, List, [], ◌∷◌, ◌++◌, Option, none,
  some, arith, if◌then◌else◌, ltb, ◌==◌, length, Bool-cases, inl, inr,
}
use fuzzball_emerald.Prelude.Int.{pos, negsuc}
use fuzzball_emerald.Muf.Array.{
  Key, int, str, key_eq, key_lt, sort_keys, find, put, erase, enumerate, indices, remove_key, Array,
  packed, dict, is_present, set_dict, set, delete,
}
use fuzzball_emerald.Muf.Array.Lookup.{key_eq_iff, find-put, find-erase}
use fuzzball_emerald.Muf.Array.Sorted.{
  IsBelow, IsSortedKeys, mem, mem-sort_keys, sort_keys-IsSortedKeys,
}
use fuzzball_emerald.Muf.Array.Distinct.{
  mem-append, Distinct-append, remove_key-IsSortedKeys, mem-remove_key,
}

module _ {V : Type 0} where
  -- The keys are in order, none is there twice, and they are those that the map has.
  pub record IsKeyed (es : List (Key × V)) (ks : List Key) : Type 0 where
    pub in_order : IsSortedKeys ks
    pub same : (j : Key) → is_present (find j es) ≡ mem j ks

  present_if :
      (t : Bool) (v : V) (o : Option V) → is_present (if t then some v else o) ≡ (t || is_present o)
  present_if true v o = refl
  present_if false v o = refl

  absent_if :
      (t : Bool) (o : Option V)
      → is_present (if t then none else o) ≡ (if t then false else is_present o)
  absent_if true o = refl
  absent_if false o = refl

  put_present :
      (es : List (Key × V)) (ks : List Key) (k : Key) (v : V)
      → IsKeyed es ks
      → is_present (find k es) ≡ true
      → IsKeyed (put k v es) ks
  put_present es ks k v h p = record {
    in_order = h.in_order;
    same = λ j. ap is_present (find-put j k v es) ∙ present_if (key_eq j k) v (find j es) ∙ known j;
  }
    where
      known : (j : Key) → (key_eq j k || is_present (find j es)) ≡ mem j ks
      known j = elim (Bool-cases (key_eq j k)) [
        | inl e ↦ rw e (sym (ap (λ x. mem x ks) ((key_eq_iff j k).0 e) ∙ sym (h.same k) ∙ p))
        | inr e ↦ rw e (h.same j)
      ]

  put_absent :
      (es : List (Key × V)) (ks : List Key) (k : Key) (v : V)
      → IsKeyed es ks
      → is_present (find k es) ≡ false
      → IsKeyed (put k v es) (sort_keys (ks ++ k ∷ []))
  put_absent es ks k v h p = record {
    in_order =
        sort_keys-IsSortedKeys (ks ++ k ∷ [])
          (Distinct-append k ks h.in_order (sym (h.same k) ∙ p));
    same = λ j.
        ap is_present (find-put j k v es)
        ∙ present_if (key_eq j k) v (find j es)
        ∙ ap (λ t. key_eq j k || t) (h.same j)
        ∙ sym (mem-sort_keys j (ks ++ k ∷ []) ∙ mem-append j k ks);
  }

  IsBelow-indices : (a i : ℕ) (vs : List V) → a < i → IsBelow (int (pos a)) (indices i vs)
  unfolding indices key_lt
  IsBelow-indices a i [] h = tt
  IsBelow-indices a i (v ∷ vs) h = (ground arith, IsBelow-indices a (suc i) vs (omega arith))

  indices-IsSortedKeys : (i : ℕ) (vs : List V) → IsSortedKeys (indices i vs)
  unfolding indices
  indices-IsSortedKeys i [] = tt
  indices-IsSortedKeys i (v ∷ vs) =
      (IsBelow-indices i (suc i) vs (omega arith), indices-IsSortedKeys (suc i) vs)

  enumerate-mem :
      (i : ℕ) (vs : List V) (j : Key) → is_present (find j (enumerate i vs)) ≡ mem j (indices i vs)
  unfolding find enumerate indices
  enumerate-mem i [] j = refl
  enumerate-mem i (v ∷ vs) j =
      present_if (key_eq j (int (pos i))) v (find j (enumerate (suc i) vs))
      ∙ ap (λ t. key_eq j (int (pos i)) || t) (enumerate-mem (suc i) vs j)

  to_dict-IsKeyed : (vs : List V) → IsKeyed (enumerate 0 vs) (indices 0 vs)
  to_dict-IsKeyed vs = record { in_order = indices-IsSortedKeys 0 vs; same = enumerate-mem 0 vs }

  set_dict-IsKeyed :
      (es : List (Key × V)) (ks : List Key) (k : Key) (v : V) (t : Bool)
      → is_present (find k es) ≡ t
      → IsKeyed es ks
      → IsKeyed (put k v es) (if t then ks else sort_keys (ks ++ k ∷ []))
  set_dict-IsKeyed es ks k v true p h = put_present es ks k v h p
  set_dict-IsKeyed es ks k v false p h = put_absent es ks k v h p

  pub data IsArray : Array V → Type 0 where
    packed_array : (vs : List V) → IsArray (packed vs)
    keyed_array : (es : List (Key × V)) (ks : List Key) → IsKeyed es ks → IsArray (dict es ks)

  set_dict-IsArray :
      (es : List (Key × V)) (ks : List Key) (k : Option Key) (v : V)
      → IsKeyed es ks
      → IsArray (set_dict es ks k v)
  unfolding set_dict
  set_dict-IsArray es ks none v h = keyed_array es ks h
  set_dict-IsArray es ks (some k) v h =
      keyed_array _ _ (set_dict-IsKeyed es ks k v (is_present (find k es)) refl h)

  if-IsArray : (t : Bool) {a b : Array V} → IsArray a → IsArray b → IsArray (if t then a else b)
  if-IsArray true h k = h
  if-IsArray false h k = k

  set-IsArray : (a : Array V) (k : Option Key) (v : V) → IsArray a → IsArray (set a k v)
  unfolding set
  set-IsArray (packed vs) none v h = set_dict-IsArray _ _ none v (to_dict-IsKeyed vs)
  set-IsArray (packed vs) (some (int (pos n))) v h =
      if-IsArray (ltb n (length vs)) (packed_array _) (
        if-IsArray (n == length vs) (packed_array _)
          (set_dict-IsArray _ _ (some (int (pos n))) v (to_dict-IsKeyed vs)))
  set-IsArray (packed vs) (some (int (negsuc n))) v h =
      set_dict-IsArray _ _ (some (int (negsuc n))) v (to_dict-IsKeyed vs)
  set-IsArray (packed vs) (some (str s)) v h =
      set_dict-IsArray _ _ (some (str s)) v (to_dict-IsKeyed vs)
  set-IsArray (dict es ks) k v (keyed_array _ _ h) = set_dict-IsArray es ks k v h

  erase-IsKeyed :
      (es : List (Key × V)) (ks : List Key) (k : Key)
      → IsKeyed es ks
      → IsKeyed (erase k es) (remove_key k ks)
  erase-IsKeyed es ks k h = record {
    in_order = remove_key-IsSortedKeys k ks h.in_order;
    same = λ j.
        ap is_present (find-erase j k es)
        ∙ absent_if (key_eq j k) (find j es)
        ∙ ap (λ t. if key_eq j k then false else t) (h.same j)
        ∙ sym (mem-remove_key j k ks h.in_order);
  }

  delete-IsArray : (a : Array V) (k : Option Key) → IsArray a → IsArray (delete a k)
  unfolding delete
  delete-IsArray (packed vs) none h = packed_array _
  delete-IsArray (packed vs) (some (int (pos n))) h =
      if-IsArray (ltb n (length vs)) (packed_array _) (packed_array _)
  delete-IsArray (packed vs) (some (int (negsuc n))) h = packed_array _
  delete-IsArray (packed vs) (some (str s)) h = packed_array _
  delete-IsArray (dict es ks) none h = h
  delete-IsArray (dict es ks) (some k) (keyed_array _ _ h) =
      if-IsArray (is_present (find k es)) (keyed_array _ _ (erase-IsKeyed es ks k h))
        (keyed_array es ks h)

  -- An array whose keys are those of its map, in order and none twice, or that is packed, is so again
  -- after `Set` and after `Delete` of any key, also one that is neither a number nor a string.
  pub set-delete-IsArray :
      (a : Array V) (k : Option Key) (v : V)
      → IsArray a
      → IsArray (set a k v) × IsArray (delete a k)
  set-delete-IsArray a k v h = (set-IsArray a k v h, delete-IsArray a k h)
