-- ===== src/Muf/Array.antt =====
-- internal/muf/array.go: MUF's arrays, packed or keyed. The values are of any type; a key is what `keyOf`
-- makes of a value, nothing where the value is neither an integer nor a string. The map is a list of
-- entries, and `sort.SliceStable` a stable insertion sort.
use Prim.Native.Nat.{ℕ, zero, suc}
use mathlib.Core.Bool.{Bool, true, false, not, ◌||◌}
use mathlib.Core.List.{List, [], ◌∷◌, ◌++◌}
use mathlib.Core.Option.{Option, none, some}
use fuzzball_emerald.Prelude.{
  ◌==◌, ltb, if◌then◌else◌, Bytes, bytes_eq, get_elem?, length, take, drop,
}
use fuzzball_emerald.Prelude.Int.{ℤ, pos, negsuc, eqb_ℤ, ltb_ℤ}
use fuzzball_emerald.Props.Order.{bytes_lt}
use fuzzball_emerald.Muf.{Value, integer, string}
pub mod Lookup
pub mod Sorted
pub mod Distinct
pub mod Keyed

pub data Key : Type 0 where
  int : ℤ → Key
  str : Bytes → Key

unfoldable pub key_of : Value → Option Key
key_of (integer n) = some (int n)
key_of (string s) = some (str s)
key_of _ = none

-- Go's == on `arrayKey`.
unfoldable pub key_eq : Key → Key → Bool
key_eq (int a) (int b) = eqb_ℤ a b
key_eq (str a) (str b) = bytes_eq a b
key_eq (int _) (str _) = false
key_eq (str _) (int _) = false

unfoldable pub key_lt : Key → Key → Bool
key_lt (int a) (int b) = ltb_ℤ a b
key_lt (str a) (str b) = bytes_lt a b
key_lt (int _) (str _) = true
key_lt (str _) (int _) = false

unfoldable pub insert_key : Key → List Key → List Key
insert_key k [] = k ∷ []
insert_key k (x ∷ xs) = let rest = x ∷ insert_key k xs in if key_lt x k then rest else k ∷ x ∷ xs

unfoldable pub sort_keys : List Key → List Key
unfolding insert_key key_lt
sort_keys [] = []
sort_keys (k ∷ ks) = insert_key k (sort_keys ks)

module _ {V : Type 0} where
  unfoldable pub find : Key → List (Key × V) → Option V
  unfolding key_eq
  find k [] = none
  find k ((j, v) ∷ es) = let rest = find k es in if key_eq k j then some v else rest

  -- `m[k] = v`.
  unfoldable pub put : Key → V → List (Key × V) → List (Key × V)
  unfolding key_eq
  put k v [] = (k, v) ∷ []
  put k v ((j, w) ∷ es) = let rest = (j, w) ∷ put k v es in if key_eq k j then (k, v) ∷ es else rest

  -- `delete(m, k)`.
  unfoldable pub erase : Key → List (Key × V) → List (Key × V)
  unfolding key_eq
  erase k [] = []
  erase k ((j, w) ∷ es) = let rest = erase k es in if key_eq k j then rest else (j, w) ∷ rest

  unfoldable pub replace_at : ℕ → V → List V → List V
  replace_at n v [] = []
  replace_at zero v (x ∷ xs) = v ∷ xs
  replace_at (suc n) v (x ∷ xs) = x ∷ replace_at n v xs

  -- The entries of a packed array, from a place on.
  unfoldable pub enumerate : ℕ → List V → List (Key × V)
  enumerate i [] = []
  enumerate i (v ∷ vs) = (int (pos i), v) ∷ enumerate (suc i) vs

  unfoldable pub indices : ℕ → List V → List Key
  indices i [] = []
  indices i (v ∷ vs) = int (pos i) ∷ indices (suc i) vs

unfoldable pub remove_key : Key → List Key → List Key
unfolding key_eq
remove_key k [] = []
remove_key k (x ∷ xs) = let rest = x ∷ remove_key k xs in if key_eq x k then xs else rest

pub data Array (V : Type 0) : Type 0 where
  packed : List V → Array V
  dict : List (Key × V) → List Key → Array V

module _ {V : Type 0} where
  unfoldable pub get : Array V → Option Key → Option V
  unfolding find
  get (packed vs) (some (int (pos n))) = get_elem? vs n
  get (packed vs) _ = none
  get (dict es ks) none = none
  get (dict es ks) (some k) = find k es

  abbrev pub is_present : Option V → Bool
  is_present none = false
  is_present (some _) = true

  unfoldable pub set_dict : List (Key × V) → List Key → Option Key → V → Array V
  unfolding find put sort_keys
  set_dict es ks none v = dict es ks
  set_dict es ks (some k) v =
      dict (put k v es) (if is_present (find k es) then ks else sort_keys (ks ++ k ∷ []))

  unfoldable pub set : Array V → Option Key → V → Array V
  unfolding set_dict enumerate indices replace_at
  set (packed vs) (some (int (pos n))) v =
      if ltb n (length vs)
      then packed (replace_at n v vs)
      else if n == length vs
      then packed (vs ++ v ∷ [])
      else set_dict (enumerate 0 vs) (indices 0 vs) (some (int (pos n))) v
  set (packed vs) (some (int (negsuc n))) v =
      set_dict (enumerate 0 vs) (indices 0 vs) (some (int (negsuc n))) v
  set (packed vs) (some (str s)) v = set_dict (enumerate 0 vs) (indices 0 vs) (some (str s)) v
  set (packed vs) none v = set_dict (enumerate 0 vs) (indices 0 vs) none v
  set (dict es ks) k v = set_dict es ks k v

  unfoldable pub delete : Array V → Option Key → Array V
  unfolding find erase remove_key
  delete (packed vs) (some (int (pos n))) =
      if ltb n (length vs) then packed (take n vs ++ drop (suc n) vs) else packed vs
  delete (packed vs) _ = packed vs
  delete (dict es ks) none = dict es ks
  delete (dict es ks) (some k) =
      if is_present (find k es) then dict (erase k es) (remove_key k ks) else dict es ks

  unfoldable pub keys : Array V → List Key
  unfolding indices
  keys (packed vs) = indices 0 vs
  keys (dict es ks) = ks
