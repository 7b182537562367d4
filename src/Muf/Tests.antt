-- ===== src/Muf/Tests.antt =====
-- Runs of the stack machine, and the theorems on it at a concrete frame.
use fuzzball_emerald.Prelude.{some, none, ◌≡◌, refl, [], ◌∷◌, arith, codes, ◌^◌, ◌-◌, List}
use fuzzball_emerald.Prelude.Int.{pos, negsuc}
use fuzzball_emerald.Muf.{Value, integer, string, var, lvar, svar, mark, Frame}
use fuzzball_emerald.Muf.Stack.{
  and_then, done, failed, panic, push, pop_n, push_all, read_var, write_var, set_at, set_grown,
  variable_range,
}
use fuzzball_emerald.Muf.Prims.{
  run, run_all, rotate_by, rotate, ldup, variable, fetch, close_mark, find_mark, count_of,
}
use fuzzball_emerald.Muf.Array.{Array, packed, dict, int, str, get, set, delete, key_eq}
use fuzzball_emerald.Muf.Array.Keyed.{IsArray, packed_array, set-delete-IsArray}
use fuzzball_emerald.Muf.Array.Lookup.{get-set_array, get-delete_array}
use fuzzball_emerald.Muf.Prims.Safe.{Fine}
use fuzzball_emerald.Muf.Prims.Total.{run-Fine}
use fuzzball_emerald.Muf.Prims.Panics.{run-panics}
use fuzzball_emerald.Muf.Prims.Variables.{read_var-write_var}
use fuzzball_emerald.Muf.Prims.Undo.{rotate_by-undo}

abbrev with_stack : List Value → Frame
with_stack s = record {
  stack = s;
  vars = integer (pos 0) ∷ integer (pos 0) ∷ [];
  lvars = integer (pos 0) ∷ [];
  scopes = (string (codes "a") ∷ []) ∷ [];
  mode = pos 1;
  prog = pos 9;
  trig = pos 4;
  caller = pos 5;
  heap = [];
}

abbrev three : Frame
three = with_stack (integer (pos 3) ∷ integer (pos 2) ∷ integer (pos 1) ∷ [])

rotated_up :
    rotate_by (pos 3) three
    ≡ done tt (with_stack (integer (pos 1) ∷ integer (pos 3) ∷ integer (pos 2) ∷ []))
unfolding rotate_by pop_n push_all count_of
rotated_up = refl

closed_mark :
    run_all (close_mark ∷ []) (with_stack (integer (pos 8) ∷ integer (pos 7) ∷ mark ∷ []))
    ≡ done tt (with_stack (integer (pos 2) ∷ integer (pos 8) ∷ integer (pos 7) ∷ []))
unfolding run_all run push find_mark
closed_mark = refl

run-Fine_example : Fine (run rotate three)
run-Fine_example = run-Fine rotate three (omega arith) (omega arith)

run-panics_example :
    (run_all (variable ∷ fetch ∷ []) (with_stack (integer (negsuc 0) ∷ [])) ≡ panic)
    × (run rotate (with_stack (integer (negsuc (2 ^ 63 - 1)) ∷ [])) ≡ panic)
    × (run ldup (with_stack (integer (pos (2 ^ 63 - 1)) ∷ [])) ≡ panic)
run-panics_example =
    run-panics (with_stack (integer (negsuc 0) ∷ []))
      (with_stack (integer (negsuc (2 ^ 63 - 1)) ∷ []))
      (with_stack (integer (pos (2 ^ 63 - 1)) ∷ [])) 0 [] refl refl refl (omega arith)

read_var-write_var_example :
    (and_then (write_var (var (pos 1)) mark three) (λ _. read_var (var (pos 1)))
      ≡ done mark (record three { vars = integer (pos 0) ∷ mark ∷ [] }))
    × (and_then (write_var (lvar (pos 1)) mark three) (λ _. read_var (lvar (pos 1)))
        ≡ failed variable_range three)
    × (and_then (write_var (svar (pos 1)) mark three) (λ _. read_var (svar (pos 1)))
        ≡ done mark (record three { scopes = (string (codes "a") ∷ mark ∷ []) ∷ [] }))
unfolding set_at set_grown
read_var-write_var_example = read_var-write_var three (string (codes "a") ∷ []) [] 1 1 mark refl

rotate_by-undo_example :
    (and_then (rotate_by (pos 2) three) (λ _. rotate_by (negsuc 1)) ≡ done tt three)
    × (and_then (rotate_by (negsuc 1) three) (λ _. rotate_by (pos 2)) ≡ done tt three)
rotate_by-undo_example =
    rotate_by-undo three (integer (pos 3)) (integer (pos 2) ∷ []) (integer (pos 1) ∷ []) refl
      (omega arith) (omega arith)

-- A packed array that a key beyond its end makes a keyed one.
abbrev letters : Array Value
letters = packed (string (codes "a") ∷ string (codes "b") ∷ [])

get-set_array_example :
    get (set letters (some (int (pos 7))) mark) (some (int (pos 1)))
    ≡ get letters (some (int (pos 1)))
unfolding key_eq
get-set_array_example = get-set_array letters (int (pos 7)) (int (pos 1)) mark

get-delete_array_example :
    get
      (delete (dict ((str (codes "x"), mark) ∷ []) (str (codes "x") ∷ [])) (some (str (codes "x"))))
      (some (str (codes "x")))
    ≡ none
unfolding key_eq
get-delete_array_example =
    get-delete_array ((str (codes "x"), mark) ∷ []) (str (codes "x") ∷ []) (str (codes "x"))
      (str (codes "x"))

set-delete-IsArray_example :
    IsArray (set letters (some (str (codes "x"))) mark)
    × IsArray (delete letters (some (str (codes "x"))))
set-delete-IsArray_example =
    set-delete-IsArray letters (some (str (codes "x"))) mark (packed_array _)
