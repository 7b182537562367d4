-- ===== src/Muf/Prims.antt =====
-- internal/muf/prim_stack.go: the stack and variable primitives, by their MUF names. `prog_` is PROG,
-- `not_dup` ?DUP, `fetch` @, `store` !, `open_mark` { and `close_mark` }.
pub mod Safe
pub mod Takes
pub mod Ends
pub mod Panics
pub mod Depths
pub mod Total
pub mod Equal
pub mod Undo
pub mod Variables
use Prim.Native.Nat.{ℕ, zero, suc, ◌+◌, ◌-◌}
use mathlib.Core.Bool.{Bool, true, false, not, ◌&&◌, ◌||◌}
use mathlib.Core.List.{List, [], ◌∷◌, ◌++◌}
use mathlib.Core.Option.{Option, none, some}
use fuzzball_emerald.Prelude.Int.{to_int64}
use fuzzball_emerald.Prelude.{◌==◌, ltb, leb, if◌then◌else◌, get_elem?, length, take, drop}
use fuzzball_emerald.Prelude.Int.{ℤ, pos, negsuc, ltb_ℤ, eqb_ℤ, ◌+ℤ◌, ◌-ℤ◌}
use fuzzball_emerald.Muf.{
  Value, integer, object, var, lvar, array, mark, bool, truthy, type_number, Frame, Shape,
}
use fuzzball_emerald.Muf.Stack.{
  M, MufError, pick_position, popn_count, put_position, reverse_count, ldup_count, no_mark,
  stack_underflow, Unit0, ◌>>=◌, ◌>>◌, return, fail, crash, gets, modify, push, pop, pop_n, peek,
  depth, push_all, pop_int, read_var, write_var, set_at, onto, index, done, failed, panic,
}

-- The primitives, which a compiled program names by number.
pub data Prim : Type 0 where
  pop_ dup not_dup swap over nip tuck rot unrot depth_ pick popn fetch store : Prim
  type_test : ℕ → Prim
  is_dictionary open_mark close_mark prog_ trig_ caller_ : Prim
  rotate put reverse lreverse dupn ldup fulldepth variable localvar : Prim
  mode_ setmode preempt foreground background : Prim

-- The values that `PopN(2)` and `PopN(3)` give, by their places; another number of them would be an
-- index out of range.
abbrev pub pair : (Value → Value → M Unit0) → List Value → M Unit0
pair k (a ∷ b ∷ []) = k a b
pair k _ = crash

abbrev pub triple : (Value → Value → Value → M Unit0) → List Value → M Unit0
triple k (a ∷ b ∷ c ∷ []) = k a b c
triple k _ = crash

abbrev pub pick_at : ℤ → M Value
pick_at n = if ltb_ℤ n (pos 1) then fail pick_position else peek (n -ℤ pos 1)

abbrev pub pop_count : MufError → ℤ → M (List Value)
pop_count e n = if ltb_ℤ n (pos 0) then fail e else pop_n n

abbrev pub behind : Value → List Value → List Value
behind v [] = v ∷ []
behind v (x ∷ r) = x ∷ v ∷ r

-- The first of a group goes to its top; the last of a group goes to its bottom.
unfoldable pub last_first : List Value → List Value
last_first [] = []
last_first (v ∷ vs) = behind v (last_first vs)

abbrev pub rotated : Bool → List Value → M Unit0
rotated up [] = crash
rotated true (v ∷ vs) = push_all (vs ++ v ∷ [])
rotated false (v ∷ vs) = push_all (last_first (v ∷ vs))

-- `-count` is one of Go's int64s, which is negative where it wraps.
unfoldable pub count_of : ℤ → ℤ
unfolding to_int64 ◌-ℤ◌
count_of n = if ltb_ℤ n (pos 0) then to_int64 (pos 0 -ℤ n) else n

abbrev pub rotate_counted : Bool → ℤ → M Unit0
rotate_counted up count f =
    if ltb_ℤ (pos (length f.stack)) count
    then failed stack_underflow f
    else (pop_n count >>= rotated up) f

unfoldable pub rotate_by : ℤ → M Unit0
unfolding pop_n push_all last_first count_of
rotate_by n f =
    if eqb_ℤ n (pos 0) || eqb_ℤ n (pos 1) || eqb_ℤ n (negsuc 0)
    then done tt f
    else rotate_counted (ltb_ℤ (pos 0) n) (count_of n) f

abbrev pub put_at : ℤ → Value → M Unit0
put_at n v f =
    if ltb_ℤ n (pos 1) || ltb_ℤ (pos (length f.stack)) n
    then failed put_position f
    else done tt (record f { stack = set_at (index (n -ℤ pos 1)) v f.stack })

abbrev pub copy_top : ℕ → M Unit0
copy_top n f = push_all (onto (take n f.stack) []) f

abbrev pub dup_count : ℤ → M Unit0
dup_count (negsuc n) f = failed stack_underflow f
dup_count (pos n) f = if ltb (length f.stack) n then failed stack_underflow f else copy_top n f

-- `n + 1` is one of Go's ints: where it wraps, it passes the test, and the index below is negative.
abbrev pub copy_counted : Value → M Unit0
copy_counted (integer (pos n)) f =
    if ltb_ℤ (pos (length f.stack)) (to_int64 (pos (suc n)))
    then failed stack_underflow f
    else if ltb (length f.stack) (suc n)
    then panic
    else copy_top (suc n) f
copy_counted (integer (negsuc n)) f = failed stack_underflow f
copy_counted _ f = failed ldup_count f

abbrev pub keep_above : Value → Option (ℕ × List Value) → Option (ℕ × List Value)
keep_above v none = none
keep_above v (some (k, rest)) = some (k, v ∷ rest)

-- How many values stand above the topmost mark, and the stack without the mark.
unfoldable pub find_mark : ℕ → List Value → Option (ℕ × List Value)
find_mark n [] = none
find_mark n (mark ∷ vs) = some (n, vs)
find_mark n (v ∷ vs) = keep_above v (find_mark (suc n) vs)

abbrev pub marked : Option (ℕ × List Value) → M Unit0
marked none = fail no_mark
marked (some (n, rest)) = modify (λ f. record f { stack = rest }) >> push (integer (pos n))

abbrev pub dictionary : List Shape → Value → Bool
dictionary heap (array a) = elim (get_elem? heap a) [ none ↦ false | some s ↦ not s.is_list ]
dictionary heap _ = false

-- What each primitive does.
unfoldable pub run : Prim → M Unit0
unfolding push pop pop_n peek push_all pop_int read_var write_var rotate_by find_mark type_number
    truthy
run pop_ = pop >>= λ _. return tt
run dup = peek (pos 0) >>= push
run not_dup =
    peek (pos 0) >>= λ v. gets (λ f. truthy f.heap v) >>= λ t. if t then push v else return tt
run swap = pop_n (pos 2) >>= pair (λ a b. push b >> push a)
run over = peek (pos 1) >>= push
run nip = pop_n (pos 2) >>= pair (λ a b. push b)
run tuck = pop_n (pos 2) >>= pair (λ a b. push_all (b ∷ a ∷ b ∷ []))
run rot = pop_n (pos 3) >>= triple (λ a b c. push_all (b ∷ c ∷ a ∷ []))
run unrot = pop_n (pos 3) >>= triple (λ a b c. push_all (c ∷ a ∷ b ∷ []))
run depth_ = depth >>= λ n. push (integer (pos n))
run pick = pop_int >>= pick_at >>= push
run popn = pop_int >>= pop_count popn_count >>= λ _. return tt
run fetch = pop >>= read_var >>= push
run store = pop_n (pos 2) >>= pair (λ v target. write_var target v)
run (type_test want) = pop >>= λ v. push (bool (type_number v == want))
run is_dictionary = pop >>= λ v. gets (λ f. dictionary f.heap v) >>= λ t. push (bool t)
run open_mark = push mark
run close_mark = gets (λ f. find_mark 0 f.stack) >>= marked
run prog_ = gets (λ f. f.prog) >>= λ r. push (object r)
run trig_ = gets (λ f. f.trig) >>= λ r. push (object r)
run caller_ = gets (λ f. f.caller) >>= λ r. push (object r)
run rotate = pop_int >>= rotate_by
run put = pop_int >>= λ n. pop >>= put_at n
run reverse = pop_int >>= pop_count reverse_count >>= λ vs. push_all (onto vs [])
run lreverse =
    pop_int >>= λ n. pop_count reverse_count n >>= λ vs. push_all (onto vs []) >> push (integer n)
run dupn = pop_int >>= dup_count
run ldup = peek (pos 0) >>= copy_counted
run fulldepth = depth >>= λ n. push (integer (pos n))
run variable = pop_int >>= λ n. push (var n)
run localvar = pop_int >>= λ n. push (lvar n)
run mode_ = gets (λ f. f.mode) >>= λ m. push (integer m)
run setmode = pop_int >>= λ n. modify (λ f. record f { mode = n })
run preempt = modify (λ f. record f { mode = pos 0 })
run foreground = modify (λ f. record f { mode = pos 1 })
run background = modify (λ f. record f { mode = pos 2 })

-- A straight line of primitives.
unfoldable pub run_all : List Prim → M Unit0
unfolding run
run_all [] = return tt
run_all (p ∷ ps) = run p >> run_all ps
