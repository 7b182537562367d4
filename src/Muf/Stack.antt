-- ===== src/Muf/Stack.antt =====
-- internal/muf: the frame's stack (frame.go), its variables (prim_stack.go, interp.go), and what a
-- primitive may come to: an end, an error, or a panic of Go's run time where an index or a length is
-- negative.
use Prim.Native.Nat.{ℕ, zero, suc}
use mathlib.Core.List.{List, [], ◌∷◌}
use mathlib.Core.Option.{Option, none, some}
use fuzzball_emerald.Prelude.{ltb, leb, if◌then◌else◌, get_elem?, length, take, drop}
use fuzzball_emerald.Prelude.Int.{ℤ, pos, negsuc}
use fuzzball_emerald.Ref.{nothing}
use fuzzball_emerald.Muf.{Value, integer, object, var, lvar, svar, Frame, stack_size}

pub data MufError : Type 0 where
  stack_overflow stack_underflow non_integer variable_range scoped_range no_scope non_variable :
      MufError
  pick_position popn_count put_position reverse_count ldup_count no_mark : MufError

pub data Outcome (A : Type 0) : Type 0 where
  done : A → Frame → Outcome A
  failed : MufError → Frame → Outcome A
  panic : Outcome A

abbrev pub M : Type 0 → Type 0
M A = Frame → Outcome A

abbrev pub and_then : {A B : Type 0} → Outcome A → (A → M B) → Outcome B
and_then (done a f) k = k a f
and_then (failed e f) k = failed e f
and_then panic k = panic

infixl 5 ◌>>=◌ ◌>>◌
abbrev pub ◌>>=◌ : {A B : Type 0} → M A → (A → M B) → M B
◌>>=◌ m k f = and_then (m f) k

abbrev pub ◌>>◌ : {A B : Type 0} → M A → M B → M B
m >> n = m >>= λ _. n

abbrev pub Unit0 : Type 0
Unit0 = Unit {0}

abbrev pub return : {A : Type 0} → A → M A
return a f = done a f

abbrev pub fail : {A : Type 0} → MufError → M A
fail e f = failed e f

abbrev pub crash : {A : Type 0} → M A
crash f = panic

abbrev pub gets : {A : Type 0} → (Frame → A) → M A
gets g f = done (g f) f

abbrev pub modify : (Frame → Frame) → M Unit0
modify g f = done tt (g f)

unfoldable pub push : Value → M Unit0
push v f =
    if leb stack_size (length f.stack)
    then failed stack_overflow f
    else done tt (record f { stack = v ∷ f.stack })

abbrev pub pop_from : List Value → Frame → Outcome Value
pop_from [] f = failed stack_underflow f
pop_from (v ∷ rest) f = done v (record f { stack = rest })

unfoldable pub pop : M Value
pop f = pop_from f.stack f

-- `out`: the values taken, the deepest first.
abbrev pub onto : List Value → List Value → List Value
onto [] acc = acc
onto (v ∷ vs) acc = onto vs (v ∷ acc)

-- A negative count passes the test of the depth, and `make` panics on it.
unfoldable pub pop_n : ℤ → M (List Value)
pop_n (negsuc n) f = panic
pop_n (pos n) f =
    if ltb (length f.stack) n
    then failed stack_underflow f
    else done (onto (take n f.stack) []) (record f { stack = drop n f.stack })

abbrev pub found : Option Value → Frame → Outcome Value
found none f = failed stack_underflow f
found (some v) f = done v f

-- `n >= len(f.Stack)` is where `get_elem?` finds nothing.
unfoldable pub peek : ℤ → M Value
peek (negsuc n) f = failed stack_underflow f
peek (pos n) f = found (get_elem? f.stack n) f

abbrev pub depth : M ℕ
depth f = done (length f.stack) f

unfoldable pub push_all : List Value → M Unit0
unfolding push
push_all [] = return tt
push_all (v ∷ vs) = push v >> push_all vs

abbrev pub as_integer : Value → M ℤ
as_integer (integer n) = return n
as_integer _ = fail non_integer

unfoldable pub pop_int : M ℤ
unfolding pop
pop_int = pop >>= as_integer

-- The read of a slice at an index that only its upper bound is tested of.
abbrev pub indexed : Option Value → MufError → M Value
indexed none e = fail e
indexed (some v) e = return v

abbrev pub slot_of : List Value → ℤ → M Value
slot_of vs (pos n) = indexed (get_elem? vs n) variable_range
slot_of vs (negsuc n) = crash

abbrev pub innermost : List (List Value) → List Value
innermost [] = []
innermost (s ∷ rest) = s

unfoldable pub get_scoped : ℤ → M Value
get_scoped (negsuc n) f = failed scoped_range f
get_scoped (pos n) f = indexed (get_elem? (innermost f.scopes) n) scoped_range f

unfoldable pub read_var : Value → M Value
unfolding get_scoped
read_var (var n) f = slot_of f.vars n f
read_var (lvar n) f = slot_of f.lvars n f
read_var (svar n) f = get_scoped n f
read_var _ f = failed non_variable f

-- `xs[n] = v`, where there is such a place.
unfoldable pub set_at : ℕ → Value → List Value → List Value
set_at n v [] = []
set_at zero v (x ∷ xs) = v ∷ xs
set_at (suc n) v (x ∷ xs) = x ∷ set_at n v xs

-- A scope grows by #-1s up to the slot that is written.
unfoldable pub set_grown : ℕ → Value → List Value → List Value
set_grown zero v [] = v ∷ []
set_grown zero v (x ∷ xs) = v ∷ xs
set_grown (suc n) v [] = object nothing ∷ set_grown n v []
set_grown (suc n) v (x ∷ xs) = x ∷ set_grown n v xs

abbrev pub scoped_into : ℤ → Value → List (List Value) → M Unit0
scoped_into n v [] = fail no_scope
scoped_into (negsuc n) v (s ∷ rest) = crash
scoped_into (pos n) v (s ∷ rest) = modify (λ f. record f { scopes = set_grown n v s ∷ rest })

unfoldable pub set_scoped : ℤ → Value → M Unit0
unfolding set_grown
set_scoped n v f = scoped_into n v f.scopes f

abbrev pub write_slot : List Value → ℤ → (Frame → Frame) → M Unit0
write_slot vs (negsuc n) put f = panic
write_slot vs (pos n) put f = if ltb n (length vs) then done tt (put f) else failed variable_range f

abbrev pub index : ℤ → ℕ
index (pos n) = n
index (negsuc n) = 0

unfoldable pub write_var : Value → Value → M Unit0
unfolding set_scoped set_at
write_var (var n) v f = write_slot f.vars n (λ g. record g { vars = set_at (index n) v g.vars }) f
write_var (lvar n) v f =
    write_slot f.lvars n (λ g. record g { lvars = set_at (index n) v g.lvars }) f
write_var (svar n) v f = set_scoped n v f
write_var _ v f = failed non_variable f
