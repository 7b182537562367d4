-- ===== src/Muf/Prims/Total.antt =====
-- Every primitive, on every frame.
use fuzzball_emerald.Prelude.{refl, Bool, true, false, [], ◌∷◌, if◌then◌else◌}
use fuzzball_emerald.Prelude.Int.{pos}
use fuzzball_emerald.Muf.{truthy, Value, integer, var, lvar, mark, Frame, bool}
use fuzzball_emerald.Muf.Stack.{return, reverse_count, popn_count, push, onto, push_all}
use fuzzball_emerald.Muf.Prims.{
  dictionary, Prim, run, pop_, dup, not_dup, swap, over, nip, tuck, rot, unrot, depth_, pick, popn,
  fetch, store, type_test, is_dictionary, open_mark, close_mark, prog_, trig_, caller_, rotate, put,
  reverse, lreverse, dupn, ldup, fulldepth, variable, localvar, mode_, setmode, preempt, foreground,
  background, find_mark, pick_at, pop_count, dup_count, put_at,
}
use fuzzball_emerald.Muf.Prims.Safe.{
  Bounded, Fine, fine_done, IsFine, Fine-bind, push-IsFine, push_all-IsFine, pop-IsFine,
  peek-IsFine, pop_int-IsFine, pick_at-IsFine, pop_count-IsFine, dup_count-IsFine, put_at-IsFine,
  done-IsFine,
}
use fuzzball_emerald.Muf.Prims.Takes.{two-TakesTwo, three-TakesThree, pair-Fine, triple-Fine}
use fuzzball_emerald.Muf.Prims.Ends.{IsSafe, marked-Fine, find_mark-Shorter}
use fuzzball_emerald.Muf.Prims.Depths.{store-Fine, fetch-Fine, rotate-Fine, ldup-Fine}

push_if-IsFine : (t : Bool) (v : Value) → IsFine (if t then push v else return tt)
push_if-IsFine true v f h = push-IsFine v f h
push_if-IsFine false v f h = fine_done tt f h

-- A primitive ends, or fails with an error, and leaves a stack within its ceiling of 1024 values, when
-- it starts on one; it does not panic, provided that `@` and `!` are not given a variable reference
-- with a negative number, `ROTATE` not the least int64, and `LDUP` not the greatest.
pub run-Fine : (p : Prim) (f : Frame) → Bounded f → IsSafe p f.stack → Fine (run p f)
unfolding run
run-Fine pop_ f h k = Fine-bind (λ _. return tt) (pop-IsFine f h) (λ _. done-IsFine tt)
run-Fine dup f h k = Fine-bind push (peek-IsFine (pos 0) f h) push-IsFine
run-Fine not_dup f h k =
    Fine-bind _ (peek-IsFine (pos 0) f h) (λ v g l. push_if-IsFine (truthy g.heap v) v g l)
run-Fine swap f h k =
    pair-Fine _ (two-TakesTwo f.stack f refl) h
      (λ a b g l. Fine-bind (λ _. push a) (push-IsFine b g l) (λ _. push-IsFine a))
run-Fine over f h k = Fine-bind push (peek-IsFine (pos 1) f h) push-IsFine
run-Fine nip f h k = pair-Fine _ (two-TakesTwo f.stack f refl) h (λ a b. push-IsFine b)
run-Fine tuck f h k =
    pair-Fine _ (two-TakesTwo f.stack f refl) h (λ a b. push_all-IsFine (b ∷ a ∷ b ∷ []))
run-Fine rot f h k =
    triple-Fine _ (three-TakesThree f.stack f refl) h (λ a b c. push_all-IsFine (b ∷ c ∷ a ∷ []))
run-Fine unrot f h k =
    triple-Fine _ (three-TakesThree f.stack f refl) h (λ a b c. push_all-IsFine (c ∷ a ∷ b ∷ []))
run-Fine depth_ f h k = push-IsFine _ f h
run-Fine pick f h k =
    Fine-bind push (Fine-bind pick_at (pop_int-IsFine f h) pick_at-IsFine) push-IsFine
run-Fine popn f h k =
    Fine-bind (λ _. return tt)
      (Fine-bind (pop_count popn_count) (pop_int-IsFine f h) (pop_count-IsFine popn_count))
      (λ _. done-IsFine tt)
run-Fine fetch f h k = fetch-Fine f.stack f refl h k
run-Fine store f h k = store-Fine f.stack f refl h k
run-Fine (type_test want) f h k = Fine-bind _ (pop-IsFine f h) (λ v. push-IsFine _)
run-Fine is_dictionary f h k =
    Fine-bind _ (pop-IsFine f h) (λ v g l. push-IsFine (bool (dictionary g.heap v)) g l)
run-Fine open_mark f h k = push-IsFine mark f h
run-Fine close_mark f h k = marked-Fine (find_mark 0 f.stack) f h (find_mark-Shorter 0 f.stack)
run-Fine prog_ f h k = push-IsFine _ f h
run-Fine trig_ f h k = push-IsFine _ f h
run-Fine caller_ f h k = push-IsFine _ f h
run-Fine rotate f h k = rotate-Fine f.stack f refl h k
run-Fine put f h k =
    Fine-bind _ (pop_int-IsFine f h)
      (λ n g l. Fine-bind (put_at n) (pop-IsFine g l) (put_at-IsFine n))
run-Fine reverse f h k =
    Fine-bind (λ vs. push_all (onto vs []))
      (Fine-bind (pop_count reverse_count) (pop_int-IsFine f h) (pop_count-IsFine reverse_count))
      (λ vs. push_all-IsFine (onto vs []))
run-Fine lreverse f h k = Fine-bind _ (pop_int-IsFine f h) (λ n g l.
    Fine-bind _ (pop_count-IsFine reverse_count n g l) (λ vs g' l'.
      Fine-bind (λ _. push (integer n)) (push_all-IsFine (onto vs []) g' l') (λ _. push-IsFine _)))
run-Fine dupn f h k = Fine-bind dup_count (pop_int-IsFine f h) dup_count-IsFine
run-Fine ldup f h k = ldup-Fine f.stack f refl h k
run-Fine fulldepth f h k = push-IsFine _ f h
run-Fine variable f h k = Fine-bind _ (pop_int-IsFine f h) (λ n. push-IsFine (var n))
run-Fine localvar f h k = Fine-bind _ (pop_int-IsFine f h) (λ n. push-IsFine (lvar n))
run-Fine mode_ f h k = push-IsFine _ f h
run-Fine setmode f h k = Fine-bind _ (pop_int-IsFine f h) (λ n g l. fine_done tt _ l)
run-Fine preempt f h k = fine_done tt _ h
run-Fine foreground f h k = fine_done tt _ h
run-Fine background f h k = fine_done tt _ h
