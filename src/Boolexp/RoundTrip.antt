-- ===== src/Boolexp/RoundTrip.antt =====
-- The text of a lock, read back by the disk loader's path of the parser (`dbload`), which is how a
-- stored lock is read. A chain of '&' or of '|' comes back nested to the right.
use fuzzball_emerald.Prelude.{
  ◌+◌, ◌*◌, ◌≡◌, refl, sym, ap, true, false, [], ◌∷◌, ◌++◌, arith, Bytes, length,
}
use mathlib.Core.List.{append-nil}
use fuzzball_emerald.Prelude.Decimal.{itoa}
use fuzzball_emerald.Ref.{Ref}
use fuzzball_emerald.Boolexp.{
  Expr, true_boolexp, both, either, negated, const, prop, Host, Kind, k_and, k_or, k_not, k_const,
}
use fuzzball_emerald.Boolexp.Unparse.{unparse1, unparse}
use fuzzball_emerald.Boolexp.Parse.{ok, parse, parse_e}
use fuzzball_emerald.Boolexp.Grammar.{
  IsFactor, IsTerm, IsExpr, TermOnto, ExprOnto, factor-IsTerm, factor_onto, term_expr, term_onto,
  IsFactor_parens, IsFactor_not, IsTerm-and, TermOnto-and, IsExpr-or, ExprOnto-or,
}
use fuzzball_emerald.Boolexp.Nest.{nest, and_onto, or_onto, IsLock, nest-is_nil}
use fuzzball_emerald.Boolexp.Atoms.{IsFactor_prop, IsFactor_const}

module _ (host : Host) (player viewer : Ref) where
  -- What the parser makes of a tree's text in each place.
  record Reads (e : Expr) : Type 0 where
    factor : IsFactor host player (unparse1 host viewer false e k_not) (nest e)
    term : IsTerm host player (unparse1 host viewer false e k_and) (nest e)
    term_on : TermOnto host player (unparse1 host viewer false e k_and) (and_onto e)
    expr : IsExpr host player (unparse1 host viewer false e k_or) (nest e)
    expr_on : ExprOnto host player (unparse1 host viewer false e k_or) (or_onto e)

  abbrev text : Expr → Kind → Bytes
  text e k = unparse1 host viewer false e k

  both-Reads : (a b : Expr) → IsLock (both a b) → Reads a → Reads b → Reads (both a b)
  unfolding nest unparse1
  both-Reads a b l h k =
      let term : IsTerm host player (text a k_and ++ b'&' ∷ text b k_and) (and_onto a (nest b)) =
        IsTerm-and host player (text a k_and) (text b k_and) (and_onto a) (nest b) h.term_on
          k.term in
      let expr = term_expr host player _ _ term in
      record {
        factor = IsFactor_parens host player _ _ (nest-is_nil (both a b) l) expr;
        term = term;
        term_on =
            TermOnto-and host player (text a k_and) (text b k_and) (and_onto a) (and_onto b)
              h.term_on k.term_on;
        expr = expr;
        expr_on = term_onto host player _ _ term;
      }

  -- Its text is the same in every place.
  atom-Reads :
      (e : Expr) (u : Bytes) (b : Expr)
      → ((k : Kind) → text e k ≡ u)
      → nest e ≡ b
      → ((t : Expr) → and_onto e t ≡ both b t)
      → ((t : Expr) → or_onto e t ≡ either b t)
      → IsFactor host player u b
      → Reads e
  atom-Reads e u b same nested on_and on_or h =
      let term = factor-IsTerm host player u b h in
      record {
        factor = rw (same k_not, nested) h;
        term = rw (same k_and, nested) term;
        term_on =
            rw (same k_and)
              (λ t c s k f l. rw (on_and c) (factor_onto host player u b h t c s k f l));
        expr = rw (same k_or, nested) (term_expr host player u b term);
        expr_on =
            rw (same k_or)
              (λ t c s k f l. rw (on_or c) (term_onto host player u b term t c s k f l));
      }

  either-Reads : (a b : Expr) → IsLock (either a b) → Reads a → Reads b → Reads (either a b)
  unfolding nest unparse1
  either-Reads a b l h k =
      let u = text a k_or ++ b'|' ∷ text b k_or in
      let e = or_onto a (nest b) in
      let expr : IsExpr host player u e =
        IsExpr-or host player (text a k_or) (text b k_or) (or_onto a) (nest b) h.expr_on k.expr in
      let factor = IsFactor_parens host player u e (nest-is_nil (either a b) l) expr in
      record {
        factor = factor;
        term = factor-IsTerm host player (b'(' ∷ u ++ b')' ∷ []) e factor;
        term_on = factor_onto host player (b'(' ∷ u ++ b')' ∷ []) e factor;
        expr = expr;
        expr_on =
            ExprOnto-or host player (text a k_or) (text b k_or) (or_onto a) (or_onto b) h.expr_on
              k.expr_on;
      }

  negated-Reads : (a : Expr) → Reads a → Reads (negated a)
  unfolding nest unparse1
  negated-Reads a h =
      atom-Reads (negated a) (b'!' ∷ text a k_not) (negated (nest a)) (λ k. refl) refl (λ t. refl)
        (λ t. refl) (IsFactor_not host player (text a k_not) (nest a) h.factor)

  const-Reads : (r : Ref) → IsLock (const r) → Reads (const r)
  unfolding nest unparse1
  const-Reads r h =
      atom-Reads (const r) (b'#' ∷ itoa r) (const r) (λ k. refl) refl (λ t. refl) (λ t. refl)
        (IsFactor_const host player r h)

  prop-Reads : (n v : Bytes) → IsLock (prop n v) → Reads (prop n v)
  unfolding nest unparse1
  prop-Reads n v h =
      atom-Reads (prop n v) (n ++ b':' ∷ v) (prop n v) (λ k. refl) refl (λ t. refl) (λ t. refl)
        (IsFactor_prop host player n v h.0 h.1)

  lock-Reads : (e : Expr) → IsLock e → Reads e
  lock-Reads true_boolexp h = absurd h
  lock-Reads (both a b) h = both-Reads a b h (lock-Reads a h.0) (lock-Reads b h.1)
  lock-Reads (either a b) h = either-Reads a b h (lock-Reads a h.0) (lock-Reads b h.1)
  lock-Reads (negated a) h = negated-Reads a (lock-Reads a h)
  lock-Reads (const r) h = const-Reads r h
  lock-Reads (prop n v) h = prop-Reads n v h

  outermost : (e : Expr) → unparse1 host viewer false e k_const ≡ unparse1 host viewer false e k_or
  unfolding unparse1
  outermost true_boolexp = refl
  outermost (both a b) = refl
  outermost (either a b) = refl
  outermost (negated a) = refl
  outermost (const r) = refl
  outermost (prop n v) = refl

  -- On the path of the disk loader, the text of a lock, with references as numbers, is read back
  -- as the lock, its chains of '&' and of '|' nested to the right, when it has no empty part, its
  -- references are int32 numbers, and its properties have names that the parser can give and values
  -- of ASCII bytes, none of them white space and none that ends an atom.
  pub parse-unparse :
      (e : Expr) → IsLock e → parse host player true (unparse host viewer false e) ≡ ok (nest e)
  unfolding parse unparse
  parse-unparse e h = rw (outermost e) (
      let read =
        (lock-Reads e h).expr [] (3 * length (text e k_or) + 3) tt
          (omega (arith, ap length (append-nil (text e k_or)))) in
      rw
        (sym
          (ap (parse_e host player true (3 * length (text e k_or) + 3)) (append-nil (text e k_or))))
        (rw read))
