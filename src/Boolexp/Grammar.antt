-- ===== src/Boolexp/Grammar.antt =====
-- The three levels of the lock grammar, as what the parser does on a text with anything behind it:
-- a factor, a term (factors with '&') and a whole expression (terms with '|').
use fuzzball_emerald.Prelude.{
  ℕ, zero, suc, ◌+◌, ◌*◌, ◌≤◌, ◌≡◌, refl, ap, true, false, ◌||◌, [], ◌∷◌, ◌++◌, arith, ◌==◌, Bytes,
  All, length, length-append, ◌⊎◌, inl, inr,
}
use mathlib.Core.List.{append_assoc}
use fuzzball_emerald.Prelude.Space.{is_space, trim_left}
use fuzzball_emerald.Boolexp.Runes.{trim_right_runes}
use fuzzball_emerald.Ref.{Ref}
use fuzzball_emerald.Boolexp.{Expr, either, both, negated, Host}
use fuzzball_emerald.Boolexp.Parse.{
  Result, ok, ends_atom, take_atom, parse_atom, operator, is_nil, parse_e, parse_t, parse_f,
}

-- What may stand behind a factor, a term and an expression.
abbrev pub EndsFactor : Bytes → Type 0
EndsFactor [] = Unit
EndsFactor (c ∷ s) = ends_atom c ≡ true

abbrev pub EndsTerm : Bytes → Type 0
EndsTerm [] = Unit
EndsTerm (c ∷ s) = (c == b'|' || c == b')') ≡ true

abbrev pub EndsExpr : Bytes → Type 0
EndsExpr [] = Unit
EndsExpr (c ∷ s) = (c == b')') ≡ true

term_end : (s : Bytes) → EndsTerm s → EndsFactor s
unfolding ends_atom
term_end [] h = tt
term_end (c ∷ s) h = ground arith

expr_end : (s : Bytes) → EndsExpr s → EndsTerm s
expr_end [] h = tt
expr_end (c ∷ s) h = ground arith

no_space : (c : ℕ) → ends_atom c ≡ true → is_space c ≡ false
unfolding ends_atom is_space
no_space c h = ground arith

trim-end : (s : Bytes) → EndsFactor s → trim_left s ≡ s
unfolding trim_left
trim-end [] h = refl
trim-end (c ∷ s) h = rw (no_space c h)

take_atom-whole :
    (u s : Bytes) → All (λ c. ends_atom c ≡ false) u → EndsFactor s → take_atom (u ++ s) ≡ (u, s)
unfolding take_atom
take_atom-whole [] [] h k = refl
take_atom-whole [] (c ∷ s) h k = rw k
take_atom-whole (c ∷ u) s h k = rw (h.0) (rw (take_atom-whole u s h.1 k))

module _ (host : Host) (player : Ref) where
  abbrev pub IsFactor : Bytes → Expr → Type 0
  IsFactor u b =
      (s : Bytes) (f : ℕ)
      → EndsFactor s
      → 3 * length (u ++ s) + 1 ≤ f
      → parse_f host player true f (u ++ s) ≡ ok (b, s)

  abbrev pub IsTerm : Bytes → Expr → Type 0
  IsTerm u b =
      (s : Bytes) (f : ℕ)
      → EndsTerm s
      → 3 * length (u ++ s) + 2 ≤ f
      → parse_t host player true f (u ++ s) ≡ ok (b, s)

  abbrev pub IsExpr : Bytes → Expr → Type 0
  IsExpr u b =
      (s : Bytes) (f : ℕ)
      → EndsExpr s
      → 3 * length (u ++ s) + 3 ≤ f
      → parse_e host player true f (u ++ s) ≡ ok (b, s)

  -- In front of '&' and a term, and in front of '|' and an expression: what becomes of its tree.
  abbrev pub TermOnto : Bytes → (Expr → Expr) → Type 0
  TermOnto u k =
      (t : Bytes) (b : Expr) (s : Bytes)
      → ((f : ℕ) → 3 * length t + 2 ≤ f → parse_t host player true f t ≡ ok (b, s))
      → (f : ℕ) → 3 * length (u ++ b'&' ∷ t) + 2 ≤ f
      → parse_t host player true f (u ++ b'&' ∷ t) ≡ ok (k b, s)

  abbrev pub ExprOnto : Bytes → (Expr → Expr) → Type 0
  ExprOnto u k =
      (t : Bytes) (b : Expr) (s : Bytes)
      → ((f : ℕ) → 3 * length t + 3 ≤ f → parse_e host player true f t ≡ ok (b, s))
      → (f : ℕ) → 3 * length (u ++ b'|' ∷ t) + 3 ≤ f
      → parse_e host player true f (u ++ b'|' ∷ t) ≡ ok (k b, s)

  operator_end :
      (token : ℕ) (join : Expr → Expr → Expr) (next : Bytes → Result (Expr × Bytes)) (b : Expr)
      (s : Bytes)
      → (s ≡ []) ⊎ ((c : ℕ) × (t : Bytes) × (s ≡ c ∷ t) × ((c == token) ≡ false))
      → operator token join next b s ≡ ok (b, s)
  operator_end token join next b s (inl e) = rw e
  operator_end token join next b s (inr (c, t, e, h)) = rw (e, h)

  term_head :
      (s : Bytes)
      → EndsTerm s
      → (s ≡ []) ⊎ ((c : ℕ) × (t : Bytes) × (s ≡ c ∷ t) × ((c == b'&') ≡ false))
  term_head [] h = inl refl
  term_head (c ∷ s) h = inr (c, s, refl, ground arith)

  expr_head :
      (s : Bytes)
      → EndsExpr s
      → (s ≡ []) ⊎ ((c : ℕ) × (t : Bytes) × (s ≡ c ∷ t) × ((c == b'|') ≡ false))
  expr_head [] h = inl refl
  expr_head (c ∷ s) h = inr (c, s, refl, ground arith)

  pub factor-IsTerm : (u : Bytes) (b : Expr) → IsFactor u b → IsTerm u b
  unfolding parse_t
  factor-IsTerm u b h s zero e l = absurd (omega arith)
  factor-IsTerm u b h s (suc f) e l = rw (h s f (term_end s e) (omega arith)) (
      rw (trim-end s (term_end s e))
        (operator_end b'&' both (parse_t host player true f) b s (term_head s e)))

  pub factor_onto : (u : Bytes) (b : Expr) → IsFactor u b → TermOnto u (both b)
  unfolding parse_t
  factor_onto u b h t b' s k zero l = absurd (omega arith)
  factor_onto u b h t b' s k (suc f) l =
      rw (h (b'&' ∷ t) f (unfold ends_atom in refl) (omega arith)) (
        rw (trim-end (b'&' ∷ t) (unfold ends_atom in refl))
          (rw (k f (omega (arith, length-append u (b'&' ∷ t))))))

  pub term_expr : (u : Bytes) (b : Expr) → IsTerm u b → IsExpr u b
  unfolding parse_e
  term_expr u b h s zero e l = absurd (omega arith)
  term_expr u b h s (suc f) e l = rw (h s f (expr_end s e) (omega arith)) (
      rw (trim-end s (term_end s (expr_end s e)))
        (operator_end b'|' either (parse_e host player true f) b s (expr_head s e)))

  pub term_onto : (u : Bytes) (b : Expr) → IsTerm u b → ExprOnto u (either b)
  unfolding parse_e
  term_onto u b h t b' s k zero l = absurd (omega arith)
  term_onto u b h t b' s k (suc f) l = rw (h (b'|' ∷ t) f refl (omega arith)) (
      rw (trim-end (b'|' ∷ t) (unfold ends_atom in refl))
        (rw (k f (omega (arith, length-append u (b'|' ∷ t))))))

  pub IsFactor_parens :
      (u : Bytes) (b : Expr) → is_nil b ≡ false → IsExpr u b → IsFactor (b'(' ∷ u ++ b')' ∷ []) b
  unfolding parse_f
  IsFactor_parens u b n h s zero e l = absurd (omega arith)
  IsFactor_parens u b n h s (suc f) e l =
      unfold trim_left is_space in
      rw (append_assoc u (b')' ∷ []) s)
        (rw (h (b')' ∷ s) f refl (fits u s f l)) (unfold trim_left is_space in rw n))
    where
      fits :
          (u s : Bytes) (f : ℕ)
          → 3 * length (b'(' ∷ (u ++ b')' ∷ []) ++ s) + 1 ≤ suc f
          → 3 * length (u ++ b')' ∷ s) + 3 ≤ f
      fits u s f l = omega (
        arith,
        length-append (u ++ b')' ∷ []) s,
        length-append u (b')' ∷ []),
        length-append u (b')' ∷ s),
      )

  pub IsFactor_not : (u : Bytes) (b : Expr) → IsFactor u b → IsFactor (b'!' ∷ u) (negated b)
  unfolding parse_f
  IsFactor_not u b h s zero e l = absurd (omega arith)
  IsFactor_not u b h s (suc f) e l = unfold trim_left is_space in rw (h s f e (omega arith))

  pub IsFactor_atom :
      (c : ℕ) (u : Bytes) (b : Expr)
      → is_space c ≡ false
      → (c == b'(') ≡ false
      → (c == b'!') ≡ false
      → All (λ d. ends_atom d ≡ false) (c ∷ u)
      → trim_right_runes (c ∷ u) ≡ c ∷ u
      → parse_atom host player true (c ∷ u) ≡ ok b
      → IsFactor (c ∷ u) b
  unfolding parse_f
  IsFactor_atom c u b hs hp hn ha ht hb s zero e l = absurd (omega arith)
  IsFactor_atom c u b hs hp hn ha ht hb s (suc f) e l =
      unfold trim_left in rw hs (rw (hp, hn) (rw (take_atom-whole (c ∷ u) s ha e) (rw ht (rw hb))))

  pub IsTerm-and :
      (u v : Bytes) (k : Expr → Expr) (b : Expr)
      → TermOnto u k
      → IsTerm v b
      → IsTerm (u ++ b'&' ∷ v) (k b)
  IsTerm-and u v k b h i s f e l =
      rw (append_assoc u (b'&' ∷ v) s) (
        h (v ++ s) b s (λ g m. i s g e m) f
          (omega (arith, ap length (append_assoc u (b'&' ∷ v) s))))

  pub TermOnto-and :
      (u v : Bytes) (k k' : Expr → Expr)
      → TermOnto u k
      → TermOnto v k'
      → TermOnto (u ++ b'&' ∷ v) (λ b. k (k' b))
  TermOnto-and u v k k' h i t b s p f l = rw (append_assoc u (b'&' ∷ v) (b'&' ∷ t)) (
      h (v ++ b'&' ∷ t) (k' b) s (λ g m. i t b s p g m) f
        (omega (arith, ap length (append_assoc u (b'&' ∷ v) (b'&' ∷ t)))))

  pub IsExpr-or :
      (u v : Bytes) (k : Expr → Expr) (b : Expr)
      → ExprOnto u k
      → IsExpr v b
      → IsExpr (u ++ b'|' ∷ v) (k b)
  IsExpr-or u v k b h i s f e l =
      rw (append_assoc u (b'|' ∷ v) s) (
        h (v ++ s) b s (λ g m. i s g e m) f
          (omega (arith, ap length (append_assoc u (b'|' ∷ v) s))))

  pub ExprOnto-or :
      (u v : Bytes) (k k' : Expr → Expr)
      → ExprOnto u k
      → ExprOnto v k'
      → ExprOnto (u ++ b'|' ∷ v) (λ b. k (k' b))
  ExprOnto-or u v k k' h i t b s p f l = rw (append_assoc u (b'|' ∷ v) (b'|' ∷ t)) (
      h (v ++ b'|' ∷ t) (k' b) s (λ g m. i t b s p g m) f
        (omega (arith, ap length (append_assoc u (b'|' ∷ v) (b'|' ∷ t)))))
