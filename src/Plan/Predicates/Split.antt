-- ===== src/Plan/Predicates/Split.antt =====
-- sql/planner.rs: a predicate may be taken apart at its conjunctions and put together again.
use heliondb.Base.{
  Bool, true, false, not, ◌&&◌, List, [], ◌∷◌, ◌++◌, ◌≡◌, refl, arith, ◌∙◌, sym, ap₂, All, all,
  retain,
}
use heliondb.Types.Datum.{Datum, is_null}
use heliondb.Error.{Result, ok, ◌>>=◌}
use heliondb.Expr.Syntax.{Expression, binary_op, BinaryOperator}
use heliondb.Expr.Values.{datum_to_bool}
use heliondb.Expr.Functions.{Runtime}
use heliondb.Expr.Eval.{TableMap, binary, operate}
use heliondb.Expr.Join.{evaluate_join}
use heliondb.Exec.Filter.{DataRow, keeps, is_true}
use heliondb.Plan.Predicates.{decompose_conjunction, recompose_conjunction, reduce_and}

-- A truth value: true, false or NULL, and no error.
abbrev pub IsTruthValue : Result Datum → Type 0
IsTruthValue (ok (Datum.boolean _)) = Unit
IsTruthValue (ok Datum.null) = Unit
IsTruthValue _ = ⊥

module _ (rt : Runtime) (tables : TableMap) (row : DataRow) where
  -- The expression has a truth value on the row.
  abbrev pub HasTruth : Expression → Type 0
  HasTruth e = IsTruthValue (evaluate_join rt e row tables)

  abbrev holds : Expression → Bool
  holds e = keeps rt tables e row

  and_values :
      (a b : Result Datum)
      → IsTruthValue a
      → IsTruthValue b
      → (is_true (a >>= λ x. b >>= λ y. binary rt BinaryOperator.and x y)
          ≡ (is_true a && is_true b))
        × IsTruthValue (a >>= λ x. b >>= λ y. binary rt BinaryOperator.and x y)
  unfolding binary operate datum_to_bool is_null
  and_values (ok (Datum.boolean true)) (ok (Datum.boolean true)) h k = (refl, tt)
  and_values (ok (Datum.boolean true)) (ok (Datum.boolean false)) h k = (refl, tt)
  and_values (ok (Datum.boolean false)) (ok (Datum.boolean _)) h k = (refl, tt)
  and_values (ok (Datum.boolean true)) (ok Datum.null) h k = (refl, tt)
  and_values (ok (Datum.boolean false)) (ok Datum.null) h k = (refl, tt)
  and_values (ok Datum.null) (ok (Datum.boolean _)) h k = (refl, tt)
  and_values (ok Datum.null) (ok Datum.null) h k = (refl, tt)
  and_values _ _ h k = ground arith

  and_holds :
      (a b : Expression)
      → HasTruth a
      → HasTruth b
      → (holds (binary_op a BinaryOperator.and b) ≡ (holds a && holds b))
        × HasTruth (binary_op a BinaryOperator.and b)
  unfolding keeps evaluate_join
  and_holds a b h k = and_values (evaluate_join rt a row tables) (evaluate_join rt b row tables) h k

  reduce_holds :
      (a : Expression) (parts : List Expression)
      → HasTruth a
      → All HasTruth parts
      → holds (reduce_and a parts) ≡ (holds a && all holds parts)
  unfolding reduce_and
  reduce_holds a [] h k = ground arith
  reduce_holds a (b ∷ parts) h k =
      let both = and_holds a b h k.0 in
      ground (arith, both, reduce_holds (binary_op a BinaryOperator.and b) parts both.1 k.1)

  recompose_holds :
      (parts : List Expression)
      → All HasTruth parts
      → holds (recompose_conjunction parts) ≡ all holds parts
  unfolding recompose_conjunction keeps evaluate_join
  recompose_holds [] h = refl
  recompose_holds (a ∷ parts) h = reduce_holds a parts h.0 h.1

  all-append : (xs ys : List Expression) → all holds (xs ++ ys) ≡ (all holds xs && all holds ys)
  all-append [] ys = refl
  all-append (x ∷ xs) ys = ground (arith, all-append xs ys)

  All-left : (xs ys : List Expression) → All HasTruth (xs ++ ys) → All HasTruth xs
  All-left [] ys h = tt
  All-left (x ∷ xs) ys h = (h.0, All-left xs ys h.1)

  All-right : (xs ys : List Expression) → All HasTruth (xs ++ ys) → All HasTruth ys
  All-right [] ys h = h
  All-right (x ∷ xs) ys h = All-right xs ys h.1

  abbrev Decomposes : Expression → Type 0
  Decomposes e = (holds e ≡ all holds (decompose_conjunction e)) × HasTruth e

  itself : (e : Expression) → HasTruth e → (holds e ≡ (holds e && true)) × HasTruth e
  itself e h = (ground arith, h)

  decompose_holds : (e : Expression) → All HasTruth (decompose_conjunction e) → Decomposes e
  unfolding decompose_conjunction
  decompose_holds (binary_op l BinaryOperator.and r) h =
      let ls = decompose_conjunction l in
      let rs = decompose_conjunction r in
      let (el, tl) = decompose_holds l (All-left ls rs h) in
      let (er, tr) = decompose_holds r (All-right ls rs h) in
      let both = and_holds l r tl tr in (both.0 ∙ ap₂ ◌&&◌ el er ∙ sym (all-append ls rs), both.1)
  decompose_holds e h = itself e h.0

  all-split :
      (p : Expression → Bool) (es : List Expression)
      → (all holds (retain p es) && all holds (retain (λ e. not (p e)) es)) ≡ all holds es
  all-split p [] = refl
  all-split p (e ∷ es) = ground (arith, all-split p es)

  All-retain :
      (p : Expression → Bool) (es : List Expression) → All HasTruth es → All HasTruth (retain p es)
  All-retain p [] h = tt
  All-retain p (e ∷ es) h = ground (arith, All-retain p es h.1)

  -- A predicate whose conjuncts have truth values holds on a row exactly when the conjuncts that
  -- are pushed down, put together, and those that are kept, put together, both hold, however the
  -- conjuncts are divided between the two.
  pub split_holds :
      (e : Expression) (pushed : Expression → Bool)
      → All HasTruth (decompose_conjunction e)
      → keeps rt tables e row ≡ (
          keeps rt tables (recompose_conjunction (retain pushed (decompose_conjunction e))) row
          && keeps rt tables
              (recompose_conjunction (retain (λ c. not (pushed c)) (decompose_conjunction e)))
              row)
  split_holds e pushed h =
      let es = decompose_conjunction e in
      (decompose_holds e h).0
      ∙ sym (all-split pushed es)
      ∙ sym (
          ap₂ ◌&&◌ (recompose_holds (retain pushed es) (All-retain pushed es h)) (
            recompose_holds (retain (λ c. not (pushed c)) es)
              (All-retain (λ c. not (pushed c)) es h)))
