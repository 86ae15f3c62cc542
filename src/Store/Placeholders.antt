-- ===== src/Store/Placeholders.antt =====
-- Every statement of internal/store/sqlite/search.go has one `?` for each argument that is bound to it.
use omni_logging.Common.{
  ℕ, zero, suc, ◌+◌, ◌/◌, ◌%◌, ◌<◌, ◌≡◌, refl, ap, ◌∙◌, Bool, true, false, ◌&&◌, Option, none, some,
  List, [], ◌∷◌, ◌++◌, arith, if◌then◌else◌, if-elim, ◌==◌, ltb, ltb→lt, Text, codes, length,
  length-append,
}
use omni_logging.Query.{
  Field, level, service, source, message, raw, attr, Op, eq, neq, gt, gte, lt, lte, like, exists,
  in_set, regex, Filter,
}
use omni_logging.Syslog.{itoa, digits_of}
use omni_logging.Store.Conditions.{
  Arg, Go, Sql, column_for, is_attr, compare_sym, marks_for, is_bool_literal, attr_bool_cond,
  attr_bool_text, text_expr, compared, texts, eq_cond, neq_cond, exists_cond, order_cond, cond_of,
}

-- The number of placeholders in a text.
unfoldable pub marks : Text → ℕ
marks [] = 0
marks (c ∷ s) = let rest = marks s in if c == b'?' then rest + 1 else rest

pub marks-append : (s t : Text) → marks (s ++ t) ≡ marks s + marks t
unfolding marks
marks-append [] t = omega arith
marks-append (c ∷ s) t = ground (arith, marks-append s t)

abbrev pub IsBound : {F : Type 0} → Sql F → Type 0
IsBound (text, args) = marks text ≡ length args

marks-column_for : (f : Field) → marks (column_for f) ≡ 0
unfolding marks column_for
marks-column_for level = refl
marks-column_for service = refl
marks-column_for source = refl
marks-column_for message = refl
marks-column_for raw = refl
marks-column_for attr = refl

marks-marks_for : {A : Type 0} (vs : List A) → marks (marks_for vs) ≡ length vs
unfolding marks marks_for
marks-marks_for [] = refl
marks-marks_for (v ∷ []) = refl
marks-marks_for (v ∷ w ∷ vs) = omega (arith, marks-marks_for (w ∷ vs))

marks-compare_sym : (o : Op) → marks (compare_sym o) ≡ 0
unfolding marks compare_sym
marks-compare_sym gt = refl
marks-compare_sym gte = refl
marks-compare_sym lt = refl
marks-compare_sym lte = refl
marks-compare_sym eq = refl
marks-compare_sym neq = refl
marks-compare_sym like = refl
marks-compare_sym exists = refl
marks-compare_sym in_set = refl
marks-compare_sym regex = refl

-- A text without placeholders in front adds none.
pub unmarked : (s t : Text) → marks s ≡ 0 → marks (s ++ t) ≡ marks t
unmarked s t h = omega (arith, marks-append s t)

marks-digit : (d : ℕ) (rest : Text) → d < 10 → marks rest ≡ 0 → marks ((d + b'0') ∷ rest) ≡ 0
unfolding marks
marks-digit d rest small h =
    if-elim (λ (k : ℕ). k ≡ 0) (d + b'0' == b'?') (λ e. absurd (grind (arith, e, small))) (λ _. h)

marks-digits_of : (k n : ℕ) (rest : Text) → marks rest ≡ 0 → marks (digits_of k n rest) ≡ 0
unfolding digits_of
marks-digits_of zero n rest h = h
marks-digits_of (suc k) n rest h =
    if-elim (λ t. marks t ≡ 0) (ltb n 10) (λ e. marks-digit n rest (ltb→lt n 10 e) h)
      (λ _.
        marks-digits_of k (n / 10) ((n % 10 + b'0') ∷ rest)
          (marks-digit (n % 10) rest (omega arith) h))

pub marks-itoa : (n : ℕ) → marks (itoa n) ≡ 0
unfolding itoa marks
marks-itoa n = marks-digits_of (suc n) n [] refl

module _ {F : Type 0} (g : Go F) where
  text_expr-IsBound : (f : Field) (path : Text) → IsBound (text_expr g f path)
  unfolding text_expr marks
  text_expr-IsBound attr path = refl
  text_expr-IsBound level path = marks-column_for level
  text_expr-IsBound service path = marks-column_for service
  text_expr-IsBound source path = marks-column_for source
  text_expr-IsBound message path = marks-column_for message
  text_expr-IsBound raw path = marks-column_for raw

  compared-IsBound :
      (e : Sql F) (rest : Text) (args : List (Arg F))
      → IsBound e
      → marks rest ≡ length args
      → IsBound (compared g e rest args)
  unfolding compared
  compared-IsBound (e, a) rest args h k =
      omega (arith, marks-append e rest, length-append a args, h, k)

  length-texts : (f : Field) (vs : List Text) → length (texts g f vs) ≡ length vs
  unfolding texts
  length-texts f [] = refl
  length-texts f (v ∷ vs) = omega (arith, length-texts f vs)

  attr_bool_cond-IsBound : (path value : Text) → IsBound (attr_bool_cond g path value)
  unfolding attr_bool_cond attr_bool_text marks
  attr_bool_cond-IsBound path value = refl

  eq_cond-IsBound : (b : Bool) (f : Filter) (path : Text) → IsBound (eq_cond g b f path)
  unfolding eq_cond marks
  eq_cond-IsBound true f path = attr_bool_cond-IsBound path f.value
  eq_cond-IsBound false f path =
      compared-IsBound (text_expr g f.field path) _ _ (text_expr-IsBound f.field path) refl

  neq_cond-IsBound : (a b : Bool) (f : Filter) (path : Text) → IsBound (neq_cond g a b f path)
  unfolding neq_cond attr_bool_cond attr_bool_text marks
  neq_cond-IsBound true true f path = refl
  neq_cond-IsBound true false f path = refl
  neq_cond-IsBound false b f path =
      marks-append (column_for f.field) (codes " != ?") ∙ omega (arith, marks-column_for f.field)

  exists_cond-IsBound : (a : Bool) (f : Filter) (path : Text) → IsBound (exists_cond g a f path)
  unfolding exists_cond marks
  exists_cond-IsBound true f path = refl
  exists_cond-IsBound false f path =
      unmarked (column_for f.field)
        (codes " IS NOT NULL AND " ++ (column_for f.field ++ codes " != '')"))
        (marks-column_for f.field)
      ∙ unmarked (column_for f.field) (codes " != '')") (marks-column_for f.field)

  sign : (o : Op) → marks (compare_sym o ++ codes " ?") ≡ 1
  unfolding marks
  sign o = unmarked (compare_sym o) (codes " ?") (marks-compare_sym o)

  order_cond-IsBound :
      (n : Option F) (a : Bool) (o : Op) (f : Filter) (path : Text)
      → IsBound (order_cond g n a (compare_sym o) f path)
  unfolding order_cond marks
  order_cond-IsBound (some n) true o f path = ap (λ (k : ℕ). k + 1) (sign o)
  order_cond-IsBound (some n) false o f path =
      unmarked (column_for f.field) (codes " AS REAL) " ++ (compare_sym o ++ codes " ?"))
        (marks-column_for f.field)
      ∙ sign o
  order_cond-IsBound none a o f path =
      compared-IsBound (text_expr g f.field path) _ _ (text_expr-IsBound f.field path) (sign o)

  pub cond_of-IsBound : (o : Op) (f : Filter) (path : Text) → IsBound (cond_of g o f path)
  unfolding cond_of marks
  cond_of-IsBound eq f path = eq_cond-IsBound (is_attr f.field && is_bool_literal g f.value) f path
  cond_of-IsBound neq f path = neq_cond-IsBound (is_attr f.field) (is_bool_literal g f.value) f path
  cond_of-IsBound in_set f path =
      compared-IsBound (text_expr g f.field path) _ _ (text_expr-IsBound f.field path) (
        omega (
          arith,
          marks-append (marks_for f.values) (codes ")"),
          marks-marks_for f.values,
          length-texts f.field f.values,
        ))
  cond_of-IsBound exists f path = exists_cond-IsBound (is_attr f.field) f path
  cond_of-IsBound like f path =
      compared-IsBound (text_expr g f.field path) _ _ (text_expr-IsBound f.field path) refl
  cond_of-IsBound regex f path =
      compared-IsBound (text_expr g f.field path) _ _ (text_expr-IsBound f.field path) refl
  cond_of-IsBound gt f path = order_cond-IsBound (g.parse_float f.value) (is_attr f.field) gt f path
  cond_of-IsBound gte f path =
      order_cond-IsBound (g.parse_float f.value) (is_attr f.field) gte f path
  cond_of-IsBound lt f path = order_cond-IsBound (g.parse_float f.value) (is_attr f.field) lt f path
  cond_of-IsBound lte f path =
      order_cond-IsBound (g.parse_float f.value) (is_attr f.field) lte f path
