-- ===== src/Plan/Predicates.antt =====
-- sql/planner.rs: predicate pushdown.
pub mod Split
use heliondb.Base.{
  ℕ, String, Bool, true, false, not, ◌&&◌, Option, none, some, List, [], ◌∷◌, ◌++◌, Ordering,
  if◌then◌else◌, any, all, retain, length, leb, ◌==◌, map,
}
use heliondb.Base.Text.{eq_ignore_ascii_case, str_eq}
use heliondb.Types.Datum.{Datum}
use heliondb.Types.Column.{ColumnMeta}
use heliondb.Types.Order.{cmp_str}
use heliondb.Error.{Result, ok, err, ◌>>=◌, column_not_found}
use heliondb.Expr.Syntax.{
  Expression, Expressions, column, qualified_column, literal, binary_op, unary_op, is_in, between,
  call, nil, cons, BinaryOperator,
}
use heliondb.Plan.Syntax.{LogicalPlan, table_scan, join, projection, sort, limit}

pub record TableInfo : Type 0 where
  pub name : String
  pub columns : List ColumnMeta

-- In the code a `Result`, which is always `Ok`; so are those of the passes below.
unfoldable pub collect_table_info : LogicalPlan → List TableInfo
collect_table_info (table_scan table columns _ _ _) =
    record { name = table; columns = columns } ∷ []
collect_table_info (join left right _ _) = collect_table_info left ++ collect_table_info right
collect_table_info (LogicalPlan.filter input _) = collect_table_info input
collect_table_info (projection input _ _) = collect_table_info input
collect_table_info (sort input _) = collect_table_info input
collect_table_info (limit input _ _) = collect_table_info input
collect_table_info _ = []

-- `sort` and `dedup` on names.
insert_name : String → List String → List String
unfolding cmp_str
insert_name s [] = s ∷ []
insert_name s (t ∷ ts) =
    let rest = insert_name s ts in elim (cmp_str s t) [ Ordering.gt ↦ t ∷ rest | _ ↦ s ∷ t ∷ ts ]

sort_names : List String → List String
unfolding insert_name
sort_names [] = []
sort_names (s ∷ ss) = insert_name s (sort_names ss)

dedup : List String → List String
dedup [] = []
dedup (s ∷ []) = s ∷ []
dedup (s ∷ t ∷ ss) = let rest = dedup (t ∷ ss) in if str_eq s t then rest else s ∷ rest

unfoldable pub sorted_names : List String → List String
unfolding sort_names dedup
sorted_names names = dedup (sort_names names)

-- The tables that have the column.
unfoldable tables_with : String → List TableInfo → List String
tables_with name tables =
    map (λ ti. ti.name)
      (retain (λ ti. any (λ c. eq_ignore_ascii_case c.name name) ti.columns) tables)

some_table : String → List String → Result (List String)
some_table name [] = err (column_not_found name)
some_table name (t ∷ ts) = ok (t ∷ ts)

unfoldable mutual
  unfolding sorted_names tables_with some_table

  pub referenced_tables : Expression → List TableInfo → Result (List String)
  referenced_tables (column name) tables = some_table name (tables_with name tables)
  referenced_tables (qualified_column t _) tables = ok (t ∷ [])
  referenced_tables (literal _) tables = ok []
  referenced_tables (binary_op left _ right) tables = do
    l ← referenced_tables left tables
    r ← referenced_tables right tables
    ok (sorted_names (l ++ r))
  referenced_tables (unary_op _ inner) tables = referenced_tables inner tables
  referenced_tables (Expression.is_null inner) tables = referenced_tables inner tables
  referenced_tables (Expression.is_not_null inner) tables = referenced_tables inner tables
  referenced_tables (is_in inner _) tables = referenced_tables inner tables
  referenced_tables (between inner low high) tables = do
    t ← referenced_tables inner tables
    l ← referenced_tables low tables
    h ← referenced_tables high tables
    ok (sorted_names ((t ++ l) ++ h))
  referenced_tables (Expression.like inner _) tables = referenced_tables inner tables
  referenced_tables (call _ args) tables = do
    t ← referenced_tables_args args tables
    ok (sorted_names t)

  pub referenced_tables_args : Expressions → List TableInfo → Result (List String)
  referenced_tables_args nil tables = ok []
  referenced_tables_args (cons e es) tables = do
    t ← referenced_tables e tables
    ts ← referenced_tables_args es tables
    ok (t ++ ts)

unfoldable pub decompose_conjunction : Expression → List Expression
decompose_conjunction (binary_op left BinaryOperator.and right) =
    decompose_conjunction left ++ decompose_conjunction right
decompose_conjunction other = other ∷ []

reduce_and : Expression → List Expression → Expression
reduce_and a [] = a
reduce_and a (b ∷ parts) = reduce_and (binary_op a BinaryOperator.and b) parts

unfoldable pub recompose_conjunction : List Expression → Expression
unfolding reduce_and
recompose_conjunction [] = literal (Datum.boolean true)
recompose_conjunction (a ∷ parts) = reduce_and a parts

-- May the predicate go to the side that holds the tables `names`?
unfoldable pub only_from : List TableInfo → List TableInfo → Expression → Bool
unfolding referenced_tables
only_from tables side p = elim (referenced_tables p tables) [
  | err _ ↦ false
  | ok t ↦ length t == 1 && all (λ tn. any (λ ti. str_eq ti.name tn) side) t
]

unfoldable pub at_most_one_table : List TableInfo → Expression → Bool
unfolding referenced_tables
at_most_one_table tables e = elim (referenced_tables e tables) [
  | err _ ↦ false
  | ok tnames ↦ leb (length tnames) 1
]

-- `Filter` over the plan where predicates are left.
unfoldable pub filter_by : List Expression → LogicalPlan → LogicalPlan
unfolding recompose_conjunction
filter_by [] plan = plan
filter_by (p ∷ ps) plan = LogicalPlan.filter plan (recompose_conjunction (p ∷ ps))

-- The filter of a scan, taken together with the predicates.
with_filter : Option Expression → List Expression → Expression
unfolding decompose_conjunction recompose_conjunction
with_filter none predicates = recompose_conjunction predicates
with_filter (some existing) predicates =
    recompose_conjunction (decompose_conjunction existing ++ predicates)

unfoldable pub push_predicates_into : LogicalPlan → List Expression → LogicalPlan
unfolding only_from collect_table_info filter_by with_filter
push_predicates_into plan [] = plan
push_predicates_into (table_scan table columns filter index_name index_keys) (p ∷ ps) =
    table_scan table columns (some (with_filter filter (p ∷ ps))) index_name index_keys
push_predicates_into (join left right join_type algorithm) (p ∷ ps) =
    let left_info = collect_table_info left in
    let right_info = collect_table_info right in
    let to_left = only_from (left_info ++ right_info) left_info in
    let to_right = only_from (left_info ++ right_info) right_info in
    let rest = retain (λ e. not (to_left e)) (p ∷ ps) in
    filter_by (retain (λ e. not (to_right e)) rest) (
      join (push_predicates_into left (retain to_left (p ∷ ps)))
        (push_predicates_into right (retain to_right rest)) join_type algorithm)
push_predicates_into (projection input columns table_map) (p ∷ ps) =
    projection (push_predicates_into input (p ∷ ps)) columns table_map
push_predicates_into (sort input order_by) (p ∷ ps) =
    sort (push_predicates_into input (p ∷ ps)) order_by
push_predicates_into (limit input n offset) (p ∷ ps) =
    limit (push_predicates_into input (p ∷ ps)) n offset
push_predicates_into other (p ∷ ps) = LogicalPlan.filter other (recompose_conjunction (p ∷ ps))

unfoldable pub push_down_predicates : LogicalPlan → LogicalPlan
unfolding at_most_one_table push_predicates_into
push_down_predicates (LogicalPlan.filter input predicate) =
    let conjuncts = decompose_conjunction predicate in
    let pushable = at_most_one_table (collect_table_info input) in
    filter_by (retain (λ e. not (pushable e)) conjuncts)
      (push_predicates_into input (retain pushable conjuncts))
push_down_predicates (join left right join_type algorithm) =
    join (push_down_predicates left) (push_down_predicates right) join_type algorithm
push_down_predicates (projection input columns table_map) =
    projection (push_down_predicates input) columns table_map
push_down_predicates (sort input order_by) = sort (push_down_predicates input) order_by
push_down_predicates (limit input n offset) = limit (push_down_predicates input) n offset
push_down_predicates other = other
