-- ===== src/TableDb/Sql.antt =====
-- The WHERE and ORDER BY of a page: buildFilterClause and the first half of FetchTablePage. The next
-- number of a placeholder is passed along as `idx`.
use kalua.Prelude.{
  ℕ, ◌+◌, Option, none, some, List, [], ◌∷◌, ◌++◌, if◌then◌else◌, elem, map, length,
}
use kalua.Prelude.Text.{Text, bytes, text_eq, is_empty}
use kalua.Prelude.Ascii.{trim_space, to_lower}
use kalua.Prelude.Split.{split, join}
use kalua.TableDb.{
  Driver, placeholder, Param, value, text, SortSpec, FilterSpec, is_allowed, is_valid_identifier,
  direction, fields,
}

-- What stands behind the field, for the operators with one value.
pub data Operator : Type 0 where
  compare_by : Text → Operator
  like_any : Operator
  like_start : Operator
  like_end : Operator
  one_of : Operator

-- The cases of the switch, in its order.
abbrev pub operators : List (List Text × Operator)
operators =
    (bytes "=" ∷ bytes "equals" ∷ [], Operator.compare_by (bytes " = "))
    ∷ (bytes "!=" ∷ bytes "<>" ∷ bytes "notequals" ∷ [], Operator.compare_by (bytes " <> "))
    ∷ (bytes "<" ∷ bytes "less" ∷ [], Operator.compare_by (bytes " < "))
    ∷ (bytes "<=" ∷ bytes "lessequal" ∷ bytes "lte" ∷ [], Operator.compare_by (bytes " <= "))
    ∷ (bytes ">" ∷ bytes "greater" ∷ [], Operator.compare_by (bytes " > "))
    ∷ (bytes ">=" ∷ bytes "greaterequal" ∷ bytes "gte" ∷ [], Operator.compare_by (bytes " >= "))
    ∷ (bytes "like" ∷ bytes "contains" ∷ [], Operator.like_any)
    ∷ (bytes "starts" ∷ [], Operator.like_start)
    ∷ (bytes "ends" ∷ [], Operator.like_end)
    ∷ (bytes "in" ∷ [], Operator.one_of)
    ∷ []

unfoldable pub operator : List (List Text × Operator) → Text → Option Operator
unfolding elem
operator [] op = none
operator ((names, o) ∷ cases) op =
    let rest = operator cases op in if elem op names then some o else rest

-- The items of an IN that are not blank.
unfoldable pub clean_parts : List Text → List Text
clean_parts [] = []
clean_parts (p ∷ parts) =
    let rest = clean_parts parts in if is_empty (trim_space p) then rest else trim_space p ∷ rest

unfoldable pub placeholders : Driver → ℕ → List Text → List Text
unfolding placeholder
placeholders d idx [] = []
placeholders d idx (item ∷ items) = placeholder d idx ∷ placeholders d (idx + 1) items

-- A clause with its values and the next index.
pub record Clause (V : Type 0) : Type 0 where
  pub sql : Text
  pub vals : List (Param V)
  pub next : ℕ

-- The conditions with their values so far, and the next index.
pub record Conds (V : Type 0) : Type 0 where
  pub conds : List Text
  pub params : List (Param V)
  pub next : ℕ

module _ {V : Type 0} where
  unfoldable pub in_clause : Driver → Text → ℕ → List Text → Clause V
  unfolding placeholders join
  in_clause d field idx [] = record { sql = bytes "1 = 0"; vals = []; next = idx }
  in_clause d field idx (item ∷ items) = record {
    sql =
        field
        ++ (bytes " IN (" ++ (join (bytes ", ") (placeholders d idx (item ∷ items)) ++ bytes ")"));
    vals = map text (item ∷ items);
    next = idx + 1 + length items;
  }

  -- A clause with one value.
  unfoldable pub one_clause : Driver → Text → Text → ℕ → Text → Clause V
  unfolding placeholder
  one_clause d field sign idx v = record {
    sql = field ++ (sign ++ placeholder d idx);
    vals = text v ∷ [];
    next = idx + 1;
  }

  unfoldable pub operator_clause : Driver → FilterSpec → ℕ → Operator → Clause V
  unfolding one_clause in_clause clean_parts split
  operator_clause d f idx (Operator.compare_by sign) = one_clause d f.field sign idx f.value
  operator_clause d f idx Operator.like_any =
      one_clause d f.field (bytes " LIKE ") idx (bytes "%" ++ (f.value ++ bytes "%"))
  operator_clause d f idx Operator.like_start =
      one_clause d f.field (bytes " LIKE ") idx (f.value ++ bytes "%")
  operator_clause d f idx Operator.like_end =
      one_clause d f.field (bytes " LIKE ") idx (bytes "%" ++ f.value)
  operator_clause d f idx Operator.one_of =
      in_clause d f.field idx (clean_parts (split b',' f.value))

  unfoldable pub option_clause : Driver → FilterSpec → ℕ → Option Operator → Option (Clause V)
  unfolding operator_clause
  option_clause d f idx none = none
  option_clause d f idx (some o) = some (operator_clause d f idx o)

  -- buildFilterClause; `none` is ok = false.
  unfoldable pub build_filter_clause : Driver → List Text → FilterSpec → ℕ → Option (Clause V)
  unfolding is_allowed operator option_clause trim_space to_lower
  build_filter_clause d whitelist f idx =
      if is_allowed whitelist f.field
      then option_clause d f idx (operator operators (to_lower (trim_space f.op)))
      else none

  abbrev pub no_conds : Conds V
  no_conds = record { conds = []; params = []; next = 1 }

  abbrev pub add_clause : Conds V → Clause V → Conds V
  add_clause c k = record {
    conds = c.conds ++ (k.sql ∷ []);
    params = c.params ++ k.vals;
    next = k.next;
  }

  -- The loop over the base filter.
  unfoldable pub base_conds : Driver → List Text → List (Text × V) → Conds V → Conds V
  unfolding is_allowed placeholder
  base_conds d whitelist [] c = c
  base_conds d whitelist ((col, v) ∷ rest) c = base_conds d whitelist rest (
      if is_allowed whitelist col
      then add_clause c (record {
        sql = col ++ (bytes " = " ++ placeholder d c.next);
        vals = value v ∷ [];
        next = c.next + 1;
      })
      else c)

  abbrev pub add_option : Conds V → Option (Clause V) → Conds V
  add_option c none = c
  add_option c (some k) = add_clause c k

  -- The loop over the browser's filters.
  unfoldable pub filter_conds : Driver → List Text → List FilterSpec → Conds V → Conds V
  unfolding build_filter_clause
  filter_conds d whitelist [] c = c
  filter_conds d whitelist (f ∷ fs) c =
      filter_conds d whitelist fs (add_option c (build_filter_clause d whitelist f c.next))

  unfoldable pub conditions : Driver → List Text → List (Text × V) → List FilterSpec → Conds V
  unfolding base_conds filter_conds
  conditions d whitelist base fs =
      filter_conds d whitelist fs (base_conds d whitelist base no_conds)

-- " WHERE " and " ORDER BY ": a list of parts after its keyword, and nothing for an empty list.
unfoldable pub keyword_list : Text → Text → List Text → Text
unfolding join
keyword_list keyword sep [] = []
keyword_list keyword sep (s ∷ parts) = keyword ++ join sep (s ∷ parts)

-- One part of the base order.
unfoldable pub base_order : List Text → Option Text
unfolding is_valid_identifier direction
base_order [] = none
base_order (f ∷ []) = if is_valid_identifier f then some f else none
base_order (f ∷ d ∷ rest) =
    if is_valid_identifier f then some (f ++ (bytes " " ++ direction d)) else none

abbrev pub add_part : Option Text → List Text → List Text
add_part none parts = parts
add_part (some s) parts = s ∷ parts

unfoldable pub base_orders : List Text → List Text
unfolding base_order fields trim_space
base_orders [] = []
base_orders (part ∷ parts) = add_part (base_order (fields (trim_space part))) (base_orders parts)

unfoldable pub sort_order : List Text → SortSpec → Option Text
unfolding is_allowed direction
sort_order whitelist s =
    if is_allowed whitelist s.field then some (s.field ++ (bytes " " ++ direction s.dir)) else none

unfoldable pub sort_orders : List Text → List SortSpec → List Text
unfolding sort_order
sort_orders whitelist [] = []
sort_orders whitelist (s ∷ rest) = add_part (sort_order whitelist s) (sort_orders whitelist rest)

-- The base order comes first; an empty one is split into one blank part, which gives nothing.
unfoldable pub orders : List Text → Text → List SortSpec → List Text
unfolding base_orders sort_orders split
orders whitelist order_by sorts =
    (if is_empty order_by then [] else base_orders (split b',' order_by))
    ++ sort_orders whitelist sorts
