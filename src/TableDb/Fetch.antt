-- ===== src/TableDb/Fetch.antt =====
-- FetchTablePage of internal/bindings/tabledb.go, with factoryColumns, runCount and LimitClause. An int is
-- of 64 bits. The list of the queries that were run is passed along.
use kalua.Prelude.{
  ℕ, zero, suc, ◌+◌, ◌-◌, ◌*◌, ◌/◌, ◌%◌, ◌^◌, Option, none, some, List, [], ◌∷◌, ◌++◌, ltb,
  if◌then◌else◌,
}
use kalua.Prelude.Text.{Text, bytes, is_empty}
use kalua.Prelude.Int.{ℤ, pos, negsuc}
use kalua.Klog.Itoa.{itoa}
use kalua.TableDb.{Driver, sqlserver, pgx, other, Param, SortSpec, FilterSpec}
use kalua.TableDb.Sql.{Conds, conditions, keyword_list, orders}

pub record TableLink (V : Type 0) : Type 0 where
  pub query : Text
  pub columns : List Text
  pub page_size : ℤ
  pub count_query : Text
  pub where_base : List (Text × V)
  pub order_by : Text

pub record TablePageReq : Type 0 where
  pub page : ℤ
  pub size : ℤ
  pub sort : List SortSpec
  pub filter : List FilterSpec

pub record Query (V : Type 0) : Type 0 where
  pub sql : Text
  pub params : List (Param V)

-- A value of a row: what `int(n)` or Sscanf makes of it, if it is an int64, a float64 or bytes.
pub data Cell : Type 0 where
  number : ℤ → Cell
  no_number : Cell

abbrev pub Row : Type 0
Row = List (Text × Cell)

-- What executeDBQuery returns.
pub data Answer : Type 0 where
  failed : Text → Answer
  no_map : Answer
  table : List Text → List Row → Answer

-- The database: its answer after the queries that were run before.
abbrev pub Database : Type 0 → Type 0
Database V = List (Query V) → Query V → Answer

pub data FetchError : Type 0 where
  no_handle : FetchError
  query_failed : Text → FetchError
  probe_failed : FetchError
  no_columns : FetchError
  unexpected : FetchError

pub data Result (A : Type 0) : Type 0 where
  ok : A → Result A
  err : FetchError → Result A

pub record TablePageResult : Type 0 where
  pub columns : List Text
  pub rows : List Row
  pub last_page : ℕ

abbrev pub two_63 : ℕ
two_63 = 2 ^ 63

abbrev pub two_64 : ℕ
two_64 = 2 ^ 64

-- %d of an int that was computed modulo 2^64
unfoldable pub print_int : ℕ → Text
unfolding itoa
print_int n = let w = n % two_64 in if ltb w two_63 then itoa w else bytes "-" ++ itoa (two_64 - w)

-- LimitClause
unfoldable pub limit_clause : Driver → ℕ → ℕ → Text
unfolding print_int
limit_clause sqlserver size offset =
    bytes " OFFSET "
    ++ (print_int offset ++ (bytes " ROWS FETCH NEXT " ++ (print_int size ++ bytes " ROWS ONLY")))
limit_clause pgx size offset =
    bytes " LIMIT " ++ (print_int size ++ (bytes " OFFSET " ++ print_int offset))
limit_clause other size offset =
    bytes " LIMIT " ++ (print_int size ++ (bytes " OFFSET " ++ print_int offset))

-- `if n <= 0 { n = d }`
unfoldable pub positive_or : ℤ → ℕ → ℕ
positive_or (pos zero) d = d
positive_or (pos (suc n)) d = suc n
positive_or (negsuc n) d = d

-- (total + size - 1) / size with the sum of 64 bits, and at least 1. The sum of a total below 0 and
-- a sum that wraps around give a quotient of at most 0.
abbrev pub at_least_one : ℕ → ℕ
at_least_one zero = 1
at_least_one (suc n) = suc n

unfoldable pub pages : ℤ → ℕ → ℕ
pages (pos total) size =
    if ltb (total + size - 1) two_63 then at_least_one ((total + size - 1) / size) else 1
pages (negsuc total) size = 1

abbrev pub from_query : Text → Text
from_query query = bytes "FROM (" ++ (query ++ bytes ") ENV_PAGE")

abbrev pub select_all : Text → Text
select_all query = bytes "SELECT * " ++ from_query query

abbrev pub select_count : Text → Text
select_count query = bytes "SELECT COUNT(*) " ++ from_query query

-- The loop over the first row.
unfoldable pub first_count : Row → ℤ
first_count [] = pos 0
first_count ((col, number n) ∷ cells) = n
first_count ((col, no_number) ∷ cells) = first_count cells

unfoldable pub order_sql : List Text → Text
unfolding keyword_list
order_sql parts = keyword_list (bytes " ORDER BY ") (bytes ", ") parts

module _ {V : Type 0} where
  unfoldable pub columns_of : List (Query V) × Answer → List (Query V) × Result (List Text)
  columns_of (h, failed e) = (h, err (query_failed e))
  columns_of (h, no_map) = (h, err probe_failed)
  columns_of (h, table [] rows) = (h, err no_columns)
  columns_of (h, table (c ∷ cs) rows) = (h, ok (c ∷ cs))

  abbrev pub probe : Text → Text → Query V
  probe query limit = record { sql = select_all query ++ limit; params = [] }

  unfoldable pub count_of : List (Query V) × Answer → List (Query V) × Result ℤ
  unfolding first_count
  count_of (h, failed e) = (h, err (query_failed e))
  count_of (h, no_map) = (h, ok (pos 0))
  count_of (h, table cs []) = (h, ok (pos 0))
  count_of (h, table cs (row ∷ rows)) = (h, ok (first_count row))

  unfoldable pub where_sql : Conds V → Text
  unfolding keyword_list
  where_sql c = keyword_list (bytes " WHERE ") (bytes " AND ") c.conds

  -- The count query: the author's as it is, or one with the same WHERE.
  unfoldable pub count_query_of : TableLink V → Conds V → Query V
  unfolding where_sql
  count_query_of link c =
      if is_empty link.count_query
      then record { sql = select_count link.query ++ where_sql c; params = c.params }
      else record { sql = link.count_query; params = [] }

  unfoldable pub page_result : ℕ → List (Query V) × Answer → List (Query V) × Result TablePageResult
  page_result last (h, failed e) = (h, err (query_failed e))
  page_result last (h, no_map) = (h, err unexpected)
  page_result last (h, table cs rows) =
      (h, ok (record { columns = cs; rows = rows; last_page = last }))

  unfoldable pub page_query : Driver → TableLink V → Conds V → List Text → ℕ → ℕ → Query V
  unfolding where_sql order_sql limit_clause
  page_query d link c parts size page = record {
    sql =
        select_all link.query
        ++ (where_sql c ++ (order_sql parts ++ limit_clause d size ((page - 1) * size)));
    params = c.params;
  }

module _ {V : Type 0} (db : Database V) where
  unfoldable pub run : List (Query V) → Query V → List (Query V) × Answer
  run h q = (h ++ (q ∷ []), db h q)

  unfoldable pub after_probe : Text → List (Query V) × Answer → List (Query V) × Result (List Text)
  unfolding columns_of run
  after_probe query (h, failed e) = columns_of (run h (probe query (bytes " LIMIT 1")))
  after_probe query (h, no_map) = columns_of (h, no_map)
  after_probe query (h, table cs rows) = columns_of (h, table cs rows)

  unfoldable pub factory_columns : List (Query V) → Text → List (Query V) × Result (List Text)
  unfolding after_probe run
  factory_columns h query = after_probe query (run h (probe query (bytes " LIMIT 0")))

  unfoldable pub count_total : List (Query V) → TableLink V → Conds V → List (Query V) × Result ℤ
  unfolding count_of run count_query_of
  count_total h link c = count_of (run h (count_query_of link c))

  unfoldable pub after_count :
      Driver
      → TableLink V
      → TablePageReq
      → Conds V
      → List Text
      → List (Query V) × Result ℤ
      → List (Query V) × Result TablePageResult
  unfolding page_result page_query run pages positive_or
  after_count d link req c parts (h, err e) = (h, err e)
  after_count d link req c parts (h, ok total) =
      let size = positive_or req.size (positive_or link.page_size 25) in
      page_result (pages total size)
        (run h (page_query d link c parts size (positive_or req.page 1)))

  unfoldable pub with_columns :
      Driver
      → TableLink V
      → TablePageReq
      → List (Query V) × Result (List Text)
      → List (Query V) × Result TablePageResult
  unfolding after_count count_total conditions orders
  with_columns d link req (h, err e) = (h, err e)
  with_columns d link req (h, ok whitelist) =
      let c = conditions d whitelist link.where_base req.filter in
      after_count d link req c (orders whitelist link.order_by req.sort) (count_total h link c)

  -- The whitelist: the mapped columns, or those that a probe finds.
  unfoldable pub find_whitelist :
      List (Query V) → Text → List Text → List (Query V) × Result (List Text)
  unfolding factory_columns
  find_whitelist h query [] = factory_columns h query
  find_whitelist h query (c ∷ cs) = (h, ok (c ∷ cs))

  -- `none` is a handle that getDBHandle does not find.
  unfoldable pub fetch_table_page :
      List (Query V)
      → Option Driver
      → TableLink V
      → TablePageReq
      → List (Query V) × Result TablePageResult
  unfolding with_columns find_whitelist
  fetch_table_page h none link req = (h, err no_handle)
  fetch_table_page h (some d) link req =
      with_columns d link req (find_whitelist h link.query link.columns)
