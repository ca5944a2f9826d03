-- ===== src/TableDb/Tests.antt =====
-- Runs of the pager, and the theorems at inputs that meet their hypotheses.
use kalua.Prelude.{
  ℕ, ◌+◌, ◌-◌, ◌*◌, ◌<◌, ◌≤◌, ◌≡◌, refl, ◌⊎◌, true, some, List, [], ◌∷◌, arith, elem, length,
}
use kalua.Prelude.Text.{Text, bytes}
use kalua.Prelude.Ascii.{trim_space, trim_left, trim_right, to_lower}
use kalua.Prelude.Int.{pos}
use kalua.Prelude.Split.{split, join}
use kalua.Klog.Itoa.{itoa, itoa_loop}
use kalua.TableDb.{
  pgx, text, FilterSpec, SortSpec, is_allowed, is_valid_identifier, all_word_bytes, placeholder,
  direction, to_upper, fields, fields_loop,
}
use kalua.TableDb.Sql.{
  operator, clean_parts, placeholders, in_clause, one_clause, operator_clause, option_clause,
  build_filter_clause, base_conds, filter_conds, conditions, keyword_list, base_order, base_orders,
  sort_order, sort_orders, orders,
}
use kalua.TableDb.Safe.{Safe, conditions-Safe}
use kalua.TableDb.Fetch.{
  TableLink, TablePageReq, table, number, Database, pages, fetch_table_page, with_columns,
  find_whitelist, after_count, count_total, count_query_of, count_of, first_count, run, page_result,
  positive_or, ok, TablePageResult, Result,
}
use kalua.TableDb.Pages.{AllTrusted, fetch_table_page-AllTrusted, pages_cover}

abbrev columns : List Text
columns = bytes "id" ∷ bytes "name" ∷ []

-- A field that the whitelist does not have, an IN and a LIKE.
abbrev filters : List FilterSpec
filters =
    record { field = bytes "1=1; --"; op = bytes "="; value = bytes "x" }
    ∷ record { field = bytes "id"; op = bytes " IN "; value = bytes "4, ,5" }
    ∷ record { field = bytes "name"; op = bytes "contains"; value = bytes "a'b" }
    ∷ []

abbrev no_base : List (Text × ℕ)
no_base = []

where_text :
    keyword_list (bytes " WHERE ") (bytes " AND ") (conditions pgx columns no_base filters).conds
    ≡ bytes " WHERE id IN ($1, $2) AND name LIKE $3"
unfolding keyword_list conditions base_conds filter_conds build_filter_clause option_clause operator
    operator_clause one_clause in_clause placeholders placeholder clean_parts split join is_allowed
    is_valid_identifier all_word_bytes elem trim_space trim_left trim_right to_lower itoa itoa_loop
where_text = refl

where_params :
    (conditions pgx columns no_base filters).params
    ≡ text (bytes "4") ∷ text (bytes "5") ∷ text (bytes "%a'b%") ∷ []
unfolding conditions base_conds filter_conds build_filter_clause option_clause operator
    operator_clause one_clause in_clause placeholders clean_parts split is_allowed
    is_valid_identifier all_word_bytes elem trim_space trim_left trim_right to_lower
where_params = refl

abbrev sorts : List SortSpec
sorts =
    record { field = bytes "name"; dir = bytes "desc" }
    ∷ record { field = bytes "age"; dir = bytes "asc" }
    ∷ []

order_text :
    keyword_list
      (bytes " ORDER BY ")
      (bytes ", ")
      (orders columns (bytes "id DESC,  x y z, a;b") sorts)
    ≡ bytes " ORDER BY id DESC, x ASC, name DESC"
unfolding keyword_list orders base_orders base_order sort_orders sort_order direction to_upper
    fields fields_loop split join is_allowed is_valid_identifier all_word_bytes elem trim_space
    trim_left trim_right
order_text = refl

no_sort : orders columns (bytes "id DESC;drop") [] ≡ bytes "id ASC" ∷ []
unfolding orders base_orders base_order sort_orders direction to_upper fields fields_loop split
    is_valid_identifier all_word_bytes trim_space trim_left trim_right
no_sort = refl

conditions-Safe_example :
    Safe
      (λ f. is_allowed columns f ≡ true)
      pgx
      1
      (1 + length (conditions pgx columns no_base filters).params)
      (keyword_list
        (bytes " WHERE ")
        (bytes " AND ")
        (conditions pgx columns no_base filters).conds)
conditions-Safe_example = conditions-Safe columns pgx no_base filters

abbrev people : TableLink ℕ
people = record {
  query = bytes "SELECT * FROM p";
  columns = columns;
  page_size = pos 10;
  count_query = [];
  where_base = (bytes "id", 7) ∷ [];
  order_by = [];
}

-- A database with one row, whose first column is 21.
answer : Database ℕ
answer h q = table columns (((bytes "id", number (pos 21)) ∷ []) ∷ [])

abbrev request : TablePageReq
request = record { page = pos 3; size = pos 0; sort = sorts; filter = [] }

last_of : Result TablePageResult → ℕ
last_of (ok r) = r.last_page
last_of _ = 0

three_pages : last_of (fetch_table_page answer [] (some pgx) people request).1 ≡ 3
unfolding last_of answer fetch_table_page find_whitelist with_columns after_count page_result
    count_total count_query_of count_of first_count run pages positive_or
three_pages = refl

fetch_table_page-AllTrusted_example :
    AllTrusted answer [] pgx people (fetch_table_page answer [] (some pgx) people request).0
fetch_table_page-AllTrusted_example = fetch_table_page-AllTrusted answer [] pgx people request

pages_cover_example :
    (1 ≤ pages (pos 21) 10)
    × (21 ≤ pages (pos 21) 10 * 10)
    × ((pages (pos 21) 10 ≡ 1) ⊎ ((pages (pos 21) 10 - 1) * 10 < 21))
pages_cover_example = pages_cover 21 10 (omega arith) (omega arith)
