-- ===== src/TableDb/Pages.antt =====
-- What FetchTablePage asks of the database, and how its pages divide the rows.
use native.Mathlib.Nat.{div-mul-le_self, lt-div-mul-add}
use kalua.Prelude.{
  ℕ, zero, suc, ◌+◌, ◌-◌, ◌*◌, ◌/◌, ◌<◌, ◌≤◌, ◌≡◌, refl, sym, ap, ◌∙◌, ◌⊎◌, inl, inr, true, false,
  some, List, [], ◌∷◌, ◌++◌, append_assoc, append-nil, ltb, arith, All, length, Bool-cases,
}
use kalua.Prelude.Text.{Text, bytes, text_eq, is_empty}
use kalua.Prelude.Int.{ℤ, pos}
use kalua.TableDb.{Driver, is_allowed, is_valid_identifier}
use kalua.TableDb.Sql.{conditions, orders}
use kalua.TableDb.Safe.{Safe, conditions-Safe, orders-Safe}
use kalua.TableDb.Fetch.{
  TableLink, TablePageReq, Query, Row, Answer, failed, no_map, table, Database, Result, ok, err,
  two_63, limit_clause, positive_or, pages, at_least_one, select_all, select_count, run, columns_of,
  probe, after_probe, factory_columns, count_of, count_total, count_query_of, where_sql, order_sql,
  page_result, page_query, after_count, with_columns, find_whitelist, fetch_table_page,
}

-- The columns that the probes of a page find, where h is what was asked before: those of the first
-- probe, or those of the second if the first has an error.
pub Probed : {V : Type 0} → Database V → List (Query V) → Text → List Text → Type 0
Probed {V} db h query ws =
    let first : Query V = record { sql = select_all query ++ bytes " LIMIT 0"; params = [] } in
    let second : Query V = record { sql = select_all query ++ bytes " LIMIT 1"; params = [] } in
    ((rows : List Row) × (db h first ≡ table ws rows))
    ⊎ ((e : Text) × (rows : List Row) × (db h first ≡ failed e)
        × (db (h ++ (first ∷ [])) second ≡ table ws rows))

-- The whitelist of a page: the mapped columns of the link, or what its probes find if it has none.
pub IsWhitelist : {V : Type 0} → Database V → List (Query V) → TableLink V → List Text → Type 0
unfolding Probed
IsWhitelist db h link ws =
    ((c : Text) × (cs : List Text) × (link.columns ≡ c ∷ cs) × (ws ≡ c ∷ cs))
    ⊎ ((link.columns ≡ []) × Probed db h link.query ws)

-- The queries that a link lets run. In a derived one a text of the browser stands only in the
-- parameters, and every name in the WHERE is one of the whitelist.
pub data Trusted {V : Type 0} (db : Database V) (start : List (Query V)) (d : Driver)
    (link : TableLink V) : Query V → Type 0 where
  probes :
      (limit : Text)
      → (limit ≡ bytes " LIMIT 0") ⊎ (limit ≡ bytes " LIMIT 1")
      → link.columns ≡ []
      → Trusted db start d link (record { sql = select_all link.query ++ limit; params = [] })
  counts :
      is_empty link.count_query ≡ false
      → Trusted db start d link (record { sql = link.count_query; params = [] })
  derived_count :
      (whitelist : List Text) (q : Query V) (w : Text)
      → IsWhitelist db start link whitelist
      → Safe (λ f. is_allowed whitelist f ≡ true) d 1 (1 + length q.params) w
      → q.sql ≡ select_count link.query ++ w
      → Trusted db start d link q
  page_of :
      (whitelist : List Text) (q : Query V) (w o : Text) (size offset : ℕ)
      → IsWhitelist db start link whitelist
      → Safe (λ f. is_allowed whitelist f ≡ true) d 1 (1 + length q.params) w
      → Safe (λ f. is_valid_identifier f ≡ true) d 1 1 o
      → q.sql ≡ select_all link.query ++ (w ++ (o ++ limit_clause d size offset))
      → Trusted db start d link q

ok_inj : {A : Type 0} {x y : A} → ok x ≡ ok y → x ≡ y
ok_inj e = cc

module _ {V : Type 0} (db : Database V) (start : List (Query V)) (d : Driver)
    (link : TableLink V) where
  -- The queries since the start are trusted.
  abbrev pub AllTrusted : List (Query V) → Type 0
  AllTrusted h = (qs : List (Query V)) × (h ≡ start ++ qs) × All (λ q. Trusted db start d link q) qs

  All-snoc :
      (qs : List (Query V)) (q : Query V)
      → All (λ x. Trusted db start d link x) qs
      → Trusted db start d link q
      → All (λ x. Trusted db start d link x) (qs ++ (q ∷ []))
  All-snoc [] q v t = (t, tt)
  All-snoc (x ∷ qs) q v t = (v.0, All-snoc qs q v.1 t)

  AllTrusted-snoc :
      (h : List (Query V)) (q : Query V)
      → AllTrusted h
      → Trusted db start d link q
      → AllTrusted (h ++ (q ∷ []))
  AllTrusted-snoc h q (qs, e, v) t = (
    qs ++ (q ∷ []),
    ap (λ xs. xs ++ (q ∷ [])) e ∙ append_assoc start qs (q ∷ []),
    All-snoc qs q v t,
  )

  page_result-history :
      (last : ℕ) (h : List (Query V)) (a : Answer) → (page_result last (h, a)).0 ≡ h
  unfolding page_result
  page_result-history last h (failed e) = refl
  page_result-history last h no_map = refl
  page_result-history last h (table cs rows) = refl

  count_of-history : (h : List (Query V)) (a : Answer) → (count_of (h, a)).0 ≡ h
  unfolding count_of
  count_of-history h (failed e) = refl
  count_of-history h no_map = refl
  count_of-history h (table cs []) = refl
  count_of-history h (table cs (row ∷ rows)) = refl

  module _ (req : TablePageReq) (whitelist : List Text)
      (w : IsWhitelist db start link whitelist) where
    page_query-Trusted :
        (size page : ℕ)
        → Trusted db start d link (
            page_query d link
              (conditions d whitelist link.where_base req.filter)
              (orders whitelist link.order_by req.sort)
              size
              page)
    unfolding page_query where_sql order_sql
    page_query-Trusted size page =
        page_of whitelist _ _ _ size ((page - 1) * size) w
          (conditions-Safe whitelist d link.where_base req.filter)
          (orders-Safe d whitelist link.order_by req.sort).0 refl

    count_query_of-Trusted :
        Trusted db start d link
          (count_query_of link (conditions d whitelist link.where_base req.filter))
    unfolding count_query_of where_sql
    count_query_of-Trusted = elim (Bool-cases (is_empty link.count_query)) [
      | inl e ↦ rw e (
          derived_count whitelist _ _ w (conditions-Safe whitelist d link.where_base req.filter)
            refl)
      | inr e ↦ rw e (counts e)
    ]

    count_total-AllTrusted :
        (h : List (Query V))
        → AllTrusted h
        → AllTrusted (count_total db h link (conditions d whitelist link.where_base req.filter)).0
    unfolding count_total run
    count_total-AllTrusted h v =
        let q = count_query_of link (conditions d whitelist link.where_base req.filter) in
        rw (count_of-history (h ++ (q ∷ [])) (db h q))
          (AllTrusted-snoc h q v count_query_of-Trusted)

  columns_of-history : (h : List (Query V)) (a : Answer) → (columns_of (h, a)).0 ≡ h
  unfolding columns_of
  columns_of-history h (failed e) = refl
  columns_of-history h no_map = refl
  columns_of-history h (table [] rows) = refl
  columns_of-history h (table (c ∷ cs) rows) = refl

  after_probe-AllTrusted :
      (h : List (Query V)) (a : Answer)
      → link.columns ≡ []
      → AllTrusted h
      → AllTrusted (after_probe db link.query (h, a)).0
  unfolding after_probe run
  after_probe-AllTrusted h (failed e) c v =
      rw
        (columns_of-history (h ++ (probe link.query (bytes " LIMIT 1") ∷ []))
          (db h (probe link.query (bytes " LIMIT 1"))))
        (AllTrusted-snoc h _ v (probes (bytes " LIMIT 1") (inr refl) c))
  after_probe-AllTrusted h no_map c v = rw (columns_of-history h no_map) v
  after_probe-AllTrusted h (table cs rows) c v = rw (columns_of-history h (table cs rows)) v

  find_whitelist-AllTrusted :
      (h : List (Query V)) (cs : List Text)
      → link.columns ≡ cs
      → AllTrusted h
      → AllTrusted (find_whitelist db h link.query cs).0
  unfolding find_whitelist factory_columns run
  find_whitelist-AllTrusted h [] c v =
      after_probe-AllTrusted _ (db h (probe link.query (bytes " LIMIT 0"))) c
        (AllTrusted-snoc h _ v (probes (bytes " LIMIT 0") (inl refl) c))
  find_whitelist-AllTrusted h (x ∷ xs) c v = v

  after_count-AllTrusted :
      (req : TablePageReq) (whitelist : List Text)
      → IsWhitelist db start link whitelist
      → (h : List (Query V)) (total : Result ℤ) → AllTrusted h
      → AllTrusted
          (after_count db d link req
            (conditions d whitelist link.where_base req.filter)
            (orders whitelist link.order_by req.sort)
            (h, total)).0
  unfolding after_count run
  after_count-AllTrusted req whitelist w h (err e) v = v
  after_count-AllTrusted req whitelist w h (ok total) v =
      let size = positive_or req.size (positive_or link.page_size 25) in
      let page = positive_or req.page 1 in
      let q =
        page_query d link (conditions d whitelist link.where_base req.filter)
          (orders whitelist link.order_by req.sort) size page in
      rw (page_result-history (pages total size) (h ++ (q ∷ [])) (db h q))
        (AllTrusted-snoc h q v (page_query-Trusted req whitelist w size page))

  with_columns-AllTrusted :
      (req : TablePageReq) (r : List (Query V) × Result (List Text))
      → AllTrusted r.0
      → ((ws : List Text) → r.1 ≡ ok ws → IsWhitelist db start link ws)
      → AllTrusted (with_columns db d link req r).0
  unfolding with_columns
  with_columns-AllTrusted req (h, err e) v w = v
  with_columns-AllTrusted req (h, ok whitelist) v w =
      let c = conditions d whitelist link.where_base req.filter in
      let t = count_total db h link c in
      after_count-AllTrusted req whitelist (w whitelist refl) t.0 t.1
        (count_total-AllTrusted req whitelist (w whitelist refl) h v)

  columns_of-table :
      (h : List (Query V)) (a : Answer) (ws : List Text)
      → (columns_of (h, a)).1 ≡ ok ws
      → (rows : List Row) × (a ≡ table ws rows)
  unfolding columns_of
  columns_of-table h (failed e) ws f = cc
  columns_of-table h no_map ws f = cc
  columns_of-table h (table [] rows) ws f = cc
  columns_of-table h (table (c ∷ cs) rows) ws f = (rows, ap (λ xs. table xs rows) (ok_inj f))

  after_probe-Probed :
      (a : Answer) (ws : List Text)
      → db start (probe link.query (bytes " LIMIT 0")) ≡ a
      → (after_probe db link.query (start ++ (probe link.query (bytes " LIMIT 0") ∷ []), a)).1
        ≡ ok ws
      → Probed db start link.query ws
  unfolding Probed after_probe run
  after_probe-Probed (failed e) ws g f =
      let (rows, t) = columns_of-table _ _ ws f in inr (e, rows, g, t)
  after_probe-Probed no_map ws g f =
      let (rows, t) =
        columns_of-table (start ++ (probe link.query (bytes " LIMIT 0") ∷ [])) no_map ws f in
      cc t
  after_probe-Probed (table cs rows) ws g f =
      let (rows2, t) = columns_of-table _ (table cs rows) ws f in inl (rows2, g ∙ t)

  find_whitelist-IsWhitelist :
      (cs ws : List Text)
      → link.columns ≡ cs
      → (find_whitelist db start link.query cs).1 ≡ ok ws
      → IsWhitelist db start link ws
  unfolding IsWhitelist find_whitelist factory_columns run
  find_whitelist-IsWhitelist [] ws e f = inr (e, after_probe-Probed _ ws refl f)
  find_whitelist-IsWhitelist (c ∷ cs) ws e f = inl (c, cs, e, sym (ok_inj f))

  -- Whatever the browser asks for and the database answers, every query that a page runs is a probe, if the
  -- link has no mapped columns, the count query of the link, or a count or a page of the link's query
  -- whose WHERE has only fixed words, whitelisted identifiers and one placeholder for each parameter, numbered from
  -- 1 in their order, and whose ORDER BY has only fixed words and identifiers. The whitelist is the mapped
  -- columns of the link, or if it has none the columns that the database answers to its probe.
  pub fetch_table_page-AllTrusted :
      (req : TablePageReq) → AllTrusted (fetch_table_page db start (some d) link req).0
  unfolding fetch_table_page
  fetch_table_page-AllTrusted req =
      with_columns-AllTrusted req (find_whitelist db start link.query link.columns)
        (find_whitelist-AllTrusted start link.columns refl ([], sym (append-nil start), tt))
        (λ ws. find_whitelist-IsWhitelist link.columns ws refl)

quotient_cover :
    (total size q : ℕ)
    → 1 ≤ size
    → q * size ≤ total + size - 1
    → total + size - 1 < q * size + size
    → (1 ≤ at_least_one q)
      × (total ≤ at_least_one q * size)
      × ((at_least_one q ≡ 1) ⊎ ((at_least_one q - 1) * size < total))
quotient_cover total size zero s lo hi = (omega arith, omega arith, inl refl)
quotient_cover total size (suc k) s lo hi =
    let e : suc k * size ≡ k * size + size = grind arith in
    let f : suc k - 1 ≡ k = omega arith in (omega arith, omega arith, inr (rw f (omega arith)))

-- For a total of rows and a size of at least 1 whose sum is at most 2^63, there is at least one page,
-- the pages up to the last hold all rows, and the last page is the first one or holds at least one row.
pub pages_cover :
    (total size : ℕ)
    → 1 ≤ size
    → total + size ≤ two_63
    → (1 ≤ pages (pos total) size)
      × (total ≤ pages (pos total) size * size)
      × ((pages (pos total) size ≡ 1) ⊎ ((pages (pos total) size - 1) * size < total))
unfolding pages
pages_cover total size s b =
    let n = total + size - 1 in
    let below : ltb n two_63 ≡ true = ground arith in
    rw below (
      quotient_cover total size (n / size) s (div-mul-le_self n size)
        (lt-div-mul-add {a = n} {b = size} (omega arith)))
