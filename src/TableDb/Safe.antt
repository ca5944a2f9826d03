-- ===== src/TableDb/Safe.antt =====
-- What can stand in the SQL of a page: fixed words, names that pass a test, and the placeholders of the
-- parameters, each once and in order.
use kalua.Prelude.{
  ℕ, ◌+◌, ◌≡◌, refl, inl, inr, Bool, true, false, Option, none, some, List, [], ◌∷◌, ◌++◌,
  append-nil, append_assoc, length, Bool-cases, length-append, length-map, if◌then◌else◌, elem,
  arith,
}
use mathlib.Core.Path.{subst}
use kalua.Prelude.Text.{Text, bytes, text_beq, text_eq, is_empty}
use kalua.Prelude.Ascii.{trim_space, to_lower}
use kalua.Prelude.Split.{split, join}
use kalua.TableDb.{
  Driver, placeholder, Param, text, SortSpec, FilterSpec, is_allowed, is_valid_identifier,
  direction, fields, to_upper,
}
use kalua.TableDb.Sql.{
  Operator, operator, operators, placeholders, Clause, in_clause, one_clause, operator_clause,
  option_clause, build_filter_clause, Conds, add_clause, add_option, no_conds, base_conds,
  filter_conds, conditions, keyword_list, base_order, base_orders, sort_order, sort_orders, orders,
  add_part,
}

abbrev pub words : List Text
words =
    bytes " = "
    ∷ bytes " <> "
    ∷ bytes " < "
    ∷ bytes " <= "
    ∷ bytes " > "
    ∷ bytes " >= "
    ∷ bytes " LIKE "
    ∷ bytes " IN ("
    ∷ bytes ", "
    ∷ bytes ")"
    ∷ bytes "1 = 0"
    ∷ bytes " AND "
    ∷ bytes " WHERE "
    ∷ bytes " "
    ∷ bytes "ASC"
    ∷ bytes "DESC"
    ∷ bytes " ORDER BY "
    ∷ []

abbrev pub IsWord : Text → Type 0
IsWord s = elem s words ≡ true

-- A text of such parts, with the placeholders i, i + 1, …, j - 1 in this order.
pub data Safe (P : Text → Type 0) (d : Driver) : ℕ → ℕ → Text → Type 0 where
  nothing : (i : ℕ) → Safe P d i i []
  word : (s : Text) (i j : ℕ) (r : Text) → IsWord s → Safe P d i j r → Safe P d i j (s ++ r)
  name : (f : Text) (i j : ℕ) (r : Text) → P f → Safe P d i j r → Safe P d i j (f ++ r)
  place : (i j : ℕ) (r : Text) → Safe P d (i + 1) j r → Safe P d i j (placeholder d i ++ r)

pub data Parts (P : Text → Type 0) (d : Driver) : ℕ → ℕ → List Text → Type 0 where
  no_parts : (i : ℕ) → Parts P d i i []
  part :
      (i j k : ℕ) (s : Text) (rest : List Text)
      → Safe P d i j s
      → Parts P d j k rest
      → Parts P d i k (s ∷ rest)

-- The words that the code writes.
comma : IsWord (bytes ", ")
unfolding elem
comma = refl

false_clause : IsWord (bytes "1 = 0")
unfolding elem
false_clause = refl

in-IsWord : IsWord (bytes " IN (")
unfolding elem
in-IsWord = refl

close-IsWord : IsWord (bytes ")")
unfolding elem
close-IsWord = refl

equals-IsWord : IsWord (bytes " = ")
unfolding elem
equals-IsWord = refl

like-IsWord : IsWord (bytes " LIKE ")
unfolding elem
like-IsWord = refl

and_IsWord : IsWord (bytes " AND ")
unfolding elem
and_IsWord = refl

where-IsWord : IsWord (bytes " WHERE ")
unfolding elem
where-IsWord = refl

order-IsWord : IsWord (bytes " ORDER BY ")
unfolding elem
order-IsWord = refl

space-IsWord : IsWord (bytes " ")
unfolding elem
space-IsWord = refl

if_keeps {ℓ κ} :
    {A : Type ℓ} (Q : A → Type κ) (b : Bool) (x y : A) → Q x → Q y → Q (if b then x else y)
if_keeps Q true x y p q = p
if_keeps Q false x y p q = q

direction-IsWord : (s : Text) → IsWord (direction s)
unfolding direction elem
direction-IsWord s =
    if_keeps IsWord (text_beq (to_upper s) (bytes "ASC")) _ _ refl
      (if_keeps IsWord (text_beq (to_upper s) (bytes "DESC")) _ _ refl refl)

-- The sign of an operator is a word.
abbrev HasWord : Operator → Type 0
HasWord (Operator.compare_by sign) = IsWord sign
HasWord Operator.like_any = Unit {0}
HasWord Operator.like_start = Unit {0}
HasWord Operator.like_end = Unit {0}
HasWord Operator.one_of = Unit {0}

abbrev HasWords : List (List Text × Operator) → Type 0
HasWords [] = Unit {0}
HasWords ((names, o) ∷ cases) = HasWord o × HasWords cases

operators-HasWords : HasWords operators
unfolding elem
operators-HasWords = (refl, (refl, (refl, (refl, (refl, (refl, (tt, (tt, (tt, (tt, tt))))))))))

abbrev OptionHasWord : Option Operator → Type 0
OptionHasWord none = Unit {0}
OptionHasWord (some o) = HasWord o

operator-HasWord :
    (cases : List (List Text × Operator)) (op : Text)
    → HasWords cases
    → OptionHasWord (operator cases op)
unfolding operator
operator-HasWord [] op w = tt
operator-HasWord ((names, o) ∷ cases) op w =
    if_keeps OptionHasWord (elem op names) (some o) (operator cases op) w.0
      (operator-HasWord cases op w.1)

module _ (P : Text → Type 0) (d : Driver) where
  Safe-append : (i j k : ℕ) (s t : Text) → Safe P d i j s → Safe P d j k t → Safe P d i k (s ++ t)
  Safe-append _ _ k _ t (nothing i) q = q
  Safe-append _ _ k _ t (word s i j r w p) q =
      rw (append_assoc s r t) (word s i k (r ++ t) w (Safe-append i j k r t p q))
  Safe-append _ _ k _ t (name f i j r a p) q =
      rw (append_assoc f r t) (name f i k (r ++ t) a (Safe-append i j k r t p q))
  Safe-append _ _ k _ t (place i j r p) q =
      rw (append_assoc (placeholder d i) r t) (place i k (r ++ t) (Safe-append (i + 1) j k r t p q))

  last_word : (s : Text) (i : ℕ) → IsWord s → Safe P d i i s
  last_word s i w = subst (λ t. Safe P d i i t) (append-nil s) (word s i i [] w (nothing i))

  last_name : (f : Text) (i : ℕ) → P f → Safe P d i i f
  last_name f i a = subst (λ t. Safe P d i i t) (append-nil f) (name f i i [] a (nothing i))

  last_place : (i : ℕ) → Safe P d i (i + 1) (placeholder d i)
  last_place i =
      subst (λ t. Safe P d i (i + 1) t) (append-nil (placeholder d i))
        (place i (i + 1) [] (nothing (i + 1)))

  Parts-snoc :
      (i j k : ℕ) (ss : List Text) (t : Text)
      → Parts P d i j ss
      → Safe P d j k t
      → Parts P d i k (ss ++ (t ∷ []))
  Parts-snoc _ _ k _ t (no_parts i) q = part i k k t [] q (no_parts k)
  Parts-snoc _ _ k _ t (part i j h s rest p ps) q =
      part i j k s (rest ++ (t ∷ [])) p (Parts-snoc j h k rest t ps q)

  Parts-append :
      (i j k : ℕ) (ss ts : List Text)
      → Parts P d i j ss
      → Parts P d j k ts
      → Parts P d i k (ss ++ ts)
  Parts-append _ _ k _ ts (no_parts i) q = q
  Parts-append _ _ k _ ts (part i j h s rest p ps) q =
      part i j k s (rest ++ ts) p (Parts-append j h k rest ts ps q)

  join-Safe :
      (sep : Text) (i k : ℕ) (s : Text) (rest : List Text)
      → IsWord sep
      → Parts P d i k (s ∷ rest)
      → Safe P d i k (join sep (s ∷ rest))
  unfolding join
  join-Safe sep _ _ _ _ w (part i _ _ s _ p (no_parts k)) = p
  join-Safe sep _ _ _ _ w (part i j k s (t ∷ rest) p ps) =
      Safe-append i j k s _ p (word sep j k _ w (join-Safe sep j k t rest w ps))

  keyword_list-Safe :
      (keyword sep : Text) (i k : ℕ) (ss : List Text)
      → IsWord keyword
      → IsWord sep
      → Parts P d i k ss
      → Safe P d i k (keyword_list keyword sep ss)
  unfolding keyword_list
  keyword_list-Safe keyword sep _ _ _ w v (no_parts i) = nothing i
  keyword_list-Safe keyword sep _ _ _ w v (part i j k s rest p ps) =
      word keyword i k _ w (join-Safe sep i k s rest v (part i j k s rest p ps))

  -- A condition and the condition's parameters.
  abbrev IsSafeClause : {V : Type 0} → ℕ → Clause V → Type 0
  IsSafeClause idx k = Safe P d idx k.next k.sql × (k.next ≡ idx + length k.vals)

  abbrev pub IsSafeConds : {V : Type 0} → Conds V → Type 0
  IsSafeConds c = Parts P d 1 c.next c.conds × (c.next ≡ 1 + length c.params)

  join-placeholders :
      (item : Text) (items : List Text) (idx : ℕ)
      → Safe P d idx
          (idx + 1 + length items)
          (join (bytes ", ") (placeholders d idx (item ∷ items)))
  unfolding join placeholders
  join-placeholders item [] idx =
      subst (λ j. Safe P d idx j (placeholder d idx)) (omega arith) (last_place idx)
  join-placeholders item (x ∷ items) idx = place idx _ _ (
      word (bytes ", ") (idx + 1) _ _ comma (
        subst (λ j. Safe P d (idx + 1) j (join (bytes ", ") (placeholders d (idx + 1) (x ∷ items))))
          (omega arith) (join-placeholders x items (idx + 1))))

  module _ (V : Type 0) where
    in_clause-Safe :
        (f : Text) (idx : ℕ) (items : List Text)
        → P f
        → IsSafeClause {V = V} idx (in_clause d f idx items)
    unfolding in_clause
    in_clause-Safe f idx [] a = (last_word (bytes "1 = 0") idx false_clause, omega arith)
    in_clause-Safe f idx (item ∷ items) a = (
      name f idx _ _ a (
          word (bytes " IN (") idx _ _ in-IsWord (
            Safe-append idx _ _ _ _ (join-placeholders item items idx)
              (last_word (bytes ")") _ close-IsWord))),
      omega (arith, length-map {B = Param V} items text),
    )

    one_clause-Safe :
        (f sign : Text) (idx : ℕ) (v : Text)
        → P f
        → IsWord sign
        → IsSafeClause {V = V} idx (one_clause d f sign idx v)
    unfolding one_clause
    one_clause-Safe f sign idx v a w =
        (name f idx _ _ a (word sign idx _ _ w (last_place idx)), omega arith)

    operator_clause-Safe :
        (f : FilterSpec) (idx : ℕ) (o : Operator)
        → P f.field
        → HasWord o
        → IsSafeClause {V = V} idx (operator_clause d f idx o)
    unfolding operator_clause
    operator_clause-Safe f idx (Operator.compare_by sign) a w =
        one_clause-Safe f.field sign idx f.value a w
    operator_clause-Safe f idx Operator.like_any a w =
        one_clause-Safe f.field (bytes " LIKE ") idx (bytes "%" ++ (f.value ++ bytes "%")) a
          like-IsWord
    operator_clause-Safe f idx Operator.like_start a w =
        one_clause-Safe f.field (bytes " LIKE ") idx (f.value ++ bytes "%") a like-IsWord
    operator_clause-Safe f idx Operator.like_end a w =
        one_clause-Safe f.field (bytes " LIKE ") idx (bytes "%" ++ f.value) a like-IsWord
    operator_clause-Safe f idx Operator.one_of a w = in_clause-Safe f.field idx _ a

    add_clause-IsSafeConds :
        (c : Conds V) (k : Clause V)
        → IsSafeConds c
        → IsSafeClause c.next k
        → IsSafeConds (add_clause c k)
    add_clause-IsSafeConds c k v s = (
      Parts-snoc 1 c.next k.next c.conds k.sql v.0 s.0,
      omega (arith, v.1, s.1, length-append c.params k.vals),
    )

    option_clause-IsSafeConds :
        (c : Conds V) (f : FilterSpec) (o : Option Operator)
        → P f.field
        → OptionHasWord o
        → IsSafeConds c
        → IsSafeConds (add_option c (option_clause d f c.next o))
    unfolding option_clause
    option_clause-IsSafeConds c f none a w v = v
    option_clause-IsSafeConds c f (some o) a w v =
        add_clause-IsSafeConds c _ v (operator_clause-Safe f c.next o a w)

    module _ (whitelist : List Text)
        (allowed : (f : Text) → is_allowed whitelist f ≡ true → P f) where
      build_filter_clause-IsSafeConds :
          (c : Conds V) (f : FilterSpec)
          → IsSafeConds c
          → IsSafeConds (add_option c (build_filter_clause d whitelist f c.next))
      unfolding build_filter_clause
      build_filter_clause-IsSafeConds c f v = elim (Bool-cases (is_allowed whitelist f.field)) [
        | inl e ↦ rw e (
            option_clause-IsSafeConds c f (operator operators (to_lower (trim_space f.op)))
              (allowed f.field e)
              (operator-HasWord operators (to_lower (trim_space f.op)) operators-HasWords) v)
        | inr e ↦ rw e v
      ]

      filter_conds-IsSafeConds :
          (fs : List FilterSpec) (c : Conds V)
          → IsSafeConds c
          → IsSafeConds (filter_conds d whitelist fs c)
      unfolding filter_conds
      filter_conds-IsSafeConds [] c v = v
      filter_conds-IsSafeConds (f ∷ fs) c v =
          filter_conds-IsSafeConds fs _ (build_filter_clause-IsSafeConds c f v)

      base_conds-IsSafeConds :
          (base : List (Text × V)) (c : Conds V)
          → IsSafeConds c
          → IsSafeConds (base_conds d whitelist base c)
      unfolding base_conds
      base_conds-IsSafeConds [] c v = v
      base_conds-IsSafeConds ((col, x) ∷ base) c v = elim (Bool-cases (is_allowed whitelist col)) [
        | inl e ↦
            rw (e, base_conds)
              (base_conds-IsSafeConds base _ (
                add_clause-IsSafeConds c _ v (
                  name col c.next _ _ (allowed col e)
                      (word _ c.next _ _ equals-IsWord (last_place c.next)),
                  omega arith,
                )))
        | inr e ↦ rw (e, base_conds) (base_conds-IsSafeConds base c v)
      ]

module _ (whitelist : List Text) where
  -- For any base filter and any filters of a browser, the WHERE of a page holds only fixed words,
  -- identifiers that the whitelist has, and one placeholder for each parameter, numbered from 1 in the
  -- order of the parameters.
  pub conditions-Safe :
      {V : Type 0} (d : Driver) (base : List (Text × V)) (fs : List FilterSpec)
      → Safe
          (λ f. is_allowed whitelist f ≡ true)
          d
          1
          (1 + length (conditions d whitelist base fs).params)
          (keyword_list (bytes " WHERE ") (bytes " AND ") (conditions d whitelist base fs).conds)
  unfolding conditions
  conditions-Safe {V} d base fs =
      let P : Text → Type 0 = λ f. is_allowed whitelist f ≡ true in
      let w : IsSafeConds P d (base_conds d whitelist base no_conds) =
        base_conds-IsSafeConds P d V whitelist (λ f h. h) base no_conds (no_parts 1, omega arith) in
      let v : IsSafeConds P d (conditions d whitelist base fs) =
        filter_conds-IsSafeConds P d V whitelist (λ f h. h) fs
          (base_conds d whitelist base no_conds) w in
      subst
        (λ j.
          Safe P d 1 j
            (keyword_list (bytes " WHERE ") (bytes " AND ") (conditions d whitelist base fs).conds))
        v.1
        (keyword_list-Safe P d (bytes " WHERE ") (bytes " AND ") 1
          (conditions d whitelist base fs).next (conditions d whitelist base fs).conds where-IsWord
          and_IsWord v.0)

abbrev IsIdentifier : Text → Type 0
IsIdentifier f = is_valid_identifier f ≡ true

is_allowed-IsIdentifier :
    (whitelist : List Text) (f : Text) → is_allowed whitelist f ≡ true → IsIdentifier f
unfolding is_allowed
is_allowed-IsIdentifier whitelist f h = ground (arith, h)

module _ (d : Driver) where
  abbrev NamedParts : (Text → Type 0) → List Text → Type 0
  NamedParts P ss = Parts P d 1 1 ss

  abbrev OptionPart : (Text → Type 0) → Option Text → Type 0
  OptionPart P none = Unit {0}
  OptionPart P (some s) = Safe P d 1 1 s

  add_part-Parts :
      (P : Text → Type 0) (o : Option Text) (ss : List Text)
      → OptionPart P o
      → NamedParts P ss
      → NamedParts P (add_part o ss)
  add_part-Parts P none ss p ps = ps
  add_part-Parts P (some s) ss p ps = part 1 1 1 s ss p ps

  directed : (P : Text → Type 0) (f s : Text) → P f → Safe P d 1 1 (f ++ (bytes " " ++ direction s))
  directed P f s a =
      name f 1 1 _ a
        (word (bytes " ") 1 1 _ space-IsWord (last_word P d (direction s) 1 (direction-IsWord s)))

  base_order-Safe : (fs : List Text) → OptionPart IsIdentifier (base_order fs)
  unfolding base_order
  base_order-Safe [] = tt
  base_order-Safe (f ∷ []) = elim (Bool-cases (is_valid_identifier f)) [
    | inl e ↦ rw e (last_name IsIdentifier d f 1 e)
    | inr e ↦ rw e tt
  ]
  base_order-Safe (f ∷ s ∷ rest) = elim (Bool-cases (is_valid_identifier f)) [
    | inl e ↦ rw e (directed IsIdentifier f s e)
    | inr e ↦ rw e tt
  ]

  base_orders-Safe : (parts : List Text) → NamedParts IsIdentifier (base_orders parts)
  unfolding base_orders
  base_orders-Safe [] = no_parts 1
  base_orders-Safe (p ∷ parts) =
      add_part-Parts IsIdentifier _ _ (base_order-Safe (fields (trim_space p)))
        (base_orders-Safe parts)

  module _ (whitelist : List Text) (P : Text → Type 0)
      (allowed : (f : Text) → is_allowed whitelist f ≡ true → P f) where
    sort_orders-Safe : (sorts : List SortSpec) → NamedParts P (sort_orders whitelist sorts)
    unfolding sort_orders sort_order
    sort_orders-Safe [] = no_parts 1
    sort_orders-Safe (s ∷ sorts) = elim (Bool-cases (is_allowed whitelist s.field)) [
      | inl e ↦
          rw e
            (part 1 1 1 _ _ (directed P s.field s.dir (allowed s.field e)) (sort_orders-Safe sorts))
      | inr e ↦ rw e (sort_orders-Safe sorts)
    ]

  -- The ORDER BY holds only fixed words and identifiers; where no base order is set, only identifiers
  -- that the whitelist has.
  pub orders-Safe :
      (whitelist : List Text) (order_by : Text) (sorts : List SortSpec)
      → Safe
          (λ f. is_valid_identifier f ≡ true)
          d
          1
          1
          (keyword_list (bytes " ORDER BY ") (bytes ", ") (orders whitelist order_by sorts))
        × Safe
            (λ f. is_allowed whitelist f ≡ true)
            d
            1
            1
            (keyword_list (bytes " ORDER BY ") (bytes ", ") (orders whitelist [] sorts))
  unfolding orders
  orders-Safe whitelist order_by sorts =
      let base : NamedParts IsIdentifier
          (if is_empty order_by then [] else base_orders (split b',' order_by)) =
        if_keeps (NamedParts IsIdentifier) (is_empty order_by) [] _ (no_parts 1)
          (base_orders-Safe (split b',' order_by)) in
      let sorted =
        sort_orders-Safe whitelist IsIdentifier (is_allowed-IsIdentifier whitelist) sorts in
      let listed =
        sort_orders-Safe whitelist (λ f. is_allowed whitelist f ≡ true) (λ f h. h) sorts in
      (
        keyword_list-Safe _ d _ _ 1 1 _ order-IsWord comma
            (Parts-append IsIdentifier d 1 1 1 _ _ base sorted),
        keyword_list-Safe _ d _ _ 1 1 _ order-IsWord comma listed,
      )
