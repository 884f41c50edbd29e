-- ===== src/Pagination/Walking.antt =====
-- One page of a list that is longer than a page, or is not.
use public_parks.Database.{ok}
use public_parks.Database.Order.{limit}
use public_parks.Pagination.Cursors.{CursorPayload, Platform, encode_pagination_cursor}
use public_parks.Pagination.Pages.{max_page_size, last, cursor_after, create_paginated_response}
use public_parks.Prelude.{
  ℕ, zero, suc, ◌≤◌, String, ◌≡◌, refl, ap, ◌∙◌, true, false, none, some, List, [], ◌∷◌, ◌++◌,
  arith, ltb, ltb→lt, lt→ltb, le→leb, length,
}

module _ {R : Type 0} where
  -- A list that fits a page of `n` rows, or one with `l` as the last row of its page.
  pub data Split (n : ℕ) (rows : List R) : Type 0 where
    whole : length rows ≤ n → Split n rows
    more :
        (page : List R) (l : R) (rest : List R)
        → rows ≡ page ++ l ∷ rest
        → n ≡ suc (length page)
        → 1 ≤ length rest
        → Split n rows

  longer : (n : ℕ) (x : R) (xs : List R) → Split n xs → Split (suc n) (x ∷ xs)
  longer n x xs (whole h) = whole (omega arith)
  longer n x xs (more page l rest e m r) = more (x ∷ page) l rest (ap (λ ys. x ∷ ys) e) (ap suc m) r

  pub split : (n : ℕ) (rows : List R) → 1 ≤ n → Split n rows
  split zero rows h = absurd (omega (arith, h))
  split (suc zero) [] h = whole (omega arith)
  split (suc zero) (x ∷ []) h = whole (omega arith)
  split (suc zero) (x ∷ y ∷ ys) h = more [] x (y ∷ ys) refl refl (omega arith)
  split (suc (suc n)) [] h = whole (omega arith)
  split (suc (suc n)) (x ∷ xs) h = longer (suc n) x xs (split (suc n) xs (omega arith))

  limit_all : (n : ℕ) (rows : List R) → length rows ≤ n → limit n rows ≡ rows
  limit_all zero [] h = refl
  limit_all zero (x ∷ xs) h = absurd (omega (arith, h))
  limit_all (suc n) [] h = refl
  limit_all (suc n) (x ∷ xs) h = ap (λ ys. x ∷ ys) (limit_all n xs (omega (arith, h)))

  limit_page :
      (page : List R) (l : R) (rest : List R)
      → limit (suc (length page)) (page ++ l ∷ rest) ≡ page ++ l ∷ []
  limit_page [] l rest = refl
  limit_page (x ∷ page) l rest = ap (λ ys. x ∷ ys) (limit_page page l rest)

  limit-limit : (n : ℕ) (rows : List R) → limit n (limit (suc n) rows) ≡ limit n rows
  limit-limit zero rows = refl
  limit-limit (suc n) [] = refl
  limit-limit (suc n) (x ∷ xs) = ap (λ ys. x ∷ ys) (limit-limit n xs)

  length-limit :
      (page : List R) (l : R) (rest : List R)
      → 1 ≤ length rest
      → ltb (suc (length page)) (length (limit (suc (suc (length page))) (page ++ l ∷ rest))) ≡ true
  length-limit [] l [] h = absurd (omega (arith, h))
  length-limit [] l (y ∷ ys) h = refl
  length-limit (x ∷ page) l rest h =
      let more = ltb→lt _ _ (length-limit page l rest h) in lt→ltb _ _ (omega (arith, more))

  last-append : (page : List R) (l : R) → last (page ++ l ∷ []) ≡ some l
  unfolding last
  last-append [] l = refl
  last-append (x ∷ []) l = refl
  last-append (x ∷ y ∷ ys) l = last-append (y ∷ ys) l

  module _ (platform : Platform) (payload : R → CursorPayload) (n : ℕ) (low : 1 ≤ n)
      (high : n ≤ max_page_size) where
    -- The page of a list that fits: all of it, and no cursor.
    pub create_paginated_response-whole :
        (rows : List R)
        → length rows ≤ n
        → create_paginated_response platform (limit (suc n) rows) n payload
          ≡ ok (record { data_rows = rows; next_cursor = none; has_more = false })
    unfolding create_paginated_response cursor_after
    create_paginated_response-whole rows h =
        let all = limit_all (suc n) rows (omega (arith, h)) in
        let page = limit_all n rows h in
        let stop : ltb n (length rows) ≡ false = ground arith in
        rw (all, le→leb 1 n low, le→leb n 100 high, page, stop)

    -- The page of a longer list: its first rows, with the cursor of the last of them.
    pub create_paginated_response-more :
        (page : List R) (l : R) (rest : List R) {cursor : String}
        → n ≡ suc (length page)
        → 1 ≤ length rest
        → encode_pagination_cursor platform (payload l) ≡ ok cursor
        → create_paginated_response platform (limit (suc n) (page ++ l ∷ rest)) n payload
          ≡ ok (record { data_rows = page ++ l ∷ []; next_cursor = some cursor; has_more = true })
    unfolding create_paginated_response cursor_after
    create_paginated_response-more page l rest {cursor} size r e =
        let cut : limit n (limit (suc n) (page ++ l ∷ rest)) ≡ page ++ l ∷ [] =
          limit-limit n (page ++ l ∷ rest) ∙ rw size (limit_page page l rest) in
        let longer : ltb n (length (limit (suc n) (page ++ l ∷ rest))) ≡ true =
          rw size (length-limit page l rest r) in
        rw (le→leb 1 n low, le→leb n 100 high, longer, cut, last-append page l, e)
