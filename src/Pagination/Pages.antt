-- ===== src/Pagination/Pages.antt =====
-- src/common/pagination/paginated-response.util.ts: the page made of a result that was fetched with
-- `LIMIT pageSize + 1`.
use public_parks.Database.{Result, ok, err}
use public_parks.Database.Order.{limit}
use public_parks.Database.Results.{map_result}
use public_parks.Errors.{other}
use public_parks.Pagination.Cursors.{CursorPayload, Platform, encode_pagination_cursor}
use public_parks.Prelude.{
  ℕ, String, Bool, true, not, ◌&&◌, Option, none, some, List, [], ◌∷◌, ltb, leb, if◌then◌else◌,
  length,
}

abbrev pub default_page_size : ℕ
default_page_size = 25

abbrev pub max_page_size : ℕ
max_page_size = 100

-- `PaginatedResponse`, with the two fields of its `PaginationMetadata`
pub record PaginatedResponse (T : Type 0) : Type 0 where
  pub data_rows : List T
  pub next_cursor : Option String
  pub has_more : Bool

-- `data.at(-1)`
unfoldable pub last : {T : Type 0} → List T → Option T
last [] = none
last (x ∷ []) = some x
last (x ∷ y ∷ ys) = last (y ∷ ys)

-- The cursor after a last item, when there are more rows.
unfoldable pub cursor_after :
    {T : Type 0} → Platform → (T → CursorPayload) → Bool → Option T → Result (Option String)
cursor_after platform payload true (some item) =
    map_result some (encode_pagination_cursor platform (payload item))
cursor_after platform payload _ _ = ok none

-- `createPaginatedResponse`
unfoldable pub create_paginated_response :
    {T : Type 0} → Platform → List T → ℕ → (T → CursorPayload) → Result (PaginatedResponse T)
unfolding cursor_after last
create_paginated_response platform fetched_items page_size payload =
    if not (leb 1 page_size && leb page_size max_page_size)
    then err (other "pageSize must be an integer between 1 and 100.")
    else map_result
        (λ next. record {
          data_rows = limit page_size fetched_items;
          next_cursor = next;
          has_more = ltb page_size (length fetched_items);
        })
        (cursor_after platform payload (ltb page_size (length fetched_items))
          (last (limit page_size fetched_items)))
