-- ===== src/Pagination.antt =====
-- src/common/pagination: the cursors (pagination-cursor.util.ts, pagination-query.schema.ts), the
-- page envelope (paginated-response.util.ts) and their types. JSON, UTF-8 and Base64URL are the
-- platform's and are arguments.
pub mod Characters
pub mod Cursors
pub mod RoundTrip
pub mod Pages
pub mod Walking
