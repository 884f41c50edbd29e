-- ===== src/Sms/Rows.antt =====
-- Conditions on rows of `sms_provider_configurations`: the columns that statements of
-- src/notifications/sms-configuration.repository.ts compare, and the constraints of the table in
-- src/database/drizzle.schema.ts.
use public_parks.Prelude.{
  ℕ, String, Bool, true, false, not, ◌&&◌, ◌||◌, Option, List, [], ◌∷◌, str_eq, ltb, leb, ◌==◌,
  if◌then◌else◌, is_none, opt_str_eq,
}
use public_parks.Sms.Types.{SmsProviderScopeType, platform, city, SmsConfigurationRecord}

-- The two columns of a scope, as `scope_type = $1 AND scope_id IS NOT DISTINCT FROM $2`. The
-- indexes' `coalesce(scope_id, zero)` compares alike but for a city with the zero uuid.
abbrev pub same_scope_type : SmsProviderScopeType → SmsProviderScopeType → Bool
same_scope_type platform platform = true
same_scope_type city city = true
same_scope_type _ _ = false

abbrev pub same_scope : SmsConfigurationRecord → SmsConfigurationRecord → Bool
same_scope a b = same_scope_type a.scope_type b.scope_type && opt_str_eq a.scope_id b.scope_id

abbrev pub is_platform : SmsConfigurationRecord → Bool
is_platform r = same_scope_type r.scope_type platform && is_none r.scope_id

-- `id = $1`
abbrev pub has_id : String → SmsConfigurationRecord → Bool
has_id id r = str_eq r.id id

-- The same scope and provider, as in `SELECT max(revision) …`.
abbrev pub same_line : SmsConfigurationRecord → SmsConfigurationRecord → Bool
same_line a b = same_scope a b && str_eq a.provider_key b.provider_key

abbrev scope_shape : SmsProviderScopeType → Option String → Bool
scope_shape platform id = is_none id
scope_shape city id = not (is_none id)

-- The check constraints of the table.
unfoldable pub row_allowed : SmsConfigurationRecord → Bool
row_allowed r =
    scope_shape r.scope_type r.scope_id
    && ((leb 1000 r.timeout_ms && leb r.timeout_ms 30000)
        && (leb r.retry_count 3 && ltb 0 r.revision))

-- What the primary key, or the unique index on scope, provider and revision, keeps apart.
unfoldable pub collides : SmsConfigurationRecord → SmsConfigurationRecord → Bool
collides r q = has_id r.id q || (same_line q r && q.revision == r.revision)

-- `COALESCE(max(revision), 0)` over the rows of one scope and provider.
unfoldable pub max_revision : SmsConfigurationRecord → List SmsConfigurationRecord → ℕ
max_revision source [] = 0
max_revision source (r ∷ rs) =
    let rest = max_revision source rs in
    if same_line r source && ltb rest r.revision then r.revision else rest
