-- ===== src/Pagination/RoundTrip.antt =====
-- A cursor read back.
use public_parks.Database.{ok, err}
use public_parks.Pagination.Characters.{pagination_cursor_schema, max_cursor_length, all_base64url}
use public_parks.Pagination.Cursors.{
  CursorPayload, Platform, Json, envelope, scalars, members_of, non_empty, is_cursor_payload,
  is_version, cursor_version, units_per_one, parse_envelope, malformed_cursor, cursor_text,
  encode_pagination_cursor, decoded_json, payload_with, decode_pagination_cursor,
}
use Prim.Native.String
use mathlib.Core.Option
use public_parks.Prelude.{
  ◌≤◌, String, ◌≡◌, refl, ◌⊎◌, inl, inr, true, Option, some, [], ◌∷◌, arith, str_eq, eq_iff,
  eq_refl, le→leb, ==_refl, Bool-cases, Option-cases,
}

-- The platform reads back what it wrote for a payload: JSON.parse inverts JSON.stringify, decoding
-- inverts UTF-8 and Base64URL, and a Base64URL text is not empty and has the alphabet's characters.
unfoldable pub IsReadable : Platform → CursorPayload → Type 0
unfolding all_base64url
IsReadable platform payload =
    let json = platform.stringify (envelope payload) in
    let bytes = platform.utf8 json in
    let cursor = platform.base64url bytes in
    (platform.parse json ≡ some (envelope payload))
    × (platform.text_of bytes ≡ json)
    × (platform.bytes_of cursor ≡ bytes)
    × (all_base64url cursor ≡ true)
    × (1 ≤ String.count cursor)

scalars-members_of : (payload : CursorPayload) → scalars (members_of payload) ≡ some payload
scalars-members_of [] = refl
scalars-members_of ((key, s) ∷ payload) = rw (scalars-members_of payload)

version_lem : is_version cursor_version ≡ true
unfolding is_version
version_lem = ==_refl units_per_one

parse_envelope-envelope :
    (payload : CursorPayload)
    → is_cursor_payload payload ≡ true
    → parse_envelope (envelope payload) ≡ some payload
unfolding parse_envelope non_empty
parse_envelope-envelope payload h = rw (version_lem, scalars-members_of payload, h)

module _ (platform : Platform) where
  encode_pagination_cursor-cases :
      (payload : CursorPayload) {cursor : String}
      → encode_pagination_cursor platform payload ≡ ok cursor
      → (is_cursor_payload payload ≡ true)
        × (String.count (cursor_text platform payload) ≤ max_cursor_length)
        × (cursor ≡ cursor_text platform payload)
  unfolding encode_pagination_cursor
  encode_pagination_cursor-cases payload h = ground arith

  decoded_json-cursor_text :
      (payload : CursorPayload)
      → IsReadable platform payload
      → decoded_json platform (cursor_text platform payload) ≡ some (envelope payload)
  unfolding decoded_json IsReadable
  decoded_json-cursor_text payload r = rw (r.2, eq_refl (cursor_text platform payload), r.1, r.0)

  pagination_cursor_schema-cursor_text :
      (payload : CursorPayload)
      → IsReadable platform payload
      → String.count (cursor_text platform payload) ≤ max_cursor_length
      → pagination_cursor_schema (cursor_text platform payload) ≡ true
  unfolding pagination_cursor_schema IsReadable
  pagination_cursor_schema-cursor_text payload r fits = rw (le→leb _ _ r.4, le→leb _ _ fits, r.3)

  payload_with-envelope :
      {T : Type 0} (schema : CursorPayload → Option T) (payload : CursorPayload) {t : T}
      → is_cursor_payload payload ≡ true
      → schema payload ≡ some t
      → payload_with platform schema (some (envelope payload)) ≡ some t
  unfolding payload_with Option.bind
  payload_with-envelope schema payload valid s = rw (parse_envelope-envelope payload valid, s)

  -- An encoded cursor is decoded to what the endpoint's schema makes of the encoded payload, if
  -- the platform reads back what it writes.
  pub decode_pagination_cursor-encode_pagination_cursor :
      {T : Type 0} (schema : CursorPayload → Option T) (payload : CursorPayload) {cursor : String}
      {t : T}
      → IsReadable platform payload
      → schema payload ≡ some t
      → encode_pagination_cursor platform payload ≡ ok cursor
      → decode_pagination_cursor platform cursor schema ≡ ok t
  unfolding decode_pagination_cursor
  decode_pagination_cursor-encode_pagination_cursor schema payload r s e =
      let encoded = encode_pagination_cursor-cases payload e in
      rw (
        encoded.2,
        pagination_cursor_schema-cursor_text payload r encoded.1,
        decoded_json-cursor_text payload r,
        payload_with-envelope schema payload encoded.0 s,
      )

  decoded_json-cases :
      (cursor : String) {json : Json}
      → decoded_json platform cursor ≡ some json
      → (platform.base64url (platform.bytes_of cursor) ≡ cursor)
        × (platform.parse (platform.text_of (platform.bytes_of cursor)) ≡ some json)
  unfolding decoded_json
  decoded_json-cases cursor h =
      elim (Bool-cases (str_eq (platform.base64url (platform.bytes_of cursor)) cursor)) [
        | inl same ↦ ((eq_iff _ _).0 same, rw same at h)
        | inr apart ↦ absurd (cc (rw apart at h))
      ]

  -- A cursor is refused with the field error of a malformed cursor, or it is the canonical text of
  -- a versioned envelope whose non-empty payload the endpoint's schema accepts.
  pub decode_pagination_cursor-cases :
      {T : Type 0} (schema : CursorPayload → Option T) (cursor : String)
      → (decode_pagination_cursor platform cursor schema ≡ err malformed_cursor)
        ⊎ ((t : T) × (json : Json) × (payload : CursorPayload) × (decode_pagination_cursor platform
                cursor schema
              ≡ ok t)
            × (platform.base64url (platform.bytes_of cursor) ≡ cursor)
            × (platform.parse (platform.text_of (platform.bytes_of cursor)) ≡ some json)
            × (parse_envelope json ≡ some payload)
            × (schema payload ≡ some t))
  unfolding decode_pagination_cursor payload_with Option.bind
  decode_pagination_cursor-cases schema cursor =
      elim (Bool-cases (pagination_cursor_schema cursor)) [
        | inr wrong ↦ inl (rw wrong)
        | inl formed ↦ elim (Option-cases (decoded_json platform cursor)) [
          | inl unread ↦ inl (rw (formed, unread))
          | inr (json, read) ↦ elim (Option-cases (parse_envelope json)) [
            | inl foreign ↦ inl (rw (formed, read, foreign))
            | inr (payload, parsed) ↦ elim (Option-cases (schema payload)) [
              | inl refused ↦ inl (rw (formed, read, parsed, refused))
              | inr (t, accepted) ↦
                  let facts = decoded_json-cases cursor read in
                  inr (
                    t,
                    json,
                    payload,
                    rw (formed, read, parsed, accepted),
                    facts.0,
                    facts.1,
                    parsed,
                    accepted,
                  )
            ]
          ]
        ]
      ]
