-- ===== src/Lib.antt =====
-- Verification of the Public Parks backend, a NestJS service over PostgreSQL.
--
-- The parts of the program that are modelled, and where. Paths are from the repository's root.
-- Errors: src/common/errors (the catalog of codes, ApplicationException and the global filter)
--   and the exception classes of src/auth and src/common/validation. An exception is a value; a
--   method that may throw returns a Result of Database.
-- Ticketing: src/entrance-ticketing/entrance-ticket-state.policy.ts.
-- Database: one transaction of a repository method, as a function on a connection with a stored
--   and a working state, and tables as lists of rows. A BEGIN … COMMIT block with its ROLLBACK in
--   the catch is `in_transaction`; what a block has committed before it throws stays stored.
-- Sms: src/notifications. Types are the rows and inputs, Rows the conditions of statements and
--   the constraints of the table, Statements, Drafts and Activation the methods of
--   sms-configuration.repository.ts, Providers the registry and the resolver, Dispatcher
--   sms-dispatcher.ts. The theorems are in Outcomes and DraftOutcomes (each method's branches),
--   Invariant, Uniqueness, Consistency, ActivationConsistency and History (all histories of
--   calls), Switchover (what an activation replaces), Revisions and Dispatcher/Retries, which
--   Dispatcher/Attempts states the rows and waits for. Service is sms-configuration.service.ts, with its
--   theorems in Service/Testing and Guarding, Inbox the mock provider with its theorem in
--   Inbox/Freshness, OtpDelivery the adapter that sends one-time codes.
-- Auth: src/auth/authentication.repository.ts and src/common/security/secret-hash.service.ts.
--   Tables are the rows, Digests the hashes, Sessions the sessions and refresh tokens with their
--   theorems in Sessions/Rotation, Reuse, Renewal and Revocation, Otp the one-time codes with theirs
--   in Otp/Outcomes, Effects, Attempts, Once, Mistakes and Acceptance, Mfa the second factors of
--   administrators with theirs in Mfa/Effects, Standing, Replay and Acceptance.
--   AccessTokens is src/auth/jwt-token.service.ts with its theorem in AccessTokens/RoundTrip,
--   RateLimits rate-limit.service.ts with RateLimits/Windows, Guards the three global guards with
--   Guards/Admission, Service authentication.service.ts with Service/Delivery and Csrf.
-- Payments: src/payments/payment-provider.types.ts and mock-payment.provider.ts. Types is the
--   boundary, MockProvider the provider; Initiation, Redaction and Callbacks are its theorems.
-- Pagination: src/common/pagination. Cursors are the cursors with their schemas, Characters the
--   forms of texts, Pages the page envelope; RoundTrip and Walking are their theorems.
-- Facilities: src/facilities. Types are the rows, queries and responses, Repository the SELECTs,
--   Service the endpoints and the mapper. Order and Rows show that the rows of a query are ordered,
--   Walk what a client receives that follows the cursors, Foreign what cursors of other queries do.
--   Database/Order has ORDER BY, LIMIT and the laws of keyset conditions.
-- Examples: the theorems at concrete inputs. Prelude: shared names, lists, texts and tests.
--
-- How the parts interact: the dispatcher asks the resolver for the active configuration, which the
-- SMS repository stores, sends with a provider of the registry and writes each attempt back. The
-- authentication repository uses the secret hashes. The SMS service checks an input with a provider
-- before it calls the repository, and tests a configuration through the dispatcher. The
-- authentication service calls the rate limits, its repository and the access tokens in turn; the
-- guards verify a token and load its actor. The facilities' endpoints page with the cursors of
-- src/common/pagination. All of them throw exceptions of Errors, which
-- the filter renders.
--
-- Parameters. HMAC-SHA256, the UTF-8 and hexadecimal encodings, field encryption, uuids, random
-- tokens and the clock are the platform's, the check of TOTP tokens is otplib's: arguments of the
-- definitions that use them. So are JSON, Base64URL and, of the database, ILIKE, the functions of
-- PostGIS and the collation of names, which is a strict order on texts; jose's signing and argon2;
-- and the delivery of one-time codes, for the authentication service. One call reads the clock
-- once; the source reads the process's and the database's clock.
--
-- Bounds. Numbers are natural; times are milliseconds. The retry loop of the dispatcher counts the
-- rounds that are left, `retry_count + 1` at first, so it cannot run out before the source's loop
-- ends. An amount is below 2 ^ 53, from where JavaScript's numbers and digits are no longer exact.
-- The columns' widths are not modelled; a message id or error code of a delivery attempt that does
-- not fit its column would make its INSERT throw.
--
-- A finite double is a whole number of units of 2 ^ -1074. The client of the facilities reads at
-- most one page more than there are matching rows, since every page but the last has a row.
--
-- Concurrency. A method locks the rows that it reads before it writes (FOR UPDATE), so that a
-- method is one step, and histories are lists of calls. Under READ COMMITTED two activations of
-- one scope, or two OTP requests of one number, may still overlap; the partial unique index stops
-- the first, nothing the second. Such overlaps are not modelled.
--
-- Redis is a list of entries with times of expiry, PostgreSQL a record of lists.
--
-- Not modelled: foreign keys (rows are never deleted, and ids are those of rows read before), the
-- columns `created_at` and `updated_at` of the authentication tables, the controllers, the parsing
-- of request bodies by zod, field encryption, the configuration of the environment, logging, and
-- the scripts.
pub mod Prelude
pub mod Errors
pub mod Database
pub mod Sms
pub mod Auth
pub mod Examples
pub mod Ticketing
pub mod Payments
pub mod Pagination
pub mod Facilities
