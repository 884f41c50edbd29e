-- ===== src/Sms/Inbox.antt =====
-- src/notifications/mock-sms.provider.ts: the development provider, which keeps its messages in
-- memory, oldest first. Times are milliseconds; the uuids and the clock are arguments. The guard is
-- that of development-sms-inbox.guard.ts.
pub mod Freshness
use public_parks.Auth.Digests.{same_bytes}
use public_parks.Database.{Result, ok, err}
use public_parks.Errors.{Exception, ErrorCode, raised}
use public_parks.Sms.Types.{Credentials, SmsProviderConfiguration, SendSmsResult, transient}
use public_parks.Sms.Providers.{SendSmsRequest}
use mathlib.Core.List.{reverse}
use public_parks.Prelude.{
  ℕ, ◌+◌, String, Bool, true, false, not, ◌&&◌, ◌||◌, Option, none, some, List, [], ◌∷◌, ◌++◌,
  str_eq, ltb, leb, ◌==◌, if◌then◌else◌, is_none, length,
}

abbrev pub message_ttl_ms : ℕ
message_ttl_ms = 600000

abbrev pub max_messages : ℕ
max_messages = 100

pub record DevelopmentSmsMessage : Type 0 where
  pub id : String
  pub destination : String
  pub message : String
  pub created_at : ℕ
  pub expires_at : ℕ

abbrev pub Inbox : Type 0
Inbox = List DevelopmentSmsMessage

abbrev no_credentials : Credentials → Bool
no_credentials [] = true
no_credentials (c ∷ cs) = false

-- `validateConfiguration`
unfoldable pub mock_errors : SmsProviderConfiguration → List String
mock_errors configuration =
    (if is_none configuration.api_url then [] else "apiUrl must be empty." ∷ [])
    ++ (if no_credentials configuration.credentials then [] else "credentials must be empty." ∷ [])

-- `isApiHostPermitted`
unfoldable pub mock_host_permitted : Option String → Bool
mock_host_permitted api_url = is_none api_url

-- `purgeExpired`: it stops at the first message that has not expired.
unfoldable pub purge_expired : ℕ → Inbox → Inbox
purge_expired now [] = []
purge_expired now (m ∷ ms) =
    let rest = purge_expired now ms in if leb m.expires_at now then rest else m ∷ ms

-- `while (this.messages.length > MAX_MESSAGES) this.messages.shift()`
unfoldable pub shift_oldest : Inbox → Inbox
shift_oldest [] = []
shift_oldest (m ∷ ms) =
    let rest = shift_oldest ms in if ltb max_messages (length (m ∷ ms)) then rest else m ∷ ms

abbrev pub new_message : SendSmsRequest → ℕ → String → DevelopmentSmsMessage
new_message request now uuid = record {
  id = uuid;
  destination = request.destination;
  message = request.message;
  created_at = now;
  expires_at = now + message_ttl_ms;
}

-- `sendSms`; the first argument is `request.signal.aborted`.
unfoldable pub mock_send_sms : Bool → SendSmsRequest → ℕ → String → Inbox → SendSmsResult × Inbox
unfolding purge_expired shift_oldest
mock_send_sms true request now uuid inbox = (SendSmsResult.failed transient "TIMEOUT", inbox)
mock_send_sms false request now uuid inbox = (
  SendSmsResult.sent (some uuid),
  shift_oldest (purge_expired now inbox ++ new_message request now uuid ∷ []),
)

-- `getMessages`: the newest first, and the messages that stay.
unfoldable pub get_messages : ℕ → Inbox → Inbox × Inbox
unfolding purge_expired
get_messages now inbox = (reverse (purge_expired now inbox), purge_expired now inbox)

-- `clear`
unfoldable pub clear : Inbox → Inbox
clear inbox = []

-- `canActivate` of the inbox's guard: the token's header, the configured token, and the bytes of
-- texts.
unfoldable pub inbox_guard : (String → List ℕ) → Option String → String → Result Bool
inbox_guard utf8 none expected = err (raised ErrorCode.permission_denied "Permission denied.")
inbox_guard utf8 (some actual) expected =
    if str_eq expected ""
      || not (
          length (utf8 expected) == length (utf8 actual)
          && same_bytes (utf8 expected) (utf8 actual))
    then err (raised ErrorCode.permission_denied "Permission denied.")
    else ok true
