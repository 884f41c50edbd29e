-- ===== src/Sms/Inbox/Freshness.antt =====
-- What src/notifications/mock-sms.provider.ts keeps in every history of calls.
use public_parks.Database.Order.{filter, Pairwise}
use public_parks.Database.Order.Keyset.{filter_kept}
use public_parks.Sms.Providers.{SendSmsRequest}
use public_parks.Sms.Inbox.{
  DevelopmentSmsMessage, Inbox, message_ttl_ms, max_messages, purge_expired, shift_oldest,
  new_message, mock_send_sms, get_messages, clear,
}
use mathlib.Core.List.{reverse}
use public_parks.Prelude.{
  ℕ, ◌+◌, ◌≤◌, String, ◌≡◌, refl, sym, ap, inl, inr, Bool, true, false, List, [], ◌∷◌, ◌++◌, arith,
  ltb, leb, Bool-cases, length, All, All-map,
}

-- The calls of the provider and of the inbox's routes.
pub data InboxCall : Type 0 where
  sending : (aborted : Bool) → SendSmsRequest → (uuid : String) → InboxCall
  reading clearing : InboxCall

-- A call at a time.
unfoldable pub perform : ℕ → InboxCall → Inbox → Inbox
unfolding mock_send_sms get_messages clear
perform now (sending aborted request uuid) inbox = (mock_send_sms aborted request now uuid inbox).1
perform now reading inbox = (get_messages now inbox).1
perform now clearing inbox = clear inbox

unfoldable pub run : List (ℕ × InboxCall) → Inbox → Inbox
unfolding perform
run [] inbox = inbox
run ((now, call) ∷ calls) inbox = run calls (perform now call inbox)

-- The clock does not go back.
abbrev pub Timed : ℕ → List (ℕ × InboxCall) → ℕ → Type 0
Timed start [] end = start ≤ end
Timed start ((now, call) ∷ calls) end = (start ≤ now) × Timed now calls end

abbrev Ascending : Inbox → Type 0
Ascending ms = Pairwise (λ (a b : DevelopmentSmsMessage). a.expires_at ≤ b.expires_at) ms

record IsKept (now : ℕ) (inbox : Inbox) : Type 0 where
  few : length inbox ≤ max_messages
  ascending : Ascending inbox
  recent : All (λ (m : DevelopmentSmsMessage). m.expires_at ≤ now + message_ttl_ms) inbox

purge_expired-All {κ} :
    (P : DevelopmentSmsMessage → Type κ) (now : ℕ) (ms : Inbox)
    → All P ms
    → All P (purge_expired now ms)
unfolding purge_expired
purge_expired-All P now [] a = tt
purge_expired-All P now (m ∷ ms) a = elim (Bool-cases (leb m.expires_at now)) [
  | inl old ↦ rw old (purge_expired-All P now ms a.1)
  | inr fresh ↦ rw fresh a
]

purge_expired-Ascending : (now : ℕ) (ms : Inbox) → Ascending ms → Ascending (purge_expired now ms)
unfolding purge_expired
purge_expired-Ascending now [] a = tt
purge_expired-Ascending now (m ∷ ms) a = elim (Bool-cases (leb m.expires_at now)) [
  | inl old ↦ rw old (purge_expired-Ascending now ms a.1)
  | inr fresh ↦ rw fresh a
]

length-purge_expired : (now : ℕ) (ms : Inbox) → length (purge_expired now ms) ≤ length ms
unfolding purge_expired
length-purge_expired now [] = omega arith
length-purge_expired now (m ∷ ms) =
    let rest = length-purge_expired now ms in
    elim (Bool-cases (leb m.expires_at now)) [
      | inl old ↦ rw old (omega (arith, rest))
      | inr fresh ↦ rw fresh (omega arith)
    ]

shift_oldest-All {κ} :
    (P : DevelopmentSmsMessage → Type κ) (ms : Inbox) → All P ms → All P (shift_oldest ms)
unfolding shift_oldest
shift_oldest-All P [] a = tt
shift_oldest-All P (m ∷ ms) a = elim (Bool-cases (ltb 100 (length (m ∷ ms)))) [
  | inl long ↦ rw long (shift_oldest-All P ms a.1)
  | inr short ↦ rw short a
]

shift_oldest-Ascending : (ms : Inbox) → Ascending ms → Ascending (shift_oldest ms)
unfolding shift_oldest
shift_oldest-Ascending [] a = tt
shift_oldest-Ascending (m ∷ ms) a = elim (Bool-cases (ltb 100 (length (m ∷ ms)))) [
  | inl long ↦ rw long (shift_oldest-Ascending ms a.1)
  | inr short ↦ rw short a
]

length-shift_oldest : (ms : Inbox) → length (shift_oldest ms) ≤ max_messages
unfolding shift_oldest
length-shift_oldest [] = omega arith
length-shift_oldest (m ∷ ms) = elim (Bool-cases (ltb 100 (length (m ∷ ms)))) [
  | inl long ↦ rw long (length-shift_oldest ms)
  | inr short ↦ rw short (ground arith)
]

All-snoc {κ} :
    (P : DevelopmentSmsMessage → Type κ) (ms : Inbox) (m : DevelopmentSmsMessage)
    → All P ms
    → P m
    → All P (ms ++ m ∷ [])
All-snoc P [] m a p = (p, tt)
All-snoc P (n ∷ ms) m a p = (a.0, All-snoc P ms m a.1 p)

Ascending-snoc :
    (ms : Inbox) (m : DevelopmentSmsMessage)
    → Ascending ms
    → All (λ (n : DevelopmentSmsMessage). n.expires_at ≤ m.expires_at) ms
    → Ascending (ms ++ m ∷ [])
Ascending-snoc [] m a b = (tt, tt)
Ascending-snoc (n ∷ ms) m a b =
    (All-snoc (λ k. n.expires_at ≤ k.expires_at) ms m a.0 b.0, Ascending-snoc ms m a.1 b.1)

later_recent :
    (start now : ℕ) (ms : Inbox)
    → start ≤ now
    → All (λ (m : DevelopmentSmsMessage). m.expires_at ≤ start + message_ttl_ms) ms
    → All (λ (m : DevelopmentSmsMessage). m.expires_at ≤ now + message_ttl_ms) ms
later_recent start now ms h =
    All-map (λ (m : DevelopmentSmsMessage). m.expires_at ≤ start + message_ttl_ms)
      (λ (m : DevelopmentSmsMessage). m.expires_at ≤ now + message_ttl_ms)
      (λ m k. omega (arith, h, k)) ms

purged-IsKept : (now : ℕ) (inbox : Inbox) → IsKept now inbox → IsKept now (purge_expired now inbox)
purged-IsKept now inbox k =
    let shorter = length-purge_expired now inbox in
    let few = k.few in
    record {
      few = omega (arith, shorter, few);
      ascending = purge_expired-Ascending now inbox k.ascending;
      recent =
          purge_expired-All (λ (m : DevelopmentSmsMessage). m.expires_at ≤ now + message_ttl_ms) now
            inbox k.recent;
    }

moved-IsKept : (start now : ℕ) (inbox : Inbox) → start ≤ now → IsKept start inbox → IsKept now inbox
moved-IsKept start now inbox h k = record {
  few = k.few;
  ascending = k.ascending;
  recent = later_recent start now inbox h k.recent;
}

perform-IsKept :
    (now : ℕ) (call : InboxCall) (inbox : Inbox)
    → IsKept now inbox
    → IsKept now (perform now call inbox)
unfolding perform mock_send_sms get_messages clear
perform-IsKept now clearing inbox k = record { few = omega arith; ascending = tt; recent = tt }
perform-IsKept now reading inbox k = purged-IsKept now inbox k
perform-IsKept now (sending true request uuid) inbox k = k
perform-IsKept now (sending false request uuid) inbox k =
    let purged = purged-IsKept now inbox k in
    let added = purge_expired now inbox ++ new_message request now uuid ∷ [] in
    let recent =
      All-snoc (λ (m : DevelopmentSmsMessage). m.expires_at ≤ now + message_ttl_ms)
        (purge_expired now inbox) (new_message request now uuid) purged.recent (omega arith) in
    record {
      few = length-shift_oldest added;
      ascending = shift_oldest-Ascending added (
          Ascending-snoc (purge_expired now inbox) (new_message request now uuid) purged.ascending
            purged.recent);
      recent =
          shift_oldest-All (λ (m : DevelopmentSmsMessage). m.expires_at ≤ now + message_ttl_ms)
            added recent;
    }

run-IsKept :
    (start now : ℕ) (calls : List (ℕ × InboxCall)) (inbox : Inbox)
    → Timed start calls now
    → IsKept start inbox
    → IsKept now (run calls inbox)
unfolding run
run-IsKept start now [] inbox h k = moved-IsKept start now inbox h k
run-IsKept start now ((t, call) ∷ calls) inbox h k =
    run-IsKept t now calls (perform t call inbox) h.1
      (perform-IsKept t call inbox (moved-IsKept start t inbox h.0 k))

abbrev pub is_fresh : ℕ → DevelopmentSmsMessage → Bool
is_fresh now m = ltb now m.expires_at

purge_expired-fresh :
    (now : ℕ) (ms : Inbox) → Ascending ms → purge_expired now ms ≡ filter (is_fresh now) ms
unfolding purge_expired
purge_expired-fresh now [] a = refl
purge_expired-fresh now (m ∷ ms) a = elim (Bool-cases (leb m.expires_at now)) [
  | inl old ↦
      let stale : is_fresh now m ≡ false = ground arith in
      rw (old, stale) (purge_expired-fresh now ms a.1)
  | inr fresh ↦
      let valid : is_fresh now m ≡ true = ground arith in
      rw fresh (
        sym (
          filter_kept (is_fresh now) (m ∷ ms) (
            valid,
            All-map (λ (n : DevelopmentSmsMessage). m.expires_at ≤ n.expires_at)
                (λ n. is_fresh now n ≡ true) (λ n later. ground arith) ms a.0,
          )))
]

-- After any calls in the order of a clock that does not go back, from an empty inbox: there are at
-- most 100 messages, and `getMessages` shows, the newest first, exactly those that were kept and
-- have not expired, although it stops to look at the first that has not.
pub get_messages-fresh :
    (start now : ℕ) (calls : List (ℕ × InboxCall))
    → Timed start calls now
    → (length (run calls []) ≤ max_messages)
      × ((get_messages now (run calls [])).0 ≡ reverse (filter (is_fresh now) (run calls [])))
unfolding get_messages
get_messages-fresh start now calls h =
    let kept =
      run-IsKept start now calls [] h (record { few = omega arith; ascending = tt; recent = tt }) in
    (kept.few, ap reverse (purge_expired-fresh now (run calls []) kept.ascending))
