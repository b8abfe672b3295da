-- ===== src/Saga/Trigger.antt =====
-- The trigger event that a retry delivers again (saga_manager.go): what may be captured of it, how it
-- is recognised, and how it is found again in the event store.
pub mod Reload
use Prim.Native.Nat.{◌/◌}
use Prim.Native.String.{String, ◌++◌, slice}
use go_mink.Base.{
  ℕ, zero, suc, ◌+◌, ◌-◌, ◌%◌, Bool, true, false, not, ◌&&◌, ◌||◌, Option, none, some, List, [],
  ◌∷◌, eqb, ltb, length, select, is_some, if◌then◌else◌, ◌==◌,
}
use go_mink.Base.Int.{ℤ, pos, eqb_ℤ, ltb_ℤ, leb_ℤ, ◌-ℤ◌}
use go_mink.Base.Dict.{Dict, lookup}
use go_mink.Adapters.Types.{Metadata, StoredEvent}
use go_mink.Saga.State.{
  SagaStatus, status_text, Saga, Value, SagaError, Attempt, captured, other, good, bad,
  locator_refused, wrapped,
}

abbrev pub reserved_last_event_key : String
reserved_last_event_key = "__mink_last_event"

abbrev pub saga_trigger_locator_key : String
saga_trigger_locator_key = "$saga_trigger_locator"

abbrev pub encrypted_fields_key : String
encrypted_fields_key = "$encrypted_fields"

abbrev pub custom_value : Metadata → String → Option String
custom_value meta key = elim meta.custom [ none ↦ none | some custom ↦ lookup key custom ]

unfoldable pub is_encrypted : Metadata → Bool
is_encrypted meta = is_some (custom_value meta encrypted_fields_key)

-- Where an event stands, without its payload and with the mark as its only metadata.
abbrev pub locator_of : StoredEvent → StoredEvent
locator_of raw = record raw {
  body = none;
  metadata = record {
    correlation_id = "";
    causation_id = "";
    user_id = "";
    tenant_id = "";
    custom = some ((saga_trigger_locator_key, "true") ∷ []);
  };
}

-- An encrypted event is reduced to where it stands.
unfoldable pub capture_candidate : StoredEvent → StoredEvent
unfolding is_encrypted
capture_candidate raw = if not (is_encrypted raw.metadata) then raw else locator_of raw

unfoldable pub is_trigger_locator : StoredEvent → Bool
is_trigger_locator event = elim (custom_value event.metadata saga_trigger_locator_key) [
  | none ↦ false
  | some text ↦ text == "true"
]

unfoldable pub capture_trigger_event {ℓ} : {X : Type ℓ} → Bool → Saga X → StoredEvent → Saga X
capture_trigger_event capturing saga event =
    if not capturing
    then saga
    else if event.id == "" && event.type == ""
    then saga
    else record saga { last_event = some event }

-- `reread` is the JSON decoding of a value that is not an event as it stands.
unfoldable pub decode_last_event : (String → Option StoredEvent) → Value → Option StoredEvent
decode_last_event reread (captured event) = some event
decode_last_event reread (other text) = elim (reread text) [
  | none ↦ none
  | some event ↦ if event.id == "" && event.type == "" then none else some event
]

abbrev digit : ℕ → String
digit n = slice "0123456789" n (suc n)

-- The decimal digits of a number, before `tail`, with a bound on their count.
abbrev digits : ℕ → ℕ → String → String
digits zero n tail = tail
digits (suc bound) n tail =
    let text = digit (n % 10) ++ tail in
    let rest = digits bound (n / 10) text in if ltb n 10 then text else rest

-- A uint64 has at most twenty digits.
abbrev pub decimal : ℕ → String
decimal n = digits 20 n ""

-- `fmt.Sprintf("%s:%d", event.ID, event.GlobalPosition)`.
unfoldable pub event_key : StoredEvent → String
event_key event = event.id ++ ":" ++ decimal event.global_position

unfoldable pub remove_processed_event_key : List String → String → List String
remove_processed_event_key events key = select (λ e. not (e == key)) events

-- What the manager's event store offers: one page of a stream, where the adapter can read pages, the
-- stream from a version on, and the decryption of an event.
pub record EventReads : Type 0 where
  pub get_stream_events : Option (String → ℤ → ℤ → Attempt (List StoredEvent))
  pub load_raw : String → ℤ → Attempt (List StoredEvent)
  pub decrypt_stored_event : StoredEvent → Attempt StoredEvent

unfoldable pub match_trigger_locator : StoredEvent → StoredEvent → Option SagaError
match_trigger_locator ev loc =
    if not (loc.id == "") && not (ev.id == loc.id)
    then some (locator_refused "id")
    else if not (loc.type == "") && not (ev.type == loc.type)
    then some (locator_refused "type")
    else if ltb_ℤ (pos 0) loc.version && not (eqb_ℤ ev.version loc.version)
    then some (locator_refused "version")
    else if ltb 0 loc.global_position && not (eqb ev.global_position loc.global_position)
    then some (locator_refused "global position")
    else none

-- The loop over the stream.
abbrev pub first_located : StoredEvent → List StoredEvent → Option StoredEvent
first_located loc [] = none
first_located loc (ev ∷ events) =
    if (ltb_ℤ (pos 0) loc.version && eqb_ℤ ev.version loc.version)
      || (leb_ℤ loc.version (pos 0) && not (loc.id == "") && ev.id == loc.id)
    then some ev
    else first_located loc events

abbrev pub first_of_version : ℤ → List StoredEvent → Option StoredEvent
first_of_version version [] = none
first_of_version version (ev ∷ events) = if eqb_ℤ ev.version version then some ev else none

abbrev pub in_attempt {ℓ κ} : {A : Type ℓ} {B : Type κ} → (A → B) → Attempt A → Attempt B
in_attempt f (good a) = good (f a)
in_attempt f (bad e) = bad e

-- `fromVersion`: the reads leave out the version that they start from.
unfoldable pub locator_start : ℤ → ℤ
locator_start version =
    let before = version -ℤ pos 1 in if ltb_ℤ before (pos 0) then pos 0 else before

-- The page reader is used where the locator has a version and the adapter has one.
unfoldable pub load_trigger_event_raw : EventReads → StoredEvent → Attempt (Option StoredEvent)
unfolding locator_start
load_trigger_event_raw reads loc =
    let from_version = locator_start loc.version in
    let whole = in_attempt (first_located loc) (reads.load_raw loc.stream_id from_version) in
    if ltb_ℤ (pos 0) loc.version
    then elim reads.get_stream_events [
      | none ↦ whole
      | some page ↦
          in_attempt (first_of_version loc.version) (page loc.stream_id from_version (pos 1))
    ]
    else whole

unfoldable pub reload_trigger_event : Option EventReads → StoredEvent → Attempt StoredEvent
reload_trigger_event none loc = bad (locator_refused "event store")
reload_trigger_event (some reads) loc =
    if loc.stream_id == ""
    then bad (locator_refused "stream id")
    else elim (load_trigger_event_raw reads loc) [
      | bad e ↦ bad (wrapped "reload captured trigger event" e)
      | good none ↦ bad (locator_refused "not found")
      | good (some raw) ↦ elim (match_trigger_locator raw loc) [
        | some e ↦ bad e
        | none ↦ reads.decrypt_stored_event raw
      ]
    ]

unfoldable pub decrypt_event : Option EventReads → StoredEvent → Attempt StoredEvent
decrypt_event none event = good event
decrypt_event (some reads) event = reads.decrypt_stored_event event

abbrev pub retry_step_name : SagaStatus → String
retry_step_name from_status = "operator re-drive (from " ++ status_text from_status ++ ")"
