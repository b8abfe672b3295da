-- ===== src/Saga/Trigger/Reload.antt =====
-- A captured trigger event of saga_manager.go and its way back.
use Prim.Native.String.{String}
use go_mink.Base.{
  ℕ, suc, ◌≡◌, ◌≢◌, refl, ◌∙◌, ap, true, false, none, some, List, [], ◌∷◌, arith, Bool-cases,
  Option-cases, inl, inr, ◌==◌, eq_iff,
}
use go_mink.Base.Dict.{lookup}
use go_mink.Base.Int.{eqb_ℤ_iff, ℤ, pos, eqb_ℤ, ltb_ℤ, ◌-ℤ◌}
use go_mink.Adapters.Types.{StoredEvent}
use go_mink.Saga.State.{Attempt, good}
use go_mink.Saga.Trigger.{
  EventReads, custom_value, is_encrypted, saga_trigger_locator_key, locator_of, capture_candidate,
  is_trigger_locator, match_trigger_locator, locator_start, load_trigger_event_raw,
  reload_trigger_event,
}

-- What is captured of an event that bears no locator mark: an encrypted event becomes a locator
-- without payload, any other is captured whole and is no locator.
pub capture_candidate-locator :
    (raw : StoredEvent)
    → custom_value raw.metadata saga_trigger_locator_key ≡ none
    → (is_trigger_locator (capture_candidate raw) ≡ is_encrypted raw.metadata)
      × (is_encrypted raw.metadata ≡ true → (capture_candidate raw).body ≡ none)
      × (is_encrypted raw.metadata ≡ false → capture_candidate raw ≡ raw)
unfolding is_trigger_locator capture_candidate
capture_candidate-locator raw unmarked = elim (Bool-cases (is_encrypted raw.metadata)) [
  | inl secret ↦ rw secret ((unfold lookup in refl), λ _. refl, λ h. absurd cc)
  | inr plain ↦ rw (plain, unmarked) (refl, λ h. absurd cc, λ _. refl)
]

-- The event store holds an event at its version, in a page or in the rest of its stream.
abbrev pub Serves : EventReads → StoredEvent → ℕ → Type 0
Serves reads raw n = elim reads.get_stream_events [
  | some page ↦ page raw.stream_id (pos n) (pos 1) ≡ good (raw ∷ [])
  | none ↦ (later : List StoredEvent) × (reads.load_raw raw.stream_id (pos n) ≡ good (raw ∷ later))
]

matches_itself : (raw : StoredEvent) → match_trigger_locator raw (locator_of raw) ≡ none
unfolding match_trigger_locator
matches_itself raw =
    ground
      (arith, eq_iff raw.id raw.id, eq_iff raw.type raw.type, eqb_ℤ_iff raw.version raw.version)

starts_before : (n : ℕ) → locator_start (pos (suc n)) ≡ pos n
unfolding locator_start ◌-ℤ◌
starts_before n = ground arith

-- The page reader's answer, and the loop's.
page_loads :
    (reads : EventReads) (raw : StoredEvent) (n : ℕ)
    (page : String → ℤ → ℤ → Attempt (List StoredEvent))
    → raw.version ≡ pos (suc n)
    → reads.get_stream_events ≡ some page
    → page raw.stream_id (pos n) (pos 1) ≡ good (raw ∷ [])
    → load_trigger_event_raw reads (locator_of raw) ≡ good (some raw)
unfolding load_trigger_event_raw
page_loads reads raw n page version paged held =
    let start : locator_start raw.version ≡ pos n = rw version (starts_before n) in
    let given : ltb_ℤ (pos 0) raw.version ≡ true = ground (arith, version) in
    let own : eqb_ℤ raw.version raw.version ≡ true = ground arith in
    rw (load_trigger_event_raw, given, paged, start, held, own) refl

stream_loads :
    (reads : EventReads) (raw : StoredEvent) (n : ℕ) (later : List StoredEvent)
    → raw.version ≡ pos (suc n)
    → reads.get_stream_events ≡ none
    → reads.load_raw raw.stream_id (pos n) ≡ good (raw ∷ later)
    → load_trigger_event_raw reads (locator_of raw) ≡ good (some raw)
unfolding load_trigger_event_raw
stream_loads reads raw n later version unpaged held =
    let start : locator_start raw.version ≡ pos n = rw version (starts_before n) in
    let given : ltb_ℤ (pos 0) raw.version ≡ true = ground (arith, version) in
    let own : eqb_ℤ raw.version raw.version ≡ true = ground arith in
    rw (load_trigger_event_raw, given, unpaged, start, held, own, given) refl

loads_it :
    (reads : EventReads) (raw : StoredEvent) (n : ℕ)
    → raw.version ≡ pos (suc n)
    → Serves reads raw n
    → load_trigger_event_raw reads (locator_of raw) ≡ good (some raw)
loads_it reads raw n version served = elim (Option-cases reads.get_stream_events) [
  | inl unpaged ↦
      let (later, held) = rw unpaged at served in
      stream_loads reads raw n later version unpaged held
  | inr (page, paged) ↦ page_loads reads raw n page version paged (rw paged at served)
]

reload_located :
    (reads : EventReads) (raw : StoredEvent)
    → raw.stream_id ≢ ""
    → load_trigger_event_raw reads (locator_of raw) ≡ good (some raw)
    → reload_trigger_event (some reads) (locator_of raw) ≡ reads.decrypt_stored_event raw
unfolding reload_trigger_event
reload_located reads raw named loaded =
    let given : (raw.stream_id == "") ≡ false = ground (arith, eq_iff raw.stream_id "", named) in
    rw (given, loaded, matches_itself raw) refl

captured_as :
    (raw : StoredEvent) → is_encrypted raw.metadata ≡ true → capture_candidate raw ≡ locator_of raw
unfolding capture_candidate
captured_as raw secret = rw secret refl

-- An encrypted event with a version and a stream, which the event store still holds there, is what a
-- re-drive reloads for its capture; it is then decrypted.
pub reload-capture :
    (reads : EventReads) (raw : StoredEvent) (n : ℕ)
    → is_encrypted raw.metadata ≡ true
    → raw.version ≡ pos (suc n)
    → raw.stream_id ≢ ""
    → Serves reads raw n
    → reload_trigger_event (some reads) (capture_candidate raw) ≡ reads.decrypt_stored_event raw
reload-capture reads raw n secret version named served =
    ap (reload_trigger_event (some reads)) (captured_as raw secret)
    ∙ reload_located reads raw named (loads_it reads raw n version served)
