-- ===== src/Projection/Applied.antt =====
-- What the successful steps of a batch of projection_engine.go apply to a projection.
use go_mink.Base.{
  String, ℕ, ◌≡◌, refl, ◌∙◌, ap, not, Option, none, List, [], ◌∷◌, ◌++◌, if◌then◌else◌, Bool-cases,
  Option-cases, inl, inr,
}
use go_mink.Adapters.Types.{StoredEvent}
use go_mink.Projection.Failure.{apply_wanted-place}
use go_mink.Projection.Worker.{
  ProjectionState, AsyncProjection, BatchEnv, Running, Loaded, got, lost, fine, panicked, failed,
  batch_fine, not_implemented, batch_failed, batch_panicked, add_processed, last_of, decrypted,
  should_handle_event, filter_events, apply_each, apply_wanted, process_filtered, filter_batch,
  advance,
}

pub last_of-append :
    (n : ℕ) (xs ys : List StoredEvent) → last_of n (xs ++ ys) ≡ last_of (last_of n xs) ys
last_of-append n [] ys = refl
last_of-append n (event ∷ xs) ys = last_of-append event.global_position xs ys

pub filter_events-prefix :
    (handled : List String) (decrypt : Option (StoredEvent → Loaded StoredEvent))
    (events : List StoredEvent)
    → (rest : List StoredEvent) × (events ≡ (filter_events handled decrypt events).0 ++ rest)
unfolding filter_events
filter_events-prefix handled decrypt [] = ([], refl)
filter_events-prefix handled decrypt (event ∷ events) =
    let (rest, split) = filter_events-prefix handled decrypt events in
    elim (Bool-cases (should_handle_event handled event.type)) [
      | inr skipped ↦
          rw (filter_events, skipped) (rest, ap (λ (es : List StoredEvent). event ∷ es) split)
      | inl wanted ↦
          (elim (decrypted decrypt event)
              as (λ y.
                decrypted decrypt event ≡ y
                → (rest : List StoredEvent) × (event ∷ events
                    ≡ (filter_events handled decrypt (event ∷ events)).0 ++ rest)) [
                      | lost e ↦ λ h. rw (filter_events, wanted, h) (event ∷ events, refl)
                      | got plain ↦ λ h.
                          rw (filter_events, wanted, h)
                            (rest, ap (λ (es : List StoredEvent). event ∷ es) split)
                    ])
            refl
    ]

module _ {P : Type 0} (p : AsyncProjection P) where
  abbrev pub fold_applied : P → List StoredEvent → P
  fold_applied x [] = x
  fold_applied x (event ∷ events) = fold_applied (p.apply x event).0 events

  -- What `ApplyBatch` is meant to do: what `Apply` does, event by event, or nothing at all where it is
  -- not implemented.
  unfoldable pub BatchAgrees : Type 0
  BatchAgrees =
      (x : P) (events : List StoredEvent)
      → ((p.apply_batch x events).1 ≡ batch_fine
          → (p.apply_batch x events).0 ≡ fold_applied x events)
        × ((p.apply_batch x events).1 ≡ not_implemented → (p.apply_batch x events).0 ≡ x)

  -- The events that the projection handles, in plain, applied in the order of the feed.
  abbrev pub projected : Option (StoredEvent → Loaded StoredEvent) → P → List StoredEvent → P
  projected decrypt x [] = x
  projected decrypt x (event ∷ events) =
      if not (should_handle_event p.handled_events event.type)
      then projected decrypt x events
      else elim (decrypted decrypt event) [
        | lost e ↦ projected decrypt x events
        | got plain ↦ projected decrypt (p.apply x plain).0 events
      ]

  pub filter_events-projected :
      (decrypt : Option (StoredEvent → Loaded StoredEvent)) (x : P) (events : List StoredEvent)
      → projected decrypt x (filter_events p.handled_events decrypt events).0
        ≡ fold_applied x (filter_events p.handled_events decrypt events).1
  unfolding filter_events
  filter_events-projected decrypt x [] = refl
  filter_events-projected decrypt x (event ∷ events) =
      elim (Bool-cases (should_handle_event p.handled_events event.type)) [
        | inr skipped ↦
            rw (filter_events, skipped, skipped) (filter_events-projected decrypt x events)
        | inl handled ↦
            (elim (decrypted decrypt event)
                as (λ y.
                  decrypted decrypt event ≡ y
                  → projected decrypt x (filter_events p.handled_events decrypt (event ∷ events)).0
                    ≡ fold_applied x (filter_events p.handled_events decrypt (event ∷ events)).1) [
                      | lost e ↦ λ h. rw (filter_events, handled, h) refl
                      | got plain ↦ λ h.
                          rw (filter_events, handled, h, handled, h)
                            (filter_events-projected decrypt (p.apply x plain).0 events)
                    ])
              refl
      ]

  pub projected-append :
      (decrypt : Option (StoredEvent → Loaded StoredEvent)) (x : P) (xs ys : List StoredEvent)
      → projected decrypt x (xs ++ ys) ≡ projected decrypt (projected decrypt x xs) ys
  projected-append decrypt x [] ys = refl
  projected-append decrypt x (event ∷ xs) ys =
      elim (Bool-cases (should_handle_event p.handled_events event.type)) [
        | inr skipped ↦ rw skipped (projected-append decrypt x xs ys)
        | inl handled ↦
            (elim (decrypted decrypt event)
                as (λ y.
                  decrypted decrypt event ≡ y
                  → projected decrypt x (event ∷ xs ++ ys)
                    ≡ projected decrypt (projected decrypt x (event ∷ xs)) ys) [
                      | lost e ↦ λ h. rw (handled, h) (projected-append decrypt x xs ys)
                      | got plain ↦
                          λ h. rw (handled, h) (projected-append decrypt (p.apply x plain).0 xs ys)
                    ])
              refl
      ]

  module _ {K : Type 0} (env : BatchEnv K) where
    apply_each-fold :
        (r : Running P K) (events : List StoredEvent)
        → (apply_each p env r events).1 ≡ none
        → (apply_each p env r events).0.projection ≡ fold_applied r.projection events
    unfolding apply_each
    apply_each-fold r [] h = refl
    apply_each-fold r (event ∷ events) h =
        let p' = (p.apply r.projection event).0 in
        (elim (p.apply r.projection event).1
            as (λ y.
              (p.apply r.projection event).1 ≡ y
              → (apply_each p env r (event ∷ events)).0.projection
                ≡ fold_applied r.projection (event ∷ events)) [
                  | fine ↦ λ g.
                      rw (apply_each, g)
                        (let h' = rw (apply_each, g) at h in
                          apply_each-fold
                            (record r { projection = p'; worker = add_processed r.worker 1 }) events
                            h')
                  | failed e ↦ λ g. absurd (let h' = rw (apply_each, g) at h in cc)
                  | panicked ↦ λ g. absurd (let h' = rw (apply_each, g) at h in cc)
                ])
          refl

    apply_wanted-fold :
        (r : Running P K) (wanted : List StoredEvent)
        → BatchAgrees
        → (apply_wanted p env r wanted).1 ≡ none
        → (apply_wanted p env r wanted).0.projection ≡ fold_applied r.projection wanted
    unfolding apply_wanted BatchAgrees
    apply_wanted-fold r wanted agrees h =
        let p' = (p.apply_batch r.projection wanted).0 in
        let (all, untouched) = agrees r.projection wanted in
        (elim (p.apply_batch r.projection wanted).1
            as (λ y.
              (p.apply_batch r.projection wanted).1 ≡ y
              → (apply_wanted p env r wanted).0.projection ≡ fold_applied r.projection wanted) [
                | batch_fine ↦ λ g. rw (apply_wanted, g) (all g)
                | not_implemented ↦ λ g.
                    let h' = rw (apply_wanted, g) at h in
                    rw (apply_wanted, g)
                      (apply_each-fold (record r { projection = p' }) wanted h'
                        ∙ ap (λ (x : P). fold_applied x wanted) (untouched g))
                | batch_failed e ↦ λ g. absurd (let h' = rw (apply_wanted, g) at h in cc)
                | batch_panicked ↦ λ g. absurd (let h' = rw (apply_wanted, g) at h in cc)
              ])
          refl

    pub filter_batch-events :
        (event : StoredEvent) (events kept wanted : List StoredEvent)
        → filter_batch p.handled_events env.decrypt (event ∷ events) ≡ got (kept, wanted)
        → filter_events p.handled_events env.decrypt (event ∷ events) ≡ (kept, wanted)
    unfolding filter_batch
    filter_batch-events event events kept wanted h =
        elim (Bool-cases (should_handle_event p.handled_events event.type)) [
          | inr skipped ↦ let h' = rw (filter_batch, skipped) at h in cc
          | inl handled ↦
              (elim (decrypted env.decrypt event)
                  as (λ y.
                    decrypted env.decrypt event ≡ y
                    → filter_events p.handled_events env.decrypt (event ∷ events)
                      ≡ (kept, wanted)) [
                        | lost e ↦ λ g. absurd (let h' = rw (filter_batch, handled, g) at h in cc)
                        | got plain ↦ λ g. let h' = rw (filter_batch, handled, g) at h in cc
                      ])
                refl
        ]

    -- A successful second half of a batch: the handled events are applied and the position is the
    -- last one of those kept.
    pub process_filtered-fold :
        (r : Running P K) (kept wanted : List StoredEvent)
        → BatchAgrees
        → (process_filtered p env r kept wanted).1 ≡ none
        → let r' = (process_filtered p env r kept wanted).0 in
          (r'.projection ≡ fold_applied r.projection wanted)
          × (r'.worker.last_position ≡ last_of r.worker.last_position kept)
    unfolding process_filtered advance
    process_filtered-fold r kept [] agrees h = (refl, refl)
    process_filtered-fold r kept (event ∷ events) agrees h =
        let wanted = event ∷ events in
        elim (Option-cases (apply_wanted p env r wanted).1) [
          | inr (e, failure) ↦ absurd (let h' = rw (process_filtered, failure) at h in cc)
          | inl done ↦
              rw (process_filtered, done)
                (
                  apply_wanted-fold r wanted agrees done,
                  ap (λ (x : ℕ × K × ProjectionState). last_of x.0 kept)
                      (apply_wanted-place p env r wanted),
                )
        ]
