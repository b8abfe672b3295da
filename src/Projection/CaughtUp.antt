-- ===== src/Projection/CaughtUp.antt =====
-- What a projection has seen after the batches of projection_engine.go that succeed.
use go_mink.Base.{append_assoc, ℕ, ◌≡◌, refl, ◌∙◌, sym, ap, none, List, [], ◌∷◌, ◌++◌}
use go_mink.Adapters.Types.{StoredEvent}
use go_mink.Projection.Worker.{
  AsyncProjection, BatchEnv, Running, got, lost, last_of, process_filtered, process_async_batch,
  filter_batch,
}
use go_mink.Projection.Applied.{
  fold_applied, BatchAgrees, projected, filter_events-projected, filter_events-prefix,
  last_of-append, projected-append, filter_batch-events, process_filtered-fold,
}

module _ {P K : Type 0} (p : AsyncProjection P) (env : BatchEnv K) where
  -- A load gives a first part of what the log has after the position.
  unfoldable pub ReadsLog : List StoredEvent → Type 0
  ReadsLog log =
      (done rest page : List StoredEvent)
      → log ≡ done ++ rest
      → env.load (last_of 0 done) ≡ got page
      → (more : List StoredEvent) × (rest ≡ page ++ more)

  -- The projection has applied a first part of the log, and its worker stands at the end of it.
  unfoldable pub IsCaughtUp : List StoredEvent → P → Running P K → Type 0
  IsCaughtUp log initial r =
      (done rest : List StoredEvent) × (log ≡ done ++ rest)
      × (r.worker.last_position ≡ last_of 0 done)
      × (r.projection ≡ projected p env.decrypt initial done)

  kept-IsCaughtUp :
      (log : List StoredEvent) (initial : P) (r : Running P K) (event : StoredEvent)
      (events kept wanted : List StoredEvent)
      → BatchAgrees p
      → ReadsLog log
      → IsCaughtUp log initial r
      → env.load r.worker.last_position ≡ got (event ∷ events)
      → filter_batch p.handled_events env.decrypt (event ∷ events) ≡ got (kept, wanted)
      → (process_filtered p env r kept wanted).1 ≡ none
      → IsCaughtUp log initial (process_filtered p env r kept wanted).0
  unfolding IsCaughtUp ReadsLog
  kept-IsCaughtUp log initial r event events kept wanted agrees reads
        (done, rest, split, there, seen) full filtered h =
      let page = event ∷ events in
      let (more, next) = reads done rest page split (ap env.load (sym there) ∙ full) in
      let cut = filter_batch-events p env event events kept wanted filtered in
      let (left, kept_left) = filter_events-prefix p.handled_events env.decrypt page in
      let page_split : page ≡ kept ++ left =
        kept_left ∙ ap (λ (x : List StoredEvent × List StoredEvent). x.0 ++ left) cut in
      let same : projected p env.decrypt r.projection kept ≡ fold_applied p r.projection wanted =
        ap (λ (x : List StoredEvent × List StoredEvent). projected p env.decrypt r.projection x.0)
          (sym cut)
        ∙ filter_events-projected p env.decrypt r.projection page
        ∙ ap (λ (x : List StoredEvent × List StoredEvent). fold_applied p r.projection x.1) cut in
      let (applied, moved) = process_filtered-fold p env r kept wanted agrees h in
      (
        done ++ kept,
        left ++ more,
        split
            ∙ ap (λ (es : List StoredEvent). done ++ es)
                (next
                  ∙ ap (λ (es : List StoredEvent). es ++ more) page_split
                  ∙ append_assoc kept left more)
            ∙ sym (append_assoc done kept (left ++ more)),
        moved ∙ ap (λ (n : ℕ). last_of n kept) there ∙ sym (last_of-append 0 done kept),
        applied
            ∙ sym same
            ∙ ap (λ (x : P). projected p env.decrypt x kept) seen
            ∙ sym (projected-append p env.decrypt initial done kept),
      )

  -- Where `ApplyBatch` does what `Apply` does event by event (or leaves the projection alone, where it
  -- is not implemented), and a load gives a first part of what the log has after the position, a batch
  -- that reports no error keeps this: the projection is the initial one after the events of a first
  -- part of the log that it handles and that can be decrypted, each applied once, in plain and in
  -- order, and the worker's position is that of the last event of that part (0 if it is empty).
  pub batch-IsCaughtUp :
      (log : List StoredEvent) (initial : P) (r : Running P K)
      → BatchAgrees p
      → ReadsLog log
      → IsCaughtUp log initial r
      → (process_async_batch p env r).1 ≡ none
      → IsCaughtUp log initial (process_async_batch p env r).0
  unfolding process_async_batch
  batch-IsCaughtUp log initial r agrees reads before h =
      (elim (env.load r.worker.last_position)
          as (λ x.
            env.load r.worker.last_position ≡ x
            → IsCaughtUp log initial (process_async_batch p env r).0) [
              | lost e ↦ λ bad. absurd (let h' = rw (process_async_batch, bad) at h in cc)
              | got [] ↦ λ empty. rw (process_async_batch, empty) before
              | got (event ∷ events) ↦ λ full.
                  (elim (filter_batch p.handled_events env.decrypt (event ∷ events))
                      as (λ x.
                        filter_batch p.handled_events env.decrypt (event ∷ events) ≡ x
                        → IsCaughtUp log initial (process_async_batch p env r).0) [
                          | lost e ↦ λ bad.
                              absurd (let h' = rw (process_async_batch, full, bad) at h in cc)
                          | got (kept, wanted) ↦ λ good.
                              let h' = rw (process_async_batch, full, good) at h in
                              rw (process_async_batch, full, good)
                                (kept-IsCaughtUp log initial r event events kept wanted agrees reads
                                  before full good h')
                        ])
                    refl
            ])
        refl
