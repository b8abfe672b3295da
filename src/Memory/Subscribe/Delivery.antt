-- ===== src/Memory/Subscribe/Delivery.antt =====
-- What a new subscriber receives: the history without a wait, and then the live events, with no gap.
use go_mink.Base.{
  ℕ, suc, ◌+◌, ◌≤◌, ◌<◌, ◌≡◌, refl, ap, String, false, none, some, List, [], ◌∷◌, ◌++◌, append-nil,
  append_assoc, arith, length, length-append, select, select-append, if_intro,
}
use go_mink.Base.Int.{ℤ, max_int64}
use go_mink.Adapters.Types.{StoredEvent, EventRecord}
use go_mink.Adapters.Errors.{ok}
use go_mink.Memory.State.{MemoryAdapter, Channel, Subscriber}
use go_mink.Memory.Invariant.{IsConsistent, IsConsistent-subscribers, Positions}
use go_mink.Memory.Append.{
  Environment, send, send_all, notify_subscribers, check_append_locked, write_events, deliver,
  append,
}
use go_mink.Memory.Append.Write.{fresh_events, stored-write_events, global_events-write_events}
use go_mink.Memory.Append.Keeps.{length_fresh, fresh-Positions}
use go_mink.Memory.Append.Results.{append_passed, result_passed}
use go_mink.Memory.Subscribe.{
  SubscriptionOptions, get_buffer_size, get_on_error, above, drained, drain_history,
  finish_subscribe, subscribe_all,
}

drain_history-drained :
    (history : List StoredEvent) (ch : Channel)
    → length ch.queue + length history ≤ ch.capacity
    → drain_history none history ch ≡ drained (record ch { queue = ch.queue ++ history })
unfolding drain_history
drain_history-drained [] ch room = rw append-nil
drain_history-drained (e ∷ history) ch room =
    let rest =
      drain_history-drained history (record ch { queue = ch.queue ++ e ∷ [] })
        (omega (arith, length-append ch.queue (e ∷ []))) in
    ground (arith, rest, append_assoc ch.queue (e ∷ []) history)

-- The channel of a new subscriber: room for its buffer beside the history, which is in it already.
abbrev pub new_channel : ℕ → MemoryAdapter → ℕ → List SubscriptionOptions → Channel
new_channel key a p opts =
    let history = select (above p) a.global_events in
    record { key = key; capacity = get_buffer_size opts + length history; queue = history }

-- A subscriber whose channel holds these events.
abbrev pub served : ℕ → MemoryAdapter → ℕ → List SubscriptionOptions → List StoredEvent → Subscriber
served key a p opts events = record {
  ch = record (new_channel key a p opts) { queue = events };
  on_error = get_on_error opts;
}

-- On an open adapter, under a context that stays live, `SubscribeAll` never waits for a receiver: it
-- returns a channel that holds the whole history after the position, in order, with the asked buffer
-- free, and it has registered that channel behind the other subscribers.
pub subscribe_all_returns :
    (key : ℕ) (a : MemoryAdapter) (p : ℕ) (opts : List SubscriptionOptions)
    → a.closed ≡ false
    → subscribe_all none none key a p opts ≡ (
      record a {
        subscribers =
            a.subscribers
            ++ record { ch = new_channel key a p opts; on_error = get_on_error opts } ∷ [];
      },
      some (ok (new_channel key a p opts)),
    )
unfolding subscribe_all
subscribe_all_returns key a p opts live =
    let history = select (above p) a.global_events in
    let ch : Channel = record {
      key = key;
      capacity = get_buffer_size opts + length history;
      queue = [];
    } in
    if_intro
      (λ r. r ≡ (
        record a {
          subscribers =
              a.subscribers
              ++ record { ch = new_channel key a p opts; on_error = get_on_error opts } ∷ [];
        },
        some (ok (new_channel key a p opts)),
      ))
      a.closed (λ shut. cc)
      (λ _.
        ap (finish_subscribe a (record { ch = ch; on_error = get_on_error opts }))
          (drain_history-drained history ch (omega arith)))

send_all-room :
    (sub : Subscriber) (es : List StoredEvent)
    → length sub.ch.queue + length es ≤ sub.ch.capacity
    → send_all sub es ≡ (record sub { ch = record sub.ch { queue = sub.ch.queue ++ es } }, [])
unfolding send_all send
send_all-room sub [] room = rw append-nil
send_all-room sub (e ∷ es) room =
    let sub' : Subscriber = record sub { ch = record sub.ch { queue = sub.ch.queue ++ e ∷ [] } } in
    let rest = send_all-room sub' es (omega (arith, length-append sub.ch.queue (e ∷ []))) in
    ground (arith, rest, append_assoc sub.ch.queue (e ∷ []) es)

-- The last subscriber is served as if it were alone.
notify_subscribers-snoc :
    (subs : List Subscriber) (sub : Subscriber) (es : List StoredEvent)
    → (notify_subscribers (subs ++ sub ∷ []) es).0
      ≡ (notify_subscribers subs es).0 ++ (send_all sub es).0 ∷ []
unfolding notify_subscribers
notify_subscribers-snoc [] sub es = refl
notify_subscribers-snoc (x ∷ subs) sub es =
    ap (λ l. (send_all x es).0 ∷ l) (notify_subscribers-snoc subs sub es)

subscribers-write_events :
    (env : Environment) (a : MemoryAdapter) (sid : String) (es : List EventRecord)
    → (write_events env a sid es).0.subscribers ≡ a.subscribers
unfolding write_events
subscribers-write_events env a sid es = refl

select-above : (n p : ℕ) (l : List StoredEvent) → Positions n l → p < n → select (above p) l ≡ l
select-above n p [] h lt = refl
select-above n p (x ∷ l) h lt = ground (arith, select-above (suc n) p l h.1 (omega arith))

module _ (env : Environment) (a : MemoryAdapter) (sid : String) (es : List EventRecord)
    (expected : ℤ) (key p : ℕ) (opts : List SubscriptionOptions) (inv : IsConsistent a)
    (room : length a.global_events + length es ≤ max_int64) (past : p ≤ a.global_position)
    (fits : length es ≤ get_buffer_size opts) where
  -- The adapter with the new subscriber.
  abbrev pub subscribed : MemoryAdapter
  subscribed = record a {
    subscribers =
        a.subscribers
        ++ record { ch = new_channel key a p opts; on_error = get_on_error opts } ∷ [];
  }

  length_fresh_le : length (fresh_events env subscribed sid es) ≤ get_buffer_size opts
  length_fresh_le =
      rw (length_fresh env subscribed sid es (IsConsistent-subscribers _ inv) room) fits

  wanted_after :
      select (above p) (write_events env subscribed sid es).0.global_events
      ≡ select (above p) a.global_events ++ fresh_events env subscribed sid es
  wanted_after =
      rw (global_events-write_events env subscribed sid es, select-append)
        (ap (λ l. select (above p) a.global_events ++ l)
          (select-above (suc (length a.global_events)) p (fresh_events env subscribed sid es)
            (fresh-Positions env subscribed sid es (IsConsistent-subscribers _ inv) room)
            (omega (arith, inv.position))))

  served_after :
      check_append_locked subscribed sid es expected ≡ none
      → (append none env subscribed sid es expected).adapter.subscribers
        ≡ (notify_subscribers a.subscribers (fresh_events env subscribed sid es)).0
          ++ served key a p opts
              (select (above p) (append none env subscribed sid es expected).adapter.global_events)
            ∷ []
  served_after passed =
      let new = fresh_events env subscribed sid es in
      let sub : Subscriber = record {
        ch = new_channel key a p opts;
        on_error = get_on_error opts;
      } in
      let delivered : send_all sub new
          ≡ (served key a p opts (select (above p) a.global_events ++ new), []) =
        send_all-room sub new (omega (arith, length_fresh_le)) in
      rw (append_passed env subscribed sid es expected passed) (
        unfold deliver in
        rw (
          subscribers-write_events env subscribed sid es,
          stored-write_events env subscribed sid es,
          notify_subscribers-snoc,
          delivered,
          wanted_after,
        ))

  -- A subscription to a consistent, open adapter from a position that it has reached, followed by a
  -- successful append of no more events than the subscriber's buffer holds: the new channel, behind
  -- the other subscribers, holds exactly the events of the global log after the position, those of
  -- the append included, in order and each once.
  pub subscribe_then_append :
      (stored : List StoredEvent)
      → a.closed ≡ false
      → (append none env (subscribe_all none none key a p opts).0 sid es expected).result
        ≡ ok stored
      → let a' =
          (append none env (subscribe_all none none key a p opts).0 sid es expected).adapter in
        (others : List Subscriber) × (a'.subscribers
          ≡ others ++ served key a p opts (select (above p) a'.global_events) ∷ [])
  subscribe_then_append stored live = rw (subscribe_all_returns key a p opts live) (λ success. (
    (notify_subscribers a.subscribers (fresh_events env subscribed sid es)).0,
    served_after (result_passed env subscribed sid es expected success),
  ))
