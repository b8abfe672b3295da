-- ===== src/Memory/Subscribe.antt =====
-- The subscriptions of adapters/memory/memory.go: `SubscribeAll`, and the removal of a subscriber.
pub mod Delivery
use go_mink.Base.{
  ℕ, zero, suc, ◌+◌, ◌≡◌, Bool, true, false, Option, none, some, List, [], ◌∷◌, ◌++◌, ltb, eqb,
  length, select, if◌then◌else◌,
}
use go_mink.Base.Int.{ℤ, pos, ltb_ℤ, pos_part}
use go_mink.Adapters.Types.{StoredEvent}
use go_mink.Adapters.Errors.{Error, Result, Context, ok, err, adapter_closed}
use go_mink.Memory.State.{MemoryAdapter, Channel, Subscriber}

pub record SubscriptionOptions : Type 0 where
  pub buffer_size : ℤ
  pub on_error : Option ℕ

-- `opts` is a variadic argument of which the first is read.
unfoldable pub get_buffer_size : List SubscriptionOptions → ℕ
get_buffer_size [] = 100
get_buffer_size (o ∷ opts) = if ltb_ℤ (pos 0) o.buffer_size then pos_part o.buffer_size else 100

unfoldable pub get_on_error : List SubscriptionOptions → Option ℕ
get_on_error [] = none
get_on_error (o ∷ opts) = o.on_error

abbrev pub above : ℕ → StoredEvent → Bool
above from_position event = ltb from_position event.global_position

-- How the blocking sends of the history end.
pub data Drain : Type 0 where
  drained : Channel → Drain
  blocked : Drain
  canceled : Error → Drain

abbrev pub pushed : Channel → StoredEvent → Channel
pushed ch event = record ch { queue = ch.queue ++ event ∷ [] }

-- The loop over the history. `cancellation` is the context: the round in which its `Done` is chosen, if any,
-- and its error. Nobody receives meanwhile, so a send to a full channel waits for `Done`.
unfoldable pub drain_history : Option (ℕ × Error) → List StoredEvent → Channel → Drain
drain_history cancellation [] ch = drained ch
drain_history none (event ∷ history) ch =
    let rest = drain_history none history (pushed ch event) in
    if ltb (length ch.queue) ch.capacity then rest else blocked
drain_history (some (zero, e)) (event ∷ history) ch = canceled e
drain_history (some (suc n, e)) (event ∷ history) ch =
    let rest = drain_history (some (n, e)) history (pushed ch event) in
    if ltb (length ch.queue) ch.capacity then rest else canceled e

-- The first subscriber with this channel goes; an unknown channel changes nothing.
unfoldable pub remove_subscriber : ℕ → List Subscriber → List Subscriber
remove_subscriber key [] = []
remove_subscriber key (sub ∷ subs) =
    if eqb sub.ch.key key then subs else sub ∷ remove_subscriber key subs

-- `none` as a result: the call never returns.
unfoldable pub finish_subscribe :
    MemoryAdapter → Subscriber → Drain → MemoryAdapter × Option (Result Channel)
unfolding remove_subscriber
finish_subscribe a sub (drained ch) =
    (record a { subscribers = a.subscribers ++ record sub { ch = ch } ∷ [] }, some (ok ch))
finish_subscribe a sub blocked = (record a { subscribers = a.subscribers ++ sub ∷ [] }, none)
finish_subscribe a sub (canceled e) = (
  record a { subscribers = remove_subscriber sub.ch.key (a.subscribers ++ sub ∷ []) },
  some (err e),
)

-- `key` is the identity of the channel that `make` returns.
unfoldable pub subscribe_all :
    Context
    → Option (ℕ × Error)
    → ℕ
    → MemoryAdapter
    → ℕ
    → List SubscriptionOptions
    → MemoryAdapter × Option (Result Channel)
unfolding drain_history finish_subscribe get_buffer_size get_on_error
subscribe_all (some e) cancellation key a from_position opts = (a, some (err e))
subscribe_all none cancellation key a from_position opts =
    if a.closed
    then (a, some (err adapter_closed))
    else let history = select (above from_position) a.global_events in
      let ch : Channel = record {
        key = key;
        capacity = get_buffer_size opts + length history;
        queue = [];
      } in
      finish_subscribe a (record { ch = ch; on_error = get_on_error opts })
        (drain_history cancellation history ch)
