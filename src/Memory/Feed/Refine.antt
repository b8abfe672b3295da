-- ===== src/Memory/Feed/Refine.antt =====
-- The filtered read against its description: the first `limit` wanted events after a position.
use go_mink.Base.{
  ℕ, zero, suc, ◌+◌, ◌≡◌, refl, sym, ap, Bool, false, ◌&&◌, none, List, [], ◌∷◌, ◌++◌, append-nil,
  append_assoc, arith, ltb, length, length-append, take, select,
}
use mathlib.Core.Path.{subst}
use go_mink.Base.Int.{ℤ, pos, negsuc}
use go_mink.Adapters.Types.{StoredEvent}
use go_mink.Adapters.Errors.{ok}
use go_mink.Adapters.Feed.{FeedFilter, matches}
use go_mink.Memory.State.{MemoryAdapter}
use go_mink.Memory.Feed.{feed_loop, default_limit, load_from_position_filtered}

-- An event that a read from a position delivers.
abbrev pub wanted : ℕ → FeedFilter → StoredEvent → Bool
wanted from_position filter event = ltb from_position event.global_position && matches filter event

feed_loop-take :
    (p n k : ℕ) (f : FeedFilter) (g events : List StoredEvent)
    → n ≡ length events + suc k
    → feed_loop p (pos n) f g events ≡ events ++ take (suc k) (select (wanted p f) g)
unfolding feed_loop
feed_loop-take p n k f [] events e = sym (append-nil events)
feed_loop-take p n zero f (x ∷ g) events e =
    ground (arith, feed_loop-take p n zero f g events e, length-append events (x ∷ []))
feed_loop-take p n (suc k) f (x ∷ g) events e = ground (
  arith,
  feed_loop-take p n (suc k) f g events e,
  feed_loop-take p n k f g (events ++ x ∷ []),
  length-append events (x ∷ []),
  append_assoc events (x ∷ []) (take (suc k) (select (wanted p f) g)),
)

-- The limit that a caller's `limit` stands for.
abbrev pub page_size : ℤ → ℕ
page_size (pos zero) = 1000
page_size (pos (suc k)) = suc k
page_size _ = 1000

page_size_lem :
    (limit : ℤ)
    → (k : ℕ) × (page_size limit ≡ suc k) × (default_limit limit (pos 1000) ≡ pos (suc k))
unfolding default_limit
page_size_lem (pos zero) = (999, refl, refl)
page_size_lem (pos (suc k)) = (k, refl, ground arith)
page_size_lem (negsuc n) = (999, refl, ground arith)

-- On an open adapter, under a live context, the filtered read returns exactly the first events of the
-- global log that lie after the position and match the filter, as many as the limit allows, in the
-- order of the log; a limit that is not positive stands for 1000.
pub load_from_position_filtered-take :
    (a : MemoryAdapter) (p : ℕ) (limit : ℤ) (f : FeedFilter)
    → a.closed ≡ false
    → load_from_position_filtered none a p limit f
      ≡ ok (take (page_size limit) (select (wanted p f) a.global_events))
unfolding load_from_position_filtered
load_from_position_filtered-take a p limit f open_adapter =
    let (k, size, default) = page_size_lem limit in
    let page = feed_loop-take p (suc k) k f a.global_events [] (omega arith) in
    rw (open_adapter, size)
      (ap ok (
        subst
          (λ l.
            feed_loop p l f a.global_events [] ≡ take (suc k) (select (wanted p f) a.global_events))
          (sym default) page))
