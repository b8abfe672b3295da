-- ===== src/Memory/Feed/Resume.antt =====
-- Reading the global log page by page: a reader that goes on from the position of the last event of
-- a page misses nothing and sees nothing twice.
use go_mink.Base.{
  false, ℕ, zero, suc, ◌≤◌, ◌<◌, ◌≡◌, refl, sym, ap, ◌∙◌, Option, none, some, List, [], ◌∷◌, ◌++◌,
  arith, take, drop, take-append-drop, select, Bool-cases, inl, inr, ◌⊎◌,
}
use go_mink.Adapters.Types.{StoredEvent}
use go_mink.Base.Int.{ℤ}
use go_mink.Adapters.Errors.{ok}
use go_mink.Memory.State.{MemoryAdapter}
use go_mink.Memory.Feed.{load_from_position_filtered}
use go_mink.Adapters.Feed.{FeedFilter}
use go_mink.Memory.Invariant.{IsConsistent, Positions}
use go_mink.Memory.Feed.Refine.{wanted, page_size, load_from_position_filtered-take}

-- The last event of a page.
abbrev pub last? : List StoredEvent → Option StoredEvent
last? [] = none
last? (x ∷ []) = some x
last? (x ∷ y ∷ l) = last? (y ∷ l)

-- Above both positions the same events are wanted.
select-wanted :
    (n p q : ℕ) (f : FeedFilter) (g : List StoredEvent)
    → Positions n g
    → p < n
    → q < n
    → select (wanted p f) g ≡ select (wanted q f) g
select-wanted n p q f [] h hp hq = refl
select-wanted n p q f (x ∷ g) h hp hq =
    ground (arith, select-wanted (suc n) p q f g h.1 (omega arith) (omega arith))

last?-cons :
    (x : StoredEvent) (k : ℕ) (s : List StoredEvent)
    → (take k s ≡ []) × (drop k s ≡ s) ⊎ (last? (x ∷ take k s) ≡ last? (take k s))
last?-cons x zero s = inl (refl, refl)
last?-cons x (suc k) [] = inl (refl, refl)
last?-cons x (suc k) (y ∷ s) = inr refl

resume_from :
    (n p k : ℕ) (f : FeedFilter) (g : List StoredEvent) (e : StoredEvent)
    → Positions n g
    → last? (take k (select (wanted p f) g)) ≡ some e
    → (n ≤ e.global_position)
      × (drop k (select (wanted p f) g) ≡ select (wanted e.global_position f) g)
resume_from n p zero f g e h l = cc
resume_from n p (suc k) f [] e h l = cc
resume_from n p (suc k) f (x ∷ g) e h l = elim (Bool-cases (wanted p f x)) [
  | inr skipped ↦
      let l' = rw skipped at l in
      let (later, rest) = resume_from (suc n) p (suc k) f g e h.1 l' in rw skipped (ground arith)
  | inl delivered ↦
      let l' = rw delivered at l in
      rw delivered (elim (last?-cons x k (select (wanted p f) g)) [
        | inl (empty, all) ↦
            let same : some x ≡ some e = rw empty at l' in
            let above = select-wanted (suc n) p n f g h.1 (ground arith) (omega arith) in
            ground arith
        | inr longer ↦
            let (later, rest) = resume_from (suc n) p k f g e h.1 (sym longer ∙ l') in ground arith
      ])
]

take-resume :
    (p k : ℕ) (f : FeedFilter) (g : List StoredEvent) (e : StoredEvent)
    → Positions 1 g
    → last? (take k (select (wanted p f) g)) ≡ some e
    → select (wanted p f) g
      ≡ take k (select (wanted p f) g) ++ select (wanted e.global_position f) g
take-resume p k f g e h l =
    rw (← (resume_from 1 p k f g e h l).1) (sym (take-append-drop k (select (wanted p f) g)))

-- On a consistent, open adapter, under a live context, the wanted events after a position are exactly
-- the page that the filtered read returns followed by the wanted events after the last event of that
-- page: a reader that goes on from there misses nothing and sees nothing twice.
pub load_from_position_filtered-resume :
    (a : MemoryAdapter) (p : ℕ) (limit : ℤ) (f : FeedFilter) (page : List StoredEvent)
    (e : StoredEvent)
    → IsConsistent a
    → a.closed ≡ false
    → load_from_position_filtered none a p limit f ≡ ok page
    → last? page ≡ some e
    → select (wanted p f) a.global_events
      ≡ page ++ select (wanted e.global_position f) a.global_events
load_from_position_filtered-resume a p limit f page e inv live read last =
    let same : ok (take (page_size limit) (select (wanted p f) a.global_events)) ≡ ok page =
      sym (load_from_position_filtered-take a p limit f live) ∙ read in
    let same' : take (page_size limit) (select (wanted p f) a.global_events) ≡ page = cc in
    take-resume p (page_size limit) f a.global_events e inv.positions (ap last? same' ∙ last)
    ∙ ap (λ l. l ++ select (wanted e.global_position f) a.global_events) same'
