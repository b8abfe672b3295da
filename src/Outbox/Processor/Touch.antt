-- ===== src/Outbox/Processor/Touch.antt =====
-- What marking the messages of a list does to the entry of one key.
use mathlib.Core.Option
use go_mink.Base.{
  ℕ, suc, ◌≡◌, refl, ◌∙◌, sym, ap, String, Bool, true, false, ◌||◌, Option, none, some, List, [],
  ◌∷◌, map, contains, is_some, if◌then◌else◌, ◌==◌, eq_iff, Option-cases, Bool-cases, inl, inr,
}
use mathlib.Core.Path.{subst}
use go_mink.Base.Dict.{Dict, lookup, insert, lookup-insert}
use go_mink.Adapters.Types.{OutboxMessage, Time, completed, failed}
use go_mink.Adapters.Errors.{Context}
use go_mink.Outbox.{OutboxStore, has_status, mark_failed, complete_loop, error_text}
use go_mink.Outbox.Processor.{OutboxProcessor, memory_operations, fail_all}

abbrev pub is_settled : Option OutboxMessage → Bool
is_settled none = false
is_settled (some msg) = has_status completed msg || has_status failed msg

-- An entry before and after, where `named` tells whether its key was one of those marked: another
-- key's entry stays, no entry goes away, and a settled or named one is settled.
abbrev pub Touches : Bool → Option OutboxMessage → Option OutboxMessage → Type 0
Touches named o o' =
    (named ≡ false → o' ≡ o)
    × (is_some o ≡ true → is_some o' ≡ true)
    × (is_settled o ≡ true → is_settled o' ≡ true)
    × (named ≡ true → is_some o ≡ true → is_settled o' ≡ true)

pub Touches-refl : (o : Option OutboxMessage) → Touches false o o
Touches-refl o = (λ _. refl, λ h. h, λ h. h, λ h. absurd cc)

pub Touches-trans :
    (b c : Bool) (o o' o'' : Option OutboxMessage)
    → Touches b o o'
    → Touches c o' o''
    → Touches (b || c) o o''
Touches-trans true c o o' o'' (same, keep, settle, hit) (same', keep', settle', hit') = (
  λ h. absurd cc,
  λ h. keep' (keep h),
  λ h. settle' (settle h),
  λ h there. settle' (hit refl there),
)
Touches-trans false c o o' o'' (same, keep, settle, hit) (same', keep', settle', hit') = (
  λ h. same' h ∙ same refl,
  λ h. keep' (keep h),
  λ h. settle' (settle h),
  λ h there. hit' h (keep there),
)

-- One entry that is set to a settled status.
Touches-map :
    (named : Bool) (change : OutboxMessage → OutboxMessage) (o : Option OutboxMessage)
    → ((msg : OutboxMessage) → is_settled (some (change msg)) ≡ true)
    → Touches named o (if named then Option.map change o else o)
Touches-map false change o settles = Touches-refl o
Touches-map true change none settles = (λ h. absurd cc, λ h. h, λ h. h, λ h there. absurd cc)
Touches-map true change (some msg) settles =
    (λ h. absurd cc, λ h. refl, λ h. settles msg, λ h there. settles msg)

lookup-changed :
    (id k : String) (change : OutboxMessage → OutboxMessage) (m : Dict OutboxMessage)
    → lookup k (elim (lookup id m) [ none ↦ m | some msg ↦ insert id (change msg) m ])
      ≡ (if id == k then Option.map change (lookup k m) else lookup k m)
lookup-changed id k change m = elim (Bool-cases (id == k)) [
  | inl same ↦
      let there_k : lookup k m ≡ lookup id m = ap (λ i. lookup i m) (sym ((eq_iff id k).0 same)) in
      elim (Option-cases (lookup id m)) [
        | inl gone ↦ rw (gone, same, there_k, gone) refl
        | inr (msg, there) ↦ rw (there, lookup-insert, same, there_k, there) refl
      ]
  | inr other ↦ elim (Option-cases (lookup id m)) [
    | inl gone ↦ rw (gone, other) refl
    | inr (msg, there) ↦ rw (there, lookup-insert, other) refl
  ]
]

abbrev failing : Option String → OutboxMessage → OutboxMessage
failing text msg = record msg { status = failed; last_error = error_text text }

mark_failed_lem :
    (s : OutboxStore) (id : String) (text : Option String)
    → (mark_failed none s id text).0.messages ≡ elim (lookup id s.messages) [
      | none ↦ s.messages
      | some msg ↦ insert id (failing text msg) s.messages
    ]
unfolding mark_failed
mark_failed_lem s id text = elim (Option-cases (lookup id s.messages)) [
  | inl gone ↦ rw (mark_failed, gone) refl
  | inr (msg, there) ↦ rw (mark_failed, there) refl
]

mark_failed-Touches :
    (s : OutboxStore) (id k : String) (text : Option String)
    → Touches (id == k) (lookup k s.messages) (lookup k (mark_failed none s id text).0.messages)
mark_failed-Touches s id k text =
    rw (mark_failed_lem s id text, lookup-changed id k (failing text) s.messages)
      (Touches-map (id == k) (failing text) (lookup k s.messages) (λ msg. refl))

pub complete_loop-Touches :
    (now : Time) (k : String) (m : Dict OutboxMessage) (ids : List String)
    → Touches (contains ids k) (lookup k m) (lookup k (complete_loop now m ids))
unfolding complete_loop
complete_loop-Touches now k m [] = Touches-refl (lookup k m)
complete_loop-Touches now k m (id ∷ ids) =
    let complete : OutboxMessage → OutboxMessage =
      λ msg. record msg { status = completed; processed_at = some now } in
    let m' : Dict OutboxMessage = elim (lookup id m) [
      | none ↦ m
      | some msg ↦ insert id (complete msg) m
    ] in
    let first : Touches (id == k) (lookup k m) (lookup k m') =
      rw (lookup-changed id k complete m)
        (Touches-map (id == k) complete (lookup k m) (λ msg. refl)) in
    Touches-trans (id == k) (contains ids k) (lookup k m) (lookup k m')
      (lookup k (complete_loop now m' ids)) first (complete_loop-Touches now k m' ids)

pub fail_all-Touches :
    (no_publisher : String → String) (p : OutboxProcessor) (ctx : ℕ → Context)
    (text : OutboxMessage → String) (j : ℕ) (s : OutboxStore) (k : String)
    (msgs : List OutboxMessage)
    → ((i : ℕ) → ctx i ≡ none)
    → Touches
        (contains (map (λ msg. msg.id) msgs) k)
        (lookup k s.messages)
        (lookup k (fail_all memory_operations no_publisher p ctx text j s msgs).messages)
unfolding fail_all
fail_all-Touches no_publisher p ctx text j s k [] live = Touches-refl (lookup k s.messages)
fail_all-Touches no_publisher p ctx text j s k (msg ∷ msgs) live =
    let s' = (mark_failed none s msg.id (some (text msg))).0 in
    subst
      (λ c. Touches (contains (map (λ msg. msg.id) (msg ∷ msgs)) k) (lookup k s.messages) (
        lookup k
          (fail_all memory_operations no_publisher p ctx text (suc j)
            (mark_failed c s msg.id (some (text msg))).0 msgs).messages))
      (sym (live j))
      (Touches-trans (msg.id == k) (contains (map (λ msg. msg.id) msgs) k) (lookup k s.messages)
        (lookup k s'.messages)
        (lookup k (fail_all memory_operations no_publisher p ctx text (suc j) s' msgs).messages)
        (mark_failed-Touches s msg.id k (some (text msg)))
        (fail_all-Touches no_publisher p ctx text (suc j) s' k msgs live))
