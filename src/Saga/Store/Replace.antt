-- ===== src/Saga/Store/Replace.antt =====
-- The loop of the lookups by correlation id of adapters/memory/saga_store.go, after an entry has been
-- written: it ends with the new entry.
use go_mink.Base.{
  ◌≡◌, ◌≢◌, refl, ◌∙◌, sym, ap, String, Bool, true, false, ◌&&◌, Option, none, some, [], ◌∷◌, arith,
  if_intro, Bool-cases, Option-cases, inl, inr, ◌⊎◌, ◌==◌, eq_iff, eq_refl, All,
}
use mathlib.Core.Path.{subst}
use go_mink.Base.Int.{ltb_ℤ}
use go_mink.Base.Dict.{Dict, lookup, insert, Unique}
use go_mink.Saga.State.{SagaState}
use go_mink.Saga.Store.{better, latest}
use go_mink.Saga.Store.Latest.{IsLatest, latest-IsLatest, better-some}

-- What a lookup may have found before a saga of that id is written: nothing, or that saga.
abbrev pub IsSameSaga : SagaState → Option SagaState → Type 0
IsSameSaga new none = Unit
IsSameSaga new (some old) = (old.id ≡ new.id) × (old.started_at ≡ new.started_at)

module _ (test : SagaState → Bool) where
  -- Entries of other sagas.
  abbrev Others : String → Dict SagaState → Type 0
  Others id m = All (λ x. (x.1.id == id) ≡ false) m

  abbrev Other : String → Option SagaState → Type 0
  Other id none = Unit
  Other id (some b) = (b.id == id) ≡ false

  better-Other :
      (id : String) (b : Option SagaState) (state : SagaState)
      → Other id b
      → (state.id == id) ≡ false
      → Other id (better test b state)
  unfolding better
  better-Other id none state h other = if_intro (Other id) (test state) (λ _. other) (λ _. tt)
  better-Other id (some b) state h other =
      if_intro (Other id) (test state && ltb_ℤ b.started_at state.started_at) (λ _. other) (λ _. h)

  latest-Other :
      (id : String) (b : Option SagaState) (m : Dict SagaState)
      → Other id b
      → Others id m
      → Other id (latest test b m)
  unfolding latest
  latest-Other id b [] h all = h
  latest-Other id b ((k, state) ∷ m) h all =
      latest-Other id (better test b state) m (better-Other id b state h all.0) all.1

  -- An entry that is what the loop ends with is taken when its turn comes.
  latest-taken :
      (id : String) (a best : SagaState) (m : Dict SagaState)
      → Others id m
      → (best.id == id) ≡ true
      → latest test (some a) m ≡ some best
      → a ≡ best
  unfolding latest better
  latest-taken id a best [] all own h = let e : some a ≡ some best = h in cc
  latest-taken id a best ((k, state) ∷ m) all own h =
      elim (Bool-cases (test state && ltb_ℤ a.started_at state.started_at)) [
        | inl taken ↦
            let same : state ≡ best =
              latest-taken id state best m all.1 own (rw (latest, better, taken) at h) in
            absurd (let other = rw same at all.0 in cc)
        | inr left ↦ latest-taken id a best m all.1 own (rw (latest, better, left) at h)
      ]

  -- A newer copy of what the loop ends with, started at the same time, stays in its place.
  latest-copy :
      (id : String) (a new : SagaState) (m : Dict SagaState)
      → Others id m
      → (a.id == id) ≡ true
      → a.started_at ≡ new.started_at
      → latest test (some a) m ≡ some a
      → latest test (some new) m ≡ some new
  unfolding latest better
  latest-copy id a new [] all own same h = refl
  latest-copy id a new ((k, state) ∷ m) all own same h =
      elim (Bool-cases (test state && ltb_ℤ a.started_at state.started_at)) [
        | inl taken ↦
            let same_saga : state ≡ a =
              latest-taken id state a m all.1 own (rw (latest, better, taken) at h) in
            absurd (let other = rw same_saga at all.0 in cc)
        | inr left ↦
            let left' : (test state && ltb_ℤ new.started_at state.started_at) ≡ false =
              rw same at left in
            rw (latest, better, left')
              (latest-copy id a new m all.1 own same (rw (latest, better, left) at h))
      ]

  -- Only the entry of an id has that id.
  Others-of :
      (id : String) (m : Dict SagaState)
      → All (λ x. x.0 ≡ x.1.id) m
      → lookup id m ≡ none
      → Others id m
  unfolding lookup
  Others-of id [] own free = tt
  Others-of id ((k, state) ∷ m) own free = elim (Bool-cases (k == id)) [
    | inl same ↦ absurd (let h = rw same at free in cc)
    | inr other ↦ (rw own.0 at other, Others-of id m own.1 (rw other at free))
  ]

  better_copy :
      (b : Option SagaState) (state new : SagaState)
      → state.started_at ≡ new.started_at
      → test new ≡ true
      → better test b state ≡ some state
      → (better test b new ≡ some new) ⊎ (b ≡ some state)
  unfolding better
  better_copy none state new same passes h = inl (rw passes refl)
  better_copy (some b) state new same passes h =
      elim (Bool-cases (test state && ltb_ℤ b.started_at state.started_at)) [
        | inl taken ↦
            let later : ltb_ℤ b.started_at new.started_at ≡ true = ground (arith, taken, same) in
            inl (rw (passes, later) refl)
        | inr left ↦ inr (rw left at h)
      ]

  latest-insert_here :
      (id : String) (b : Option SagaState) (state old new : SagaState) (m : Dict SagaState)
      → Other id b
      → Others id m
      → latest test (better test b state) m ≡ some old
      → old.id ≡ id
      → old.started_at ≡ new.started_at
      → test new ≡ true
      → latest test (better test b new) m ≡ some new
  latest-insert_here id b state old new m other rest h same_id same passes =
      elim (Option-cases (better test b state)) [
        | inl nothing ↦ absurd (
            let clash = subst (Other id) (rw nothing at h) (latest-Other id none m tt rest) in
            let e = rw (same_id, eq_refl) at clash in cc)
        | inr (w, kept) ↦
            let h' : latest test (some w) m ≡ some old = rw kept at h in
            let old_own : (old.id == id) ≡ true = rw (same_id, eq_refl) refl in
            let w_old : w ≡ old = latest-taken id w old m rest old_own h' in
            let not_before : b ≢ some w = λ e.
              let clash = subst (Other id) e other in
              let e' = rw (w_old, same_id, eq_refl) at clash in absurd cc in
            elim (better-some test b state w kept) [
              | inl before ↦ absurd (not_before before)
              | inr (is_w, _) ↦
                  elim (better_copy b state new (rw (is_w, w_old) same) passes
                    (kept ∙ ap some (sym is_w))) [
                      | inr before ↦ absurd (not_before (before ∙ ap some is_w))
                      | inl kept' ↦ rw kept' (
                          latest-copy id w new m rest (rw w_old old_own) (rw w_old same)
                            (h' ∙ ap some (sym w_old)))
                    ]
            ]
      ]

  latest-insert :
      (id : String) (b : Option SagaState) (m : Dict SagaState) (old new : SagaState)
      → Other id b
      → Unique m
      → All (λ x. x.0 ≡ x.1.id) m
      → latest test b m ≡ some old
      → old.id ≡ id
      → old.started_at ≡ new.started_at
      → test new ≡ true
      → latest test b (insert id new m) ≡ some new
  unfolding latest insert
  latest-insert id b [] old new other u own h same_id same passes =
      absurd (let clash = subst (Other id) h other in let e = rw (same_id, eq_refl) at clash in cc)
  latest-insert id b ((k, state) ∷ m) old new other u own h same_id same passes =
      elim (Bool-cases (k == id)) [
        | inl here ↦
            let key : k ≡ id = (eq_iff k id).0 here in
            let rest : Others id m =
              Others-of id m own.1 (subst (λ i. lookup i m ≡ none) key u.0) in
            rw (insert, here)
              (latest-insert_here id b state old new m other rest h same_id same passes)
        | inr there ↦
            let other' : (state.id == id) ≡ false = rw own.0 at there in
            rw (insert, there)
              (latest-insert id (better test b state) m old new
                (better-Other id b state other other') u.1 own.1 h same_id same passes)
      ]

  -- Where nothing passes, an entry that passes is what is found once it is there.
  latest-alone :
      (new : SagaState) (m : Dict SagaState)
      → All (λ x. test x.1 ≡ false) m
      → latest test (some new) m ≡ some new
  unfolding latest better
  latest-alone new [] all = refl
  latest-alone new ((k, state) ∷ m) (fails, all) =
      rw (latest, better, fails) (latest-alone new m all)

  latest-insert_new :
      (id : String) (m : Dict SagaState) (new : SagaState)
      → All (λ x. test x.1 ≡ false) m
      → test new ≡ true
      → latest test none (insert id new m) ≡ some new
  unfolding latest better insert
  latest-insert_new id [] new all passes = rw (latest, better, passes) refl
  latest-insert_new id ((k, state) ∷ m) new (fails, all) passes = elim (Bool-cases (k == id)) [
    | inl here ↦ rw (insert, here, latest, better, passes) (latest-alone new m all)
    | inr there ↦ rw (insert, there, latest, better, fails) (latest-insert_new id m new all passes)
  ]

  pub latest-insert_same :
      (m : Dict SagaState) (new : SagaState)
      → Unique m
      → All (λ x. x.0 ≡ x.1.id) m
      → IsSameSaga new (latest test none m)
      → test new ≡ true
      → latest test none (insert new.id new m) ≡ some new
  latest-insert_same m new u own same passes = elim (Option-cases (latest test none m)) [
    | inl nothing ↦
        latest-insert_new new.id m new
          (subst (IsLatest test none m) nothing (latest-IsLatest test none m)).1 passes
    | inr (old, is) ↦
        let same' = subst (IsSameSaga new) is same in
        latest-insert new.id none m old new tt u own is same'.0 same'.1 passes
  ]
