-- ===== src/Outbox/Fetch/Order.antt =====
-- Which messages a fetch chooses: due ones, earliest first.
use mathlib.Core.List.{Perm}
use mathlib.Core.List.Perm
use go_mink.Base.{suc, ◌≡◌, refl, String, [], ◌∷◌, ◌++◌, arith, length, All, if_intro}
use go_mink.Base.Int.{ℤ, ltb_ℤ, ◌≤ℤ◌}
use go_mink.Base.Limit.{allowed, limited-split}
use go_mink.Base.Dict.{Dict}
use go_mink.Adapters.Types.{OutboxMessage, Time}
use go_mink.Outbox.{OutboxStore}
use go_mink.Outbox.Fetch.{
  due_messages, scheduled, insert_scheduled, sort_scheduled, chosen_messages,
}

-- No earlier than a time, for all of a list.
abbrev pub AllFrom : Time → Dict OutboxMessage → Type 0
AllFrom t = All (λ x. t ≤ℤ scheduled x)

abbrev pub IsSorted : Dict OutboxMessage → Type 0
IsSorted [] = Unit
IsSorted (x ∷ xs) = AllFrom (scheduled x) xs × IsSorted xs

AllFrom-le : (t u : Time) (xs : Dict OutboxMessage) → t ≤ℤ u → AllFrom u xs → AllFrom t xs
AllFrom-le t u [] h a = tt
AllFrom-le t u (x ∷ xs) h a = (omega (arith, a.0), AllFrom-le t u xs h a.1)

AllFrom-insert :
    (t : Time) (x : String × OutboxMessage) (xs : Dict OutboxMessage)
    → t ≤ℤ scheduled x
    → AllFrom t xs
    → AllFrom t (insert_scheduled x xs)
unfolding insert_scheduled
AllFrom-insert t x [] h a = (h, tt)
AllFrom-insert t x (y ∷ ys) h a =
    if_intro (AllFrom t) (ltb_ℤ (scheduled y) (scheduled x))
      (λ later. (a.0, AllFrom-insert t x ys h a.1)) (λ first. (h, a))

insert-IsSorted :
    (x : String × OutboxMessage) (xs : Dict OutboxMessage)
    → IsSorted xs
    → IsSorted (insert_scheduled x xs)
unfolding insert_scheduled
insert-IsSorted x [] s = (tt, tt)
insert-IsSorted x (y ∷ ys) s =
    if_intro IsSorted (ltb_ℤ (scheduled y) (scheduled x))
      (λ later. (AllFrom-insert (scheduled y) x ys (ground arith) s.0, insert-IsSorted x ys s.1))
      (λ first.
        let le : scheduled x ≤ℤ scheduled y = ground arith in
        ((le, AllFrom-le (scheduled x) (scheduled y) ys le s.0), s))

sort-IsSorted : (xs : Dict OutboxMessage) → IsSorted (sort_scheduled xs)
unfolding sort_scheduled
sort-IsSorted [] = tt
sort-IsSorted (x ∷ xs) = insert-IsSorted x (sort_scheduled xs) (sort-IsSorted xs)

insert-perm :
    (x : String × OutboxMessage) (xs : Dict OutboxMessage) → Perm (insert_scheduled x xs) (x ∷ xs)
unfolding insert_scheduled
insert-perm x [] = Perm.refl _
insert-perm x (y ∷ ys) =
    if_intro (λ l. Perm l (x ∷ y ∷ ys)) (ltb_ℤ (scheduled y) (scheduled x))
      (λ later. Perm.trans (Perm.cons y (insert-perm x ys)) (Perm.swap x y ys))
      (λ first. Perm.refl _)

sort-perm : (xs : Dict OutboxMessage) → Perm (sort_scheduled xs) xs
unfolding sort_scheduled
sort-perm [] = Perm.refl _
sort-perm (x ∷ xs) = Perm.trans (insert-perm x (sort_scheduled xs)) (Perm.cons x (sort-perm xs))

length-insert :
    (x : String × OutboxMessage) (xs : Dict OutboxMessage)
    → length (insert_scheduled x xs) ≡ suc (length xs)
unfolding insert_scheduled
length-insert x [] = refl
length-insert x (y ∷ ys) = ground (arith, length-insert x ys)

length-sort : (xs : Dict OutboxMessage) → length (sort_scheduled xs) ≡ length xs
unfolding sort_scheduled
length-sort [] = refl
length-sort (x ∷ xs) = omega (arith, length-insert x (sort_scheduled xs), length-sort xs)

-- A fetch chooses among the due messages: the chosen ones and those left over are the due messages in
-- the order of their times, the chosen ones first, so none that is left over is due before a chosen
-- one; and as many are chosen as the limit allows.
pub chosen_messages-earliest :
    (now : Time) (s : OutboxStore) (limit : ℤ)
    → (left : Dict OutboxMessage) × IsSorted (chosen_messages now s limit ++ left)
      × Perm (chosen_messages now s limit ++ left) (due_messages now s.messages)
      × (length (chosen_messages now s limit)
          ≡ allowed limit (length (due_messages now s.messages)))
unfolding chosen_messages
chosen_messages-earliest now s limit =
    let sorted = sort_scheduled (due_messages now s.messages) in
    let (left, split, size) = limited-split limit sorted in
    (
      left,
      rw split (sort-IsSorted (due_messages now s.messages)),
      rw split (sort-perm (due_messages now s.messages)),
      rw (← length-sort (due_messages now s.messages)) size,
    )
