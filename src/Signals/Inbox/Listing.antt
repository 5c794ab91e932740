-- ===== src/Signals/Inbox/Listing.antt =====
-- What `AgentSignalInbox.list` of app/agent_signals.py returns of the records that it read.
use brunova_knowledge_gatewa.Prelude.{
  ℕ, zero, suc, ◌≡◌, refl, ap, ◌∙◌, Bool, true, false, ◌&&◌, List, [], ◌∷◌, ◌++◌, ◌⊎◌, ◌↔◌, arith,
  length, take, keep, All, Bool-cases, inl, inr,
}
use brunova_knowledge_gatewa.Signals.Inbox.Selecting.{
  IsSelected, Precedes, IsInOrder, selects_iff, key_le-Precedes,
}
use brunova_knowledge_gatewa.Signals.Record.{AgentSignalRecord}
use brunova_knowledge_gatewa.Signals.Inbox.{Selection, selects, key_le, insert, sort, select, count}

-- No record stands after one with a greater key.
abbrev pub IsSorted : List AgentSignalRecord → Type 0
IsSorted [] = Unit
IsSorted (x ∷ xs) = All (λ y. key_le x y ≡ true) xs × IsSorted xs

key_le_total : (a b : AgentSignalRecord) → key_le a b ≡ false → key_le b a ≡ true
unfolding key_le
key_le_total a b h = ground arith

key_le_trans :
    (a b c : AgentSignalRecord) → key_le a b ≡ true → key_le b c ≡ true → key_le a c ≡ true
unfolding key_le
key_le_trans a b c h k = ground arith

module _ (P : AgentSignalRecord → Type 0) where
  All-insert :
      (x : AgentSignalRecord) (ys : List AgentSignalRecord) → P x → All P ys → All P (insert x ys)
  unfolding insert
  All-insert x [] h k = (h, tt)
  All-insert x (y ∷ ys) h k = elim (Bool-cases (key_le x y)) [
    | inl e ↦ rw e (h, k)
    | inr e ↦ rw e (k.0, All-insert x ys h k.1)
  ]

above :
    (x y : AgentSignalRecord) (ys : List AgentSignalRecord)
    → key_le x y ≡ true
    → All (λ z. key_le y z ≡ true) ys
    → All (λ z. key_le x z ≡ true) ys
above x y [] e h = tt
above x y (z ∷ zs) e h = (key_le_trans x y z e h.0, above x y zs e h.1)

insert-IsSorted :
    (x : AgentSignalRecord) (ys : List AgentSignalRecord) → IsSorted ys → IsSorted (insert x ys)
unfolding insert
insert-IsSorted x [] h = (tt, tt)
insert-IsSorted x (y ∷ ys) h = elim (Bool-cases (key_le x y)) [
  | inl e ↦ rw e ((e, above x y ys e h.0), h)
  | inr e ↦
      rw e (
        All-insert (λ z. key_le y z ≡ true) x ys (key_le_total x y e) h.0,
        insert-IsSorted x ys h.1,
      )
]

sort-IsSorted : (xs : List AgentSignalRecord) → IsSorted (sort xs)
unfolding sort
sort-IsSorted [] = tt
sort-IsSorted (x ∷ xs) = insert-IsSorted x (sort xs) (sort-IsSorted xs)

cut :
    (n : ℕ) (xs : List AgentSignalRecord)
    → (rest : List AgentSignalRecord) × (take n xs ++ rest ≡ xs)
      × ((length (take n xs) ≡ n) ⊎ (rest ≡ []))
cut zero xs = (xs, refl, inl refl)
cut (suc n) [] = ([], refl, inr refl)
cut (suc n) (x ∷ xs) =
    let (rest, e, full) = cut n xs in
    (rest, ap (λ l. x ∷ l) e, elim full [ inl k ↦ inl (ap suc k) | inr k ↦ inr k ])

module _ (p : AgentSignalRecord → Bool) where
  count-insert :
      (x : AgentSignalRecord) (ys : List AgentSignalRecord)
      → count p (insert x ys) ≡ count p (x ∷ ys)
  unfolding insert
  count-insert x [] = refl
  count-insert x (y ∷ ys) = ground (arith, count-insert x ys)

  count-sort : (xs : List AgentSignalRecord) → count p (sort xs) ≡ count p xs
  unfolding sort
  count-sort [] = refl
  count-sort (x ∷ xs) = count-insert x (sort xs) ∙ ground (arith, count-sort xs)

  count-keep :
      (q : AgentSignalRecord → Bool) (xs : List AgentSignalRecord)
      → count p (keep q xs) ≡ count (λ r. q r && p r) xs
  count-keep q [] = refl
  count-keep q (x ∷ xs) = ground (arith, count-keep q xs)

in_order : (xs : List AgentSignalRecord) → IsSorted xs → IsInOrder xs
in_order [] h = tt
in_order (x ∷ xs) (first, rest) = (before xs first, in_order xs rest)
  where
    before :
        (ys : List AgentSignalRecord) → All (λ y. key_le x y ≡ true) ys → All (λ y. Precedes x y) ys
    before [] h = tt
    before (y ∷ ys) (h, k) = (key_le-Precedes x y h, before ys k)

-- What `list` selects from the records that it read. The test of its filter holds exactly of the
-- records that meet each criterion that is given. With the records that the limit cut off behind it,
-- the selection is in order: urgent records come before the others, then what occurred first, then
-- what was received first. It has, for every test, as many records that pass it as there are among
-- the records that were read and meet the criteria, so that none is lost, invented or repeated. Nothing
-- is cut off unless the limit is reached.
pub select_lem :
    (selection : Selection) (limit : ℕ) (records : List AgentSignalRecord)
    → (rest : List AgentSignalRecord) × ((r : AgentSignalRecord)
        → (selects selection r ≡ true) ↔ IsSelected selection r)
      × IsInOrder (select selection limit records ++ rest)
      × ((p : AgentSignalRecord → Bool)
          → count p (select selection limit records ++ rest)
            ≡ count (λ r. selects selection r && p r) records)
      × ((length (select selection limit records) ≡ limit) ⊎ (rest ≡ []))
unfolding select
select_lem selection limit records =
    let kept = keep (selects selection) records in
    let (rest, e, full) = cut limit (sort kept) in
    (
      rest,
      selects_iff selection,
      rw e (in_order (sort kept) (sort-IsSorted kept)),
      (λ p. rw e (count-sort p kept ∙ count-keep p (selects selection) records)),
      full,
    )
