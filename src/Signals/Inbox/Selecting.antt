-- ===== src/Signals/Inbox/Selecting.antt =====
-- What the filter and the sort key of `AgentSignalInbox.list` in app/agent_signals.py mean.
use brunova_knowledge_gatewa.Prelude.{
  sym, ◌∙◌, ℕ, ◌<◌, ◌≤◌, ◌==◌, eq_iff, ◌≡◌, refl, subst, ◌⊎◌, inl, inr, ◌↔◌, Bool, true, ◌&&◌, ◌||◌,
  Option, none, some, List, [], ◌∷◌, All, arith, ltb, leb, eqb, Bool-cases,
}
use brunova_knowledge_gatewa.Signals.Payload.{SignalPriority, attention, urgent}
use brunova_knowledge_gatewa.Signals.Record.{
  SignalStatus, pending, claimed, completed, dismissed, AgentSignalRecord,
}
use brunova_knowledge_gatewa.Signals.Inbox.{
  Selection, same_status, same_priority, fits, selects, key_le,
}

-- A criterion that is given is met.
abbrev pub IsAsked : {A : Type 0} → Option A → A → Type 0
IsAsked none x = Unit
IsAsked (some y) x = x ≡ y

abbrev pub IsSelected : Selection → AgentSignalRecord → Type 0
IsSelected selection r =
    IsAsked selection.status r.status
    × IsAsked selection.priority r.payload.priority
    × IsAsked selection.signal_type r.payload.signal_type
    × IsAsked selection.source r.payload.source

-- Urgent before attention; of the same priority, what occurred first; then, what was received first.
abbrev pub Precedes : AgentSignalRecord → AgentSignalRecord → Type 0
Precedes a b =
    ((a.payload.priority ≡ urgent) × (b.payload.priority ≡ attention))
    ⊎ ((a.payload.priority ≡ b.payload.priority)
        × ((a.payload.occurred_at < b.payload.occurred_at)
            ⊎ ((a.payload.occurred_at ≡ b.payload.occurred_at) × (a.received_at ≤ b.received_at))))

-- Every record precedes all that stand behind it.
abbrev pub IsInOrder : List AgentSignalRecord → Type 0
IsInOrder [] = Unit
IsInOrder (x ∷ xs) = All (λ y. Precedes x y) xs × IsInOrder xs

same_status_sound : (x y : SignalStatus) → same_status x y ≡ true → x ≡ y
same_status_sound pending pending h = refl
same_status_sound pending claimed h = cc
same_status_sound pending completed h = cc
same_status_sound pending dismissed h = cc
same_status_sound claimed pending h = cc
same_status_sound claimed claimed h = refl
same_status_sound claimed completed h = cc
same_status_sound claimed dismissed h = cc
same_status_sound completed pending h = cc
same_status_sound completed claimed h = cc
same_status_sound completed completed h = refl
same_status_sound completed dismissed h = cc
same_status_sound dismissed pending h = cc
same_status_sound dismissed claimed h = cc
same_status_sound dismissed completed h = cc
same_status_sound dismissed dismissed h = refl

same_status_refl : (x : SignalStatus) → same_status x x ≡ true
same_status_refl pending = refl
same_status_refl claimed = refl
same_status_refl completed = refl
same_status_refl dismissed = refl

same_priority_sound : (x y : SignalPriority) → same_priority x y ≡ true → x ≡ y
same_priority_sound attention attention h = refl
same_priority_sound attention urgent h = cc
same_priority_sound urgent attention h = cc
same_priority_sound urgent urgent h = refl

same_priority_refl : (x : SignalPriority) → same_priority x x ≡ true
same_priority_refl attention = refl
same_priority_refl urgent = refl

fits_iff :
    {A : Type 0} (same : A → A → Bool)
    → ((x y : A) → (same x y ≡ true) ↔ (x ≡ y))
    → (o : Option A) (x : A) → (fits same o x ≡ true) ↔ IsAsked o x
fits_iff same exact none x = (λ _. tt, λ _. refl)
fits_iff same exact (some y) x = exact x y

all_four :
    (a b c d : Bool)
    → ((a && b && c && d) ≡ true) ↔ ((a ≡ true) × (b ≡ true) × (c ≡ true) × (d ≡ true))
all_four a b c d =
    (λ h. (ground arith, ground arith, ground arith, ground arith), λ (h, k, l, m). ground arith)

pub selects_iff :
    (selection : Selection) (r : AgentSignalRecord)
    → (selects selection r ≡ true) ↔ IsSelected selection r
unfolding selects
selects_iff selection r =
    let status =
      fits_iff same_status
        (λ x y.
          (same_status_sound x y, λ e. subst (λ z. same_status x z ≡ true) e (same_status_refl x)))
        selection.status r.status in
    let priority =
      fits_iff same_priority
        (λ x y. (
          same_priority_sound x y,
          λ e. subst (λ z. same_priority x z ≡ true) e (same_priority_refl x),
        ))
        selection.priority r.payload.priority in
    let type = fits_iff ◌==◌ eq_iff selection.signal_type r.payload.signal_type in
    let source = fits_iff ◌==◌ eq_iff selection.source r.payload.source in
    let four = all_four _ _ _ _ in
    (
      λ h. let (a, b, c, d) = four.0 h in (status.0 a, priority.0 b, type.0 c, source.0 d),
      λ (a, b, c, d). four.1 (status.1 a, priority.1 b, type.1 c, source.1 d),
    )

by_times :
    (o o' r r' : ℕ) → (ltb o o' || (eqb o o' && leb r r')) ≡ true → (o < o') ⊎ ((o ≡ o') × (r ≤ r'))
by_times o o' r r' h = elim (Bool-cases (ltb o o')) [
  | inl first ↦ inl (ground arith)
  | inr behind ↦ inr (ground arith, ground arith)
]

pub key_le-Precedes : (a b : AgentSignalRecord) → key_le a b ≡ true → Precedes a b
unfolding key_le
key_le-Precedes a b h = compared a.payload.priority b.payload.priority refl refl
  where
    compared :
        (p q : SignalPriority) → a.payload.priority ≡ p → b.payload.priority ≡ q → Precedes a b
    compared urgent attention e k = inl (e, k)
    compared attention urgent e k = cc (rw (e, k, key_le) at h)
    compared urgent urgent e k = inr (e ∙ sym k, by_times _ _ _ _ (rw (e, k, key_le) at h))
    compared attention attention e k = inr (e ∙ sym k, by_times _ _ _ _ (rw (e, k, key_le) at h))
