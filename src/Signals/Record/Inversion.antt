-- ===== src/Signals/Record/Inversion.antt =====
-- What a transition of app/agent_signals.py that succeeds says of the record before and after.
use brunova_knowledge_gatewa.Prelude.{
  ℕ, String, ◌≡◌, refl, true, false, not, ◌&&◌, ◌||◌, List, Option, none, some, arith, Bool-cases,
  inl, inr, ap,
}
use brunova_knowledge_gatewa.Errors.{ok, ok-injective}
use brunova_knowledge_gatewa.Json.{Json}
use brunova_knowledge_gatewa.Signals.Record.{
  SignalStatus, pending, claimed, completed, dismissed, AgentSignalRecord, is_claimed, is_open,
  is_expired, is_other, as_claimed, as_completed, as_dismissed, unclaimed, claim, complete, dismiss,
  release, expire,
}

pub claimed_of : (s : SignalStatus) → is_claimed s ≡ true → s ≡ claimed
claimed_of claimed h = refl
claimed_of pending h = cc
claimed_of completed h = cc
claimed_of dismissed h = cc

module _ (r r' : AgentSignalRecord) where
  -- A claim succeeds on an open record that nobody holds, or whose holder's lease has passed.
  pub claim_sound :
      (lease now : ℕ) (p : String)
      → claim lease now p r ≡ ok r'
      → (is_open r.status ≡ true)
        × ((is_claimed r.status && not (is_expired r now)) ≡ false)
        × (as_claimed lease now p r ≡ r')
  unfolding claim
  claim_sound lease now p h = elim (Bool-cases (is_claimed r.status && not (is_expired r now))) [
    | inl held ↦ cc (rw (held, claim) at h)
    | inr free ↦ elim (Bool-cases (not (is_open r.status))) [
      | inl shut ↦ cc (rw (free, shut, claim) at h)
      | inr opened ↦ (ground arith, free, ok-injective (rw (free, opened, claim) at h))
    ]
  ]

  pub complete_sound :
      (now : ℕ) (summary : String) (metadata : List (String × Json)) (p : Option String)
      → complete now summary metadata p r ≡ ok r'
      → (r.status ≡ claimed)
        × (is_expired r now ≡ false)
        × (is_other p r.claimed_by ≡ false)
        × (as_completed now summary metadata r ≡ r')
  unfolding complete
  complete_sound now summary metadata p h =
      elim (Bool-cases (not (is_claimed r.status) || is_expired r now)) [
        | inl bad ↦ cc (rw (bad, complete) at h)
        | inr good ↦ elim (Bool-cases (is_other p r.claimed_by)) [
          | inl other ↦ cc (rw (good, other, complete) at h)
          | inr own ↦ (
            claimed_of r.status (ground arith),
            ground arith,
            own,
            ok-injective (rw (good, own, complete) at h),
          )
        ]
      ]

  pub dismiss_sound :
      (now : ℕ) (reason : String) (p : Option String)
      → dismiss now reason p r ≡ ok r'
      → (is_open r.status ≡ true)
        × ((is_claimed r.status && is_other p r.claimed_by) ≡ false)
        × (as_dismissed now reason r ≡ r')
  unfolding dismiss
  dismiss_sound now reason p h = elim (Bool-cases (not (is_open r.status))) [
    | inl bad ↦ cc (rw (bad, dismiss) at h)
    | inr good ↦ elim (Bool-cases (is_claimed r.status && is_other p r.claimed_by)) [
      | inl other ↦ cc (rw (good, other, dismiss) at h)
      | inr own ↦ (ground arith, own, ok-injective (rw (good, own, dismiss) at h))
    ]
  ]

  pub release_sound :
      (now : ℕ) (p : Option String)
      → release now p r ≡ ok r'
      → (r.status ≡ claimed) × (is_other p r.claimed_by ≡ false) × (unclaimed now r ≡ r')
  unfolding release
  release_sound now p h = elim (Bool-cases (not (is_claimed r.status))) [
    | inl bad ↦ cc (rw (bad, release) at h)
    | inr good ↦ elim (Bool-cases (is_other p r.claimed_by)) [
      | inl other ↦ cc (rw (good, other, release) at h)
      | inr own ↦
          (claimed_of r.status (ground arith), own, ok-injective (rw (good, own, release) at h))
    ]
  ]

  pub expire_sound :
      (now : ℕ)
      → expire now r ≡ some r'
      → (r.status ≡ claimed) × (is_expired r now ≡ true) × (unclaimed now r ≡ r')
  unfolding expire
  expire_sound now h = elim (Bool-cases (is_expired r now)) [
    | inr not_yet ↦ cc (rw (not_yet, expire) at h)
    | inl past ↦ (
      claimed_of r.status (unfold is_expired in ground arith),
      past,
      ap (elim [ none ↦ r | some x ↦ x ]) (rw (past, expire) at h),
    )
  ]
