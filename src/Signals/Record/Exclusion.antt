-- ===== src/Signals/Record/Exclusion.antt =====
-- While a lease runs, only its holder works on a signal of app/agent_signals.py.
use brunova_knowledge_gatewa.Prelude.{
  ℕ, ◌+◌, String, ◌==◌, ◌≡◌, Bool, true, List, Option, none, some, arith, leb, if◌then◌else◌, subst,
}
use brunova_knowledge_gatewa.Errors.{
  ok, err, adapter, agent_signal_already_claimed, agent_signal_claim_owner_mismatch,
}
use brunova_knowledge_gatewa.Json.{Json}
use brunova_knowledge_gatewa.Signals.Record.Inversion.{claim_sound}
use brunova_knowledge_gatewa.Signals.Record.{
  AgentSignalRecord, is_expired, as_claimed, as_completed, unclaimed, transition_error, claim,
  complete, expire,
}

-- Whether a call that names a principal or none may act for the holder.
abbrev pub is_holder : String → Option String → Bool
is_holder p none = true
is_holder p (some q) = p == q

module _ (lease now : ℕ) (p : String) (r r' : AgentSignalRecord)
    (claimed : claim lease now p r ≡ ok r') where
  -- After a claim at `now`, a second claim is refused until the lease has passed and succeeds from
  -- then on, whoever makes it.
  pub claim_again :
      (now' : ℕ) (q : String)
      → claim lease now' q r' ≡ (
          if leb (now + lease) now'
          then ok (as_claimed lease now' q r')
          else err (adapter agent_signal_already_claimed 409))
  unfolding claim is_expired
  claim_again now' q =
      subst
        (λ x. claim lease now' q x ≡ (
          if leb (now + lease) now'
          then ok (as_claimed lease now' q x)
          else err (adapter agent_signal_already_claimed 409)))
        (claim_sound r r' lease now p claimed).2 (ground arith)

  -- After a claim by `p`, a completion succeeds exactly if the lease has not passed and the principal that
  -- it names, if it names one, is `p`; a completion that names no principal is not asked for the
  -- holder. Otherwise it is refused with the error of the case.
  pub complete_by :
      (now' : ℕ) (summary : String) (metadata : List (String × Json)) (q : Option String)
      → complete now' summary metadata q r' ≡ (
          if leb (now + lease) now'
          then err transition_error
          else if is_holder p q
          then ok (as_completed now' summary metadata r')
          else err (adapter agent_signal_claim_owner_mismatch 409))
  unfolding complete is_expired
  complete_by now' summary metadata none =
      subst
        (λ x. complete now' summary metadata none x ≡ (
          if leb (now + lease) now'
          then err transition_error
          else ok (as_completed now' summary metadata x)))
        (claim_sound r r' lease now p claimed).2 (ground arith)
  complete_by now' summary metadata (some q) =
      subst
        (λ x. complete now' summary metadata (some q) x ≡ (
          if leb (now + lease) now'
          then err transition_error
          else if p == q
          then ok (as_completed now' summary metadata x)
          else err (adapter agent_signal_claim_owner_mismatch 409)))
        (claim_sound r r' lease now p claimed).2 (ground arith)

  -- A claimed signal is returned to the queue by the passing of its lease and not before.
  pub expire_after :
      (now' : ℕ)
      → expire now' r' ≡ (if leb (now + lease) now' then some (unclaimed now' r') else none)
  unfolding expire is_expired
  expire_after now' =
      subst
        (λ x. expire now' x ≡ (if leb (now + lease) now' then some (unclaimed now' x) else none))
        (claim_sound r r' lease now p claimed).2 (ground arith)
