-- ===== src/Exec.antt =====
-- Methods that call a storage service and may raise. What was done before a raise stays done, so
-- the state comes back beside the error too.
use brunova_knowledge_gatewa.Prelude.{◌≡◌, refl, ap, ◌∙◌, Bool, true, false}
use brunova_knowledge_gatewa.Errors.{
  Error, Result, ok, err, adapter, object_conflict, value_error, type_error, assertion_error,
  key_error, os_error, http_exception,
}

abbrev pub Exec {ℓ} : Type ℓ → Type ℓ → Type ℓ
Exec S A = S → Result A × S

pub pair_eq {ℓ} : {A B : Type ℓ} {p : A × B} {a : A} {b : B} → p.0 ≡ a → p.1 ≡ b → p ≡ (a, b)
pair_eq h k = λ i. (h i, k i)

module _ {ℓ} {S A : Type ℓ} where
  abbrev pub pure : A → Exec S A
  pure a s = (ok a, s)

  abbrev pub raise : Error → Exec S A
  raise e s = (err e, s)

  abbrev pub lift : Result A → Exec S A
  lift r s = (r, s)

module _ {ℓ} {S A B : Type ℓ} where
  abbrev pub continue : Result A × S → (A → Exec S B) → Result B × S
  continue (ok a, s) f = f a s
  continue (err e, s) f = (err e, s)

  infixl 5 ◌>>=◌ ◌>>◌
  abbrev pub ◌>>=◌ : Exec S A → (A → Exec S B) → Exec S B
  ◌>>=◌ m f s = continue (m s) f

  abbrev pub ◌>>◌ : Exec S A → Exec S B → Exec S B
  m >> n = m >>= λ _. n

  -- Inversion of a bind that returned.
  pub bind-eq-ok :
      (m : Exec S A) (f : A → Exec S B) (s s' : S) (b : B)
      → (m >>= f) s ≡ (ok b, s')
      → (a : A) × (t : S) × (m s ≡ (ok a, t)) × (f a t ≡ (ok b, s'))
  bind-eq-ok m f s s' b h = inverted (m s) refl h
    where
      inverted :
          (r : Result A × S)
          → m s ≡ r
          → continue r f ≡ (ok b, s')
          → (a : A) × (t : S) × (m s ≡ (ok a, t)) × (f a t ≡ (ok b, s'))
      inverted (ok a, t) e k = (a, t, e, k)
      inverted (err x, t) e k = cc

-- what `attempt` makes of an error
abbrev pub caught : Error → Result Bool
caught object_conflict = ok false
caught e = err e

module _ {S A : Type 0} where
  abbrev attempted : Result A × S → Result Bool × S
  attempted (ok a, s) = (ok true, s)
  attempted (err e, s) = (caught e, s)

  -- `try: m … except <conflict>: …`: whether `m` returned; other exceptions go on.
  abbrev pub attempt : Exec S A → Exec S Bool
  attempt m s = attempted (m s)

  pub attempt_state :
      (m : Exec S A) (s s' : S) (r : Result Bool) → attempt m s ≡ (r, s') → (m s).1 ≡ s'
  attempt_state m s s' r h = same (m s) ∙ ap (λ x. x.1) h
    where
      same : (x : Result A × S) → x.1 ≡ (attempted x).1
      same (ok a, t) = refl
      same (err e, t) = refl

  pub attempt-eq-true :
      (m : Exec S A) (s s' : S) → attempt m s ≡ (ok true, s') → (a : A) × (m s ≡ (ok a, s'))
  attempt-eq-true m s s' h = inverted (m s) refl h
    where
      inverted :
          (r : Result A × S) → m s ≡ r → attempted r ≡ (ok true, s') → (a : A) × (m s ≡ (ok a, s'))
      inverted (ok a, t) e k = (a, cc)
      inverted (err object_conflict, t) e k = cc
      inverted (err (adapter c n), t) e k = cc
      inverted (err value_error, t) e k = cc
      inverted (err type_error, t) e k = cc
      inverted (err assertion_error, t) e k = cc
      inverted (err key_error, t) e k = cc
      inverted (err os_error, t) e k = cc
      inverted (err (http_exception n), t) e k = cc

module _ {S A : Type 0} where
  abbrev pub on_conflict_result : Error → Result A × S → Result A × S
  on_conflict_result raised (err object_conflict, s) = (err raised, s)
  on_conflict_result raised (r, s) = (r, s)

  -- `try: return m … except <conflict>: raise …`
  abbrev pub on_conflict : Error → Exec S A → Exec S A
  on_conflict raised m s = on_conflict_result raised (m s)

  pub on_conflict-eq-ok :
      (raised : Error) (m : Exec S A) (s s' : S) (a : A)
      → on_conflict raised m s ≡ (ok a, s')
      → m s ≡ (ok a, s')
  on_conflict-eq-ok raised m s s' a h = inverted (m s) h
    where
      inverted : (r : Result A × S) → on_conflict_result raised r ≡ (ok a, s') → r ≡ (ok a, s')
      inverted (ok b, t) k = k
      inverted (err object_conflict, t) k = cc
      inverted (err (adapter c n), t) k = cc
      inverted (err value_error, t) k = cc
      inverted (err type_error, t) k = cc
      inverted (err assertion_error, t) k = cc
      inverted (err key_error, t) k = cc
      inverted (err os_error, t) k = cc
      inverted (err (http_exception n), t) k = cc
