-- ===== src/Prelude/Text/Trimming.antt =====
-- `str.strip` is idempotent, and leaves a text without white space alone.
use Prim.Native.Char.{code}
use Prim.Native.Nat.{ℕ}
use Prim.Native.String.{String}
use mathlib.Core.Path.{◌≡◌, refl}
use mathlib.Core.Bool.{Bool, true, not, ◌&&◌}
use mathlib.Core.Logic.{inl, inr}
use native.Mathlib.Omega.{arith}
use brunova_knowledge_gatewa.Prelude.Tests.{Bool-cases}
use brunova_knowledge_gatewa.Prelude.Text.{is_empty, is_space, lstrip, rstrip, strip, every}

rstrip_idem : (s : String) → rstrip (rstrip s) ≡ rstrip s
unfolding rstrip
rstrip_idem String.[] = refl
rstrip_idem (String.◌∷◌ c s) = elim (Bool-cases (is_empty (rstrip s) && is_space (code c))) [
  | inl gone ↦ rw (gone) refl
  | inr kept ↦ rw (kept, rstrip) (rw (rstrip_idem s, kept))
]

lstrip-rstrip : (s : String) → lstrip (rstrip (lstrip s)) ≡ rstrip (lstrip s)
unfolding lstrip
lstrip-rstrip String.[] = unfold rstrip in refl
lstrip-rstrip (String.◌∷◌ c s) = elim (Bool-cases (is_space (code c))) [
  | inl space ↦ rw space (lstrip-rstrip s)
  | inr solid ↦ unfold rstrip in ground arith
]

pub strip_idem : (s : String) → strip (strip s) ≡ strip s
unfolding strip
strip_idem s = rw (lstrip-rstrip s) (rstrip_idem (lstrip s))

rstrip_solid : (s : String) → every (λ c. not (is_space c)) s ≡ true → rstrip s ≡ s
unfolding rstrip every
rstrip_solid String.[] h = refl
rstrip_solid (String.◌∷◌ c s) h = ground (arith, rstrip_solid s)

lstrip_solid : (s : String) → every (λ c. not (is_space c)) s ≡ true → lstrip s ≡ s
unfolding lstrip every
lstrip_solid String.[] h = refl
lstrip_solid (String.◌∷◌ c s) h = ground arith

pub strip_solid : (s : String) → every (λ c. not (is_space c)) s ≡ true → strip s ≡ s
unfolding strip
strip_solid s h = rw (lstrip_solid s h) (rstrip_solid s h)

-- A class within another.
pub every_mono :
    (p q : ℕ → Bool) (s : String)
    → ((c : ℕ) → p c ≡ true → q c ≡ true)
    → every p s ≡ true
    → every q s ≡ true
unfolding every
every_mono p q String.[] sub h = refl
every_mono p q (String.◌∷◌ c s) sub h = ground (arith, sub (code c), every_mono p q s sub)
