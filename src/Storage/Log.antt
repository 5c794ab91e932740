-- ===== src/Storage/Log.antt =====
-- An object store that keeps the log of its writes and deletions, the newest first. It takes only the
-- contents that it accepts under a name, like a bucket whose clients are trusted to file them. It keeps the
-- promises of `IsObjectStore`, also when other clients act before each call: the entries of
-- `pending` arrive one batch a call.
pub mod Promises
use brunova_knowledge_gatewa.Prelude.{
  ℕ, suc, ◌≤◌, ◌<◌, String, ◌==◌, ◌≡◌, refl, sym, ap, ◌∙◌, Bool, true, not, ◌&&◌, Option, none,
  some, List, [], ◌∷◌, ◌++◌, arith, length, length-append, dedupe, eqb, eq_iff, eq_refl, eqb_iff,
  if◌then◌else◌, Bool-cases, inl, inr,
}
use mathlib.Core.List.{append_assoc}
use brunova_knowledge_gatewa.Prelude.Text.{starts_with}
use brunova_knowledge_gatewa.Storage.{
  Reply, done, not_found, precondition_failed, unavailable, HasGeneration, ObjectStore,
  IsObjectStore,
}

pub data Entry (C : Type 0) : Type 0 where
  write : String → C → Entry C
  remove : String → Entry C

pub record LogState (C : Type 0) : Type 0 where
  pub log : List (Entry C)
  pub pending : List (List (Entry C))
  pub now : ℕ

module _ {C : Type 0} where
  unfoldable pub entry_at : List (Entry C) → ℕ → Option (Entry C)
  entry_at [] g = none
  entry_at (e ∷ log) g = if eqb g (suc (length log)) then some e else entry_at log g

  abbrev pub generation_of : Option (C × ℕ) → ℕ
  generation_of none = 0
  generation_of (some (x, g)) = g

  -- what the other clients do before the next call
  abbrev pub arrived : List (List (Entry C)) → LogState C → LogState C
  arrived [] s = s
  arrived (batch ∷ rest) s = record s { log = batch ++ s.log; pending = rest }

  unfoldable pub arrive : LogState C → LogState C
  arrive s = arrived s.pending s

  abbrev pub reply_object : Option (C × ℕ) → Reply (C × ℕ)
  reply_object none = not_found
  reply_object (some o) = done o

  abbrev pub names : List (Entry C) → List String
  names [] = []
  names (write n x ∷ log) = n ∷ names log
  names (remove n ∷ log) = names log

  abbrev pub version : Option (Entry C) → Reply C
  version (some (write n x)) = done x
  version _ = not_found

  -- one log extends the other
  abbrev pub Extends : LogState C → LogState C → Type 0
  Extends s t = (new : List (Entry C)) × (new ++ s.log ≡ t.log)

  -- one log is the other with one entry more
  abbrev pub OneMore : LogState C → LogState C → Type 0
  OneMore s t = (e : Entry C) × (e ∷ s.log ≡ t.log)

  pub entry_at-extends :
      (new log : List (Entry C)) (g : ℕ) → g ≤ length log → entry_at (new ++ log) g ≡ entry_at log g
  unfolding entry_at
  entry_at-extends [] log g h = refl
  entry_at-extends (e ∷ new) log g h =
      ground (arith, entry_at-extends new log g h, length-append new log)

module _ {C : Type 0} (accepts : String → C → Bool) where
  -- the generation of an object is the length of the log after its write
  unfoldable pub object : List (Entry C) → String → Option (C × ℕ)
  object [] name = none
  object (write n x ∷ log) name =
      if n == name && accepts n x then some (x, suc (length log)) else object log name
  object (remove n ∷ log) name = if n == name then none else object log name

  abbrev pub listed : List (Entry C) → String → List String → List (String × ℕ)
  listed log prefix [] = []
  listed log prefix (n ∷ ns) =
      let rest = listed log prefix ns in
      elim (object log n) [
        | none ↦ rest
        | some (x, g) ↦ if starts_with prefix n then (n, g) ∷ rest else rest
      ]

  unfoldable pub log_upload : String → C → ℕ → LogState C → Reply ℕ × LogState C
  log_upload name x g s =
      let t = arrive s in
      if not (accepts name x)
      then (unavailable, t)
      else if eqb (generation_of (object t.log name)) g
      then (done (suc (length t.log)), record t { log = write name x ∷ t.log })
      else (precondition_failed, t)

  unfoldable pub log_delete : String → ℕ → LogState C → Reply (Unit {0}) × LogState C
  log_delete name g s =
      let t = arrive s in
      if eqb (generation_of (object t.log name)) g
      then (done tt, record t { log = remove name ∷ t.log })
      else (precondition_failed, t)

  pub object_entry :
      (log : List (Entry C)) (name : String) (x : C) (g : ℕ)
      → object log name ≡ some (x, g)
      → (entry_at log g ≡ some (write name x)) × (g ≤ length log) × (0 < g)
  unfolding object entry_at
  object_entry [] name x g h = cc
  object_entry (write n y ∷ log) name x g h =
      ground (arith, eq_iff n name, object_entry log name x g)
  object_entry (remove n ∷ log) name x g h = ground (arith, object_entry log name x g)

abbrev pub log_store : (C : Type 0) → (String → C → Bool) → ObjectStore C
log_store C accepts = record {
  State = LogState C;
  current = λ s name. object accepts s.log name;
  Later = Extends;
  Next = OneMore;
  clock = λ s. (s.now, record s { now = suc s.now });
  download = λ name s. (reply_object (object accepts (arrive s).log name), arrive s);
  download_kept = λ name s. (reply_object (object accepts (arrive s).log name), arrive s);
  upload = log_upload accepts;
  delete = log_delete accepts;
  list_blobs = λ prefix s.
      (done (listed accepts (arrive s).log prefix (dedupe (names (arrive s).log))), arrive s);
  download_version = λ name g s. (version (entry_at (arrive s).log g), arrive s);
}

-- What is stored was accepted.
pub object_accepted :
    {C : Type 0} (accepts : String → C → Bool) (log : List (Entry C)) (name : String) (x : C)
    (g : ℕ)
    → object accepts log name ≡ some (x, g)
    → accepts name x ≡ true
unfolding object
object_accepted accepts [] name x g h = cc
object_accepted accepts (write n y ∷ log) name x g h =
    ground (arith, eq_iff n name, object_accepted accepts log name x g)
object_accepted accepts (remove n ∷ log) name x g h =
    ground (arith, object_accepted accepts log name x g)
