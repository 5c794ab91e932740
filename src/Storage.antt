-- ===== src/Storage.antt =====
-- The object store of Google Cloud Storage, a third-party service, as the gateway uses it: objects
-- with generations, and writes that are conditional on the generation. It is a parameter of the
-- components that use it, with what its documentation promises. The state is that of the service
-- and of the clock; other clients may change it before each call is served.
pub mod Log
pub mod Objects
use brunova_knowledge_gatewa.Prelude.{
  ℕ, ◌<◌, String, ◌≡◌, ◌≢◌, refl, Option, none, some, List, arith, ap,
}

-- How a call is answered: with its result, `NotFound`, `PreconditionFailed`, or another error.
pub data Reply {ℓ} (A : Type ℓ) : Type ℓ where
  done : A → Reply A
  not_found precondition_failed unavailable : Reply A

-- The object has the generation; an object that does not exist has the generation 0.
abbrev pub HasGeneration {ℓ} : {C : Type ℓ} → Option (C × ℕ) → ℕ → Type 0
HasGeneration none generation = generation ≡ 0
HasGeneration (some (content, g)) generation = g ≡ generation

-- `C` is the type of contents.
pub record ObjectStore (C : Type 0) : Type 1 where
  pub State : Type 0
  -- the object of a name, as an observer of the service sees it
  pub current : State → String → Option (C × ℕ)
  -- states of one history, the earlier first
  pub Later : State → State → Type 0
  -- the second state follows the first by one request that changed it, with nothing in between
  pub Next : State → State → Type 0
  -- datetime.now(timezone.utc), in microseconds
  pub clock : State → ℕ × State
  -- blob.download_as_bytes(), with the generation that was read
  pub download : String → State → Reply (C × ℕ) × State
  -- the same of a blob object that is kept from call to call: it may know a generation from before,
  -- and then answers with that version
  pub download_kept : String → State → Reply (C × ℕ) × State
  -- blob.upload_from_string(content, if_generation_match=generation), with the new generation
  pub upload : String → C → ℕ → State → Reply ℕ × State
  -- blob.delete(if_generation_match=generation)
  pub delete : String → ℕ → State → Reply (Unit {0}) × State
  -- bucket.list_blobs(prefix=prefix): names and generations
  pub list_blobs : String → State → Reply (List (String × ℕ)) × State
  -- blob.download_as_bytes() of a listed blob, whose generation is pinned
  pub download_version : String → ℕ → State → Reply C × State

-- What the documentation promises. Each call is served in one state of the history.
pub record IsObjectStore {C : Type 0} (store : ObjectStore C) : Type 0 where
  pub itself : (s : store.State) → store.Later s s
  pub trans : (a b c : store.State) → store.Later a b → store.Later b c → store.Later a c
  -- a generation names one content of an object, for ever
  pub versions :
      (a b : store.State) (name : String) (x y : C) (g : ℕ)
      → store.Later a b
      → store.current a name ≡ some (x, g)
      → store.current b name ≡ some (y, g)
      → x ≡ y
  pub next_later : (s t : store.State) → store.Next s t → store.Later s t
  -- an object that was deleted does not come back: what is written later has another generation
  pub never_again :
      (a b c : store.State) (name : String) (x y : C) (g : ℕ)
      → store.Later a b
      → store.Later b c
      → store.current a name ≡ some (x, g)
      → store.current b name ≡ none
      → store.current c name ≢ some (y, g)
  pub clock_later : (s : store.State) → store.Later s (store.clock s).1
  pub download_later : (name : String) (s : store.State) → store.Later s (store.download name s).1
  -- no object has the generation 0
  pub positive :
      (s : store.State) (name : String) (x : C) (g : ℕ) → store.current s name ≡ some (x, g) → 0 < g
  pub download_done :
      (name : String) (s s' : store.State) (x : C) (g : ℕ)
      → store.download name s ≡ (done (x, g), s')
      → (store.current s' name ≡ some (x, g)) × (0 < g) × store.Later s s'
  -- what is answered is the version of the generation
  pub download_kept_done :
      (name : String) (s s' t : store.State) (x y : C) (g : ℕ)
      → store.download_kept name s ≡ (done (x, g), s')
      → store.Later s' t
      → store.current t name ≡ some (y, g)
      → x ≡ y
  pub download_kept_pos :
      (name : String) (s s' : store.State) (x : C) (g : ℕ)
      → store.download_kept name s ≡ (done (x, g), s')
      → 0 < g
  pub download_kept_later :
      (name : String) (s : store.State) → store.Later s (store.download_kept name s).1
  pub upload_later :
      (name : String) (x : C) (g : ℕ) (s : store.State) → store.Later s (store.upload name x g s).1
  -- the write took place in `t`, where the object had the generation that was asked for
  pub upload_done :
      (name : String) (x : C) (g g' : ℕ) (s s' : store.State)
      → store.upload name x g s ≡ (done g', s')
      → (t : store.State) × store.Later s t
        × HasGeneration (store.current t name) g
        × (store.current s' name ≡ some (x, g'))
        × (0 < g')
        × store.Next t s'
  -- a write that was refused met another generation
  pub upload_refused :
      (name : String) (x : C) (g : ℕ) (s s' : store.State)
      → store.upload name x g s ≡ (precondition_failed, s')
      → ¬ HasGeneration (store.current s' name) g
  pub delete_later :
      (name : String) (g : ℕ) (s : store.State) → store.Later s (store.delete name g s).1
  -- the deletion took place in `t`, where the object had the generation that was asked for
  pub delete_done :
      (name : String) (g : ℕ) (s s' : store.State)
      → store.delete name g s ≡ (done tt, s')
      → (t : store.State) × store.Later s t
        × HasGeneration (store.current t name) g
        × (store.current s' name ≡ none)
        × store.Next t s'

-- A read, then a conditional write that took place: what it replaced is the content that was read,
-- whatever other clients did in between.
module _ {C : Type 0} (store : ObjectStore C) (law : IsObjectStore store) where
  pub has_generation :
      (o : Option (C × ℕ)) (g : ℕ) → HasGeneration o g → 0 < g → (x : C) × (o ≡ some (x, g))
  has_generation none g h pos = absurd (omega arith)
  has_generation (some (x, k)) g h pos = (x, ground arith)

  -- An object that was read and has the generation still has the content that was read.
  pub still_read :
      (name : String) (x : C) (g : ℕ) (s t : store.State)
      → store.current s name ≡ some (x, g)
      → store.Later s t
      → HasGeneration (store.current t name) g
      → store.current t name ≡ some (x, g)
  still_read name x g s t seen later has =
      let (z, here) = has_generation (store.current t name) g has (law.positive s name x g seen) in
      let same : x ≡ z = law.versions s t name x z g later seen here in rw same here

  pub write_after_read :
      (name : String) (x y : C) (g g' : ℕ) (s s1 s2 s' : store.State)
      → store.download name s ≡ (done (x, g), s1)
      → store.Later s1 s2
      → store.upload name y g s2 ≡ (done g', s')
      → (t : store.State) × store.Later s1 t
        × (store.current t name ≡ some (x, g))
        × (store.current s' name ≡ some (y, g'))
        × store.Next t s'
  write_after_read name x y g g' s s1 s2 s' read later wrote =
      let (seen, _, _) = law.download_done name s s1 x g read in
      let (t, from, has, put, _, last) = law.upload_done name y g g' s2 s' wrote in
      let history = law.trans s1 s2 t later from in
      (t, history, still_read name x g s1 t seen history has, put, last)
