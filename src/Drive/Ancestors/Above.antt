-- ===== src/Drive/Ancestors/Above.antt =====
-- What the ancestors of a resource are, by the parents that Google Drive answered.
use brunova_knowledge_gatewa.Prelude.{
  ℕ, zero, suc, ◌+◌, ◌≤◌, ◌<◌, String, ◌≡◌, sym, ap, ◌∙◌, subst, inl, inr, true, false, ◌||◌, List,
  [], ◌∷◌, ◌++◌, elem, length, length-append, elem-append, Distinct, Distinct-append, Bool-cases,
  arith, eq_iff,
}
use brunova_knowledge_gatewa.Errors.{ok, ok-injective}
use brunova_knowledge_gatewa.Exec.{bind-eq-ok}
use brunova_knowledge_gatewa.Google.{returned, answered-eq-ok}
use brunova_knowledge_gatewa.Drive.{DriveApi, FileMetadata, get_file_metadata, parents_of}
use brunova_knowledge_gatewa.Drive.Ancestors.{walk}

module _ {S : Type 0} (api : DriveApi S) where
  -- Drive answered for `child`, at some time, that `above` is one of its parents.
  abbrev pub IsParent : String → String → Type 0
  IsParent child above =
      (s : S) × (s' : S) × (metadata : FileMetadata) × (api.files_get child s
        ≡ (returned metadata, s'))
      × (elem above (parents_of metadata) ≡ true)

  -- `above` is reached from `id` by parents.
  pub data IsAbove (id : String) : String → Type 0 where
    parent : {above : String} → IsParent id above → IsAbove id above
    further : {folder above : String} → IsAbove id folder → IsParent folder above → IsAbove id above

  abbrev pub Every : (String → Type 0) → List String → Type 0
  Every P xs = (a : String) → elem a xs ≡ true → P a

  Every-append :
      (P : String → Type 0) (xs ys : List String) → Every P xs → Every P ys → Every P (xs ++ ys)
  Every-append P xs ys p q a m = elim (Bool-cases (elem a xs)) [
    | inl left ↦ p a left
    | inr absent ↦ q a (ground (arith, elem-append a xs ys))
  ]

  Every-tail : (P : String → Type 0) (x : String) (xs : List String) → Every P (x ∷ xs) → Every P xs
  Every-tail P x xs p a m = p a (ground arith)

  head_of : (P : String → Type 0) (x : String) (xs : List String) → Every P (x ∷ xs) → P x
  head_of P x xs p = p x (ground (arith, eq_iff x x))

  Every-singleton : (P : String → Type 0) (x : String) → P x → Every P (x ∷ [])
  Every-singleton P x p a m = subst P (ground (arith, eq_iff a x)) p

  -- The two rounds of the loop.
  walk_again :
      (left : ℕ) (x : String) (pending ancestors : List String) (s : S)
      → elem x ancestors ≡ true
      → walk api (suc left) (x ∷ pending) ancestors s ≡ walk api (suc left) pending ancestors s
  unfolding walk
  walk_again left x pending ancestors s seen = rw seen

  walk_visit :
      (left : ℕ) (x : String) (pending ancestors result : List String) (s s' : S)
      → elem x ancestors ≡ false
      → walk api (suc left) (x ∷ pending) ancestors s ≡ (ok result, s')
      → (metadata : FileMetadata) × (s1 : S) × (api.files_get x s ≡ (returned metadata, s1))
        × (walk api left (pending ++ parents_of metadata) (ancestors ++ x ∷ []) s1
            ≡ (ok result, s'))
  unfolding walk
  walk_visit left x pending ancestors result s s' fresh h =
      let (metadata, s1, e, rest) =
        bind-eq-ok (get_file_metadata api x)
          (λ m. walk api left (pending ++ parents_of m) (ancestors ++ x ∷ [])) s s' result
          (rw fresh at h) in
      (metadata, s1, answered-eq-ok (api.files_get x s) metadata s1 e, rest)

  module _ (root : String) where
    pub walk-IsAbove :
        (left : ℕ) (pending ancestors result : List String) (s s' : S)
        → Every (IsAbove root) pending
        → Every (IsAbove root) ancestors
        → walk api left pending ancestors s ≡ (ok result, s')
        → Every (IsAbove root) result
    unfolding walk
    walk-IsAbove zero pending ancestors result s s' p q h =
        subst (Every (IsAbove root)) (ok-injective (ap (λ x. x.0) h)) q
    walk-IsAbove (suc left) [] ancestors result s s' p q h =
        subst (Every (IsAbove root)) (ok-injective (ap (λ x. x.0) h)) q
    walk-IsAbove (suc left) (x ∷ pending) ancestors result s s' p q h =
        elim (Bool-cases (elem x ancestors)) [
          | inl seen ↦
              walk-IsAbove (suc left) pending ancestors result s s'
                (Every-tail (IsAbove root) x pending p) q
                (sym (walk_again left x pending ancestors s seen) ∙ h)
          | inr fresh ↦
              let (metadata, s1, e, rest) =
                walk_visit left x pending ancestors result s s' fresh h in
              let above = head_of (IsAbove root) x pending p in
              walk-IsAbove left (pending ++ parents_of metadata) (ancestors ++ x ∷ []) result s1 s'
                (Every-append (IsAbove root) pending (parents_of metadata)
                  (Every-tail (IsAbove root) x pending p)
                  (λ a m. further above (s, s1, metadata, e, m)))
                (Every-append (IsAbove root) ancestors (x ∷ []) q
                  (Every-singleton (IsAbove root) x above))
                rest
        ]

  pub walk_bounds :
      (left : ℕ) (pending ancestors result : List String) (s s' : S)
      → Distinct ancestors
      → walk api left pending ancestors s ≡ (ok result, s')
      → Distinct result × (length result ≤ length ancestors + left)
  unfolding walk
  walk_bounds zero pending ancestors result s s' d h =
      let same : ancestors ≡ result = ok-injective (ap (λ x. x.0) h) in
      (subst Distinct same d, rw (← same) (omega arith))
  walk_bounds (suc left) [] ancestors result s s' d h =
      let same : ancestors ≡ result = ok-injective (ap (λ x. x.0) h) in
      (subst Distinct same d, rw (← same) (omega arith))
  walk_bounds (suc left) (x ∷ pending) ancestors result s s' d h =
      elim (Bool-cases (elem x ancestors)) [
        | inl seen ↦
            walk_bounds (suc left) pending ancestors result s s' d
              (sym (walk_again left x pending ancestors s seen) ∙ h)
        | inr fresh ↦
            let (metadata, s1, e, rest) = walk_visit left x pending ancestors result s s' fresh h in
            let (distinct, short) =
              walk_bounds left (pending ++ parents_of metadata) (ancestors ++ x ∷ []) result s1 s'
                (Distinct-append ancestors x d fresh) rest in
            (distinct, omega (arith, length-append ancestors (x ∷ [])))
      ]

  -- Where Drive answers the same parents for a file each time, a walk that stopped early has them all.
  module _ (parents : String → List String)
      (steady : (id : String) (s s' : S) (metadata : FileMetadata)
        → api.files_get id s ≡ (returned metadata, s')
        → parents_of metadata ≡ parents id) where
    -- The parents of each ancestor are among the ancestors or to be visited.
    abbrev pub IsClosed : List String → List String → Type 0
    IsClosed pending ancestors =
        (a p : String)
        → elem a ancestors ≡ true
        → elem p (parents a) ≡ true
        → (elem p ancestors || elem p pending) ≡ true

    IsClosed-again :
        (x : String) (pending ancestors : List String)
        → elem x ancestors ≡ true
        → IsClosed (x ∷ pending) ancestors
        → IsClosed pending ancestors
    IsClosed-again x pending ancestors seen c a p m n = ground (arith, c a p m n, eq_iff p x)

    IsClosed-visit :
        (x : String) (pending ancestors : List String)
        → IsClosed (x ∷ pending) ancestors
        → IsClosed (pending ++ parents x) (ancestors ++ x ∷ [])
    IsClosed-visit x pending ancestors c a p m n = ground (
      arith,
      elem-append a ancestors (x ∷ []),
      elem-append p ancestors (x ∷ []),
      elem-append p pending (parents x),
      c a p,
      eq_iff a x,
    )

    pub walk_complete :
        (left : ℕ) (pending ancestors result : List String) (s s' : S)
        → IsClosed pending ancestors
        → walk api left pending ancestors s ≡ (ok result, s')
        → length result < length ancestors + left
        → Every (λ a. elem a result ≡ true) (ancestors ++ pending) × IsClosed [] result
    unfolding walk
    walk_complete zero pending ancestors result s s' c h short =
        let same : ancestors ≡ result = ok-injective (ap (λ x. x.0) h) in
        absurd (omega (arith, ap length same))
    walk_complete (suc left) [] ancestors result s s' c h short =
        let same : ancestors ≡ result = ok-injective (ap (λ x. x.0) h) in
        (
          λ a m. rw (← same) (ground (arith, elem-append a ancestors [])),
          subst (IsClosed []) same c,
        )
    walk_complete (suc left) (x ∷ pending) ancestors result s s' c h short =
        elim (Bool-cases (elem x ancestors)) [
          | inl seen ↦
              let (all, closed) =
                walk_complete (suc left) pending ancestors result s s'
                  (IsClosed-again x pending ancestors seen c)
                  (sym (walk_again left x pending ancestors s seen) ∙ h) short in
              (
                λ a m. all a (
                    ground (
                      arith,
                      elem-append a ancestors (x ∷ pending),
                      elem-append a ancestors pending,
                      eq_iff a x,
                    )),
                closed,
              )
          | inr fresh ↦
              let (metadata, s1, e, rest) =
                walk_visit left x pending ancestors result s s' fresh h in
              let told : parents_of metadata ≡ parents x = steady x s s1 metadata e in
              let (all, closed) =
                walk_complete left (pending ++ parents_of metadata) (ancestors ++ x ∷ []) result s1
                  s' (rw told (IsClosed-visit x pending ancestors c)) rest
                  (omega (arith, length-append ancestors (x ∷ []))) in
              (
                λ a m. all a (
                    ground (
                      arith,
                      elem-append a ancestors (x ∷ pending),
                      elem-append a (ancestors ++ x ∷ []) (pending ++ parents_of metadata),
                      elem-append a ancestors (x ∷ []),
                      elem-append a pending (parents_of metadata),
                    )),
                closed,
              )
        ]

    pub closed-IsAbove :
        (root : String) (result : List String)
        → Every (λ a. elem a result ≡ true) (parents root)
        → IsClosed [] result
        → (a : String) → IsAbove root a
        → elem a result ≡ true
    closed-IsAbove root result start c a (parent (s, s', m, e, q)) =
        start a (rw (← steady root s s' m e) q)
    closed-IsAbove root result start c a (further {folder} above (s, s', m, e, q)) =
        let known = closed-IsAbove root result start c folder above in
        ground (arith, c folder a known (rw (← steady folder s s' m e) q))
