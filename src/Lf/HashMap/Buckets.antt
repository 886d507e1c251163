-- ===== src/Lf/HashMap/Buckets.antt =====
-- lf/hashmap.go: the keys of a bucket, and what an operation on one bucket does to the whole.
use mathlib.Core.Path.{subst, fun_ext}
use native.Mathlib.Decide.{ℕ_discrete}
use lockfree.Base.{
  ℕ, ◌≡◌, ◌≢◌, inl, inr, refl, sym, ap, ◌∙◌, Bool, true, false, arith, ◌==◌, ◌||◌, if◌then◌else◌,
}
use lockfree.Base.Less.{Less}
use lockfree.Linear.{Event, call}
use lockfree.Linear.Spec.{Status, seen, Waits, Watch}
use lockfree.Linear.Simulate.{Local, stays, commits, observes, starts, answers}
use lockfree.Lf.List.{ListOp, set_op, get_op, del_op, key_of, key_set, keys_apply_op}

-- Keys that `less` does not tell apart go to the same bucket.
abbrev pub IsConsistent : {K : Type 0} → Less K → (K → ℕ) → Type 0
IsConsistent {K} less bucket = (x y : K) → less x y ≡ false → less y x ≡ false → bucket x ≡ bucket y

module _ {K : Type 0} (V : Type 0) (less : Less K) (bucket : K → ℕ) where
  -- The keys of bucket `b`.
  abbrev pub restrict : (K → Bool) → ℕ → K → Bool
  restrict keys b = λ k. if bucket k == b then keys k else false

  glue : (x y : K → Bool) → ((b : ℕ) → restrict x b ≡ restrict y b) → x ≡ y
  glue x y same =
      fun_ext (λ k. let at = ap (λ (f : K → Bool). f k) (same (bucket k)) in ground arith)

  -- The call at `t` is in bucket `c`.
  abbrev pub Routed : Status (key_set V less) → ℕ → Type 0
  Routed t c = (op : ListOp K V) → Waits (key_set V less) t op → bucket (key_of op) ≡ c

  module _ (agree : IsConsistent less bucket) (c : ℕ) where
    apply_restrict :
        (op : ListOp K V) (keys : K → Bool)
        → bucket (key_of op) ≡ c
        → keys_apply_op V less op (restrict keys c)
          ≡ (restrict (keys_apply_op V less op keys).0 c, (keys_apply_op V less op keys).1)
    unfolding keys_apply_op
    apply_restrict (set_op k v) keys at =
        let same : (λ (j : K). if less j k || less k j then restrict keys c j else true)
            ≡ (λ (j : K).
                if bucket j == c then (if less j k || less k j then keys j else true) else false) =
          fun_ext (λ j. ground (arith, agree j k)) in
        λ i. (same i, true)
    apply_restrict (get_op k) keys at =
        let here : restrict keys c k ≡ keys k = ground arith in λ i. (restrict keys c, here i)
    apply_restrict (del_op k) keys at =
        let here : restrict keys c k ≡ keys k = ground arith in
        let same : (λ (j : K). if less j k || less k j then restrict keys c j else false)
            ≡ (λ (j : K).
                if bucket j == c then (if less j k || less k j then keys j else false) else false) =
          fun_ext (λ j. ground (arith, agree j k)) in
        λ i. (same i, here i)

    apply_others :
        (op : ListOp K V) (keys : K → Bool) (b : ℕ)
        → bucket (key_of op) ≡ c
        → c ≢ b
        → restrict (keys_apply_op V less op keys).0 b ≡ restrict keys b
    unfolding keys_apply_op
    apply_others (set_op k v) keys b at ne = fun_ext (λ j. ground (arith, agree j k))
    apply_others (get_op k) keys b at ne = refl
    apply_others (del_op k) keys b at ne = fun_ext (λ j. ground (arith, agree j k))

    -- An operation that leaves its bucket as it is leaves all.
    apply_still :
        (op : ListOp K V) (keys : K → Bool)
        → bucket (key_of op) ≡ c
        → (keys_apply_op V less op (restrict keys c)).0 ≡ restrict keys c
        → (keys_apply_op V less op keys).0 ≡ keys
    apply_still op keys at still = glue (keys_apply_op V less op keys).0 keys (λ b.
        elim (ℕ_discrete c b) [
          | yes here ↦
              subst (λ x. restrict (keys_apply_op V less op keys).0 x ≡ restrict keys x) here
                (sym (ap (λ (y : (K → Bool) × Bool). y.0) (apply_restrict op keys at)) ∙ still)
          | no ne ↦ apply_others op keys b at ne
        ])

    same_answer :
        (op : ListOp K V) (keys : K → Bool)
        → bucket (key_of op) ≡ c
        → (keys_apply_op V less op (restrict keys c)).1 ≡ (keys_apply_op V less op keys).1
    same_answer op keys at = ap (λ (y : (K → Bool) × Bool). y.1) (apply_restrict op keys at)

    pub Watch-lift :
        (keys : K → Bool) (t u : Status (key_set V less))
        → Routed t c
        → Watch (key_set V less) (restrict keys c) t u
        → Watch (key_set V less) keys t u × Routed u c
    Watch-lift keys t u routed (inl same) =
        (inl same, λ op w. routed op (subst (λ s. Waits (key_set V less) s op) (sym same) w))
    Watch-lift keys t u routed (inr (op, w, still, e)) =
        let at = routed op w in
        (
          inr (op, w, apply_still op keys at still, e ∙ ap (seen op) (same_answer op keys at)),
          λ op' w'.
              let same : op ≡ op' = subst (λ s. Waits (key_set V less) s op') e w' in
              subst (λ o. bucket (key_of o) ≡ c) same at,
        )

    -- What an access in bucket `c` does to the whole.
    pub Local-lift :
        (keys keys1 : K → Bool) (t t' : Status (key_set V less)) (e : Event (key_set V less))
        → Routed t c
        → ((op : ListOp K V) → e ≡ call op → bucket (key_of op) ≡ c)
        → Local (restrict keys c) t keys1 t' e
        → (keys' : K → Bool) × (keys1 ≡ restrict keys' c)
          × ((b : ℕ) → c ≢ b → restrict keys b ≡ restrict keys' b)
          × Local keys t keys' t' e
          × Routed t' c
    Local-lift keys keys1 t t' e routed calls (stays quiet same same') = (
      keys,
      sym same,
      (λ b ne. refl),
      stays quiet refl same',
      λ op w. routed op (subst (λ s. Waits (key_set V less) s op) (sym same') w),
    )
    Local-lift keys keys1 t t' e routed calls (commits op r quiet w applied back) =
        let at = routed op w in
        let answer = sym (same_answer op keys at) ∙ ap (λ (y : (K → Bool) × Bool). y.1) applied in
        (
          (keys_apply_op V less op keys).0,
          sym (ap (λ (y : (K → Bool) × Bool). y.0) applied)
              ∙ ap (λ (y : (K → Bool) × Bool). y.0) (apply_restrict op keys at),
          (λ b ne. sym (apply_others op keys b at ne)),
          commits op r quiet w (λ i. ((keys_apply_op V less op keys).0, answer i)) back,
          λ op' w'. absurd (subst (λ s. Waits (key_set V less) s op') back w'),
        )
    Local-lift keys keys1 t t' e routed calls (observes op r quiet w applied same back) =
        let at = routed op w in
        let answer = sym (same_answer op keys at) ∙ ap (λ (y : (K → Bool) × Bool). y.1) applied in
        let still = apply_still op keys at (ap (λ (y : (K → Bool) × Bool). y.0) applied) in
        (
          keys,
          sym same,
          (λ b ne. refl),
          observes op r quiet w (λ i. (still i, answer i)) refl back,
          λ op' w'.
              let eq : op ≡ op' = subst (λ s. Waits (key_set V less) s op') back w' in
              subst (λ o. bucket (key_of o) ≡ c) eq at,
        )
    Local-lift keys keys1 t t' e routed calls (starts op shown free same back) = (
      keys,
      sym same,
      (λ b ne. refl),
      starts op shown free refl back,
      λ op' w'.
          let eq : op ≡ op' = subst (λ s. Waits (key_set V less) s op') back w' in
          subst (λ o. bucket (key_of o) ≡ c) eq (calls op shown),
    )
    Local-lift keys keys1 t t' e routed calls (answers r shown answer same back) = (
      keys,
      sym same,
      (λ b ne. refl),
      answers r shown answer refl back,
      λ op' w'. absurd (subst (λ s. Waits (key_set V less) s op') back w'),
    )
