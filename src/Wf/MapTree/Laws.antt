-- ===== src/Wf/MapTree/Laws.antt =====
-- interfaces.go, `Map`: the laws of the ordered list of entries, which make it a map.
use lockfree.Base.{
  ◌≡◌, true, ◌||◌, none, some, List, [], ◌∷◌, arith, All, All-imp, Bool-cases, inl, inr,
  if◌then◌else◌,
}
use lockfree.Base.Less.{Less, IsStrictOrder, le-lt_of_lt, lt_trans}
use lockfree.Wf.MapTree.SortedList.{lookup, insert, delete, IsOrdered}
use lockfree.Wf.MapTree.Splits.{lookup-AllBehind}

module _ {ℓ κ} {K : Type ℓ} {V : Type κ} {less : Less K} (order : IsStrictOrder less) where
  All-insert {μ} :
      (P : K → Type μ) (xs : List (K × V)) (key : K) (val : V)
      → All (λ (x : K × V). P x.0) xs
      → P key
      → All (λ (x : K × V). P x.0) (insert less xs key val)
  unfolding insert
  All-insert P [] key val h p = (p, tt)
  All-insert P ((k, v) ∷ xs) key val h p = elim (Bool-cases (less key k)) [
    | inl before ↦ rw before (p, h)
    | inr not_before ↦ elim (Bool-cases (less k key)) [
      | inl behind ↦ rw (not_before, behind) (h.0, All-insert P xs key val h.1 p)
      | inr here ↦ rw (not_before, here) h
    ]
  ]

  All-delete {μ} :
      (P : K × V → Type μ) (xs : List (K × V)) (key : K) → All P xs → All P (delete less xs key)
  unfolding delete
  All-delete P [] key h = h
  All-delete P ((k, v) ∷ xs) key h = elim (Bool-cases (less key k)) [
    | inl before ↦ rw before (h.0, All-delete P xs key h.1)
    | inr not_before ↦ elim (Bool-cases (less k key)) [
      | inl behind ↦ rw (not_before, behind) (h.0, All-delete P xs key h.1)
      | inr here ↦ rw (not_before, here) h.1
    ]
  ]

  -- An insertion keeps the keys increasing.
  pub insert-IsOrdered :
      (xs : List (K × V)) (key : K) (val : V)
      → IsOrdered less xs
      → IsOrdered less (insert less xs key val)
  unfolding insert
  insert-IsOrdered [] key val o = (tt, tt)
  insert-IsOrdered ((k, v) ∷ xs) key val o = elim (Bool-cases (less key k)) [
    | inl before ↦
        rw before ((before, All-imp xs (λ x h. lt_trans order key k x.0 before h) o.0), o)
    | inr not_before ↦ elim (Bool-cases (less k key)) [
      | inl behind ↦
          rw (not_before, behind)
            (
              All-insert (λ j. less k j ≡ true) xs key val o.0 behind,
              insert-IsOrdered xs key val o.1,
            )
      | inr here ↦ rw (not_before, here) o
    ]
  ]

  -- So does a deletion.
  pub delete-IsOrdered :
      (xs : List (K × V)) (key : K) → IsOrdered less xs → IsOrdered less (delete less xs key)
  unfolding delete
  delete-IsOrdered [] key o = tt
  delete-IsOrdered ((k, v) ∷ xs) key o = elim (Bool-cases (less key k)) [
    | inl before ↦
        rw before
          (All-delete (λ (x : K × V). less k x.0 ≡ true) xs key o.0, delete-IsOrdered xs key o.1)
    | inr not_before ↦ elim (Bool-cases (less k key)) [
      | inl behind ↦
          rw (not_before, behind)
            (All-delete (λ (x : K × V). less k x.0 ≡ true) xs key o.0, delete-IsOrdered xs key o.1)
      | inr here ↦ rw (not_before, here) o.1
    ]
  ]

  -- After an insertion an equivalent key reads the new value, and any other what it read before.
  pub lookup-insert :
      (xs : List (K × V)) (key : K) (val : V) (j : K)
      → lookup less (insert less xs key val) j
        ≡ (if less j key || less key j then lookup less xs j else some val)
  unfolding lookup insert
  lookup-insert [] key val j = ground arith
  lookup-insert ((k, v) ∷ xs) key val j = ground (
    arith,
    lookup-insert xs key val j,
    order.cotrans j key k,
    order.cotrans j k key,
    order.cotrans k j key,
    order.cotrans key j k,
    order.cotrans k key j,
    order.cotrans key k j,
  )

  -- After a deletion an equivalent key is not found, and any other reads what it read before.
  pub lookup-delete :
      (xs : List (K × V)) (key j : K)
      → IsOrdered less xs
      → lookup less (delete less xs key) j
        ≡ (if less j key || less key j then lookup less xs j else none)
  unfolding lookup delete
  lookup-delete [] key j o = ground arith
  lookup-delete ((k, v) ∷ xs) key j o = elim (Bool-cases (less k j)) [
    | inl behind ↦ ground (
      arith,
      lookup-delete xs key j o.1,
      order.cotrans j key k,
      order.cotrans j k key,
      order.cotrans k j key,
      order.cotrans key j k,
      order.cotrans k key j,
      order.cotrans key k j,
    )
    | inr le ↦ ground (
      arith,
      lookup-delete xs key j o.1,
      lookup-AllBehind less xs j (All-imp xs (λ x h. le-lt_of_lt order j k x.0 le h) o.0),
      order.cotrans j key k,
      order.cotrans j k key,
      order.cotrans k j key,
      order.cotrans key j k,
      order.cotrans k key j,
      order.cotrans key k j,
    )
  ]
