-- ===== src/Lf/HashMap/Routes.antt =====
-- lf/hashmap.go: a call is started in the bucket of its key.
use lockfree.Base.{ℕ, ◌≡◌, inl, inr, refl, sym, ap, Bool-cases, ◌==◌}
use lockfree.Base.Less.{Less}
use lockfree.Linear.{tau, call}
use lockfree.Lf.List.{
  ListOp, key_of, Pc, idle, retry, searching, unlinking, unlink_swap, set_value, set_node, set_link,
  set_swap, set_len, get_first, getting, get_value, del_swap, del_unlink_swap, returning,
}
use lockfree.Lf.List.Memory.{Nodes}
use lockfree.Lf.List.Access.{access, access_search, access_set, access_get, access_del}
use lockfree.Lf.HashMap.{bucket, target}

-- Only the start of a call shows it.
module _ {K V : Type 0} (less : Less K) (m : Nodes K V) where
  search-tau : (p : Pc K V) → (access_search less m p).2 ≡ tau
  unfolding access_search
  search-tau (unlink_swap op pred curr succ ver) = elim (Bool-cases (m.ver pred == ver)) [
    | inl e ↦ rw e refl
    | inr e ↦ rw e refl
  ]
  search-tau p = refl

  set-tau : (p : Pc K V) → (access_set less m p).2 ≡ tau
  unfolding access_set
  set-tau (set_swap k v pred curr n ver) = elim (Bool-cases (m.ver pred == ver)) [
    | inl e ↦ rw e refl
    | inr e ↦ rw e refl
  ]
  set-tau p = refl

  get-tau : (p : Pc K V) → (access_get less m p).2 ≡ tau
  unfolding access_get
  get-tau (get_first k) = refl
  get-tau (getting k curr) = refl
  get-tau (get_value k curr) = refl
  get-tau p = refl

  del-tau : (p : Pc K V) → (access_del less m p).2 ≡ tau
  unfolding access_del
  del-tau (del_swap k pred curr succ ver) = elim (Bool-cases (m.ver curr == ver)) [
    | inl e ↦ rw e refl
    | inr e ↦ rw e refl
  ]
  del-tau (del_unlink_swap pred curr succ ver v) = elim (Bool-cases (m.ver pred == ver)) [
    | inl e ↦ rw e refl
    | inr e ↦ rw e refl
  ]
  del-tau p = refl

  pub access-call :
      (hash : K → ℕ) (n i b : ℕ) (op op' : ListOp K V) (p : Pc K V)
      → (access less i op m p).2 ≡ call op'
      → bucket hash n (key_of op') ≡ target less hash n op b p
  unfolding access
  access-call hash n i b op op' idle e =
      let same : op ≡ op' = cc in ap (λ (o : ListOp K V). bucket hash n (key_of o)) (sym same)
  access-call hash n i b op op' (returning r v) e = cc
  access-call hash n i b op op' (retry o) e = let z = search-tau (retry o) in cc
  access-call hash n i b op op' (searching o pred curr) e =
      let z = search-tau (searching o pred curr) in cc
  access-call hash n i b op op' (unlinking o pred curr succ) e =
      let z = search-tau (unlinking o pred curr succ) in cc
  access-call hash n i b op op' (unlink_swap o pred curr succ ver) e =
      let z = search-tau (unlink_swap o pred curr succ ver) in cc
  access-call hash n i b op op' (set_value k v curr) e = let z = set-tau (set_value k v curr) in cc
  access-call hash n i b op op' (set_node k v pred curr) e =
      let z = set-tau (set_node k v pred curr) in cc
  access-call hash n i b op op' (set_link k v pred curr a) e =
      let z = set-tau (set_link k v pred curr a) in cc
  access-call hash n i b op op' (set_swap k v pred curr a ver) e =
      let z = set-tau (set_swap k v pred curr a ver) in cc
  access-call hash n i b op op' set_len e = let z = set-tau set_len in cc
  access-call hash n i b op op' (get_first k) e = let z = get-tau (get_first k) in cc
  access-call hash n i b op op' (getting k curr) e = let z = get-tau (getting k curr) in cc
  access-call hash n i b op op' (get_value k curr) e = let z = get-tau (get_value k curr) in cc
  access-call hash n i b op op' p e = let z = del-tau p in cc
