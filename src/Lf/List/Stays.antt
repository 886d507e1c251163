-- ===== src/Lf/List/Stays.antt =====
-- lf/list.go: what holds of a goroutine survives the accesses of the others.
use lockfree.Base.{ℕ, ◌≢◌, inl, refl, some, Bool}
use lockfree.Base.Less.{Less, IsStrictOrder}
use lockfree.Linear.Spec.{Status, Watch}
use lockfree.Lf.List.{
  get_op, key_set, key_of, Pc, idle, retry, searching, unlinking, unlink_swap, set_value, set_node,
  set_link, set_swap, set_len, get_first, getting, get_value, del_next, del_mark, del_swap,
  del_value, del_unlink, del_unlink_swap, del_len, returning, nil_dereference,
}
use lockfree.Lf.List.Memory.{Nodes}
use lockfree.Lf.List.Inv.{Past, Inv, PcOk, Keeps}
use lockfree.Lf.List.Stable.{
  IsLess-stays, IsEqual-stays, IsBehind-stays, IsGone-stays, VerOk-stays, IsPrivate-stays,
  Tracks-stays, SearchOk-stays,
}

module _ {K V : Type 0} {less : Less K} (order : IsStrictOrder less) where
  module _ {i : ℕ} {m : Nodes K V} {g : Past} {keys : K → Bool} (inv : Inv less m g keys) where
    module _ (m' : Nodes K V) (g' : Past) (keys' : K → Bool) (inv' : Inv less m' g' keys')
        (x : Keeps less m g i m' g' keys') where
      pub PcOk-stays :
          (j : ℕ) (p : Pc K V) (t : Status (key_set V less))
          → j ≢ i
          → PcOk less m g j p t
          → (u : Status (key_set V less)) × Watch (key_set V less) keys' t u × PcOk less m' g' j p u
      PcOk-stays j idle t ne k = (t, inl refl, k)
      PcOk-stays j (retry op) t ne k = (t, inl refl, k)
      PcOk-stays j (searching op pred curr) t ne (k, l, h) =
          let (u, w, k') = SearchOk-stays order inv m' g' keys' inv' x op t curr h k in
          (
            u,
            w,
            (
              k',
              IsLess-stays order inv m' g' keys' inv' x pred (key_of op) l,
              x.linked_stays curr h,
            ),
          )
      PcOk-stays j (unlinking op pred curr succ) t ne (k, l, gone, h) =
          let (u, w, k') = SearchOk-stays order inv m' g' keys' inv' x op t succ h k in
          (
            u,
            w,
            (
              k',
              IsLess-stays order inv m' g' keys' inv' x pred (key_of op) l,
              IsGone-stays order inv m' g' keys' inv' x curr (some succ) gone,
              x.linked_stays succ h,
            ),
          )
      PcOk-stays j (unlink_swap op pred curr succ ver) t ne (k, l, gone, h, v) =
          let (u, w, k') = SearchOk-stays order inv m' g' keys' inv' x op t succ h k in
          (
            u,
            w,
            (
              k',
              IsLess-stays order inv m' g' keys' inv' x pred (key_of op) l,
              IsGone-stays order inv m' g' keys' inv' x curr (some succ) gone,
              x.linked_stays succ h,
              VerOk-stays order inv m' g' keys' inv' x pred (some curr) ver l.0 v,
            ),
          )
      PcOk-stays j (set_value k v curr) t ne e = (t, inl refl, e)
      PcOk-stays j (set_node k v pred curr) t ne (e, l, b) = (
        t,
        inl refl,
        (
          e,
          IsLess-stays order inv m' g' keys' inv' x pred k l,
          IsBehind-stays order inv m' g' keys' inv' x curr k b,
        ),
      )
      PcOk-stays j (set_link k v pred curr n) t ne (e, l, b, o) = (
        t,
        inl refl,
        (
          e,
          IsLess-stays order inv m' g' keys' inv' x pred k l,
          IsBehind-stays order inv m' g' keys' inv' x curr k b,
          IsPrivate-stays order inv m' g' keys' inv' x j n k curr ne o,
        ),
      )
      PcOk-stays j (set_swap k v pred curr n ver) t ne (e, l, b, o, r) = (
        t,
        inl refl,
        (
          e,
          IsLess-stays order inv m' g' keys' inv' x pred k l,
          IsBehind-stays order inv m' g' keys' inv' x curr k b,
          IsPrivate-stays order inv m' g' keys' inv' x j n k curr ne o,
          VerOk-stays order inv m' g' keys' inv' x pred (some curr) ver l.0 r,
        ),
      )
      PcOk-stays j set_len t ne e = (t, inl refl, e)
      PcOk-stays j (get_first k) t ne w = (t, inl refl, w)
      PcOk-stays j (getting k curr) t ne (track, h) =
          let (u, w, tr') =
            Tracks-stays order inv m' g' keys' inv' x (get_op k) t curr tt h track in
          (u, w, (tr', x.linked_stays curr h))
      PcOk-stays j (get_value k curr) t ne e = (t, inl refl, e)
      PcOk-stays j (del_next k pred curr) t ne (w, l, b) = (
        t,
        inl refl,
        (
          w,
          IsLess-stays order inv m' g' keys' inv' x pred k l,
          IsEqual-stays order inv m' g' keys' inv' x curr k b,
        ),
      )
      PcOk-stays j (del_mark k pred curr succ) t ne (w, l, b) = (
        t,
        inl refl,
        (
          w,
          IsLess-stays order inv m' g' keys' inv' x pred k l,
          IsEqual-stays order inv m' g' keys' inv' x curr k b,
        ),
      )
      PcOk-stays j (del_swap k pred curr succ ver) t ne (w, l, b, r) = (
        t,
        inl refl,
        (
          w,
          IsLess-stays order inv m' g' keys' inv' x pred k l,
          IsEqual-stays order inv m' g' keys' inv' x curr k b,
          VerOk-stays order inv m' g' keys' inv' x curr succ ver b.0 r,
        ),
      )
      PcOk-stays j (del_value pred curr succ) t ne (e, h, gone) = (
        t,
        inl refl,
        (e, x.linked_stays pred h, IsGone-stays order inv m' g' keys' inv' x curr succ gone),
      )
      PcOk-stays j (del_unlink pred curr succ v) t ne (e, h, gone) = (
        t,
        inl refl,
        (e, x.linked_stays pred h, IsGone-stays order inv m' g' keys' inv' x curr succ gone),
      )
      PcOk-stays j (del_unlink_swap pred curr succ ver v) t ne (e, h, gone, r) = (
        t,
        inl refl,
        (
          e,
          x.linked_stays pred h,
          IsGone-stays order inv m' g' keys' inv' x curr succ gone,
          VerOk-stays order inv m' g' keys' inv' x pred (some curr) ver h r,
        ),
      )
      PcOk-stays j (del_len v) t ne e = (t, inl refl, e)
      PcOk-stays j (returning b v) t ne e = (t, inl refl, e)
      PcOk-stays j nil_dereference t ne e = (t, inl refl, e)
