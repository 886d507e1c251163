-- ===== src/Lf/Stack/Keep.antt =====
-- lf/stack.go: each access keeps what holds of the nodes and of the goroutine that makes it.
use mathlib.Core.Path.{subst}
use lockfree.Base.{
  ℕ, ◌≤◌, ◌≡◌, ◌≢◌, inl, inr, refl, sym, ap, ◌∙◌, Option, none, some, Option-cases, Bool,
  Bool-cases, true, false, List, [], ◌∷◌, ==_iff, update, update_self, update_ne, arith,
}
use lockfree.Lf.Stack.{
  Stack, Pc, Call, push_call, pop_call, idle, pushing, push_loaded, push_stored, push_done, popping,
  pop_empty, pop_loaded, pop_next, pop_done, same_pointer, look, access,
}
use lockfree.Lf.Stack.Lifo.{
  Event, tau, pushed, took, found_empty, LifoStep, inside, add, take, nothing,
}
use lockfree.Lf.Stack.Inv.{Chain, Chain-stays, Holds, IsPrivate, PcOk, Outcome}

same_pointer-eq : (p q : Option ℕ) → same_pointer p q ≡ true → p ≡ q
same_pointer-eq none none e = refl
same_pointer-eq none (some b) e = absurd cc
same_pointer-eq (some a) none e = absurd cc
same_pointer-eq (some a) (some b) e = ap some ((==_iff a b).0 e)

module _ {ℓ} {A : Type ℓ} where
  module _ (s : Stack A) (linked : ℕ → Bool) (xs : List A)
      (chain : Chain s.next s.val linked s.top xs)
      (fresh : (a : ℕ) → s.alloc ≤ a → linked a ≡ false) where
    -- An access that stores at most in `len`.
    quiet :
        (n : ℕ) (p q : Pc A) (e : Event A)
        → PcOk (record s { len = n }) linked q
        → ((b : ℕ) → Holds q b → Holds p b)
        → LifoStep xs e xs
        → Outcome s linked xs p (record s { len = n }, q, e)
    quiet n p q e ok holds ev = record {
      linked' = linked;
      ys = xs;
      chain = chain;
      fresh = fresh;
      own = ok;
      event = ev;
      alloc_le = omega arith;
      kept = λ a l. (refl, l);
      others = λ b ne lt l. (l, refl);
      holds = λ b h. inl (holds b h);
    }

    apart_of : (a b : ℕ) → linked a ≡ true → linked b ≡ false → b ≢ a
    apart_of a b l k e = cc

    alloc-Outcome :
        (v : A) (r : Option A) → Outcome s linked xs (idle r) (access (push_call v) s (idle r))
    unfolding access
    alloc-Outcome v r =
        let ne =
          λ (a : ℕ) (l : linked a ≡ true). apart_of a s.alloc l (fresh s.alloc (omega arith)) in
        record {
          linked' = linked;
          ys = xs;
          chain =
              Chain-stays (λ a l. (update_ne s.next none (ne a l), update_ne s.val v (ne a l), l))
                s.top xs chain;
          fresh = λ a le. fresh a (omega arith);
          own = (omega arith, fresh s.alloc (omega arith));
          event = inside refl;
          alloc_le = omega arith;
          kept = λ a l. (update_ne s.next none (ne a l), l);
          others = λ b no lt l. (l, update_ne s.next none (λ e. omega arith));
          holds = λ b h. inr (sym h);
        }

    link-Outcome :
        (c : Call A) (item : ℕ) (t : Option ℕ)
        → IsPrivate s linked item
        → Outcome s linked xs (push_loaded item t) (access c s (push_loaded item t))
    unfolding access
    link-Outcome c item t (lt, priv) = record {
      linked' = linked;
      ys = xs;
      chain =
          Chain-stays (λ a l. (update_ne s.next t (apart_of a item l priv), refl, l)) s.top xs
            chain;
      fresh = fresh;
      own = ((lt, priv), update_self s.next item t);
      event = inside refl;
      alloc_le = omega arith;
      kept = λ a l. (update_ne s.next t (apart_of a item l priv), l);
      others = λ b no lt l. (l, update_ne s.next t no);
      holds = λ b h. inl h;
    }

    push-Outcome :
        (item : ℕ) (t : Option ℕ)
        → PcOk s linked (push_stored item t)
        → s.top ≡ t
        → Outcome s linked xs
            (push_stored item t)
            (record s { top = some item }, push_done, pushed (s.val item))
    push-Outcome item t ((lt, priv), e) same =
        let keep =
          λ (a : ℕ) (l : linked a ≡ true). update_ne linked true (apart_of a item l priv) ∙ l in
        record {
          linked' = update linked item true;
          ys = s.val item ∷ xs;
          chain = (
            item,
            refl,
            update_self linked item true,
            refl,
            subst (λ u. Chain s.next s.val (update linked item true) u xs) (same ∙ sym e)
                (Chain-stays (λ a l. (refl, refl, keep a l)) s.top xs chain),
          );
          fresh = λ a le. update_ne linked true (λ same. omega arith) ∙ fresh a le;
          own = tt;
          event = add (s.val item) refl;
          alloc_le = omega arith;
          kept = λ a l. (refl, keep a l);
          others = λ b no lt l. (update_ne linked true no ∙ l, refl);
          holds = λ b h. absurd h;
        }

    pop-Outcome :
        (a : ℕ) (nx : Option ℕ) (ys : List A)
        → xs ≡ ys
        → PcOk s linked (pop_next a nx)
        → s.top ≡ some a
        → Chain s.next s.val linked s.top ys
        → Outcome s linked xs
            (pop_next a nx)
            (record s { top = nx }, pop_done (s.val a), took (s.val a))
    pop-Outcome a nx [] e ok at_top (nil, _) = absurd cc
    pop-Outcome a nx (y ∷ ys) e (l, link) at_top (b, at_b, _, v, rest) =
        let same : b ≡ a = cc in
        record {
          linked' = linked;
          ys = ys;
          chain = subst (λ u. Chain s.next s.val linked u ys) (ap s.next same ∙ link) rest;
          fresh = fresh;
          own = tt;
          event = take (s.val a) (e ∙ ap (λ (z : A). z ∷ ys) (sym v ∙ ap s.val same));
          alloc_le = omega arith;
          kept = λ a l. (refl, l);
          others = λ b ne lt l. (l, refl);
          holds = λ b h. absurd h;
        }

    nil-empty : (ys : List A) → s.top ≡ none → Chain s.next s.val linked s.top ys → ys ≡ []
    nil-empty [] e c = refl
    nil-empty (y ∷ ys) e (b, at_b, l, v, rest) = absurd cc

    top-linked :
        (ys : List A) (a : ℕ)
        → s.top ≡ some a
        → Chain s.next s.val linked s.top ys
        → linked a ≡ true
    top-linked [] a e (nil, _) = absurd cc
    top-linked (y ∷ ys) a e (b, at_b, l, v, rest) =
        let same : b ≡ a = cc in ap linked (sym same) ∙ l

    pub access-Outcome :
        (c : Call A) (p : Pc A) → PcOk s linked p → Outcome s linked xs p (access c s p)
    unfolding access
    access-Outcome (push_call v) (idle r) ok = alloc-Outcome v r
    access-Outcome pop_call (idle r) ok =
        quiet s.len (idle r) popping tau tt (λ b h. h) (inside refl)
    access-Outcome c (pushing item) ok =
        quiet s.len (pushing item) (push_loaded item s.top) tau ok (λ b h. h) (inside refl)
    access-Outcome c (push_loaded item t) ok = link-Outcome c item t ok
    access-Outcome c (push_stored item t) ok = elim (Bool-cases (same_pointer s.top t)) [
      | inl same ↦ rw same (push-Outcome item t ok (same_pointer-eq s.top t same))
      | inr moved ↦
          rw moved
            (quiet s.len (push_stored item t) (pushing item) tau ok.0 (λ b h. h) (inside refl))
    ]
    access-Outcome c push_done ok = quiet _ push_done (idle none) tau tt (λ b h. h) (inside refl)
    access-Outcome c popping ok = elim (Option-cases s.top) [
      | inl nil ↦ subst (Outcome s linked xs popping) (sym (ap (look s) nil)) (
          quiet s.len popping pop_empty found_empty tt (λ b h. h)
            (nothing (nil-empty xs nil chain) refl))
      | inr (a, there) ↦ subst (Outcome s linked xs popping) (sym (ap (look s) there)) (
          quiet s.len popping (pop_loaded a) tau (top-linked xs a there chain) (λ b h. h)
            (inside refl))
    ]
    access-Outcome c pop_empty ok =
        quiet s.len pop_empty (idle none) tau tt (λ b h. h) (inside refl)
    access-Outcome c (pop_loaded a) ok =
        quiet s.len (pop_loaded a) (pop_next a (s.next a)) tau (ok, refl) (λ b h. h) (inside refl)
    access-Outcome c (pop_next a nx) ok = elim (Bool-cases (same_pointer s.top (some a))) [
      | inl same ↦ rw same (pop-Outcome a nx xs refl ok (same_pointer-eq s.top (some a) same) chain)
      | inr moved ↦ rw moved (quiet s.len (pop_next a nx) popping tau tt (λ b h. h) (inside refl))
    ]
    access-Outcome c (pop_done v) ok =
        quiet _ (pop_done v) (idle (some v)) tau tt (λ b h. h) (inside refl)
