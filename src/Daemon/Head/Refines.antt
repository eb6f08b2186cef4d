-- ===== src/Daemon/Head/Refines.antt =====
-- The doubly linked lists implement lists: `accept` moves a node to the tail of a list.
use mathlib.Core.Path.{subst}
use linux_drv.Prelude.{
  Bool-cases, List, [], ==_iff, arith, if◌then◌else◌, inl, inr, refl, some, sym, true, ℕ, ◌++◌, ◌+◌,
  ◌<◌, ◌==◌, ◌∷◌, ◌≡◌, ◌≢◌, ◌≤◌,
}
use linux_drv.Daemon.Head.Chains.{
  Chain, Chain-append, Chain-around, Chain-frame, Chain-last, Chain-remove, remove-absent,
}
use linux_drv.Daemon.Head.Heap.{Heap, accept_node, add_node, int_add, int_del, set_next, set_prev}
use linux_drv.Daemon.Inv.Defs.{count, count-append, count-remove}
use linux_drv.Daemon.State.{remove}

-- Each head stands in the ring of its list's nodes, and no node stands twice in a ring or in two.
pub record Refines (h : Heap) (heads : List ℕ) (lists : ℕ → List ℕ) : Type 0 where
  pub rings : (k : ℕ) → 0 < count k heads → Chain h k (lists k) k
  pub once : (k j : ℕ) → 0 < count k heads → count j (k ∷ lists k) ≤ 1
  pub apart :
      (j k m : ℕ)
      → 0 < count k heads
      → 0 < count m heads
      → k ≢ m
      → count j (k ∷ lists k) + count j (m ∷ lists m) ≤ 1

int_del-Refines :
    (h : Heap) (heads : List ℕ) (lists : ℕ → List ℕ) (s i : ℕ)
    → Refines h heads lists
    → 0 < count s heads
    → 0 < count i (lists s)
    → (h' : Heap) × (int_del (h.prev i) (h.next i) h ≡ some h')
      × Refines h' heads (λ k. remove i (lists k))
unfolding int_del
int_del-Refines h heads lists s i v hs m =
    let (p, n, (l, l'), (r, r'), at_p, at_n) = Chain-around h s s i (lists s) (v.rings s hs) m in
    (
      set_next p (some n) (set_prev n (some p) h),
      rw (l', r) refl,
      record {
        rings = λ k hk. elim (Bool-cases (k == s)) [
          | inl e ↦
              subst
                (λ k'.
                  Chain (set_next p (some n) (set_prev n (some p) h)) k' (remove i (lists k')) k')
                (sym ((==_iff k s).0 e))
                (Chain-remove h s s i p n (lists s) (λ j. v.once s j hs)
                  (ground (arith, v.once s s hs)) m (l, l') (r, r') (v.rings s hs))
          | inr e ↦
              let other : k ≢ s = ground (arith, e) in
              let gone : remove i (lists k) ≡ lists k =
                remove-absent i (lists k) (ground (arith, m, v.apart i k s hk hs other)) in
              subst (λ xs. Chain (set_next p (some n) (set_prev n (some p) h)) k xs k) (sym gone)
                (Chain-frame h k k p n (some n) (some p) (lists k)
                  (ground (arith, at_p, v.apart p k s hk hs other))
                  (ground (
                    arith,
                    at_n,
                    v.apart n k s hk hs other,
                    count-append n (lists k) (k ∷ []),
                    count-append n (lists s) (s ∷ []),
                  ))
                  (v.rings k hk))
        ];
        once = λ k j hk. ground (arith, v.once k j hk, count-remove j i (lists k));
        apart = λ j k k' hk hk' ne. ground (
          arith,
          v.apart j k k' hk hk' ne,
          count-remove j i (lists k),
          count-remove j i (lists k'),
        );
      },
    )

-- The list of the head `t` with `i` at its tail.
abbrev pub appended : ℕ → ℕ → (ℕ → List ℕ) → ℕ → List ℕ
appended t i lists k = if k == t then lists k ++ (i ∷ []) else lists k

count-appended :
    (j t i : ℕ) (lists : ℕ → List ℕ) (k : ℕ)
    → count j (appended t i lists k)
      ≡ count j (lists k) + (if k == t then (if i == j then 1 else 0) else 0)
count-appended j t i lists k = ground (arith, count-append j (lists k) (i ∷ []))

add_node-Refines :
    (h : Heap) (heads : List ℕ) (lists : ℕ → List ℕ) (t i : ℕ)
    → Refines h heads lists
    → 0 < count t heads
    → ((k : ℕ) → 0 < count k heads → count i (k ∷ lists k) ≡ 0)
    → (h' : Heap) × (add_node t i h ≡ some h') × Refines h' heads (appended t i lists)
unfolding add_node int_add
add_node-Refines h heads lists t i v ht new =
    let new_at : (j k : ℕ) → 0 < count k heads → (i == j) ≡ true → count j (k ∷ lists k) ≡ 0 =
      λ j k hk e. subst (λ j'. count j' (k ∷ lists k) ≡ 0) ((==_iff i j).0 e) (new k hk) in
    let (p, (l, l'), at_p) = Chain-last h t t (lists t) (v.rings t ht) in
    (
      set_next p (some i) (set_prev i (some p) (set_next i (some t) (set_prev t (some i) h))),
      rw l' refl,
      record {
        rings = λ k hk. elim (Bool-cases (k == t)) [
          | inl e ↦
              let here : k ≡ t = (==_iff k t).0 e in
              rw e (
                subst
                  (λ k'.
                    Chain
                      (set_next p (some i)
                        (set_prev i (some p) (set_next i (some t) (set_prev t (some i) h))))
                      k' (lists k' ++ (i ∷ [])) k')
                  (sym here)
                  (Chain-append h t t p i (lists t)
                    (ground (arith, new t ht, count-append i (lists t) (t ∷ [])))
                    (ground (arith, v.once t t ht)) (l, l') (v.rings t ht)))
          | inr e ↦
              let other : k ≢ t = ground (arith, e) in
              let absent = new k hk in
              rw e (
                Chain-frame (set_next i (some t) (set_prev t (some i) h)) k k p i (some i) (some p)
                  (lists k) (ground (arith, at_p, v.apart p k t hk ht other))
                  (ground (arith, absent, count-append i (lists k) (k ∷ [])))
                  (Chain-frame h k k i t (some t) (some i) (lists k) absent
                    (ground (arith, v.apart t k t hk ht other, count-append t (lists k) (k ∷ [])))
                    (v.rings k hk)))
        ];
        once = λ k j hk. ground (arith, v.once k j hk, count-appended j t i lists k, new_at j k hk);
        apart = λ j k k' hk hk' ne. ground (
          arith,
          v.apart j k k' hk hk' ne,
          count-appended j t i lists k,
          count-appended j t i lists k',
          new_at j k hk,
          new_at j k' hk',
        );
      },
    )

-- Accepting a node that is in the ring of `s` into the ring of `t`.
pub accept-Refines :
    (h : Heap) (heads : List ℕ) (lists : ℕ → List ℕ) (s t i : ℕ)
    → Refines h heads lists
    → 0 < count s heads
    → 0 < count t heads
    → 0 < count i (lists s)
    → (h' : Heap) × (accept_node t i h ≡ some h')
      × Refines h' heads (appended t i (λ k. remove i (lists k)))
unfolding accept_node
accept-Refines h heads lists s t i v hs ht m =
    let (h1, e1, v1) = int_del-Refines h heads lists s i v hs m in
    let (h2, e2, v2) =
      add_node-Refines h1 heads (λ k. remove i (lists k)) t i v1 ht
        (λ k hk. elim (Bool-cases (k == s)) [
          | inl e ↦ ground (arith, e, m, v.once s i hs, count-remove i i (lists k))
          | inr e ↦
              ground (arith, m, v.apart i k s hk hs (ground (arith, e)), count-remove i i (lists k))
        ]) in
    (h2, rw (e1, accept_node) e2, v2)
