-- ===== src/Daemon/Head/Tests.antt =====
-- The pointers of the lists when the daemon has booted.
use mathlib.Core.Path.{subst}
use linux_drv.Prelude.{
  true, Bool-cases, ==_iff, arith, if◌then◌else◌, inl, inr, ltb, none, refl, some, suc, ℕ, ◌-◌, ◌<◌,
  ◌==◌, ◌∷◌, ◌≡◌, ◌≤◌,
}
use linux_drv.Daemon.Head.Chains.{Chain}
use linux_drv.Daemon.Head.Entries.{accept_node-accept, heads, lists_of}
use linux_drv.Daemon.Head.Heap.{Heap, accept_node, get_first_entry, get_last_entry}
use linux_drv.Daemon.Head.Refines.{Refines}
use linux_drv.Daemon.Inv.Defs.{count}
use linux_drv.Daemon.Events.{booted}
use linux_drv.Daemon.State.{accept, rt_normal, rt_null}

-- All entries in the ring of the pool, in order; the other lists are empty.
abbrev boot : Heap
boot = record {
  next = λ k. if k == 7 then some 0 else if ltb 7 k then some k else some (suc k);
  prev = λ k. if k == 0 then some 7 else if ltb 7 k then some k else some (k - 1);
}

by_head {ℓ} : (P : ℕ → Type ℓ) → P 7 → P 8 → P 9 → P 10 → (k : ℕ) → 0 < count k heads → P k
by_head P a b c d k h = elim (Bool-cases (7 == k)) [
  | inl e ↦ subst P ((==_iff 7 k).0 e) a
  | inr e ↦ elim (Bool-cases (8 == k)) [
    | inl f ↦ subst P ((==_iff 8 k).0 f) b
    | inr f ↦ elim (Bool-cases (9 == k)) [
      | inl g ↦ subst P ((==_iff 9 k).0 g) c
      | inr g ↦ subst P ((==_iff 10 k).0 (ground (arith, h, e, f, g))) d
    ]
  ]
]

-- The head of a node's ring.
abbrev owner : ℕ → ℕ
owner j = if ltb j 8 then 7 else j

boot-owner :
    (k : ℕ)
    → 0 < count k heads
    → (j : ℕ) → count j (k ∷ lists_of (booted true) k) ≤ (if owner j == k then 1 else 0)
boot-owner =
    by_head
      (λ k. (j : ℕ) → count j (k ∷ lists_of (booted true) k) ≤ (if owner j == k then 1 else 0))
      (λ j. ground arith) (λ j. ground arith) (λ j. ground arith) (λ j. ground arith)

boot-Refines : Refines boot heads (lists_of (booted true))
boot-Refines = record {
  rings =
      by_head (λ k. Chain boot k (lists_of (booted true) k) k) (ground arith) (refl, refl)
        (refl, refl) (refl, refl);
  once = λ k j hk. ground (arith, boot-owner k hk j);
  apart = λ j k m hk hm ne. ground (arith, boot-owner k hk j, boot-owner m hm j, ne);
}

accept_node-accept_example :
    (h' : Heap) × (accept_node 8 0 boot ≡ some h')
    × Refines h' heads (lists_of (accept rt_normal 0 (booted true)))
accept_node-accept_example =
    accept_node-accept boot (booted true) rt_null rt_normal 0 boot-Refines (omega arith)

first_test : get_first_entry 7 boot ≡ some 0
first_test = refl

last_test : get_last_entry 8 boot ≡ none
last_test = refl
