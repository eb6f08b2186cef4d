-- ===== src/Daemon/Head/Chains.antt =====
-- Chains of nodes, what removing and adding a node does to them.
use mathlib.Core.Path.{subst}
use linux_drv.Prelude.{
  Bool-cases, List, Option, [], ==_iff, ap, arith, inl, inr, refl, some, sym, ℕ, ◌++◌, ◌<◌, ◌==◌,
  ◌∙◌, ◌∷◌, ◌≡◌, ◌≢◌, ◌≤◌,
}
use linux_drv.Daemon.Head.Heap.{Heap, set_next, set_prev}
use linux_drv.Daemon.Inv.Defs.{count, count-append}
use linux_drv.Daemon.State.{remove}

-- The nodes from `a` over `xs` to `b`, linked both ways.
abbrev pub Chain : Heap → ℕ → List ℕ → ℕ → Type 0
Chain h a [] b = (h.next a ≡ some b) × (h.prev b ≡ some a)
Chain h a (x ∷ xs) b = (h.next a ≡ some x) × (h.prev x ≡ some a) × Chain h x xs b

-- `j` before `k`, as their pointers say.
abbrev pub Linked : Heap → ℕ → ℕ → Type 0
Linked h j k = (h.next j ≡ some k) × (h.prev k ≡ some j)

Chain-first :
    (h : Heap) (a b : ℕ) (xs : List ℕ)
    → Chain h a xs b
    → (n : ℕ) × Linked h a n × (0 < count n (xs ++ (b ∷ [])))
Chain-first h a b [] (e, f) = (b, (e, f), ground arith)
Chain-first h a b (x ∷ xs) (e, f, c) = (x, (e, f), ground arith)

-- The nodes around a node of a chain.
pub Chain-around :
    (h : Heap) (a b i : ℕ) (xs : List ℕ)
    → Chain h a xs b
    → 0 < count i xs
    → (p : ℕ) × (n : ℕ) × Linked h p i
      × Linked h i n
      × (0 < count p (a ∷ xs))
      × (0 < count n (xs ++ (b ∷ [])))
Chain-around h a b i [] c m = absurd (omega arith)
Chain-around h a b i (x ∷ xs) (e, f, c) m = elim (Bool-cases (x == i)) [
  | inl hit ↦
      let here : x ≡ i = (==_iff x i).0 hit in
      let (n, l, k) = Chain-first h x b xs c in
      (
        a,
        n,
        subst (Linked h a) here (e, f),
        subst (λ j. Linked h j n) here l,
        ground arith,
        ground (arith, k),
      )
  | inr miss ↦
      let (p, n, l, r, k, k') = Chain-around h x b i xs c (ground (arith, m, miss)) in
      (p, n, l, r, ground (arith, k), ground (arith, k'))
]

pub Chain-last :
    (h : Heap) (a b : ℕ) (xs : List ℕ)
    → Chain h a xs b
    → (p : ℕ) × Linked h p b × (0 < count p (a ∷ xs))
Chain-last h a b [] (e, f) = (a, (e, f), ground arith)
Chain-last h a b (x ∷ xs) (e, f, c) =
    let (p, l, m) = Chain-last h x b xs c in (p, l, ground (arith, m))

-- Pointers of other nodes may change.
pub Chain-frame :
    (h : Heap) (a b p n : ℕ) (v w : Option ℕ) (xs : List ℕ)
    → count p (a ∷ xs) ≡ 0
    → count n (xs ++ (b ∷ [])) ≡ 0
    → Chain h a xs b
    → Chain (set_next p v (set_prev n w h)) a xs b
Chain-frame h a b p n v w [] fp fn (e, f) = (ground (arith, fp, e), ground (arith, fn, f))
Chain-frame h a b p n v w (x ∷ xs) fp fn (e, f, c) = (
  ground (arith, fp, e),
  ground (arith, fn, f),
  Chain-frame h x b p n v w xs (ground (arith, fp)) (ground (arith, fn)) c,
)

-- A node that is not in a list is not removed from it.
pub remove-absent : (i : ℕ) (xs : List ℕ) → count i xs ≡ 0 → remove i xs ≡ xs
remove-absent i [] m = refl
remove-absent i (x ∷ xs) m = elim (Bool-cases (x == i)) [
  | inl hit ↦ absurd (ground (arith, m, hit))
  | inr miss ↦ rw miss (ap (◌∷◌ x) (remove-absent i xs (ground (arith, m, miss))))
]

-- Two nodes whose pointers differ.
apart : (f : ℕ → Option ℕ) {a p x y : ℕ} → f a ≡ some x → f p ≡ some y → x ≢ y → a ≢ p
apart f e e' ne same = ne (cc (sym e ∙ ap f same ∙ e'))

-- The chain from the node `i` on, linked to `a` in its place.
Chain-relink :
    (h : Heap) (a b i n : ℕ) (xs : List ℕ)
    → ((j : ℕ) → count j (a ∷ xs) ≤ 1)
    → count b xs ≡ 0
    → h.next i ≡ some n
    → Chain h i xs b
    → Chain (set_next a (some n) (set_prev n (some a) h)) a xs b
Chain-relink h a b i n [] once last r (e, f) =
    let same : n ≡ b = cc (sym r ∙ e) in (ground (arith, same), ground (arith, same))
Chain-relink h a b i n (y ∷ ys) once last r (e, f, c) =
    let same : n ≡ y = cc (sym r ∙ e) in
    let once_n = once n in
    (
      ground (arith, same),
      ground (arith, same),
      Chain-frame h y b a n (some n) (some a) ys (ground (arith, once a))
          (ground (arith, once_n, same, last, count-append n ys (b ∷ []))) c,
    )

-- The neighbours of a node linked to each other: the chain without the node.
pub Chain-remove :
    (h : Heap) (a b i p n : ℕ) (xs : List ℕ)
    → ((j : ℕ) → count j (a ∷ xs) ≤ 1)
    → count b xs ≡ 0
    → 0 < count i xs
    → Linked h p i
    → Linked h i n
    → Chain h a xs b
    → Chain (set_next p (some n) (set_prev n (some p) h)) a (remove i xs) b
Chain-remove h a b i p n [] once last m l r c = absurd (omega arith)
Chain-remove h a b i p n (x ∷ xs) once last m (l, l') (r, r') (e, f, c) =
    elim (Bool-cases (x == i)) [
      | inl hit ↦
          let here : x ≡ i = (==_iff x i).0 hit in
          let start : p ≡ a = cc (sym l' ∙ ap h.prev (sym here) ∙ f) in
          let gone : remove i xs ≡ xs = remove-absent i xs (ground (arith, once i, hit)) in
          rw (hit, gone, start)
            (Chain-relink h a b x n xs (λ j. ground (arith, once j)) (ground (arith, last))
              (rw here r) c)
      | inr miss ↦
          let next_apart : a ≢ p = apart h.next e l (ground (arith, miss)) in
          let prev_apart : x ≢ n = apart h.prev f r' (ground (arith, once i, m, miss)) in
          rw miss (
            ground (arith, next_apart, e),
            ground (arith, prev_apart, f),
            Chain-remove h x b i p n xs (λ j. ground (arith, once j)) (ground (arith, last))
                (ground (arith, m, miss)) (l, l') (r, r') c,
          )
    ]

-- A node linked in before the end of a chain.
pub Chain-append :
    (h : Heap) (a b p new : ℕ) (xs : List ℕ)
    → count new (a ∷ xs ++ (b ∷ [])) ≡ 0
    → count b xs ≡ 0
    → Linked h p b
    → Chain h a xs b
    → Chain
        (set_next p
          (some new)
          (set_prev new (some p) (set_next new (some b) (set_prev b (some new) h))))
        a
        (xs ++ (new ∷ []))
        b
Chain-append h a b p new [] absent last (l, l') (e, f) =
    let same : p ≡ a = cc (sym l' ∙ f) in
    (
      ground (arith, same, absent),
      ground (arith, same, absent),
      (ground (arith, same, absent), ground (arith, same, absent)),
    )
Chain-append h a b p new (x ∷ xs) absent last (l, l') (e, f, c) = (
  ground (arith, apart h.next e l (ground (arith, last)), e, absent),
  ground (arith, last, absent, f),
  Chain-append h x b p new xs (ground (arith, absent)) (ground (arith, last)) (l, l') c,
)
