-- ===== src/Daemon/Head/Entries.antt =====
-- The lists of the daemon's entries, by their pointers: the entries are the nodes below 7, which is
-- pool_size, and the heads of the four lists are the nodes from there on.
use mathlib.Core.Path.{subst, fun_ext}
use linux_drv.Prelude.{List, [], arith, if◌then◌else◌, refl, some, sym, ℕ, ◌<◌, ◌==◌, ◌∷◌, ◌≡◌}
use linux_drv.Daemon.Head.Heap.{Heap, accept_node}
use linux_drv.Daemon.Head.Refines.{Refines, accept-Refines, appended}
use linux_drv.Daemon.Inv.Defs.{count, list_of}
use linux_drv.Daemon.State.{
  Daemon, RtState, accept, remove, rt_exiting, rt_killing, rt_normal, rt_null,
}

abbrev pub head_of : RtState → ℕ
head_of rt_null = 7
head_of rt_normal = 8
head_of rt_exiting = 9
head_of rt_killing = 10

abbrev pub heads : List ℕ
heads = 7 ∷ 8 ∷ 9 ∷ 10 ∷ []

-- The list of a head.
abbrev pub lists_of : Daemon → ℕ → List ℕ
lists_of d k =
    if k == 7
    then d.pool
    else if k == 8
    then d.normal
    else if k == 9
    then d.exiting
    else if k == 10
    then d.killing
    else []

lists_of-accept :
    (s : RtState) (i : ℕ) (d : Daemon) (k : ℕ)
    → lists_of (accept s i d) k ≡ appended (head_of s) i (λ k'. remove i (lists_of d k')) k
unfolding accept
lists_of-accept rt_null i d k = ground arith
lists_of-accept rt_normal i d k = ground arith
lists_of-accept rt_exiting i d k = ground arith
lists_of-accept rt_killing i d k = ground arith

head_of-heads : (s : RtState) → 0 < count (head_of s) heads
head_of-heads rt_null = omega arith
head_of-heads rt_normal = omega arith
head_of-heads rt_exiting = omega arith
head_of-heads rt_killing = omega arith

lists_of-head_of : (d : Daemon) (s : RtState) → list_of d s ≡ lists_of d (head_of s)
lists_of-head_of d rt_null = refl
lists_of-head_of d rt_normal = refl
lists_of-head_of d rt_exiting = refl
lists_of-head_of d rt_killing = refl

-- While the pointers implement the daemon's four lists: CListHead::accept of an entry that is in
-- one of them does not use a null pointer, and the pointers that it leaves implement the four
-- lists in which the entry has left its list and stands at the tail of the other.
pub accept_node-accept :
    (h : Heap) (d : Daemon) (s t : RtState) (i : ℕ)
    → Refines h heads (lists_of d)
    → 0 < count i (list_of d s)
    → (h' : Heap) × (accept_node (head_of t) i h ≡ some h')
      × Refines h' heads (lists_of (accept t i d))
accept_node-accept h d s t i v m =
    let (h', e, w) =
      accept-Refines h heads (lists_of d) (head_of s) (head_of t) i v (head_of-heads s)
        (head_of-heads t) (subst (λ xs. 0 < count i xs) (lists_of-head_of d s) m) in
    (h', e, subst (Refines h' heads) (fun_ext (λ k. sym (lists_of-accept t i d k))) w)
