-- ===== src/Daemon/Head/Heap.antt =====
-- `CListHeader` and `CListHead`: a node is a number, a head is a node of its list, and `none` is the
-- null pointer; for an operation it is the use of one. An assertion does nothing.
use mathlib.Core.Option
use linux_drv.Prelude.{Bool, Option, if◌then◌else◌, none, same_ref, some, ℕ, ◌==◌}

pub record Heap : Type 0 where
  pub next : ℕ → Option ℕ
  pub prev : ℕ → Option ℕ

abbrev pub set_next : ℕ → Option ℕ → Heap → Heap
set_next i p h = record h { next = λ j. if j == i then p else h.next j }

abbrev pub set_prev : ℕ → Option ℕ → Heap → Heap
set_prev i p h = record h { prev = λ j. if j == i then p else h.prev j }

-- `CListHeader::CListHeader`
abbrev pub new_header : ℕ → Heap → Heap
new_header i h = set_prev i (some i) (set_next i (some i) h)

-- `sIntDel` and `sIntAdd`
unfoldable pub int_del : Option ℕ → Option ℕ → Heap → Option Heap
int_del none n h = none
int_del (some p) none h = none
int_del (some p) (some n) h = some (set_next p (some n) (set_prev n (some p) h))

unfoldable pub int_add : ℕ → Option ℕ → Option ℕ → Heap → Option Heap
int_add new none n h = none
int_add new (some p) none h = none
int_add new (some p) (some n) h = some (
    set_next p (some new) (set_prev new (some p) (set_next new (some n) (set_prev n (some new) h))))

-- `del`
unfoldable pub del : ℕ → Heap → Option Heap
del i h = Option.map (λ h'. set_prev i none (set_next i none h')) (int_del (h.prev i) (h.next i) h)

-- `isEmpty`, `addTail`, `getFirstEntry`, `getLastEntry` and `accept` of the list with the head `k`.
abbrev pub is_empty_list : ℕ → Heap → Bool
is_empty_list k h = same_ref (h.next k) k

unfoldable pub add_node : ℕ → ℕ → Heap → Option Heap
add_node k new h = int_add new (h.prev k) (some k) h

abbrev pub get_first_entry : ℕ → Heap → Option ℕ
get_first_entry k h = if is_empty_list k h then none else h.next k

abbrev pub get_last_entry : ℕ → Heap → Option ℕ
get_last_entry k h = if is_empty_list k h then none else h.prev k

unfoldable pub accept_node : ℕ → ℕ → Heap → Option Heap
accept_node k new h = elim (int_del (h.prev new) (h.next new) h) [
  | none ↦ none
  | some h' ↦ add_node k new h'
]
