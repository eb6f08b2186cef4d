-- ===== src/Daemon/State.antt =====
-- The daemon's static data: the runtime entries of rt_prc_info.cpp, the managers of
-- static_prc_info.cpp and dynamic_prc_info.cpp, and the lists that link them. An array is a function
-- of its index. The assertion that guards the two signals is modelled; the others, which repeat the
-- invariant or stand beside an error that is answered too, do nothing, as with NDEBUG.
use linux_drv.Prelude.{
  Bool, List, Option, [], false, if◌then◌else◌, neg_part, none, pos_part, some, true, ℕ, ℤ, ◌&&◌,
  ◌++◌, ◌+◌, ◌==◌, ◌∷◌,
}
use linux_drv.Card.{etin_slot_max}

-- `EPrcRtState_t`
pub data RtState : Type 0 where
  rt_null rt_normal rt_exiting rt_killing : RtState

-- `CRtPrcInfo`, without the text of its arguments, which is only logged.
pub record RtPrc : Type 0 where
  pub state : RtState
  pub pid : ℤ
  pub exp_times : ℕ
  pub real_times : ℕ
  pub parent : Option ℕ

-- The pointers of a manager's list node: to itself, as the constructor leaves them, null, as `del`
-- leaves them, or into the list `s_list2Start`.
pub data Link : Type 0 where
  own unlinked queued : Link

-- What `CDynamicPrcMngInfo` adds to its base class.
pub record Card : Type 0 where
  pub slot_no : ℕ
  pub card_kind : ℤ
  pub card_kind_new : ℤ
  pub cnt4_filter : ℕ

-- `CPrcMngInfo`; a static manager has no card.
pub record Mng : Type 0 where
  pub child : Option ℕ
  pub link : Link
  pub card : Option Card

-- The system calls, and the ioctls on the device file of the PDM driver. `echild` asks whether the
-- waitpid before it failed with
-- ECHILD.
pub data SysCall : Type 0 where
  fork : ℕ → SysCall
  waitpid echild : ℤ → SysCall
  kill : ℤ → Bool → SysCall
  on_off_line : ℕ → ℤ → SysCall
  self_slot_id : SysCall
  state_int master_int : Bool → SysCall

abbrev pub Sys : Type 0
Sys = List SysCall → SysCall → ℤ

-- `CListHead`s hold the indices of the entries that they link, in order.
pub record Daemon : Type 0 where
  pub rts : ℕ → RtPrc
  pub mngs : ℕ → Mng
  pub pool : List ℕ
  pub normal : List ℕ
  pub exiting : List ℕ
  pub killing : List ℕ
  pub to_start : List ℕ
  pub start_timer : Bool
  pub term_timer : Bool
  pub kill_timer : Bool
  pub hello_timer : Bool
  pub live_timer : Bool
  pub card_timer : Bool
  pub exit_flag : Bool
  pub need_kill : Bool
  pub calls : List SysCall

-- How a function ends: with a value, after `exit` or a failed assertion, or by a null pointer or a node
-- that is linked twice.
pub data Run {ℓ} (A : Type ℓ) : Type ℓ where
  ok : A → Run A
  exited : Run A
  fault : Run A

infixl 5 ◌>>=◌
abbrev pub ◌>>=◌ {ℓ κ} : {A : Type ℓ} {B : Type κ} → Run A → (A → Run B) → Run B
ok a >>= f = f a
exited >>= f = exited
fault >>= f = fault

-- The size of `s_preAllPool`, and how many managers there are of each kind.
abbrev pub max_static_prc_num : ℕ
max_static_prc_num = 5

abbrev pub pool_size : ℕ
pool_size = etin_slot_max + max_static_prc_num

-- The managers: the static ones, then one for each slot.
abbrev pub dynamic_of : ℕ → ℕ
dynamic_of i = max_static_prc_num + i

abbrev pub is_empty {ℓ} : {A : Type ℓ} → List A → Bool
is_empty [] = true
is_empty (x ∷ xs) = false

abbrev pub first_entry : List ℕ → Option ℕ
first_entry [] = none
first_entry (x ∷ xs) = some x

-- An entry leaves the list that it is in.
abbrev pub remove : ℕ → List ℕ → List ℕ
remove i [] = []
remove i (x ∷ xs) = let rest = remove i xs in if x == i then rest else x ∷ rest

abbrev pub call : SysCall → Daemon → Daemon
call c d = record d { calls = c ∷ d.calls }

abbrev pub put_rt : ℕ → RtPrc → Daemon → Daemon
put_rt i r d = record d { rts = λ j. if j == i then r else d.rts j }

abbrev pub put_mng : ℕ → Mng → Daemon → Daemon
put_mng m x d = record d { mngs = λ n. if n == m then x else d.mngs n }

abbrev pub eqz : ℤ → ℤ → Bool
eqz a b = pos_part a == pos_part b && neg_part a == neg_part b

abbrev pub is_normal : RtState → Bool
is_normal rt_normal = true
is_normal _ = false

-- `CListHead::accept` of the list for a state: from its list to the tail of that one.
abbrev pub unlink : ℕ → Daemon → Daemon
unlink i d = record d {
  pool = remove i d.pool;
  normal = remove i d.normal;
  exiting = remove i d.exiting;
  killing = remove i d.killing;
}

abbrev pub add_tail : RtState → ℕ → Daemon → Daemon
add_tail rt_null i d = record d { pool = d.pool ++ (i ∷ []) }
add_tail rt_normal i d = record d { normal = d.normal ++ (i ∷ []) }
add_tail rt_exiting i d = record d { exiting = d.exiting ++ (i ∷ []) }
add_tail rt_killing i d = record d { killing = d.killing ++ (i ∷ []) }

unfoldable pub accept : RtState → ℕ → Daemon → Daemon
accept s i d = add_tail s i (unlink i d)
