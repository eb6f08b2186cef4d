-- ===== src/Ioctl.antt =====
-- The dispatch of an ioctl command through a table, as in include/driver/drv_toolkit.h: the entry at
-- the command's number is taken if it has the command's code. How a code is built of direction, size,
-- type and number is the kernel's: a parameter.
use linux_drv.Prelude.{
  List, Option, [], ap, arith, get_or, if◌then◌else◌, leb, length, none, not, some, suc, zero, ℕ,
  ◌+◌, ◌<◌, ◌==◌, ◌||◌, ◌↔◌, ◌∙◌, ◌∷◌, ◌≡◌,
}
use native.Mathlib.Nat.{zero-add}

-- `_IOC` and `_IOC_NR`.
pub record Codec : Type 0 where
  pub ioc : ℕ → ℕ → ℕ → ℕ → ℕ
  pub nr_of : ℕ → ℕ
  pub nr_of-ioc : (dir size type nr : ℕ) → nr < 256 → nr_of (ioc dir size type nr) ≡ nr

abbrev pub ioc_write : ℕ
ioc_write = 1

abbrev pub ioc_read : ℕ
ioc_read = 2

-- The index of the command's function, or none where the code answers -ENOIOCTLCMD. `reqs` are the
-- codes of the table.
unfoldable pub dispatch : (ℕ → ℕ) → List ℕ → ℕ → Option ℕ
dispatch nr_of reqs cmd =
    let idx = nr_of cmd in
    if leb (length reqs) idx || not (cmd == get_or reqs idx 0) then none else some idx

-- Each entry stands at the index of its own number.
abbrev pub IsNumbered : (ℕ → ℕ) → ℕ → List ℕ → Type 0
IsNumbered nr_of i [] = Unit
IsNumbered nr_of i (r ∷ rs) = (nr_of r ≡ i) × IsNumbered nr_of (suc i) rs

numbered_at :
    (nr_of : ℕ → ℕ) (i k : ℕ) (rs : List ℕ)
    → IsNumbered nr_of i rs
    → k < length rs
    → nr_of (get_or rs k 0) ≡ i + k
numbered_at nr_of i k [] h lt = absurd (omega arith)
numbered_at nr_of i zero (r ∷ rs) h lt = omega (arith, h.0)
numbered_at nr_of i (suc k) (r ∷ rs) h lt =
    omega (arith, numbered_at nr_of (suc i) k rs h.1 (omega arith))

-- In a numbered table a command selects the function `k` exactly when it is the code of the entry
-- `k`.
pub dispatch_iff :
    (nr_of : ℕ → ℕ) (reqs : List ℕ) (cmd k : ℕ)
    → IsNumbered nr_of 0 reqs
    → (dispatch nr_of reqs cmd ≡ some k) ↔ ((k < length reqs) × (cmd ≡ get_or reqs k 0))
unfolding dispatch
dispatch_iff nr_of reqs cmd k h = (
  (λ e. (ground arith, taken e)),
  (λ p.
      let n : nr_of cmd ≡ k = ap nr_of p.1 ∙ numbered_at nr_of 0 k reqs h p.0 ∙ zero-add k in
      ground arith),
)
  where
    taken :
        (if leb (length reqs) (nr_of cmd) || not (cmd == get_or reqs (nr_of cmd) 0)
            then none
            else some (nr_of cmd))
          ≡ some k
        → cmd ≡ get_or reqs k 0
    taken e = ground arith
