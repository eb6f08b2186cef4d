-- ===== src/Fpga/Loader.antt =====
-- `udf_download_fpga_imp`. A step is a write of a register of the CPLD, the reading of its bit
-- FPGA_DONE, or a delay; the steps so far stand newest first.
use linux_drv.Prelude.{Bool, List, false, if◌then◌else◌, negsuc, pos, suc, true, zero, ℕ, ℤ, ◌∷◌}

-- The registers that have one bit of use, by the bit's name.
pub data Register : Type 0 where
  prog_h prog_l clk_en : Register

pub data Step : Type 0 where
  assign : Register → ℕ → Step
  load : ℕ → Step
  get_done : Step
  sleep : ℕ → Step

-- What the bit FPGA_DONE is after some steps.
abbrev pub Chip : Type 0
Chip = List Step → Bool

-- The data: `n` bytes of the buffer, from index `k` on.
unfoldable pub send : (ℕ → ℕ) → ℕ → ℕ → List Step → List Step
send buf k zero l = l
send buf k (suc n) l = send buf (suc k) n (load (buf k) ∷ l)

-- At most `k` readings of FPGA_DONE.
unfoldable pub wait_done : Chip → ℕ → List Step → Bool × List Step
wait_done c zero l = (false, l)
wait_done c (suc k) l =
    let rest = wait_done c k (sleep 10000 ∷ get_done ∷ l) in
    if c l then (true, get_done ∷ l) else rest

abbrev pub max_polls : ℕ
max_polls = 500

-- The steps before the first reading, and those from there on, up to the disabled clock.
unfoldable pub after_clear : List Step → List Step
after_clear l =
    sleep 10000
    ∷ assign prog_l 0
    ∷ assign prog_h 1
    ∷ sleep 20000
    ∷ assign prog_l 1
    ∷ assign prog_h 0
    ∷ l

unfoldable pub sent : (ℕ → ℕ) → ℕ → List Step → List Step
sent buf n l = assign clk_en 0 ∷ send buf 0 n (assign clk_en 1 ∷ get_done ∷ l)

unfoldable pub download : Chip → (ℕ → ℕ) → ℕ → List Step → ℤ × List Step
download c buf n l =
    let l1 = after_clear l in
    let (done, l2) = wait_done c max_polls (sent buf n l1) in
    if c l1 then (negsuc 0, get_done ∷ l1) else (if done then pos 0 else negsuc 0, l2)
