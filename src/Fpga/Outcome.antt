-- ===== src/Fpga/Outcome.antt =====
-- What a download does to the chip, and what its answer says.
use linux_drv.Prelude.{
  Bool, Bool-cases, List, [], append-nil, append_assoc, arith, false, if◌then◌else◌, inl, inr,
  negsuc, not, pos, refl, suc, sym, true, zero, ℕ, ℤ, ◌++◌, ◌+◌, ◌*◌, ◌<◌, ◌==◌, ◌∙◌, ◌∷◌, ◌≡◌, ◌⊎◌,
  ◌≤◌,
}
use linux_drv.Fpga.Loader.{
  Chip, Step, assign, after_clear, clk_en, download, get_done, load, max_polls, send, sent, sleep,
  wait_done,
}

-- The bytes that were written to the loader's register, oldest first, and the state of its clock.
abbrev pub loaded : List Step → List ℕ
loaded [] = []
loaded (load b ∷ l) = loaded l ++ (b ∷ [])
loaded (_ ∷ l) = loaded l

abbrev pub clocked : List Step → Bool
clocked [] = false
clocked (assign clk_en v ∷ l) = not (v == 0)
clocked (_ ∷ l) = clocked l

-- The microseconds of all delays.
abbrev pub slept : List Step → ℕ
slept [] = 0
slept (sleep n ∷ l) = n + slept l
slept (_ ∷ l) = slept l

-- Every byte was written with the clock enabled.
abbrev pub IsClocked : List Step → Type 0
IsClocked [] = Unit
IsClocked (load b ∷ l) = (clocked l ≡ true) × IsClocked l
IsClocked (_ ∷ l) = IsClocked l

-- The bytes of a buffer.
abbrev pub bytes : (ℕ → ℕ) → ℕ → ℕ → List ℕ
bytes buf k zero = []
bytes buf k (suc n) = buf k ∷ bytes buf (suc k) n

send_lem :
    (buf : ℕ → ℕ) (k n : ℕ) (l : List Step)
    → clocked l ≡ true
    → IsClocked l
    → let l' = send buf k n l in
      (loaded l' ≡ loaded l ++ bytes buf k n) × (slept l' ≡ slept l) × IsClocked l'
unfolding send
send_lem buf k zero l on h = (sym (append-nil (loaded l)), refl, h)
send_lem buf k (suc n) l on h =
    let (bs, t, all) = send_lem buf (suc k) n (load (buf k) ∷ l) on (on, h) in
    (bs ∙ append_assoc (loaded l) (buf k ∷ []) (bytes buf (suc k) n), t, all)

-- The steps after `j` readings in vain.
abbrev pub tries : ℕ → List Step → List Step
tries zero l = l
tries (suc j) l = tries j (sleep 10000 ∷ get_done ∷ l)

-- The answer of `k` readings: one of them was true, or none.
abbrev pub Answers : Chip → ℕ → List Step → Bool → Type 0
Answers c k l true = (j : ℕ) × (j < k) × (c (tries j l) ≡ true)
Answers c k l false = (j : ℕ) → j < k → c (tries j l) ≡ false

none_later :
    (c : Chip) (k : ℕ) (l : List Step)
    → c l ≡ false
    → Answers c k (sleep 10000 ∷ get_done ∷ l) false
    → (j : ℕ) → j < suc k
    → c (tries j l) ≡ false
none_later c k l e h zero lt = e
none_later c k l e h (suc j) lt = h j (omega (arith, lt))

Answers-later :
    (c : Chip) (k : ℕ) (l : List Step) (b : Bool)
    → c l ≡ false
    → Answers c k (sleep 10000 ∷ get_done ∷ l) b
    → Answers c (suc k) l b
Answers-later c k l true e (j, lt, d) = (suc j, omega (arith, lt), d)
Answers-later c k l false e h = none_later c k l e h

wait_done_lem :
    (c : Chip) (k : ℕ) (l : List Step)
    → let (done, l') = wait_done c k l in
      Answers c k l done
      × (loaded l' ≡ loaded l)
      × (clocked l' ≡ clocked l)
      × (slept l' ≤ slept l + k * 10000)
      × (IsClocked l → IsClocked l')
unfolding wait_done
wait_done_lem c zero l = ((λ j lt. absurd (omega arith)), refl, refl, omega arith, λ h. h)
wait_done_lem c (suc k) l =
    let l1 = sleep 10000 ∷ get_done ∷ l in
    let (ans, bs, on, t, all) = wait_done_lem c k l1 in
    elim (Bool-cases (c l)) [
      | inl hit ↦ rw hit ((zero, omega arith, hit), refl, refl, omega arith, λ h. h)
      | inr miss ↦
          rw miss (Answers-later c k l (wait_done c k l1).0 miss ans, bs, on, omega (arith, t), all)
    ]

-- The answer is 0 or -1 by what the readings gave.
abbrev pub Judges : Chip → ℕ → List Step → ℤ → Type 0
Judges c k l r = ((r ≡ pos 0) × Answers c k l true) ⊎ ((r ≡ negsuc 0) × Answers c k l false)

judged :
    (c : Chip) (k : ℕ) (l : List Step) (b : Bool)
    → Answers c k l b
    → Judges c k l (if b then pos 0 else negsuc 0)
judged c k l true h = inl (refl, h)
judged c k l false h = inr (refl, h)

-- What a download comes to: the chip says after clearing that it is done, or all bytes are sent.
abbrev pub Downloads : Chip → (ℕ → ℕ) → ℕ → List Step → ℤ × List Step → Type 0
Downloads c buf n l (r, l') =
    ((c (after_clear l) ≡ true) × (r ≡ negsuc 0) × (loaded l' ≡ loaded l))
    ⊎ ((c (after_clear l) ≡ false)
        × (loaded l' ≡ loaded l ++ bytes buf 0 n)
        × (clocked l' ≡ false)
        × Judges c max_polls (sent buf n (after_clear l)) r)

-- A download of n bytes, behind steps in which every byte was written with the clock enabled.
-- Either FPGA_DONE reads 1 behind the clearing: the answer is -1 and nothing is written. Or the
-- loader gets the n bytes of the buffer and no others, in their order; the clock is disabled at
-- the end; the answer is 0 where one of the 500 readings, 10 ms apart, gives 1, and -1 where
-- none does. Every byte is written with the clock enabled, and all delays together take at most
-- 5.03 s.
pub download_lem :
    (c : Chip) (buf : ℕ → ℕ) (n : ℕ) (l : List Step)
    → IsClocked l
    → let (r, l') = download c buf n l in
      Downloads c buf n l (r, l') × IsClocked l' × (slept l' ≤ slept l + 5030000)
unfolding download after_clear sent
download_lem c buf n l h =
    let l1 = after_clear l in
    let (bs, t, all) = send_lem buf 0 n (assign clk_en 1 ∷ get_done ∷ l1) refl h in
    let (ans, same, on, longer, still) = wait_done_lem c max_polls (sent buf n l1) in
    let (done, l2) = wait_done c max_polls (sent buf n l1) in
    elim (Bool-cases (c l1)) [
      | inl e ↦ rw e (inl (refl, refl, refl), h, omega arith)
      | inr e ↦ rw e (
        inr (refl, same ∙ bs, on, judged c max_polls (sent buf n l1) done ans),
        still all,
        omega (arith, longer, t),
      )
    ]
