-- ===== src/Pdm/CardFile/Queue.antt =====
-- What a read of the device file delivers.
use linux_drv.Prelude.{
  Bool, zero, true, false, Bool-cases, List, [], ap, append-nil, append_assoc, arith, drop, inl,
  inr, length, ltb, ltb→lt, map, not, pos, pos_part, refl, suc, sym, take, ℕ, ◌*◌, ◌++◌, ◌+ℤ◌, ◌+◌,
  ◌-◌, ◌<◌, ◌==◌, ◌∙◌, ◌∷◌, ◌≡◌, ◌≢◌, ◌≤◌, ◌⊎◌,
}
use native.Mathlib.Nat.{zero-add}
use linux_drv.Kernel.{Log, Os, copy_to_user, efault, lock, pdm_dev}
use linux_drv.Pdm.CardFile.ReadPoll.{ReadState, card_at, pdm_read, read_loop}
use linux_drv.Pdm.CardFile.State.{CardData, PdmDrv, card_data_size}

-- The log after `j` copies to the user.
abbrev pub copies : ℕ → Log → Log
copies zero l = l
copies (suc j) l = copies j (copy_to_user ∷ l)

-- The next copy leaves no bytes out: copy_to_user answers 0.
abbrev pub is_copied : Os → Log → Bool
is_copied os l = pos_part (os l copy_to_user) == 0

-- A loop over `is` that starts with the result `m` and has delivered `k` entries: they are the first
-- ones, in order; they were copied out and moved to the other list; the rest is left.
record Delivered (os : Os) (l : Log) (cs : List CardData) (n m : ℕ) (is : List ℕ) (r r' : ReadState)
    (k : ℕ) : Type 0 where
  fits : card_data_size * k ≤ n
  within : k ≤ length is
  rest : r'.left ≡ drop k is
  handed : r'.moved ≡ r.moved ++ take k is
  copied_out : r'.out ≡ r.out ++ map (card_at cs) (take k is)
  advanced : r'.off ≡ r.off + card_data_size * k
  result : (r'.ret ≡ pos (m + card_data_size * k)) ⊎ (r'.ret ≡ efault)
  complete : r'.ret ≢ efault → (k ≡ length is) ⊎ (n < card_data_size * k + card_data_size)
  all_copied : (j : ℕ) → j < k → is_copied os (copies j l) ≡ true
  not_copied : r'.ret ≡ efault → is_copied os (copies k l) ≡ false

stopped :
    (os : Os) (l : Log) (cs : List CardData) (n m : ℕ) (is : List ℕ) (r r' : ReadState)
    → r'.left ≡ is
    → r'.moved ≡ r.moved
    → r'.out ≡ r.out
    → r'.off ≡ r.off
    → (r'.ret ≡ pos m) ⊎ (r'.ret ≡ efault)
    → (r'.ret ≢ efault → (0 ≡ length is) ⊎ (n < card_data_size))
    → (r'.ret ≡ efault → is_copied os l ≡ false)
    → Delivered os l cs n m is r r' 0
stopped os l cs n m is r r' a b c d e f g = record {
  fits = omega arith;
  within = omega arith;
  rest = a;
  handed = b ∙ sym (append-nil r.moved);
  copied_out = c ∙ sym (append-nil r.out);
  advanced = omega (arith, d);
  result = ground arith;
  complete = f;
  all_copied = λ j lt. absurd (omega (arith, lt));
  not_copied = g;
}

-- One more entry was delivered in front.
copied_first :
    (os : Os) (l : Log) (k : ℕ)
    → is_copied os l ≡ true
    → ((j : ℕ) → j < k → is_copied os (copies j (copy_to_user ∷ l)) ≡ true)
    → (j : ℕ) → j < suc k
    → is_copied os (copies j l) ≡ true
copied_first os l k e h zero lt = e
copied_first os l k e h (suc j) lt = h j (omega (arith, lt))

one_more :
    (os : Os) (l : Log) (cs : List CardData) (n m i : ℕ) (is : List ℕ) (r x r' : ReadState) (k : ℕ)
    → card_data_size ≤ n
    → x.moved ≡ r.moved ++ (i ∷ [])
    → x.out ≡ r.out ++ (card_at cs i ∷ [])
    → x.off ≡ r.off + card_data_size
    → is_copied os l ≡ true
    → Delivered os (copy_to_user ∷ l) cs (n - card_data_size) (m + card_data_size) is x r' k
    → Delivered os l cs n m (i ∷ is) r r' (suc k)
one_more os l cs n m i is r x r' k room em eo ef fine h = record {
  fits = omega (arith, room, h.fits);
  within = omega (arith, h.within);
  rest = h.rest;
  handed = h.handed ∙ ap (λ y. y ++ take k is) em ∙ append_assoc r.moved (i ∷ []) (take k is);
  copied_out =
      h.copied_out
      ∙ ap (λ y. y ++ map (card_at cs) (take k is)) eo
      ∙ append_assoc r.out (card_at cs i ∷ []) (map (card_at cs) (take k is));
  advanced = omega (arith, ef, h.advanced);
  result = elim h.result [ inl e ↦ inl (e ∙ ap pos (omega arith)) | inr e ↦ inr e ];
  complete = λ ne. elim (h.complete ne) [
    | inl e ↦ inl (ap suc e)
    | inr lt ↦ inr (omega (arith, room, lt))
  ];
  all_copied = copied_first os l k fine h.all_copied;
  not_copied = h.not_copied;
}

not_efault : (m : ℕ) → pos m ≢ efault
not_efault m e = absurd (cc e)

add_pos : (m : ℕ) → pos m +ℤ pos card_data_size ≡ pos (m + card_data_size)
add_pos m = ground arith

read_loop_lem :
    (os : Os) (cs : List CardData) (n m : ℕ) (r : ReadState) (is : List ℕ) (l : Log)
    → r.left ≡ is
    → r.ret ≡ pos m
    → (k : ℕ) × Delivered os l cs n m is r (read_loop os cs n r is l).0 k
unfolding read_loop
read_loop_lem os cs n m r [] l left ret = (
  0,
  stopped os l cs n m [] r r left refl refl refl (inl ret) (λ _. inl refl)
      (λ e. absurd (not_efault m (sym ret ∙ e))),
)
read_loop_lem os cs n m r (i ∷ is) l left ret =
    let next : ReadState = record {
      ret = r.ret +ℤ pos card_data_size;
      left = is;
      moved = r.moved ++ (i ∷ []);
      out = r.out ++ (card_at cs i ∷ []);
      off = r.off + card_data_size;
    } in
    let fault = not (pos_part (os l copy_to_user) == 0) in
    elim (Bool-cases (ltb n card_data_size)) [
      | inl small ↦ rw small (
        0,
        stopped os l cs n m (i ∷ is) r r left refl refl refl (inl ret)
            (λ _. inr (ltb→lt n card_data_size small)) (λ e. absurd (not_efault m (sym ret ∙ e))),
      )
      | inr room ↦ elim (Bool-cases fault) [
        | inl bad ↦
            rw (room, bad)
              (
                0,
                stopped os l cs n m (i ∷ is) r (record r { ret = efault }) left refl refl refl
                    (inr refl) (λ ne. absurd (ne refl)) (λ _. ground (arith, bad)),
              )
        | inr fine ↦
            let rec =
              read_loop_lem os cs (n - card_data_size) (m + card_data_size) next is
                (copy_to_user ∷ l) refl (ap (λ z. z +ℤ pos card_data_size) ret ∙ add_pos m) in
            rw (room, fine)
              (
                suc rec.0,
                one_more os l cs n m i is r next
                    (read_loop os cs (n - card_data_size) next is (copy_to_user ∷ l)).0 rec.0
                    (ground (arith, room)) refl refl refl (ground (arith, fine)) rec.1,
              )
      ]
    ]

-- What a read leaves behind that delivered `k` entries.
pub record PrefixRead (os : Os) (n off : ℕ) (d : PdmDrv) (l : Log) (k : ℕ) : Type 0 where
  pub fits : card_data_size * k ≤ n
  pub within : k ≤ length d.hd_read
  pub state :
      (pdm_read os n off d l).1
      ≡ record d { hd_read = drop k d.hd_read; hd_data = d.hd_data ++ take k d.hd_read }
  pub copied_out : (pdm_read os n off d l).0.out ≡ map (card_at d.cards) (take k d.hd_read)
  pub advanced : (pdm_read os n off d l).0.off ≡ off + card_data_size * k
  pub result :
      ((pdm_read os n off d l).0.ret ≡ pos (card_data_size * k))
      ⊎ ((pdm_read os n off d l).0.ret ≡ efault)
  pub complete :
      (pdm_read os n off d l).0.ret ≢ efault
      → (k ≡ length d.hd_read) ⊎ (n < card_data_size * k + card_data_size)
  pub all_copied : (j : ℕ) → j < k → is_copied os (copies j (lock pdm_dev ∷ l)) ≡ true
  pub not_copied :
      (pdm_read os n off d l).0.ret ≡ efault → is_copied os (copies k (lock pdm_dev ∷ l)) ≡ false

-- pdm_drv_read delivers the first waiting entries in order, some number k of them, 8 bytes each: they
-- are copied out, they move from hd_read to the end of hd_data, and the offset advances by 8 * k. Each
-- of their k copies succeeded. The result is 8 * k or -EFAULT: -EFAULT only where the copy of the entry
-- behind them failed; without a fault it stops only at the end of the list or where the buffer has no
-- room for another entry.
pub pdm_read_lem :
    (os : Os) (n off : ℕ) (d : PdmDrv) (l : Log) → (k : ℕ) × PrefixRead os n off d l k
unfolding pdm_read
pdm_read_lem os n off d l =
    let start : ReadState = record {
      ret = pos 0;
      left = d.hd_read;
      moved = d.hd_data;
      out = [];
      off = off;
    } in
    let h = read_loop_lem os d.cards n 0 start d.hd_read (lock pdm_dev ∷ l) refl refl in
    let q = h.1 in
    (
      h.0,
      record {
        fits = q.fits;
        within = q.within;
        state =
            ap (λ a. record d { hd_read = a; hd_data = (pdm_read os n off d l).0.moved }) q.rest
            ∙ ap (λ b. record d { hd_read = drop h.0 d.hd_read; hd_data = b }) q.handed;
        copied_out = q.copied_out;
        advanced = q.advanced;
        result = elim q.result [
          | inl e ↦ inl (e ∙ ap pos (zero-add (card_data_size * h.0)))
          | inr e ↦ inr e
        ];
        complete = q.complete;
        all_copied = q.all_copied;
        not_copied = q.not_copied;
      },
    )
