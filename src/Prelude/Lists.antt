-- ===== src/Prelude/Lists.antt =====
-- C arrays as lists with native indices, under the library's names.
use Prim.Native.Nat.{ℕ, zero, suc, ◌+◌, ◌<◌}
use mathlib.Core.Path.{◌≡◌, refl, ap, subst}
use mathlib.Core.Logic.{◌≢◌}
use mathlib.Core.List.{List, [], ◌∷◌, ◌++◌}
use mathlib.Core.Option.{Option, none, some}
use native.Mathlib.Omega.{arith}

module _ {ℓ} {A : Type ℓ} where
  abbrev pub length : List A → ℕ
  length [] = 0
  length (x ∷ xs) = suc (length xs)

  abbrev pub get_elem? : List A → ℕ → Option A
  get_elem? [] i = none
  get_elem? (x ∷ xs) zero = some x
  get_elem? (x ∷ xs) (suc i) = get_elem? xs i

  abbrev pub get_or : List A → ℕ → A → A
  get_or [] i d = d
  get_or (x ∷ xs) zero d = x
  get_or (x ∷ xs) (suc i) d = get_or xs i d

  -- A write out of bounds changes nothing.
  abbrev pub set : List A → ℕ → A → List A
  set [] i v = []
  set (x ∷ xs) zero v = v ∷ xs
  set (x ∷ xs) (suc i) v = x ∷ set xs i v

  abbrev pub take : ℕ → List A → List A
  take zero xs = []
  take (suc n) [] = []
  take (suc n) (x ∷ xs) = x ∷ take n xs

  abbrev pub drop : ℕ → List A → List A
  drop zero xs = xs
  drop (suc n) [] = []
  drop (suc n) (x ∷ xs) = drop n xs

  abbrev pub replicate : ℕ → A → List A
  replicate zero a = []
  replicate (suc n) a = a ∷ replicate n a

module _ {ℓ} {A : Type ℓ} where
  pub length-append : (xs ys : List A) → length (xs ++ ys) ≡ length xs + length ys
  length-append [] ys = omega arith
  length-append (x ∷ xs) ys = omega (arith, length-append xs ys)

  pub length-set : (xs : List A) (i : ℕ) (v : A) → length (set xs i v) ≡ length xs
  length-set [] i v = refl
  length-set (x ∷ xs) zero v = refl
  length-set (x ∷ xs) (suc i) v = ap suc (length-set xs i v)

  pub get_or-set_self :
      (xs : List A) (i : ℕ) (v d : A) → i < length xs → get_or (set xs i v) i d ≡ v
  get_or-set_self [] i v d h = absurd (omega arith)
  get_or-set_self (x ∷ xs) zero v d h = refl
  get_or-set_self (x ∷ xs) (suc i) v d h = get_or-set_self xs i v d (omega arith)

  pub get_or-set_ne :
      (xs : List A) (i j : ℕ) (v d : A) → i ≢ j → get_or (set xs i v) j d ≡ get_or xs j d
  get_or-set_ne [] i j v d h = refl
  get_or-set_ne (x ∷ xs) zero zero v d h = absurd (h refl)
  get_or-set_ne (x ∷ xs) zero (suc j) v d h = refl
  get_or-set_ne (x ∷ xs) (suc i) zero v d h = refl
  get_or-set_ne (x ∷ xs) (suc i) (suc j) v d h = get_or-set_ne xs i j v d (λ e. h (ap suc e))

  pub set-set : (xs : List A) (i : ℕ) (v w : A) → set (set xs i v) i w ≡ set xs i w
  set-set [] i v w = refl
  set-set (x ∷ xs) zero v w = refl
  set-set (x ∷ xs) (suc i) v w = ap (λ t. x ∷ t) (set-set xs i v w)

  pub set-get_or : (xs : List A) (i : ℕ) (d : A) → set xs i (get_or xs i d) ≡ xs
  set-get_or [] i d = refl
  set-get_or (x ∷ xs) zero d = refl
  set-get_or (x ∷ xs) (suc i) d = ap (λ t. x ∷ t) (set-get_or xs i d)

-- `P` holds of each entry with its index, the first index being `k`.
abbrev pub AllFrom {ℓ κ} : {A : Type ℓ} → (ℕ → A → Type κ) → ℕ → List A → Type κ
AllFrom P k [] = Unit
AllFrom P k (x ∷ xs) = P k x × AllFrom P (suc k) xs

module _ {ℓ κ} {A : Type ℓ} (P : ℕ → A → Type κ) where
  pub AllFrom-set :
      (k i : ℕ) (xs : List A) (v : A) → AllFrom P k xs → P (k + i) v → AllFrom P k (set xs i v)
  AllFrom-set k i [] v h p = h
  AllFrom-set k zero (x ∷ xs) v h p = (subst (λ n. P n v) (omega arith) p, h.1)
  AllFrom-set k (suc i) (x ∷ xs) v h p =
      (h.0, AllFrom-set (suc k) i xs v h.1 (subst (λ n. P n v) (omega arith) p))

  pub AllFrom-get_or :
      (k i : ℕ) (xs : List A) (d : A) → AllFrom P k xs → i < length xs → P (k + i) (get_or xs i d)
  AllFrom-get_or k i [] d h lt = absurd (omega arith)
  AllFrom-get_or k zero (x ∷ xs) d h lt = subst (λ n. P n x) (omega arith) h.0
  AllFrom-get_or k (suc i) (x ∷ xs) d h lt =
      subst (λ n. P n (get_or xs i d)) (omega arith)
        (AllFrom-get_or (suc k) i xs d h.1 (omega arith))
