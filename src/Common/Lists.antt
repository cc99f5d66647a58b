-- ===== src/Common/Lists.antt =====
-- Lists measured and indexed by native numbers, under the library's names.
use Prim.Native.Nat.{ℕ, zero, suc, ◌+◌}
use mathlib.Core.Path.{◌≡◌, refl, sym, subst}
use mathlib.Core.Logic.{◌⊎◌, inl, inr}
use mathlib.Core.Bool.{Bool, true, false, ◌&&◌, ◌||◌}
use mathlib.Core.List.{List, [], ◌∷◌, ◌++◌, Memᴰ}
use mathlib.Core.Option.{Option, none, some}
use native.Mathlib.Omega.{arith}
use wazuh_operator.Common.Tests.{if◌then◌else◌}

module _ {ℓ} {A : Type ℓ} where
  abbrev pub length : List A → ℕ
  length [] = 0
  length (x ∷ xs) = suc (length xs)

  abbrev pub get_elem? : List A → ℕ → Option A
  get_elem? [] i = none
  get_elem? (x ∷ xs) zero = some x
  get_elem? (x ∷ xs) (suc i) = get_elem? xs i

  pub length-append : (xs ys : List A) → length (xs ++ ys) ≡ length xs + length ys
  length-append [] ys = omega arith
  length-append (x ∷ xs) ys = omega (arith, length-append xs ys)

  -- The elements that pass a test, in their order.
  abbrev pub filter : (A → Bool) → List A → List A
  filter p [] = []
  filter p (x ∷ xs) = let rest = filter p xs in if p x then x ∷ rest else rest

  abbrev pub any : (A → Bool) → List A → Bool
  any p [] = false
  any p (x ∷ xs) = p x || any p xs

  abbrev pub all : (A → Bool) → List A → Bool
  all p [] = true
  all p (x ∷ xs) = p x && all p xs

module _ {ℓ κ} {A : Type ℓ} (P : A → Type κ) where
  abbrev pub All : List A → Type κ
  All [] = Unit
  All (x ∷ xs) = P x × All xs

module _ {ℓ} {A : Type ℓ} where
  mem-if :
      (p : A → Bool) (a x : A) (xs rest : List A) (b : Bool)
      → p x ≡ b
      → (Memᴰ a rest → Memᴰ a xs × (p a ≡ true))
      → Memᴰ a (if b then x ∷ rest else rest)
      → Memᴰ a (x ∷ xs) × (p a ≡ true)
  mem-if p a x xs rest true e ih (Memᴰ.head h) = (Memᴰ.head h, rw h e)
  mem-if p a x xs rest true e ih (Memᴰ.tail m) = let (m', t) = ih m in (Memᴰ.tail m', t)
  mem-if p a x xs rest false e ih m = let (m', t) = ih m in (Memᴰ.tail m', t)

  -- An element that a filter keeps is in the list and passes the test.
  pub mem-filter :
      (p : A → Bool) (a : A) (xs : List A) → Memᴰ a (filter p xs) → Memᴰ a xs × (p a ≡ true)
  mem-filter p a [] m = elim m [ ]
  mem-filter p a (x ∷ xs) m = mem-if p a x xs (filter p xs) (p x) refl (mem-filter p a xs) m

  pub all_of_mem {κ} : (P : A → Type κ) {a : A} (xs : List A) → All P xs → Memᴰ a xs → P a
  all_of_mem P [] h m = elim m [ ]
  all_of_mem P (x ∷ xs) (h, hs) (Memᴰ.head e) = subst P (sym e) h
  all_of_mem P (x ∷ xs) (h, hs) (Memᴰ.tail m) = all_of_mem P xs hs m

  pub List-cases : (xs : List A) → (xs ≡ []) ⊎ ((x : A) × (ys : List A) × (xs ≡ x ∷ ys))
  List-cases [] = inl refl
  List-cases (x ∷ ys) = inr (x, ys, refl)
