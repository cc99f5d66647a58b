-- ===== src/Common/Split.antt =====
-- Go's strings.Split, Join and TrimPrefix over byte strings.
use Prim.Native.Nat.{ℕ}
use mathlib.Core.Path.{◌≡◌}
use mathlib.Core.Logic.{◌≢◌}
use mathlib.Core.List.{List, [], ◌∷◌, ◌++◌, append_assoc, append-nil}
use mathlib.Core.Option.{none, some}
use native.Mathlib.Omega.{arith}
use wazuh_operator.Common.Tests.{◌==◌, if◌then◌else◌}
use wazuh_operator.Common.Lists.{All}
use wazuh_operator.Common.Text.{Bytes, strip_prefix}

-- `strings.Split` at a one-byte separator: never empty.
unfoldable pub split_from : ℕ → Bytes → Bytes → List Bytes
split_from sep cur [] = cur ∷ []
split_from sep cur (c ∷ s) =
    let parts = split_from sep [] s in
    let longer = split_from sep (cur ++ c ∷ []) s in if c == sep then cur ∷ parts else longer

unfoldable pub split : ℕ → Bytes → List Bytes
unfolding split_from
split sep s = split_from sep [] s

-- The last of the parts.
unfoldable pub last_or : Bytes → List Bytes → Bytes
last_or d [] = d
last_or d (p ∷ ps) = last_or p ps

-- `strings.TrimPrefix`.
unfoldable pub trim_prefix : Bytes → Bytes → Bytes
unfolding strip_prefix
trim_prefix p s = elim (strip_prefix p s) [ none ↦ s | some rest ↦ rest ]

-- `strings.Join`.
unfoldable pub join : Bytes → List Bytes → Bytes
join sep [] = []
join sep (p ∷ []) = p
join sep (p ∷ q ∷ ps) = p ++ (sep ++ join sep (q ∷ ps))

abbrev pub Lacks : ℕ → Bytes → Type 0
Lacks sep = All (λ c. c ≢ sep)

split_from_last : (sep : ℕ) (cur s : Bytes) → Lacks sep s → split_from sep cur s ≡ (cur ++ s) ∷ []
unfolding split_from
split_from_last sep cur [] h = rw append-nil
split_from_last sep cur (c ∷ s) (h, hs) =
    ground (arith, split_from_last sep (cur ++ c ∷ []) s hs, append_assoc cur (c ∷ []) s)

split_from_first :
    (sep : ℕ) (cur s t : Bytes)
    → Lacks sep s
    → split_from sep cur (s ++ sep ∷ t) ≡ (cur ++ s) ∷ split_from sep [] t
unfolding split_from
split_from_first sep cur [] t h = ground (arith, append-nil cur)
split_from_first sep cur (c ∷ s) t (h, hs) =
    ground (arith, split_from_first sep (cur ++ c ∷ []) s t hs, append_assoc cur (c ∷ []) s)

pub split-Lacks : (sep : ℕ) (s : Bytes) → Lacks sep s → split sep s ≡ s ∷ []
unfolding split
split-Lacks sep s h = split_from_last sep [] s h

pub split_first : (sep : ℕ) (s t : Bytes) → Lacks sep s → split sep (s ++ sep ∷ t) ≡ s ∷ split sep t
unfolding split
split_first sep s t h = split_from_first sep [] s t h
