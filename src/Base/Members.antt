-- ===== src/Base/Members.antt =====
-- Membership by recursion, and tables whose keys are distinct numbers.
use Prim.Native.Nat.{ℕ}
use mathlib.Core.Path.{◌≡◌, refl}
use mathlib.Core.Logic.{◌⊎◌, inl, inr, ◌↔◌}
use mathlib.Core.List.{List, [], ◌∷◌}
use mathlib.Core.Option.{none, some}
use native.Mathlib.Omega.{arith}
use openethercat.Base.Tests.{Bool-cases, ◌==◌}
use openethercat.Base.Maps.{find, put, nat_key, find-put}

abbrev pub Elem : {A : Type 0} → A → List A → Type 0
Elem a [] = ⊥
Elem a (x ∷ xs) = (x ≡ a) ⊎ Elem a xs

module _ {V : Type 0} where
  abbrev pub AreKeyed : List (ℕ × V) → Type 0
  AreKeyed [] = Unit
  AreKeyed ((k, v) ∷ m) = (find k m ≡ none) × AreKeyed m

  pub put-AreKeyed : (k : ℕ) (v : V) (m : List (ℕ × V)) → AreKeyed m → AreKeyed (put k v m)
  unfolding put find
  put-AreKeyed k v [] h = (refl, tt)
  put-AreKeyed k v ((j, w) ∷ m) h = ground (arith, put-AreKeyed k v m h.1, find-put k j v m)

  pub Elem-find :
      (k : ℕ) (v : V) (m : List (ℕ × V)) → AreKeyed m → Elem (k, v) m ↔ (find k m ≡ some v)
  unfolding find
  Elem-find k v [] h = (λ e. absurd e, λ e. cc)
  Elem-find k v ((j, w) ∷ m) h = (
    elim [ inl e ↦ ground (arith, e) | inr e ↦ ground (arith, (Elem-find k v m h.1).0 e, h.0) ],
    λ e. elim (Bool-cases (j == k)) [
      | inl same ↦ inl (ground (arith, same, e))
      | inr other ↦ inr ((Elem-find k v m h.1).1 (ground (arith, other, e)))
    ],
  )
