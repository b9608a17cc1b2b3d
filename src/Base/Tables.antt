-- ===== src/Base/Tables.antt =====
-- A `dict` with texts for keys, as the list of its entries.
use Prim.Native.String.{String}
use mathlib.Core.Path.{◌≡◌, refl, ap, ◌∙◌}
use mathlib.Core.Logic.{inl, inr}
use mathlib.Core.Bool.{false}
use mathlib.Core.Option.{Option, none, some}
use mathlib.Core.List.{List, [], ◌∷◌}
use text.Mathlib.Text.{◌==◌}
use text.Mathlib.TextEquality.{eq_iff}
use text.Mathlib.TextPositions.{eq_refl}
use gita.Base.Tests.{if◌then◌else◌, Bool-cases}

module _ {ℓ} {A : Type ℓ} where
  -- `d.get(k)`
  unfoldable pub lookup : String → List (String × A) → Option A
  lookup k [] = none
  lookup k ((j, v) ∷ d) = if j == k then some v else lookup k d

  -- `d[k] = v`
  unfoldable pub insert : String → A → List (String × A) → List (String × A)
  insert k v [] = (k, v) ∷ []
  insert k v ((j, u) ∷ d) = if j == k then (k, v) ∷ d else (j, u) ∷ insert k v d

  pub lookup-insert :
      (k : String) (v : A) (d : List (String × A)) → lookup k (insert k v d) ≡ some v
  unfolding lookup insert
  lookup-insert k v [] = rw (eq_refl k) refl
  lookup-insert k v ((j, u) ∷ d) = elim (Bool-cases (j == k)) [
    | inl same ↦ rw (same, eq_refl k) refl
    | inr other ↦ rw (other, other) (lookup-insert k v d)
  ]

  pub lookup-insert_other :
      (k l : String) (v : A) (d : List (String × A))
      → (k == l) ≡ false
      → lookup l (insert k v d) ≡ lookup l d
  unfolding lookup insert
  lookup-insert_other k l v [] h = rw h refl
  lookup-insert_other k l v ((j, u) ∷ d) h = elim (Bool-cases (j == k)) [
    | inl same ↦ rw (same, h, ap (λ u. u == l) ((eq_iff _ _).0 same) ∙ h) refl
    | inr other ↦ elim (Bool-cases (j == l)) [
      | inl e ↦ rw (other, e) refl
      | inr e ↦ rw (other, e) (lookup-insert_other k l v d h)
    ]
  ]
