-- ===== src/Prelude/Dict.antt =====
-- A JavaScript `Map` keyed by strings: its entries in insertion order. Setting a key that is there keeps
-- its place. A `Set` of strings is the list of its members.
use mathlib.Core.Path.{◌≡◌, refl}
use mathlib.Core.Bool.{Bool, false, ◌||◌}
use mathlib.Core.Option.{Option, none, some}
use mathlib.Core.List.{List, [], ◌∷◌}
use native.Mathlib.Omega.{arith}
use ros_road_operating_syste.Prelude.Tests.{if◌then◌else◌}
use ros_road_operating_syste.Prelude.Text.{Text, text_eq, text_eq_iff, text_eq_refl}

module _ {V : Type 0} where
  unfoldable pub lookup : Text → List (Text × V) → Option V
  lookup k [] = none
  lookup k ((j, v) ∷ m) = if text_eq j k then some v else lookup k m

  unfoldable pub insert : Text → V → List (Text × V) → List (Text × V)
  insert k v [] = (k, v) ∷ []
  insert k v ((j, w) ∷ m) = if text_eq j k then (j, v) ∷ m else (j, w) ∷ insert k v m

  pub lookup-insert :
      (k j : Text) (v : V) (m : List (Text × V))
      → lookup j (insert k v m) ≡ (if text_eq k j then some v else lookup j m)
  unfolding lookup insert
  lookup-insert k j v [] = refl
  lookup-insert k j v ((i, w) ∷ m) =
      ground (arith, text_eq_iff k j, text_eq_iff i k, text_eq_iff i j, lookup-insert k j v m)

  pub lookup-insert_self :
      (k : Text) (v : V) (m : List (Text × V)) → lookup k (insert k v m) ≡ some v
  lookup-insert_self k v m = simp (lookup-insert, text_eq_refl)

unfoldable pub member : Text → List Text → Bool
member k [] = false
member k (j ∷ s) = text_eq j k || member k s

unfoldable pub remove : Text → List Text → List Text
remove k [] = []
remove k (j ∷ s) = let rest = remove k s in if text_eq j k then rest else j ∷ rest

pub member-remove :
    (k j : Text) (s : List Text)
    → member j (remove k s) ≡ (if text_eq k j then false else member j s)
unfolding member remove
member-remove k j [] = ground arith
member-remove k j (i ∷ s) =
    ground (arith, text_eq_iff k j, text_eq_iff i k, text_eq_iff i j, member-remove k j s)

pub remove_idempotent : (k : Text) (s : List Text) → remove k (remove k s) ≡ remove k s
unfolding remove
remove_idempotent k [] = refl
remove_idempotent k (j ∷ s) = ground (arith, remove_idempotent k s)

pub remove_of_not_member : (k : Text) (s : List Text) → member k s ≡ false → remove k s ≡ s
unfolding member remove
remove_of_not_member k [] h = refl
remove_of_not_member k (j ∷ s) h = ground (arith, remove_of_not_member k s)

-- A key that was added is removed again.
pub remove-cons : (k : Text) (s : List Text) → remove k (k ∷ s) ≡ remove k s
unfolding remove
remove-cons k s = rw (text_eq_refl k)
