-- ===== src/Contact/Runtime/Order.antt =====
-- The order in which the claims of contact-orchestration-postgres.ts take rows: an insertion sort, and the order of
-- texts by their units.
use ros_road_operating_syste.Prelude.{
  Bool, true, false, ◌&&◌, ◌||◌, ltb, ◌==◌, List, [], ◌∷◌, if◌then◌else◌,
}
use ros_road_operating_syste.Prelude.Text.{Text}

insert_by : {A : Type 0} → (A → A → Bool) → A → List A → List A
insert_by before a [] = a ∷ []
insert_by before a (b ∷ rest) =
    let later : List _ = insert_by before a rest in if before b a then b ∷ later else a ∷ b ∷ rest

unfoldable pub sort_by : {A : Type 0} → (A → A → Bool) → List A → List A
unfolding insert_by
sort_by before [] = []
sort_by before (a ∷ rest) = insert_by before a (sort_by before rest)

unfoldable pub before_text : Text → Text → Bool
before_text [] [] = false
before_text [] (b ∷ t) = true
before_text (a ∷ s) [] = false
before_text (a ∷ s) (b ∷ t) = ltb a b || a == b && before_text s t
