-- ===== src/Examples/Catalogs.antt =====
-- Tests of the catalog bridge: two models, a page for each.
use thought_khoral_room_gate.Prelude.{
  ℕ, ◌≡◌, refl, arith, String, Option, none, some, List, [], ◌∷◌, ok,
}
use thought_khoral_room_gate.Json.{
  Value, null, string, object, json, json_array, Fields, fields_of, value_eq,
}
use thought_khoral_room_gate.CatalogBridge.Fetch.{Answer, fetch}
use thought_khoral_room_gate.CatalogBridge.Cursors.{Held, Bridge}
use thought_khoral_room_gate.CatalogBridge.Pages.{follow, pages_give_catalog}
use thought_khoral_room_gate.Examples.Conversations.{crates}

abbrev two_models : List Value
two_models = json (("id", string "m1") ∷ []) ∷ (json (("id", string "m2") ∷ []) ∷ [])

abbrev catalog : Fields
catalog = fields_of (("data", json_array two_models) ∷ (("nextCursor", null) ∷ []))

abbrev parse : List ℕ → Option Value
parse bytes = some (object catalog)

abbrev any_key : List (String × Held) → Option String
any_key [] = none
any_key (entry ∷ entries) = some entry.0

abbrev answers : ℕ → Option Answer
answers i = some (record { status = 200; content_length = none; chunks = some (1 ∷ []) ∷ [] })

abbrev empty_bridge : Bridge
empty_bridge = record { cursors = []; drawn = 0 }

fetched : fetch crates parse (answers 0) ≡ ok (object catalog)
unfolding fetch value_eq
fetched = refl

pages_give_catalog_example :
    follow crates parse any_key 3 1 answers none empty_bridge ≡ some two_models
pages_give_catalog_example =
    pages_give_catalog crates parse any_key catalog two_models 1 answers empty_bridge (omega arith)
      (omega arith) (λ i. fetched) refl
