-- ===== src/DesignSync/Encoding.antt =====
-- A text for each JSON value, two values never the same: what the tests take for `JSON.stringify`.
use couch_companion_ui.Prelude.{◌≡◌, suc, true, false, [], ◌∷◌, Text, arith}
use couch_companion_ui.DesignSync.{
  Json, null, bool, number, string, array, object, Items, no_items, item, Fields, no_fields, field,
}

abbrev write_text : Text → Text → Text
write_text [] rest = 0 ∷ rest
write_text (c ∷ s) rest = suc c ∷ write_text s rest

abbrev mutual
  write_json : Json → Text → Text
  write_json null rest = 0 ∷ rest
  write_json (bool true) rest = 1 ∷ rest
  write_json (bool false) rest = 2 ∷ rest
  write_json (number n) rest = 3 ∷ write_text n rest
  write_json (string s) rest = 4 ∷ write_text s rest
  write_json (array vs) rest = 5 ∷ write_items vs rest
  write_json (object fs) rest = 6 ∷ write_fields fs rest

  write_items : Items → Text → Text
  write_items no_items rest = 0 ∷ rest
  write_items (item v vs) rest = 1 ∷ write_json v (write_items vs rest)

  write_fields : Fields → Text → Text
  write_fields no_fields rest = 0 ∷ rest
  write_fields (field k v fs) rest = 1 ∷ write_text k (write_json v (write_fields fs rest))

write_text_injective : (s t r u : Text) → write_text s r ≡ write_text t u → (s ≡ t) × (r ≡ u)
write_text_injective [] [] r u h = ground arith
write_text_injective [] (d ∷ t) r u h = ground arith
write_text_injective (c ∷ s) [] r u h = ground arith
write_text_injective (c ∷ s) (d ∷ t) r u h = ground (arith, write_text_injective s t r u)

mutual
  write_json_injective :
      (v w : Json) (r u : Text) → write_json v r ≡ write_json w u → (v ≡ w) × (r ≡ u)
  write_json_injective null null r u h = ground arith
  write_json_injective (bool true) (bool true) r u h = ground arith
  write_json_injective (bool false) (bool false) r u h = ground arith
  write_json_injective (number n) (number m) r u h = ground (arith, write_text_injective n m r u)
  write_json_injective (string n) (string m) r u h = ground (arith, write_text_injective n m r u)
  write_json_injective (array vs) (array ws) r u h = ground (arith, write_items_injective vs ws r u)
  write_json_injective (object fs) (object gs) r u h =
      ground (arith, write_fields_injective fs gs r u)
  write_json_injective _ _ r u h = ground arith

  write_items_injective :
      (vs ws : Items) (r u : Text) → write_items vs r ≡ write_items ws u → (vs ≡ ws) × (r ≡ u)
  write_items_injective no_items no_items r u h = ground arith
  write_items_injective (item v vs) (item w ws) r u h = ground (
    arith,
    write_json_injective v w (write_items vs r) (write_items ws u),
    write_items_injective vs ws r u,
  )
  write_items_injective _ _ r u h = ground arith

  write_fields_injective :
      (fs gs : Fields) (r u : Text) → write_fields fs r ≡ write_fields gs u → (fs ≡ gs) × (r ≡ u)
  write_fields_injective no_fields no_fields r u h = ground arith
  write_fields_injective (field k v fs) (field l w gs) r u h = ground (
    arith,
    write_text_injective k l (write_json v (write_fields fs r)) (write_json w (write_fields gs u)),
    write_json_injective v w (write_fields fs r) (write_fields gs u),
    write_fields_injective fs gs r u,
  )
  write_fields_injective _ _ r u h = ground arith

abbrev pub write : Json → Text
write v = write_json v []

pub write_injective : (v w : Json) → write v ≡ write w → v ≡ w
write_injective v w h = (write_json_injective v w [] [] h).0
