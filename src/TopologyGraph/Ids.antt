-- ===== src/TopologyGraph/Ids.antt =====
-- The ids of the graph's nodes tell the nodes apart.
use couch_companion_ui.Prelude.{
  ℕ, false, [], ◌∷◌, ◌++◌, Text, codes, contains, nat_eq, text_eq, ◌≡◌, ◌≢◌, refl, arith,
  contains-append, ap, sym, ◌∙◌, strip_prefix?, strip_prefix?-append, some, text_ltb_asymm,
  text_ltb_total,
}
use couch_companion_ui.TopologyGraph.{server_node_id, database_node_id, sorted_pair}

abbrev pub first_unit : Text → ℕ
first_unit [] = 0
first_unit (c ∷ s) = c

append_cancel : (p : Text) {s t : Text} → p ++ s ≡ p ++ t → s ≡ t
append_cancel p {s} {t} e =
    let same : some s ≡ some t =
      sym (strip_prefix?-append p s) ∙ ap (strip_prefix? p) e ∙ strip_prefix?-append p t in
    cc

-- A text splits at its last colon in one way.
last_colon :
    (s t a b : Text)
    → contains b':' a ≡ false
    → contains b':' b ≡ false
    → s ++ b':' ∷ a ≡ t ++ b':' ∷ b
    → (s ≡ t) × (a ≡ b)
last_colon [] [] a b h k e = (refl, cc)
last_colon [] (d ∷ t) a b h k e = absurd (ground (arith, contains-append b':' t (b':' ∷ b)))
last_colon (c ∷ s) [] a b h k e = absurd (ground (arith, contains-append b':' s (b':' ∷ a)))
last_colon (c ∷ s) (d ∷ t) a b h k e =
    let rest : s ++ b':' ∷ a ≡ t ++ b':' ∷ b = cc in
    let (same, tail) = last_colon s t a b h k rest in (cc, tail)

module _ (encode : Text → Text) (encode_injective : (a b : Text) → encode a ≡ encode b → a ≡ b)
    (encode_no_colon : (a : Text) → contains b':' (encode a) ≡ false) where
  -- Where the encoding of a database name is reversible and holds no colon, two nodes have the same id
  -- only where they are the same: server ids are one to one, the id of a database determines both its
  -- server and its name, and no database has the id of a server.
  pub node_ids_injective :
      ((s t : Text) → server_node_id s ≡ server_node_id t → s ≡ t)
      × ((s t a b : Text)
          → database_node_id encode s a ≡ database_node_id encode t b
          → (s ≡ t) × (a ≡ b))
      × ((s t a : Text) → server_node_id s ≢ database_node_id encode t a)
  unfolding server_node_id database_node_id
  node_ids_injective = (
    λ s t e. append_cancel (codes "server:") e,
    λ s t a b e.
        let (same, codes_same) =
          last_colon s t (encode a) (encode b) (encode_no_colon a) (encode_no_colon b)
            (append_cancel (codes "db:") e) in
        (same, encode_injective a b codes_same),
    λ s t a e. absurd (omega (arith, ap first_unit e)),
  )

-- The key of an edge does not depend on its orientation, and determines the two ids up to it.
pub sorted_pair_comm : (a b : Text) → sorted_pair a b ≡ sorted_pair b a
unfolding sorted_pair
sorted_pair_comm a b = ground (arith, text_ltb_asymm a b, text_ltb_asymm b a, text_ltb_total a b)
