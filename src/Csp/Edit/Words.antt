-- ===== src/Csp/Edit/Words.antt =====
-- src/services/csp-policy.ts: the words of a directive after an edit.
use couch_companion_ui.Prelude.{
  ◌≡◌, refl, ap, sym, ◌∙◌, false, List, [], ◌∷◌, ◌++◌, map, Text, nat_eq, text_eq, is_nil, contains,
  add, lower, All, Bool-cases, inl, inr,
}
use couch_companion_ui.Csp.{split_space, first_of, rest_of, make_directive}
use couch_companion_ui.Csp.Edit.{join_spaced, add_values, add_to}
use couch_companion_ui.Csp.Values.{
  IsWord, IsBody, word-IsBody, IsBody-append, is_nil-split_space, split_space-append,
  split_space-append_word, split_space-spaceless, starts-leading,
}

-- The values, and behind them each origin that is not there yet, once.
abbrev pub add_all : List Text → List Text → List Text
add_all [] values = values
add_all (origin ∷ origins) values = add_all origins (add origin values)

abbrev pub values_in : Text → List Text
values_in raw = rest_of (split_space raw)

-- What the loop over the origins makes of the directive's text `raw`.
abbrev pub HasWords : Text → Text → List Text → Type 0
HasWords raw name values = IsBody raw × (split_space raw ≡ name ∷ values)

pub add_values-HasWords :
    (origins values : List Text) (raw name : Text)
    → HasWords raw name values
    → All IsWord origins
    → HasWords (add_values origins values raw) name (add_all origins values)
add_values-HasWords [] values raw name h k = h
add_values-HasWords (origin ∷ origins) values raw name (b, e) (w, k) =
    elim (Bool-cases (contains origin values)) [
      | inl h ↦ rw h (add_values-HasWords origins values raw name (b, e) k)
      | inr h ↦ rw h (
          add_values-HasWords origins (values ++ origin ∷ []) (raw ++ b' ' ∷ origin) name
            (
              IsBody-append raw origin b (word-IsBody origin w),
              split_space-append_word raw origin b w ∙ ap (λ ps. ps ++ origin ∷ []) e,
            )
            k)
    ]

first-rest : (ps : List Text) → is_nil ps ≡ false → ps ≡ first_of ps ∷ rest_of ps
first-rest [] h = cc
first-rest (p ∷ ps) h = refl

pub words_of : (raw : Text) → IsBody raw → HasWords raw (first_of (split_space raw)) (values_in raw)
words_of raw b = (b, first-rest (split_space raw) (is_nil-split_space raw))

pub join_spaced-HasWords :
    (w : Text) (ws : List Text) → IsWord w → All IsWord ws → HasWords (join_spaced (w ∷ ws)) w ws
join_spaced-HasWords w [] h k = (word-IsBody w h, split_space-spaceless w h.1)
join_spaced-HasWords w (u ∷ ws) h (g, k) =
    let (b, e) = join_spaced-HasWords u ws g k in
    let body = word-IsBody w h in
    (
      IsBody-append w (join_spaced (u ∷ ws)) body b,
      split_space-append w (join_spaced (u ∷ ws)) body.2 (starts-leading (join_spaced (u ∷ ws)) b.1)
            h.0
          ∙ ap (λ ps. ps ++ split_space (join_spaced (u ∷ ws))) (split_space-spaceless w h.1)
          ∙ ap (λ ps. w ∷ ps) e,
    )

-- The edited directive is one as the parser makes it.
pub add_to-make :
    (origins : List Text) (raw sep : Text)
    → IsBody raw
    → All IsWord origins
    → add_to origins (make_directive raw sep)
      ≡ make_directive (add_values origins (values_in raw) raw) sep
unfolding make_directive
add_to-make origins raw sep b k =
    ap
      (λ n. record {
        name = map lower n;
        name_raw = n;
        raw = add_values origins (values_in raw) raw;
        sep = sep;
      })
      (sym (ap first_of (add_values-HasWords origins (values_in raw) raw _ (words_of raw b) k).1))
