-- ===== src/Csp/Edit/Sources.antt =====
-- src/services/csp-policy.ts: the directives that an edit leaves, each by its name and text.
use couch_companion_ui.Prelude.{
  ◌≡◌, refl, ap, ◌∙◌, true, false, ◌||◌, Option, none, some, List, [], ◌∷◌, Text, if◌then◌else◌,
  if_rule, ◌===◌, nat_eq, text_eq, is_nil, contains, is_space, All, all, Bool-cases, inl, inr,
  arith,
}
use couch_companion_ui.Csp.{CspDirective, make_directive, find_directive}
use couch_companion_ui.Csp.Scan.{is_gap}
use couch_companion_ui.Csp.Reparse.{IsDirective, AreDirectives}
use couch_companion_ui.Csp.Values.{IsWord, IsBody}
use couch_companion_ui.Csp.Edit.{append_behind, separator_style, edit_first, add_values, add_to}
use couch_companion_ui.Csp.Edit.Words.{values_in, add_to-make, add_values-HasWords, words_of}

-- The text of the first directive with the name.
abbrev pub source_of : Text → List CspDirective → Option Text
source_of name [] = none
source_of name (d ∷ ds) = if d.name === name then some d.raw else source_of name ds

abbrev pub raw_of : Option CspDirective → Option Text
raw_of none = none
raw_of (some d) = some d.raw

pub find-source :
    (name : Text) (ds : List CspDirective) → raw_of (find_directive name ds) ≡ source_of name ds
find-source name [] = refl
find-source name (d ∷ ds) =
    if_rule (λ (o : Option CspDirective). raw_of o ≡ source_of name (d ∷ ds)) (d.name === name)
      (λ h. rw h refl) (λ h. rw h (find-source name ds))

abbrev pub or_else : Option Text → Option Text → Option Text
or_else none p = p
or_else (some r) p = some r

pub source-append :
    (name style : Text) (x : CspDirective) (ds : List CspDirective)
    → source_of name (append_behind style x ds)
      ≡ or_else (source_of name ds) (if x.name === name then some x.raw else none)
source-append name style x [] = refl
source-append name style x (d ∷ []) = ground arith
source-append name style x (d ∷ e ∷ ds) = elim (Bool-cases (d.name === name)) [
  | inl h ↦ rw h refl
  | inr h ↦ rw h (source-append name style x (e ∷ ds))
]

abbrev pub edited : List Text → Option Text → Option Text
edited origins none = none
edited origins (some raw) = some (add_values origins (values_in raw) raw)

pub source-edit :
    (name : Text) (origins : List Text) (ds : List CspDirective)
    → source_of name (edit_first name (add_to origins) ds) ≡ edited origins (source_of name ds)
source-edit name origins [] = refl
source-edit name origins (d ∷ ds) = elim (Bool-cases (d.name === name)) [
  | inl h ↦ rw h (rw h refl)
  | inr h ↦ rw h (rw h (source-edit name origins ds))
]

abbrev pub IsBodyIn : Option Text → Type 0
IsBodyIn none = Unit
IsBodyIn (some raw) = IsBody raw

pub source-IsBody :
    (name : Text) (ds : List CspDirective) → AreDirectives ds → IsBodyIn (source_of name ds)
source-IsBody name [] h = tt
source-IsBody name (d ∷ ds) ((m, b, g), c, h) =
    if_rule IsBodyIn (d.name === name) (λ _. b) (λ _. source-IsBody name ds h)

is_nil-edit :
    (name : Text) (f : CspDirective → CspDirective) (ds : List CspDirective)
    → is_nil (edit_first name f ds) ≡ is_nil ds
is_nil-edit name f [] = refl
is_nil-edit name f (d ∷ ds) =
    if_rule (λ (es : List CspDirective). is_nil es ≡ false) (d.name === name) (λ _. refl)
      (λ _. refl)

edit-IsDirective :
    (origins : List Text) (d : CspDirective)
    → All IsWord origins
    → IsDirective d
    → IsDirective (add_to origins d)
edit-IsDirective origins d k (m, b, g) = (
  ap (add_to origins) m ∙ add_to-make origins d.raw d.sep b k,
  (add_values-HasWords origins (values_in d.raw) d.raw _ (words_of d.raw b) k).0,
  g,
)

pub edit-AreDirectives :
    (name : Text) (origins : List Text) (ds : List CspDirective)
    → All IsWord origins
    → AreDirectives ds
    → AreDirectives (edit_first name (add_to origins) ds)
edit-AreDirectives name origins [] k h = tt
edit-AreDirectives name origins (d ∷ ds) k (p, c, h) =
    if_rule AreDirectives (d.name === name) (λ _. (edit-IsDirective origins d k p, c, h))
      (λ _. (
        p,
        ap (λ n. n || contains b';' d.sep) (is_nil-edit name (add_to origins) ds) ∙ c,
        edit-AreDirectives name origins ds k h,
      ))

-- The separator that an append puts between two directives.
pub style-IsSeparator :
    (ds : List CspDirective)
    → AreDirectives ds
    → (all is_gap (separator_style ds) ≡ true) × (contains b';' (separator_style ds) ≡ true)
unfolding is_space
style-IsSeparator [] h = (refl, refl)
style-IsSeparator (d ∷ []) h = (refl, refl)
style-IsSeparator (d ∷ e ∷ ds) ((m, b, g), c, h) =
    if_rule (λ (t : Text). (all is_gap t ≡ true) × (contains b';' t ≡ true)) (is_nil d.sep)
      (λ _. style-IsSeparator (e ∷ ds) h) (λ _. (g, c))

sep-IsDirective :
    (d : CspDirective) (sep : Text)
    → IsDirective d
    → all is_gap sep ≡ true
    → IsDirective (record d { sep = sep })
unfolding make_directive
sep-IsDirective d sep (m, b, g) h = (ap (λ (x : CspDirective). record x { sep = sep }) m, b, h)

pub append-AreDirectives :
    (style : Text) (x : CspDirective) (ds : List CspDirective)
    → all is_gap style ≡ true
    → contains b';' style ≡ true
    → IsDirective x
    → AreDirectives ds
    → AreDirectives (append_behind style x ds)
append-AreDirectives style x [] s c p h = (p, refl, tt)
append-AreDirectives style x (d ∷ []) s c p (q, k, h) =
    (sep-IsDirective d style q s, c, (sep-IsDirective x d.sep p q.2, refl, tt))
append-AreDirectives style x (d ∷ e ∷ []) s c p (q, k, h) =
    (q, k, append-AreDirectives style x (e ∷ []) s c p h)
append-AreDirectives style x (d ∷ e ∷ f ∷ ds) s c p (q, k, h) =
    (q, k, append-AreDirectives style x (e ∷ f ∷ ds) s c p h)

abbrev pub IsFound : Option CspDirective → Type 0
IsFound none = Unit
IsFound (some d) = IsDirective d

pub find-IsFound :
    (name : Text) (ds : List CspDirective) → AreDirectives ds → IsFound (find_directive name ds)
find-IsFound name [] h = tt
find-IsFound name (d ∷ ds) (p, c, h) =
    if_rule IsFound (d.name === name) (λ _. p) (λ _. find-IsFound name ds h)
