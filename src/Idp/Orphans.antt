-- ===== src/Idp/Orphans.antt =====
-- src/services/oidc-ini.ts: signing keys that no provider claims.
use mathlib.Core.Path.{subst}
use couch_companion_ui.Prelude.{
  ◌≡◌, refl, ap, ap₂, sym, ◌∙◌, Bool, true, false, not, ◌&&◌, ◌||◌, Option, none, some, List, [],
  ◌∷◌, Text, if◌then◌else◌, ◌===◌, text_eq, text_beq_iff, ===_ne, ===_refl, is_nil, contains,
  contains-append, strip_prefix?, strip_prefix?-eq-some, IsDistinct, Dict, get, has, keys,
  contains-keys, is_some, option_or, flat_map, Bool-cases, inl, inr, arith,
}
use couch_companion_ui.SingleServer.{Platform}
use couch_companion_ui.DesignSync.{Json}
use couch_companion_ui.Idp.{
  OidcEntry, OidcKeyEntry, NodeConfig, oidc_section, jwt_keys_section, key_prefix, oidc_key,
  kid_from_key, parse_entry, pair_of, push_found, parse_section, kids, orphan_kid, orphan_key_kids,
}

kid_of_oidc_key : (kid : Text) → is_nil kid ≡ false → kid_from_key (oidc_key kid) ≡ some kid
kid_of_oidc_key [] h = cc
kid_of_oidc_key (c ∷ kid) h = refl

oidc_key_of_kid : (key kid : Text) → kid_from_key key ≡ some kid → key ≡ oidc_key kid
oidc_key_of_kid key kid h = go (strip_prefix? key_prefix key) refl h
  where
    go :
        (o : Option Text)
        → strip_prefix? key_prefix key ≡ o
        → elim o [ none ↦ none | some k ↦ if is_nil k then none else some k ] ≡ some kid
        → key ≡ oidc_key kid
    go none e h = cc
    go (some []) e h = cc
    go (some (c ∷ k)) e h = strip_prefix?-eq-some key_prefix key (c ∷ k) e ∙ cc h

-- Whether a key of a section is the one of `kid`.
abbrev IsKeyOf : Text → Text → Option Text → Type 0
IsKeyOf kid key none = (key === oidc_key kid) ≡ false
IsKeyOf kid key (some k) = (key === oidc_key kid) ≡ (k === kid)

key_cases : (kid key : Text) → is_nil kid ≡ false → IsKeyOf kid key (kid_from_key key)
key_cases kid key h = go (kid_from_key key) refl
  where
    go : (o : Option Text) → kid_from_key key ≡ o → IsKeyOf kid key o
    go none e =
        ===_ne {a = key} {b = oidc_key kid} (λ i. cc (e, ap kid_from_key i, kid_of_oidc_key kid h))
    go (some k) e = ap (λ t. t === oidc_key kid) (oidc_key_of_kid key k e)

contains-orphan_kid :
    (kid key : Text) (claimed : List Text)
    → is_nil kid ≡ false
    → contains kid (orphan_kid claimed key) ≡ (key === oidc_key kid && not (contains kid claimed))
contains-orphan_kid kid key claimed h = go (kid_from_key key) (key_cases kid key h)
  where
    go :
        (o : Option Text)
        → IsKeyOf kid key o
        → contains kid (elim o [ none ↦ [] | some k ↦ if contains k claimed then [] else k ∷ [] ])
          ≡ (key === oidc_key kid && not (contains kid claimed))
    go none e = rw e refl
    go (some k) e = rw e (elim (Bool-cases (k === kid)) [
      | inl i ↦ rw ((text_beq_iff k kid).0 i) (ground (arith, ===_refl kid))
      | inr i ↦ ground (arith, i)
    ])

contains-orphans :
    (kid : Text) (claimed ks : List Text)
    → is_nil kid ≡ false
    → contains kid (flat_map (orphan_kid claimed) ks)
      ≡ (contains (oidc_key kid) ks && not (contains kid claimed))
contains-orphans kid claimed [] h = refl
contains-orphans kid claimed (key ∷ ks) h =
    contains-append kid (orphan_kid claimed key) (flat_map (orphan_kid claimed) ks)
    ∙ ap₂ (λ a b. a || b) (contains-orphan_kid kid key claimed h)
        (contains-orphans kid claimed ks h)
    ∙ both (key === oidc_key kid) (contains (oidc_key kid) ks) (not (contains kid claimed))
  where
    both : (a b c : Bool) → ((a && c) || (b && c)) ≡ ((a || b) && c)
    both a b c = ground arith

module _ (p : Platform) (parse_json : Text → Option Json) where
  abbrev pub usable : Option Text → Option OidcEntry
  usable none = none
  usable (some raw) = parse_entry p parse_json raw

  -- The usable metadata that the section holds for a key.
  abbrev pub twin : Text → Dict Text Text → Option OidcEntry
  twin kid section = usable (get (oidc_key kid) section)

  contains-pushed :
      (kid key : Text) (o : Option Text) (e : Option OidcEntry) (found : List OidcKeyEntry)
      → IsKeyOf kid key o
      → contains kid (kids (push_found (pair_of o e) found))
        ≡ ((key === oidc_key kid && is_some e) || contains kid (kids found))
  contains-pushed kid key none e found h = rw h refl
  contains-pushed kid key (some k) none found h = ground arith
  contains-pushed kid key (some k) (some e) found h = rw h (ground arith)

  first_twin :
      (a e rest : Bool) → (a ≡ true → rest ≡ false) → ((a && e) || rest) ≡ (if a then e else rest)
  first_twin true e rest h = rw (h refl) (ground arith)
  first_twin false e rest h = refl

  is_some_if :
      (b : Bool) (o q : Option OidcEntry)
      → (if b then is_some o else is_some q) ≡ is_some (if b then o else q)
  is_some_if true o q = refl
  is_some_if false o q = refl

  twin-cons :
      (kid key raw : Text) (section : Dict Text Text)
      → twin kid ((key, raw) ∷ section)
        ≡ (if key === oidc_key kid then parse_entry p parse_json raw else twin kid section)
  twin-cons kid key raw section = go (key === oidc_key kid)
    where
      go :
          (b : Bool)
          → usable (if b then some raw else get (oidc_key kid) section)
            ≡ (if b then parse_entry p parse_json raw else twin kid section)
      go true = refl
      go false = refl

  twin-absent :
      (kid : Text) (section : Dict Text Text)
      → contains (oidc_key kid) (keys section) ≡ false
      → is_some (twin kid section) ≡ false
  twin-absent kid section h =
      go (get (oidc_key kid) section) (sym (contains-keys (oidc_key kid) section) ∙ h)
    where
      go : (o : Option Text) → is_some o ≡ false → is_some (usable o) ≡ false
      go none e = refl
      go (some raw) e = cc

  -- A kid is among the parsed entries if its key holds usable metadata.
  contains-section :
      (kid : Text) (section : Dict Text Text)
      → is_nil kid ≡ false
      → IsDistinct (keys section)
      → contains kid (kids (parse_section p parse_json section)) ≡ is_some (twin kid section)
  unfolding parse_section
  contains-section kid [] h d = refl
  contains-section kid ((key, raw) ∷ section) h (n, d) =
      contains-pushed kid key (kid_from_key key) (parse_entry p parse_json raw)
        (parse_section p parse_json section) (key_cases kid key h)
      ∙ ap (λ b. (key === oidc_key kid && is_some (parse_entry p parse_json raw)) || b)
          (contains-section kid section h d)
      ∙ first_twin (key === oidc_key kid) (is_some (parse_entry p parse_json raw))
          (is_some (twin kid section))
          (λ e. twin-absent kid section (
            subst (λ k. contains k (keys section) ≡ false) ((text_beq_iff key (oidc_key kid)).0 e)
              n))
      ∙ is_some_if (key === oidc_key kid) (parse_entry p parse_json raw) (twin kid section)
      ∙ sym (ap is_some (twin-cons kid key raw section))

  -- A kid is an orphan exactly if its signing key is installed and its key in the `[oidc]` section is
  -- absent or holds no usable metadata. The kid is not empty, and no key of the section is repeated.
  pub orphan_key_kids_lem :
      (config : NodeConfig) (kid : Text)
      → is_nil kid ≡ false
      → IsDistinct (keys (option_or (get oidc_section config) []))
      → contains kid (orphan_key_kids p parse_json config) ≡ (
          has (oidc_key kid) (option_or (get jwt_keys_section config) [])
          && not (is_some (twin kid (option_or (get oidc_section config) []))))
  unfolding orphan_key_kids
  orphan_key_kids_lem config kid h d =
      contains-orphans kid
        (kids (parse_section p parse_json (option_or (get oidc_section config) [])))
        (keys (option_or (get jwt_keys_section config) [])) h
      ∙ ap₂ (λ a b. a && not b)
          (contains-keys (oidc_key kid) (option_or (get jwt_keys_section config) []))
          (contains-section kid (option_or (get oidc_section config) []) h d)
