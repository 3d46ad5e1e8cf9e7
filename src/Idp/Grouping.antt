-- ===== src/Idp/Grouping.antt =====
-- src/services/oidc-ini.ts: one provider for each issuer.
use mathlib.Core.Path.{subst}
use couch_companion_ui.Prelude.{
  ◌≡◌, refl, ap, sym, ◌∙◌, Bool, true, false, Option, none, some, List, [], ◌∷◌, ◌++◌, append-nil,
  append_assoc, map, Text, if◌then◌else◌, ◌===◌, text_eq, text_beq_iff, contains, add, filter,
  IsDistinct, Dict, get, set, keys, values, get-set, set-IsDistinct, All, All-set, All-get, ap₂,
  arith,
}
use couch_companion_ui.Idp.{
  OidcKeyEntry, OidcProvider, grown, group_key, group_keys, group_by_issuer, dedupe_by_issuer,
}

abbrev pub issued_by : Text → OidcKeyEntry → Bool
issued_by issuer found = found.entry.issuer === issuer

-- The provider of an issuer's entries: all of them in order, with the metadata of the first.
abbrev pub provider_for : Text → List OidcKeyEntry → Option OidcProvider
provider_for issuer [] = none
provider_for issuer (found ∷ more) =
    some (record { issuer = issuer; keys_of = found ∷ more; first_entry = found.entry })

abbrev pub find_provider : Text → List OidcProvider → Option OidcProvider
find_provider issuer [] = none
find_provider issuer (p ∷ ps) = if p.issuer === issuer then some p else find_provider issuer ps

abbrev with_more : Text → Option OidcProvider → List OidcKeyEntry → Option OidcProvider
with_more issuer none more = provider_for issuer more
with_more issuer (some p) more = some (record p { keys_of = p.keys_of ++ more })

with_more-nil : (issuer : Text) (o : Option OidcProvider) → with_more issuer o [] ≡ o
with_more-nil issuer none = refl
with_more-nil issuer (some p) = ap (λ ks. some (record p { keys_of = ks })) (append-nil p.keys_of)

grown-more :
    (found : OidcKeyEntry) (o : Option OidcProvider)
    → some (grown found o) ≡ with_more found.entry.issuer o (found ∷ [])
grown-more found none = refl
grown-more found (some p) = refl

with_more-twice :
    (issuer : Text) (o : Option OidcProvider) (found : OidcKeyEntry) (more : List OidcKeyEntry)
    → with_more issuer (with_more issuer o (found ∷ [])) more ≡ with_more issuer o (found ∷ more)
with_more-twice issuer none found more = refl
with_more-twice issuer (some p) found more =
    ap (λ ks. some (record p { keys_of = ks })) (append_assoc p.keys_of (found ∷ []) more)

get-group_key :
    (issuer : Text) (found : OidcKeyEntry) (d : Dict Text OidcProvider)
    → get issuer (group_key found d) ≡ (
        if issued_by issuer found
        then with_more issuer (get issuer d) (found ∷ [])
        else get issuer d)
get-group_key issuer found d =
    get-set found.entry.issuer issuer (grown found (get found.entry.issuer d)) d
    ∙ go (found.entry.issuer === issuer) refl
  where
    go :
        (b : Bool)
        → (found.entry.issuer === issuer) ≡ b
        → (if b then some (grown found (get found.entry.issuer d)) else get issuer d)
          ≡ (if b then with_more issuer (get issuer d) (found ∷ []) else get issuer d)
    go true e =
        subst
          (λ j. some (grown found (get found.entry.issuer d)) ≡ with_more j (get j d) (found ∷ []))
          ((text_beq_iff found.entry.issuer issuer).0 e)
          (grown-more found (get found.entry.issuer d))
    go false e = refl

get-group_keys :
    (issuer : Text) (entries : List OidcKeyEntry) (d : Dict Text OidcProvider)
    → get issuer (group_keys entries d)
      ≡ with_more issuer (get issuer d) (filter (issued_by issuer) entries)
get-group_keys issuer [] d = sym (with_more-nil issuer (get issuer d))
get-group_keys issuer (found ∷ entries) d =
    get-group_keys issuer entries (group_key found d)
    ∙ ap (λ o. with_more issuer o (filter (issued_by issuer) entries))
        (get-group_key issuer found d)
    ∙ go (issued_by issuer found)
  where
    go :
        (b : Bool)
        → with_more issuer
            (if b then with_more issuer (get issuer d) (found ∷ []) else get issuer d)
            (filter (issued_by issuer) entries)
          ≡ with_more issuer (get issuer d) (
              if b
              then found ∷ filter (issued_by issuer) entries
              else filter (issued_by issuer) entries)
    go true = with_more-twice issuer (get issuer d) found (filter (issued_by issuer) entries)
    go false = refl

abbrev IsKeyed : (Text × OidcProvider) → Type 0
IsKeyed e = e.1.issuer ≡ e.0

find-values :
    (issuer : Text) (d : Dict Text OidcProvider)
    → All IsKeyed d
    → find_provider issuer (values d) ≡ get issuer d
find-values issuer [] h = refl
find-values issuer ((k, p) ∷ d) (e, h) =
    ap (λ j. if j === issuer then some p else find_provider issuer (values d)) e
    ∙ ap (λ o. if k === issuer then some p else o) (find-values issuer d h)

issuers-values :
    (d : Dict Text OidcProvider) → All IsKeyed d → map (λ p. p.issuer) (values d) ≡ keys d
issuers-values [] h = refl
issuers-values ((k, p) ∷ d) (e, h) = ap₂ (λ i is. i ∷ is) e (issuers-values d h)

grown-issuer :
    (found : OidcKeyEntry) (o : Option OidcProvider)
    → ((p : OidcProvider) → o ≡ some p → p.issuer ≡ found.entry.issuer)
    → (grown found o).issuer ≡ found.entry.issuer
grown-issuer found none h = refl
grown-issuer found (some p) h = h p refl

group_key-IsKeyed :
    (found : OidcKeyEntry) (d : Dict Text OidcProvider)
    → All IsKeyed d
    → All IsKeyed (group_key found d)
group_key-IsKeyed found d h =
    All-set IsKeyed found.entry.issuer (grown found (get found.entry.issuer d)) d
      (grown-issuer found (get found.entry.issuer d)
        (λ p e. All-get IsKeyed found.entry.issuer d e h))
      h

group_keys-IsKeyed :
    (entries : List OidcKeyEntry) (d : Dict Text OidcProvider)
    → All IsKeyed d
    → All IsKeyed (group_keys entries d)
group_keys-IsKeyed [] d h = h
group_keys-IsKeyed (found ∷ entries) d h =
    group_keys-IsKeyed entries (group_key found d) (group_key-IsKeyed found d h)

keys-set :
    (k : Text) (v : OidcProvider) (d : Dict Text OidcProvider) → keys (set k v d) ≡ add k (keys d)
keys-set k v [] = refl
keys-set k v ((j, w) ∷ d) = ground (arith, keys-set k v d)

abbrev pub issuer_of : OidcKeyEntry → Text
issuer_of found = found.entry.issuer

keys-group_keys :
    (entries : List OidcKeyEntry) (d : Dict Text OidcProvider)
    → keys (group_keys entries d)
      ≡ keys d ++ map issuer_of (dedupe_by_issuer issuer_of (keys d) entries)
unfolding dedupe_by_issuer
keys-group_keys [] d = sym (append-nil (keys d))
keys-group_keys (found ∷ entries) d =
    keys-group_keys entries (group_key found d)
    ∙ ap (λ ks. ks ++ map issuer_of (dedupe_by_issuer issuer_of ks entries))
        (keys-set found.entry.issuer (grown found (get found.entry.issuer d)) d)
    ∙ go (contains found.entry.issuer (keys d)) refl
  where
    go :
        (b : Bool)
        → contains found.entry.issuer (keys d) ≡ b
        → add found.entry.issuer (keys d)
            ++ map issuer_of (dedupe_by_issuer issuer_of (add found.entry.issuer (keys d)) entries)
          ≡ keys d ++ map issuer_of (dedupe_by_issuer issuer_of (keys d) (found ∷ entries))
    go true e = rw (e, dedupe_by_issuer) refl
    go false e = rw (e, dedupe_by_issuer) (append_assoc (keys d) (found.entry.issuer ∷ []) _)

group_keys-IsDistinct :
    (entries : List OidcKeyEntry) (d : Dict Text OidcProvider)
    → IsDistinct (keys d)
    → IsDistinct (keys (group_keys entries d))
group_keys-IsDistinct [] d h = h
group_keys-IsDistinct (found ∷ entries) d h =
    group_keys-IsDistinct entries (group_key found d)
      (set-IsDistinct found.entry.issuer (grown found (get found.entry.issuer d)) d h)

-- An issuer has one provider if an entry names it, and else none: it holds all the keys of the
-- issuer in their order, with the metadata of the first. The issuers are distinct, and stand in the
-- order in which `dedupeByIssuer` keeps the entries.
pub group_by_issuer_lem :
    (entries : List OidcKeyEntry) (issuer : Text)
    → (find_provider issuer (group_by_issuer entries)
        ≡ provider_for issuer (filter (issued_by issuer) entries))
      × (map (λ p. p.issuer) (group_by_issuer entries)
          ≡ map issuer_of (dedupe_by_issuer issuer_of [] entries))
      × IsDistinct (map (λ p. p.issuer) (group_by_issuer entries))
unfolding group_by_issuer
group_by_issuer_lem entries issuer =
    let keyed = group_keys-IsKeyed entries [] tt in
    let issuers = issuers-values (group_keys entries []) keyed in
    (
      find-values issuer (group_keys entries []) keyed ∙ get-group_keys issuer entries [],
      issuers ∙ keys-group_keys entries [],
      subst IsDistinct (sym issuers) (group_keys-IsDistinct entries [] tt),
    )
