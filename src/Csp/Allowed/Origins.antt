-- ===== src/Csp/Allowed/Origins.antt =====
-- src/services/csp-policy.ts: an origin that a policy names is allowed, and so none is missing once the
-- origins are added.
use couch_companion_ui.Prelude.{
  append-nil, ◌≡◌, refl, ap, ap₂, sym, ◌∙◌, ℕ, Bool, true, false, not, ◌&&◌, ◌||◌, Option, some,
  List, [], ◌∷◌, ◌++◌, map, Text, codes, ◌===◌, nat_eq, text_eq, text_beq_iff, ===_refl, is_nil,
  contains, contains-add, add, filter, within, lower, split_at, option_or, All, All-mono, all,
  arith, Bool-cases, inl, inr,
}
use couch_companion_ui.SingleServer.{Platform, Url}
use couch_companion_ui.Csp.Values.{IsWord}
use couch_companion_ui.Csp.Edit.{connect_sources, add_connect_src_origins}
use couch_companion_ui.Csp.Edit.Words.{add_all}
use couch_companion_ui.Csp.Edit.Origins.{connect_sources-add_from}
use couch_companion_ui.Csp.Allowed.{
  is_letter, in_scheme, scheme_run, behind_scheme, read_scheme, before_path, port_allows,
  host_allows, pieces_allow, rest_allows, host_source_matches, scheme_matches, source_allows,
  any_allows, is_origin_allowed, missing_origins,
}

abbrev port_text : Text → Text
port_text [] = []
port_text (c ∷ port) = b':' ∷ c ∷ port

abbrev IsPart : Text → Type 0
IsPart s = all (λ c. not (c === b'/') && not (c === b':')) s ≡ true

abbrev starts_with_star : Text → Bool
starts_with_star [] = false
starts_with_star (c ∷ s) = c === b'*'

-- An origin as `URL` prints it: a scheme of small letters, a host name that is no IPv6 address, and
-- the port unless it is the scheme's own; the parser reads these off.
pub record IsOrigin (p : Platform) (origin : Text) : Type 0 where
  pub scheme : Text
  pub target : Url
  pub word : IsWord origin
  pub parsed : p.parse_url origin ≡ some target
  pub text : origin ≡ scheme ++ (codes "://" ++ (target.hostname ++ port_text target.port))
  pub protocol : target.protocol ≡ scheme ++ b':' ∷ []
  pub some_scheme : is_nil scheme ≡ false
  pub letters : all (within b'a' b'z') scheme ≡ true
  pub host_part : IsPart target.hostname
  pub host_lower : map lower target.hostname ≡ target.hostname
  pub host_star : starts_with_star target.hostname ≡ false
  pub port_part : IsPart target.port

letter-in_scheme : (c : ℕ) → within b'a' b'z' c ≡ true → in_scheme c ≡ true
unfolding in_scheme
letter-in_scheme c h = ground (arith, h)

colon_ends : in_scheme b':' ≡ false
unfolding in_scheme
colon_ends = refl

scheme_run-letters : (s r : Text) → all (within b'a' b'z') s ≡ true → scheme_run (s ++ b':' ∷ r) ≡ s
scheme_run-letters [] r h = rw colon_ends refl
scheme_run-letters (c ∷ s) r h =
    rw (letter-in_scheme c (ground (arith, h)))
      (ap (λ t. c ∷ t) (scheme_run-letters s r (ground (arith, h))))

behind_scheme-letters :
    (s r : Text) → all (within b'a' b'z') s ≡ true → behind_scheme (s ++ b':' ∷ r) ≡ b':' ∷ r
behind_scheme-letters [] r h = rw colon_ends refl
behind_scheme-letters (c ∷ s) r h =
    rw (letter-in_scheme c (ground (arith, h))) (behind_scheme-letters s r (ground (arith, h)))

lower-letters : (s : Text) → all (within b'a' b'z') s ≡ true → map lower s ≡ s
lower-letters [] h = refl
lower-letters (c ∷ s) h =
    ap₂ (λ d t. d ∷ t) (ground (arith, h)) (lower-letters s (ground (arith, h)))

before_path-part : (s t : Text) → IsPart s → before_path (s ++ t) ≡ s ++ before_path t
before_path-part [] t h = refl
before_path-part (c ∷ s) t h = ground (arith, before_path-part s t)

before_path-whole : (s : Text) → IsPart s → before_path s ≡ s
before_path-whole [] h = refl
before_path-whole (c ∷ s) h = ground (arith, before_path-whole s)

before_path-port : (s : Text) → IsPart s → before_path (port_text s) ≡ port_text s
before_path-port [] h = refl
before_path-port (c ∷ s) h = ap (λ t. b':' ∷ t) (before_path-whole (c ∷ s) h)

split_at-part : (s : Text) → IsPart s → split_at b':' s ≡ s ∷ []
split_at-part [] h = refl
split_at-part (c ∷ s) h = ground (arith, split_at-part s)

split_at-parts : (s t : Text) → IsPart s → IsPart t → split_at b':' (s ++ b':' ∷ t) ≡ s ∷ t ∷ []
split_at-parts [] t h k = rw (split_at-part t k) refl
split_at-parts (c ∷ s) t h k = ground (arith, split_at-parts s t)

host_allows-own :
    (host : Text) (target : Url)
    → starts_with_star host ≡ false
    → host ≡ map lower target.hostname
    → host_allows host target ≡ true
host_allows-own [] target h e = (text_beq_iff _ _).1 e
host_allows-own (c ∷ s) target h e =
    ground (arith, h, (text_beq_iff (c ∷ s) (map lower target.hostname)).1 e)

port_allows-own :
    (port : Text) (target : Url) → port ≡ target.port → port_allows (port ∷ []) target ≡ true
port_allows-own port target e = ground (arith, (text_beq_iff port target.port).1 e)

pieces-own :
    (host port : Text) (target : Url)
    → IsPart host
    → IsPart port
    → port ≡ target.port
    → host_allows (map lower host) target ≡ true
    → pieces_allow (split_at b':' (host ++ port_text port)) target ≡ true
pieces-own host [] target h k e a =
    ap (λ ps. pieces_allow ps target) (ap (split_at b':') (append-nil host) ∙ split_at-part host h)
    ∙ a
pieces-own host (c ∷ port) target h k e a =
    ap (λ ps. pieces_allow ps target) (split_at-parts host (c ∷ port) h k)
    ∙ ap₂ (λ x y. x && y) (port_allows-own (c ∷ port) target e) a

scheme-matches :
    (scheme x : Text) (target : Url)
    → is_nil scheme ≡ false
    → all (within b'a' b'z') scheme ≡ true
    → target.protocol ≡ scheme ++ b':' ∷ []
    → rest_allows x target ≡ true
    → host_source_matches (scheme ++ (codes "://" ++ x)) target ≡ true
unfolding host_source_matches
scheme-matches [] x target n h e k = cc
scheme-matches (c ∷ s) x target n h e k =
    ap (scheme_matches (c ∷ s ++ (codes "://" ++ x)) target) read
    ∙ ap₂ (λ u v. u && v)
        ((text_beq_iff (map lower (c ∷ s) ++ b':' ∷ []) target.protocol).1
          (ap (λ t. t ++ b':' ∷ []) (lower-letters (c ∷ s) h) ∙ sym e))
        k
  where
    first : is_letter c ≡ true
    first = ground (arith, h)

    read : read_scheme (c ∷ s ++ (codes "://" ++ x)) ≡ some (c ∷ s, codes "://" ++ x)
    read = rw first (
        ap₂ (λ u v. some (c ∷ u, v)) (scheme_run-letters s (codes "//" ++ x) (ground (arith, h)))
          (behind_scheme-letters s (codes "//" ++ x) (ground (arith, h))))

source_allows-letter :
    (self_origin : Option Text) (target : Url) (scheme x : Text)
    → is_nil scheme ≡ false
    → all (within b'a' b'z') scheme ≡ true
    → source_allows self_origin target (scheme ++ x) ≡ host_source_matches (scheme ++ x) target
source_allows-letter self_origin target [] x n h = cc
source_allows-letter self_origin target (c ∷ s) x n h = ground (arith, h)

module _ (p : Platform) (origin : Text) (o : IsOrigin p origin) where
  host-matches : rest_allows (o.target.hostname ++ port_text o.target.port) o.target ≡ true
  host-matches =
      ap (λ t. pieces_allow (split_at b':' t) o.target)
        (before_path-part o.target.hostname (port_text o.target.port) o.host_part
          ∙ ap (λ t. o.target.hostname ++ t) (before_path-port o.target.port o.port_part))
      ∙ pieces-own o.target.hostname o.target.port o.target o.host_part o.port_part refl (
          host_allows-own (map lower o.target.hostname) o.target (rw o.host_lower o.host_star) refl)

  own-allows : (self_origin : Option Text) → source_allows self_origin o.target origin ≡ true
  own-allows self_origin =
      ap (source_allows self_origin o.target) o.text
      ∙ source_allows-letter self_origin o.target o.scheme
          (codes "://" ++ (o.target.hostname ++ port_text o.target.port)) o.some_scheme o.letters
      ∙ scheme-matches o.scheme (o.target.hostname ++ port_text o.target.port) o.target
          o.some_scheme o.letters o.protocol host-matches

  any-own :
      (self_origin : Option Text) (sources : List Text)
      → contains origin sources ≡ true
      → any_allows self_origin o.target sources ≡ true
  any-own self_origin [] h = cc
  any-own self_origin (source ∷ sources) h = elim (Bool-cases (source === origin)) [
    | inl e ↦
        ap (λ b. b || any_allows self_origin o.target sources)
          (ap (source_allows self_origin o.target) ((text_beq_iff source origin).0 e)
            ∙ own-allows self_origin)
    | inr e ↦ ground (arith, any-own self_origin sources, h, e)
  ]

  own-IsAllowed :
      (self_origin : Option Text) (sources : List Text)
      → contains origin sources ≡ true
      → is_origin_allowed p (some sources) origin self_origin ≡ true
  unfolding is_origin_allowed
  own-IsAllowed self_origin sources h =
      rw (o.parsed, is_origin_allowed) (any-own self_origin sources h)

contains-add_all :
    (origin : Text) (origins values : List Text)
    → contains origin (add_all origins values) ≡ (contains origin origins || contains origin values)
contains-add_all origin [] values = refl
contains-add_all origin (o ∷ origins) values =
    contains-add_all origin origins (add o values)
    ∙ ap (λ b. contains origin origins || b) (contains-add o origin values)
    ∙ ground arith

module _ (p : Platform) (self_origin : Option Text) (sources : List Text) where
  filter-allowed :
      (origins : List Text)
      → All (IsOrigin p) origins
      → ((o : Text) → contains o origins ≡ true → contains o sources ≡ true)
      → filter (λ o. not (is_origin_allowed p (some sources) o self_origin)) origins ≡ []
  filter-allowed [] h k = refl
  filter-allowed (o ∷ origins) (q, h) k =
      rw (own-IsAllowed p o q self_origin sources (k o (ground (arith, ===_refl o))))
        (filter-allowed origins h (λ x m. k x (ground (arith, m))))

-- Once the origins that git sync or sign-in needs are added, the policy refuses none of them. They
-- are origins as the browser prints them, but for IPv6 hosts.
pub missing_origins-add :
    (p : Platform) (header : Text) (origins : List Text) (self_origin : Option Text)
    → All (IsOrigin p) origins
    → missing_origins p (add_connect_src_origins header origins) origins self_origin ≡ []
unfolding missing_origins
missing_origins-add p header origins self_origin h =
    ap (λ sources. filter (λ o. not (is_origin_allowed p sources o self_origin)) origins)
      (connect_sources-add_from header origins (All-mono (λ o q. q.word) origins h))
    ∙ filter-allowed p self_origin (add_all origins (option_or (connect_sources header) [])) origins
        h
        (λ o m.
          ground (arith, m, contains-add_all o origins (option_or (connect_sources header) [])))
