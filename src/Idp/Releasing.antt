-- ===== src/Idp/Releasing.antt =====
-- src/services/idp-origins.ts: what is released when a provider goes away.
use couch_companion_ui.Prelude.{
  ◌≡◌, refl, ap, sym, ◌∙◌, Bool, false, not, ◌&&◌, ◌||◌, List, [], ◌∷◌, Text, ◌===◌, text_eq,
  contains, contains-add, contains-filter, add, add-IsDistinct, filter-IsDistinct, IsDistinct,
  arith,
}
use couch_companion_ui.SingleServer.{Platform}
use couch_companion_ui.Idp.Connect.{
  IdpRef, add_each, contributed, require_each, required_idp_origins, releasable_idp_origins,
}

or_swap : (a b c : Bool) → (a || (b || c)) ≡ ((b || a) || c)
or_swap a b c = ground arith

or_split : (a b : Bool) → (a || b) ≡ ((not b && a) || b)
or_split a b = ground arith

no_both : (a b : Bool) → ((not b && a) && b) ≡ false
no_both a b = ground arith

contains-add_each :
    (o : Text) (more origins : List Text)
    → contains o (add_each more origins) ≡ (contains o more || contains o origins)
contains-add_each o [] origins = refl
contains-add_each o (m ∷ more) origins =
    contains-add_each o more (add m origins)
    ∙ ap (λ b. contains o more || b) (contains-add m o origins)
    ∙ or_swap (contains o more) (m === o) (contains o origins)

add_each-IsDistinct :
    (more origins : List Text) → IsDistinct origins → IsDistinct (add_each more origins)
add_each-IsDistinct [] origins h = h
add_each-IsDistinct (m ∷ more) origins h =
    add_each-IsDistinct more (add m origins) (add-IsDistinct m origins h)

module _ (p : Platform) where
  require_each-IsDistinct :
      (idps : List IdpRef) (origins : List Text)
      → IsDistinct origins
      → IsDistinct (require_each p idps origins)
  require_each-IsDistinct [] origins h = h
  require_each-IsDistinct (idp ∷ idps) origins h =
      require_each-IsDistinct idps (add_each (contributed p idp) origins)
        (add_each-IsDistinct (contributed p idp) origins h)

  contains-require_each :
      (o : Text) (idps : List IdpRef) (origins : List Text)
      → contains o (require_each p idps origins)
        ≡ (contains o origins || contains o (require_each p idps []))
  contains-require_each o [] origins = ground arith
  contains-require_each o (idp ∷ idps) origins =
      contains-require_each o idps (add_each (contributed p idp) origins)
      ∙ ap (λ b. b || contains o (require_each p idps []))
          (contains-add_each o (contributed p idp) origins)
      ∙ ground (
        arith,
        contains-require_each o idps (add_each (contributed p idp) []),
        contains-add_each o (contributed p idp) [],
      )

  -- When a provider is removed, an origin that was required is released or still required by the
  -- providers that remain, and never both; nothing else is released, and nothing twice.
  pub releasable_lem :
      (removed : IdpRef) (remaining : List IdpRef) (o : Text)
      → (contains o (required_idp_origins p (removed ∷ remaining)) ≡ (
          contains o (releasable_idp_origins p removed remaining)
          || contains o (required_idp_origins p remaining)))
        × ((contains o (releasable_idp_origins p removed remaining)
              && contains o (required_idp_origins p remaining))
            ≡ false)
        × IsDistinct (releasable_idp_origins p removed remaining)
  unfolding required_idp_origins releasable_idp_origins
  releasable_lem removed remaining o =
      let needed = contains o (require_each p remaining []) in
      let offered = contains o (add_each (contributed p removed) []) in
      let released =
        contains-filter (λ origin. not (contains origin (require_each p remaining []))) o
          (add_each (contributed p removed) []) in
      (
        contains-require_each o remaining (add_each (contributed p removed) [])
            ∙ or_split offered needed
            ∙ ap (λ b. b || needed) (sym released),
        ap (λ b. b && needed) released ∙ no_both offered needed,
        filter-IsDistinct _ _ (require_each-IsDistinct (removed ∷ []) [] tt),
      )
