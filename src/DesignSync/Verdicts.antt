-- ===== src/DesignSync/Verdicts.antt =====
-- What a status that may be applied says of the two sides.
use couch_companion_ui.Prelude.{
  ◌≡◌, ◌≢◌, ◌⊎◌, ◌↔◌, true, false, none, text_eq, option_beq_iff, arith, is_some,
}
use couch_companion_ui.DesignSync.{
  SyncStatus, conflict, to_repo, to_couch, Versions, classify, resolve_unknown, can_apply,
}

-- The status a sync acts on.
abbrev pub verdict : Versions → SyncStatus
verdict v = resolve_unknown (classify v) v.content_equal

module _ (v : Versions) where
  -- A status that may be applied towards the repository finds the contents equal, no file, or the
  -- file that the last sync left; one that may be applied towards CouchDB finds them equal, no
  -- document, or the revision that the last sync left.
  pub can_apply-keeps_edits :
      (can_apply (verdict v) to_repo ≡ true
        → (v.content_equal ≡ true) ⊎ ((v.git_sha ≡ none) ⊎ (v.git_sha ≡ v.synced_sha)))
      × (can_apply (verdict v) to_couch ≡ true
          → (v.content_equal ≡ true) ⊎ ((v.couch_rev ≡ none) ⊎ (v.couch_rev ≡ v.synced_rev)))
  unfolding classify
  can_apply-keeps_edits = (
    ground (arith, option_beq_iff v.git_sha v.synced_sha),
    ground (arith, option_beq_iff v.couch_rev v.synced_rev),
  )

  -- Where both sides have a version, the status is a conflict exactly if the contents differ and
  -- either no sync is on record or both sides moved since; then neither direction may be applied.
  pub verdict-conflict :
      is_some v.couch_rev ≡ true
      → is_some v.git_sha ≡ true
      → ((verdict v ≡ conflict) ↔ (
          (v.content_equal ≡ false)
          × (((v.synced_rev ≡ none) × (v.synced_sha ≡ none))
              ⊎ ((v.couch_rev ≢ v.synced_rev) × (v.git_sha ≢ v.synced_sha)))))
        × (verdict v ≡ conflict
            → (can_apply (verdict v) to_repo ≡ false) × (can_apply (verdict v) to_couch ≡ false))
  unfolding classify
  verdict-conflict c g = (
    ground (arith, option_beq_iff v.git_sha v.synced_sha, option_beq_iff v.couch_rev v.synced_rev),
    λ e. ground arith,
  )
