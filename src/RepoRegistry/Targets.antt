-- ===== src/RepoRegistry/Targets.antt =====
-- src/services/design-mgmt-service.ts: the targets that `detachTarget` leaves to a repository.
use couch_companion_ui.Prelude.{
  ◌≡◌, refl, ◌≤◌, false, not, ◌&&◌, List, [], ◌∷◌, Text, ◌===◌, text_eq, nat_eq, text_beq_iff,
  nat_beq_iff, ===_refl, length, arith,
}
use couch_companion_ui.RepoTargets.{RepoTarget, tracks}
use couch_companion_ui.RepoRegistry.{other_targets}

pub tracks-other_targets :
    (server_id db_name s d : Text) (ts : List RepoTarget)
    → tracks s d (other_targets server_id db_name ts)
      ≡ (tracks s d ts && not (s === server_id && d === db_name))
tracks-other_targets server_id db_name s d [] = refl
tracks-other_targets server_id db_name s d (t ∷ ts) = ground (
  arith,
  tracks-other_targets server_id db_name s d ts,
  text_beq_iff t.server_id server_id,
  text_beq_iff t.db_name db_name,
  text_beq_iff t.server_id s,
  text_beq_iff t.db_name d,
  text_beq_iff s server_id,
  text_beq_iff d db_name,
)

pub tracks-other_targets_same :
    (server_id db_name : Text) (ts : List RepoTarget)
    → tracks server_id db_name (other_targets server_id db_name ts) ≡ false
tracks-other_targets_same server_id db_name ts = ground (
  arith,
  tracks-other_targets server_id db_name server_id db_name ts,
  ===_refl server_id,
  ===_refl db_name,
)

length-other_targets-le :
    (server_id db_name : Text) (ts : List RepoTarget)
    → length (other_targets server_id db_name ts) ≤ length ts
length-other_targets-le server_id db_name [] = omega arith
length-other_targets-le server_id db_name (t ∷ ts) =
    ground (arith, length-other_targets-le server_id db_name ts)

-- The lists differ in length where the target is tracked.
pub length-other_targets :
    (server_id db_name : Text) (ts : List RepoTarget)
    → (length (other_targets server_id db_name ts) === length ts)
      ≡ not (tracks server_id db_name ts)
length-other_targets server_id db_name [] = refl
length-other_targets server_id db_name (t ∷ ts) = ground (
  arith,
  length-other_targets server_id db_name ts,
  length-other_targets-le server_id db_name ts,
  nat_beq_iff (length (other_targets server_id db_name ts)) (length ts),
)
