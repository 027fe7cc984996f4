-- ===== src/Learning/Policies.antt =====
-- backend/src/lms/modules/learning/policies.py
use lawrence_ai_lms.Prelude.{String, Option, none, some, List, [], ◌∷◌, str_mem, not, ◌==◌}
use lawrence_ai_lms.Prelude.Exec.{raise, raise_if}
use lawrence_ai_lms.Learning.Errors.{failure, learning_resource_not_found}
use lawrence_ai_lms.Learning.Types.{Uuid, AuthorizedActor}
use lawrence_ai_lms.Learning.Store.{Action}

abbrev pub permission_enrollments_manage : String
permission_enrollments_manage = "learning.enrollments.manage"

abbrev pub permission_playback_read : String
permission_playback_read = "learning.playback.read"

pub data RoleCode : Type 0 where
  tenant_admin instructor reviewer learner : RoleCode

unfoldable pub default_role_permissions : RoleCode → List String
default_role_permissions tenant_admin = permission_enrollments_manage ∷ []
default_role_permissions instructor = []
default_role_permissions reviewer = []
default_role_permissions learner = permission_playback_read ∷ []

unfoldable pub require_permission : AuthorizedActor → String → Action (Unit {0})
require_permission actor permission =
    raise_if (not (str_mem permission actor.permissions)) (failure learning_resource_not_found)

abbrev related : Option Uuid → Uuid → Action (Unit {0})
related none learner_membership_id = raise (failure learning_resource_not_found)
related (some membership_id) learner_membership_id =
    raise_if (not (membership_id == learner_membership_id)) (failure learning_resource_not_found)

unfoldable pub require_learner_relationship : AuthorizedActor → Uuid → Action (Unit {0})
require_learner_relationship actor learner_membership_id =
    related actor.membership_id learner_membership_id
