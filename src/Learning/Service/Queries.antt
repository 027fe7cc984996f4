-- ===== src/Learning/Service/Queries.antt =====
-- backend/src/lms/modules/learning/services.py: the queries of `LearningService`.
use lawrence_ai_lms.Prelude.Exec.{or_raise, ◌>>=◌}
use lawrence_ai_lms.Learning.Errors.{failure, learning_resource_not_found}
use lawrence_ai_lms.Learning.Types.{Uuid, PlaybackSnapshot, LessonPlayback}
use lawrence_ai_lms.Learning.Store.{Action, unit_of_work}
use lawrence_ai_lms.Learning.Policies.{permission_playback_read}
use lawrence_ai_lms.Learning.Repository
use lawrence_ai_lms.Learning.Service.Ports.{LearningPorts, authorize}

module _ (ports : LearningPorts) where
  unfoldable pub get_playback : Uuid → Uuid → Uuid → Action PlaybackSnapshot
  get_playback actor_id tenant_id enrollment_id = unit_of_work (do
    actor ← authorize ports actor_id tenant_id permission_playback_read
    membership_id ← or_raise actor.membership_id (failure learning_resource_not_found)
    Repository.get_playback ports.courses tenant_id membership_id enrollment_id)

  unfoldable pub get_lesson : Uuid → Uuid → Uuid → Uuid → Action LessonPlayback
  get_lesson actor_id tenant_id enrollment_id lesson_id = unit_of_work (do
    actor ← authorize ports actor_id tenant_id permission_playback_read
    membership_id ← or_raise actor.membership_id (failure learning_resource_not_found)
    Repository.get_lesson ports.courses tenant_id membership_id enrollment_id lesson_id)
