-- ===== src/Courses/Service/Transitions.antt =====
-- backend/src/lms/modules/courses/services.py: `transition_version` behind its validation.
use lawrence_ai_lms.Prelude.{
  pos, ◌+◌, String, Bool, true, false, Option, none, some, [], ◌∷◌, ◌||◌, not, eq_ℤ, str_eq,
  option_eq, option_str_eq, if◌then◌else◌,
}
use lawrence_ai_lms.Prelude.Exec.{Result, ok, err, pure, raise_if, lift, or_raise, ◌>>=◌, ◌>>◌}
use lawrence_ai_lms.Learning.Types.{Uuid}
use lawrence_ai_lms.Courses.Types.{
  OriginType, Transition, submit_review, request_changes, approve, publish, withdraw,
  ReviewDecision, Course, CourseVersion, CourseReview, CourseAggregate, CourseSnapshot,
  AuthorizedActor, TransitionDecision, snapshot,
}
use lawrence_ai_lms.Courses.Commands.{
  TransitionCourseVersionCommand, course_snapshot, IdempotencyScope,
}
use lawrence_ai_lms.Courses.Errors.{
  CourseLifecycleError, course_failure, course_validation_error, version_conflict,
  content_hash_mismatch, service_contract_error, course_permission_denied,
}
use lawrence_ai_lms.Courses.Policies.{
  transition_permission, transition_requires_human, is_review, require_human, authorize_transition,
}
use lawrence_ai_lms.Courses.Hashing.{canonical_content_hash}
use lawrence_ai_lms.Courses.Validation.Collector.{field_error}
use lawrence_ai_lms.Courses.Validation.Complete.{validate_complete_course}
use lawrence_ai_lms.Courses.Service.Payloads.{
  transition_event, transition_fields, transition_payload,
}
use lawrence_ai_lms.Courses.Service.Ports.{
  CoursePorts, CourseAction, on_database, replayed, as_snapshot, draw_course_uuid,
  read_course_clock, authorize_for, load_aggregate, reserve_course, write_facts,
}

-- A review is of the submitted content, a publication of the submitted and approved content.
abbrev pub hash_refused : Transition → CourseVersion → String → Bool
hash_refused request_changes v current = not (option_str_eq v.submitted_hash (some current))
hash_refused approve v current = not (option_str_eq v.submitted_hash (some current))
hash_refused publish v current =
    not (option_str_eq v.submitted_hash (some current))
    || not (option_str_eq v.approved_hash (some current))
hash_refused _ v current = false

-- The course's pointer to its published version, and its row version.
unfoldable pub transition_course : Transition → CourseAggregate → Result CourseLifecycleError Course
transition_course publish a = ok (record a.course {
  current_published_version_id = some a.version.id;
  row_version = a.course.row_version + 1;
})
transition_course withdraw a =
    if option_eq a.course.current_published_version_id (some a.version.id)
    then ok (record a.course {
      current_published_version_id = none;
      row_version = a.course.row_version + 1;
    })
    else err (course_failure version_conflict)
transition_course _ a = ok a.course

abbrev pub submitted_after : Transition → CourseVersion → String → Option String
submitted_after submit_review v current = some current
submitted_after _ v current = v.submitted_hash

abbrev pub approved_after : Transition → CourseVersion → String → Option String
approved_after submit_review v current = none
approved_after approve v current = some current
approved_after _ v current = v.approved_hash

abbrev pub submitter_after : Transition → AuthorizedActor → Option Uuid → Option Uuid
submitter_after submit_review actor submitted_by = some actor.principal_id
submitter_after _ actor submitted_by = submitted_by

unfoldable pub transition_updated :
    Transition
    → AuthorizedActor
    → TransitionDecision
    → String
    → CourseAggregate
    → Course
    → Option CourseReview
    → CourseAggregate
transition_updated t actor decision current_hash a course review = record {
  course = course;
  version = record a.version {
    status = decision.target_status;
    content_hash = current_hash;
    submitted_hash = submitted_after t a.version current_hash;
    approved_hash = approved_after t a.version current_hash;
    row_version = a.version.row_version + 1;
  };
  sections = a.sections;
  latest_review = review;
  submitted_by_actor_id = submitter_after t actor a.submitted_by_actor_id;
}

abbrev pub review_decision : Transition → ReviewDecision
review_decision request_changes = ReviewDecision.changes_requested
review_decision _ = ReviewDecision.approved

abbrev pub needs_sources : OriginType → Transition → Bool
needs_sources OriginType.ai_assisted approve = true
needs_sources OriginType.ai_assisted publish = true
needs_sources _ _ = false

abbrev source_unavailable : CourseLifecycleError
source_unavailable = course_validation_error (
    field_error "source_rights" "source_unavailable"
      "The generated course source is unavailable for publication."
    ∷ [])

abbrev pub submission_check : Transition → CourseAggregate → Result CourseLifecycleError (Unit {0})
submission_check submit_review a = validate_complete_course (snapshot a)
submission_check _ a = ok tt

module _ {D : Type 0} (ports : CoursePorts D) where
  abbrev pub ask_sources : CourseSnapshot → CourseAction D Bool
  ask_sources s = elim ports.publication_sources [
    | none ↦ pure false
    | some allows_publication ↦ on_database (allows_publication s)
  ]

  -- The sources of a generated course have to allow its publication.
  unfoldable pub check_sources : Transition → CourseAggregate → CourseAction D (Unit {0})
  check_sources t a =
      if needs_sources a.version.origin_type t
      then (do allowed ← ask_sources (snapshot a); raise_if (not allowed) source_unavailable)
      else pure tt

  abbrev pub make_review :
      Uuid
      → Uuid
      → TransitionCourseVersionCommand
      → TransitionDecision
      → String
      → Option Uuid
      → CourseAction D (Option CourseReview)
  make_review tenant_id version_id command decision current_hash membership_id = do
    reviewer_id ← or_raise membership_id (course_failure course_permission_denied)
    review_id ← draw_course_uuid ports
    decided_at ← read_course_clock ports
    pure (
        some (record {
          id = review_id;
          tenant_id = tenant_id;
          course_version_id = version_id;
          decision = review_decision command.transition;
          reviewed_hash = current_hash;
          reviewer_id = reviewer_id;
          self_review = decision.self_review;
          reason_codes = command.reason_codes;
          decided_at = decided_at;
        }))

  unfoldable pub transition_review :
      Uuid
      → Uuid
      → TransitionCourseVersionCommand
      → AuthorizedActor
      → TransitionDecision
      → String
      → CourseAggregate
      → CourseAction D (Option CourseReview)
  transition_review tenant_id version_id command actor decision current_hash a =
      if is_review command.transition
      then make_review tenant_id version_id command decision current_hash actor.membership_id
      else pure a.latest_review

  -- What the transition makes of the loaded aggregate: every check, and the aggregate to save.
  unfoldable pub decide_transition :
      Uuid
      → Uuid
      → TransitionCourseVersionCommand
      → AuthorizedActor
      → CourseAggregate
      → CourseAction D (TransitionDecision × CourseAggregate)
  decide_transition tenant_id version_id command actor a = do
    raise_if (not (eq_ℤ (pos a.version.row_version) command.expected_version_row_version))
        (course_failure version_conflict)
    let current_hash = canonical_content_hash ports.digest (snapshot a)
    raise_if (not (str_eq a.version.content_hash current_hash))
        (course_failure service_contract_error)
    raise_if (not (str_eq command.expected_content_hash current_hash))
        (course_failure content_hash_mismatch)
    decision ← lift (authorize_transition actor a command.transition)
    check_sources command.transition a
    lift (submission_check command.transition a)
    raise_if (hash_refused command.transition a.version current_hash)
        (course_failure content_hash_mismatch)
    course ← lift (transition_course command.transition a)
    review ← transition_review tenant_id version_id command actor decision current_hash a
    pure (
      decision,
      transition_updated command.transition actor decision current_hash a course review,
    )

  unfoldable pub transition_fresh :
      Uuid
      → Uuid
      → Uuid
      → TransitionCourseVersionCommand
      → AuthorizedActor
      → IdempotencyScope
      → String
      → CourseAction D CourseSnapshot
  transition_fresh tenant_id course_id version_id command actor scope request_hash = do
    a ← load_aggregate ports tenant_id course_id version_id
    decided ← decide_transition tenant_id version_id command actor a
    stored ← on_database (
        ports.save decided.1 command.expected_version_row_version
          command.expected_course_row_version)
    more ← lift (
        transition_fields command decided.1.latest_review decided.0.self_review
          a.course.current_published_version_id)
    write_facts ports actor stored (transition_event command.transition)
        (transition_payload stored more)
    on_database (ports.complete scope request_hash (course_snapshot (snapshot stored)))
    pure (snapshot stored)

  unfoldable pub transition_block :
      Uuid
      → Uuid
      → Uuid
      → Uuid
      → TransitionCourseVersionCommand
      → IdempotencyScope
      → String
      → CourseAction D CourseSnapshot
  transition_block actor_id tenant_id course_id version_id command scope request_hash = do
    actor ←
        authorize_for ports actor_id tenant_id course_id (transition_permission command.transition)
    lift (if transition_requires_human command.transition then require_human actor else ok tt)
    replay ← reserve_course ports scope request_hash
    replayed as_snapshot
        (transition_fresh tenant_id course_id version_id command actor scope request_hash) replay
