-- ===== src/Courses/Policies.antt =====
-- backend/src/lms/modules/courses/policies.py
use lawrence_ai_lms.Prelude.{
  String, Bool, true, false, Option, none, some, ◌&&◌, ◌==◌, str_mem, List, [], ◌∷◌, if◌then◌else◌,
}
use lawrence_ai_lms.Prelude.Exec.{Result, ok, err}
use lawrence_ai_lms.Learning.Types.{Uuid}
use lawrence_ai_lms.Learning.Policies.{RoleCode, tenant_admin, instructor, reviewer, learner}
use lawrence_ai_lms.Courses.Types.{
  CourseStatus, CourseVersion, CourseAggregate, AuthorizedActor, Transition, TransitionDecision,
  submit_review, request_changes, approve, publish, withdraw, archive, is_mutable, is_user,
  separates_reviewers,
}
use lawrence_ai_lms.Courses.Errors.{
  CourseLifecycleError, course_failure, course_permission_denied, course_version_immutable,
  human_action_required, version_conflict, service_contract_error, reviewer_separation_required,
}

abbrev pub permission_courses_read : String
permission_courses_read = "courses.read"

abbrev pub permission_courses_drafts_write : String
permission_courses_drafts_write = "courses.drafts.write"

abbrev pub permission_courses_review : String
permission_courses_review = "courses.review"

abbrev pub permission_courses_publish : String
permission_courses_publish = "courses.publish"

-- `DEFAULT_ROLE_PERMISSIONS`
unfoldable pub default_course_permissions : RoleCode → List String
default_course_permissions tenant_admin =
    permission_courses_read ∷ permission_courses_drafts_write ∷ permission_courses_review
    ∷ permission_courses_publish ∷ []
default_course_permissions instructor =
    permission_courses_read ∷ permission_courses_drafts_write ∷ permission_courses_review
    ∷ permission_courses_publish ∷ []
default_course_permissions reviewer = permission_courses_read ∷ permission_courses_review ∷ []
default_course_permissions learner = []

-- `_TRANSITIONS`, its three columns.
abbrev pub allows_source : Transition → CourseStatus → Bool
allows_source submit_review CourseStatus.draft = true
allows_source submit_review CourseStatus.changes_requested = true
allows_source request_changes CourseStatus.under_review = true
allows_source approve CourseStatus.under_review = true
allows_source publish CourseStatus.approved = true
allows_source withdraw CourseStatus.published = true
allows_source archive CourseStatus.withdrawn = true
allows_source _ _ = false

abbrev pub transition_target : Transition → CourseStatus
transition_target submit_review = CourseStatus.under_review
transition_target request_changes = CourseStatus.changes_requested
transition_target approve = CourseStatus.approved
transition_target publish = CourseStatus.published
transition_target withdraw = CourseStatus.withdrawn
transition_target archive = CourseStatus.archived

abbrev pub transition_permission : Transition → String
transition_permission submit_review = permission_courses_drafts_write
transition_permission request_changes = permission_courses_review
transition_permission approve = permission_courses_review
transition_permission publish = permission_courses_publish
transition_permission withdraw = permission_courses_publish
transition_permission archive = permission_courses_publish

-- `_HUMAN_TRANSITIONS`
abbrev pub transition_requires_human : Transition → Bool
transition_requires_human submit_review = false
transition_requires_human _ = true

-- `transition in {REQUEST_CHANGES, APPROVE}`
abbrev pub is_review : Transition → Bool
is_review request_changes = true
is_review approve = true
is_review _ = false

abbrev pub check : Bool → CourseLifecycleError → Result CourseLifecycleError (Unit {0})
check true e = ok tt
check false e = err e

abbrev pub and_then :
    {A : Type 0}
    → Result CourseLifecycleError (Unit {0})
    → Result CourseLifecycleError A
    → Result CourseLifecycleError A
and_then (ok u) rest = rest
and_then (err e) rest = err e

abbrev pub has_permission : AuthorizedActor → String → Bool
has_permission actor permission = str_mem permission actor.permissions

unfoldable pub require_permission :
    AuthorizedActor → String → Result CourseLifecycleError (Unit {0})
require_permission actor permission =
    check (has_permission actor permission) (course_failure course_permission_denied)

unfoldable pub require_mutable_version : CourseVersion → Result CourseLifecycleError (Unit {0})
require_mutable_version version =
    check (is_mutable version.status) (course_failure course_version_immutable)

unfoldable pub require_human : AuthorizedActor → Result CourseLifecycleError (Unit {0})
require_human actor = check (is_user actor.principal_type) (course_failure human_action_required)

-- The statuses at which a refused transition answers that the version is immutable.
abbrev pub is_settled : CourseStatus → Bool
is_settled CourseStatus.approved = true
is_settled CourseStatus.scheduled = true
is_settled CourseStatus.published = true
is_settled CourseStatus.withdrawn = true
is_settled CourseStatus.archived = true
is_settled _ = false

abbrev pub require_source : Transition → CourseStatus → Result CourseLifecycleError (Unit {0})
require_source transition status =
    check (allows_source transition status)
      (course_failure (if is_settled status then course_version_immutable else version_conflict))

abbrev pub reviewed_by :
    AuthorizedActor → CourseAggregate → Option Uuid → Result CourseLifecycleError Bool
reviewed_by actor aggregate none = err (course_failure service_contract_error)
reviewed_by actor aggregate (some submitter) =
    let self_review = submitter == actor.principal_id in
    if self_review && separates_reviewers aggregate.course.reviewer_policy
    then err (course_failure reviewer_separation_required)
    else ok self_review

abbrev pub self_review_of :
    AuthorizedActor → CourseAggregate → Transition → Result CourseLifecycleError Bool
self_review_of actor aggregate transition =
    if is_review transition
    then reviewed_by actor aggregate aggregate.submitted_by_actor_id
    else ok false

abbrev pub decision_of :
    Transition → Result CourseLifecycleError Bool → Result CourseLifecycleError TransitionDecision
decision_of transition (err e) = err e
decision_of transition (ok self_review) = ok (record {
  target_status = transition_target transition;
  required_permission = transition_permission transition;
  self_review = self_review;
})

unfoldable pub authorize_transition :
    AuthorizedActor → CourseAggregate → Transition → Result CourseLifecycleError TransitionDecision
unfolding require_permission require_human
authorize_transition actor aggregate transition =
    and_then (require_permission actor (transition_permission transition)) (
      and_then (if transition_requires_human transition then require_human actor else ok tt) (
        and_then (require_source transition aggregate.version.status)
          (decision_of transition (self_review_of actor aggregate transition))))
