-- ===== src/Courses/Service/Outcome.antt =====
-- What a transition that returns has done: backend/src/lms/modules/courses/services.py.
use lawrence_ai_lms.Prelude.{String, ◌≡◌, ◌⊎◌, true, none, some, List}
use lawrence_ai_lms.Prelude.Exec.{ok}
use lawrence_ai_lms.Json.{JsonValue}
use lawrence_ai_lms.Learning.Types.{Uuid}
use lawrence_ai_lms.Courses.Types.{
  CourseAggregate, CourseSnapshot, AuthorizedActor, TransitionDecision, snapshot,
}
use lawrence_ai_lms.Courses.Commands.{
  TransitionCourseVersionCommand, course_snapshot, transition_of, IdempotencyScope,
}
use lawrence_ai_lms.Courses.Policies.{has_permission, transition_permission}
use lawrence_ai_lms.Courses.Validation.Transition.{IsTransitionCommand}
use lawrence_ai_lms.Courses.Service.Ports.{
  CoursePorts, CourseWorld, on_database, is_in_scope, is_actor, authorize_for, reserve_course,
  write_facts,
}
use lawrence_ai_lms.Courses.Service.Payloads.{
  transition_event, transition_fields, transition_payload, transition_request,
}
use lawrence_ai_lms.Courses.Service.Ready.{IsAdmitted}
use lawrence_ai_lms.Courses.Service.Commands.{scope_of}

module _ {D : Type 0} (ports : CoursePorts D) (actor_id tenant_id course_id version_id : Uuid)
    (command : TransitionCourseVersionCommand) (key : String) where
  abbrev scope : IdempotencyScope
  scope = scope_of tenant_id actor_id (transition_of course_id version_id command.transition) key

  abbrev request_hash : String
  request_hash = ports.digest (transition_request command)

  -- The steps of a transition that is carried out: the version is loaded in its scope, decided,
  -- saved, its fact is written and its answer stored, in this order.
  pub record IsCarriedOut (actor : AuthorizedActor) (s : CourseSnapshot)
      (before after : CourseWorld D) : Type 0 where
    pub loaded : CourseAggregate
    pub decision : TransitionDecision
    pub updated : CourseAggregate
    pub stored : CourseAggregate
    pub more : List (String × JsonValue)
    pub at_load : CourseWorld D
    pub at_save : CourseWorld D
    pub saved : CourseWorld D
    pub written : CourseWorld D
    pub loads :
        on_database (ports.load tenant_id course_id version_id) before ≡ (ok (some loaded), at_load)
    pub scoped : is_in_scope tenant_id course_id version_id loaded ≡ true
    pub decided :
        IsAdmitted ports tenant_id version_id command actor loaded decision updated at_load at_save
    pub saves :
        on_database
          (ports.save updated command.expected_version_row_version
            command.expected_course_row_version)
          at_save
        ≡ (ok stored, saved)
    pub tells :
        transition_fields command updated.latest_review decision.self_review
          loaded.course.current_published_version_id
        ≡ ok more
    pub writes :
        write_facts ports actor stored
          (transition_event command.transition)
          (transition_payload stored more)
          saved
        ≡ (ok tt, written)
    pub completes :
        on_database (ports.complete scope request_hash (course_snapshot (snapshot stored))) written
        ≡ (ok tt, after)
    pub answers : snapshot stored ≡ s

  -- A call that returns was well formed and by an actor who may make the transition; it repeats the
  -- stored answer of the same request, or it is carried out.
  pub record IsTransitioned (s : CourseSnapshot) (before after : CourseWorld D) : Type 0 where
    pub well_formed : IsTransitionCommand command
    pub actor : AuthorizedActor
    pub authorized : CourseWorld D
    pub authorizes :
        authorize_for ports actor_id tenant_id course_id
          (transition_permission command.transition)
          before
        ≡ (ok actor, authorized)
    pub own : is_actor actor_id tenant_id actor ≡ true
    pub permitted : has_permission actor (transition_permission command.transition) ≡ true
    pub reserved : CourseWorld D
    pub outcome :
        (reserve_course ports scope request_hash authorized
          ≡ (ok (some (course_snapshot s)), after))
        ⊎ ((reserve_course ports scope request_hash authorized ≡ (ok none, reserved))
            × IsCarriedOut actor s reserved after)
