-- ===== src/Courses/Tests.antt =====
-- Runs of the course policies and of the successor copy, and the theorems at them.
use lawrence_ai_lms.Prelude.{ℕ, ◌+◌, String, ◌≡◌, ◌↔◌, refl, true, false, none, some, List, [], ◌∷◌}
use lawrence_ai_lms.Prelude.Exec.{ok, err}
use lawrence_ai_lms.Json.{JsonObject, fields}
use lawrence_ai_lms.Learning.Types.{Uuid}
use lawrence_ai_lms.Courses.Types.{
  CourseStatus, draft, under_review, published, withdrawn, Course, CourseVersion, CourseAggregate,
  AuthorizedActor, Transition, TransitionDecision, submit_review, approve, publish, withdraw,
  OriginType, ReviewerPolicy, PrincipalType, RichTextBlock, CurriculumSection, snapshot, is_mutable,
}
use lawrence_ai_lms.Courses.Errors.{course_failure, reviewer_separation_required}
use lawrence_ai_lms.Courses.Policies.{
  permission_courses_drafts_write, permission_courses_review, permission_courses_publish,
  transition_target, transition_permission, require_permission, require_human, authorize_transition,
}
use lawrence_ai_lms.Courses.Lifecycle.{IsAuthorized, authorize_transition_iff}
use lawrence_ai_lms.Courses.History.{
  History, created, moved, Later, now, next, published-History, Later-is_mutable,
}
use lawrence_ai_lms.Courses.Hashing.{content_projection, canonical_content_hash}
use lawrence_ai_lms.Courses.Successor.{copy_successor}
use lawrence_ai_lms.Courses.Successor.Content.{copy_successor-content_projection}

abbrev editor : Uuid → AuthorizedActor
editor id = record {
  principal_id = id;
  tenant_id = 1;
  membership_id = some id;
  principal_type = PrincipalType.user;
  permissions =
      permission_courses_drafts_write ∷ permission_courses_review ∷ permission_courses_publish ∷ [];
}

abbrev course : Course
course = record {
  id = 2;
  tenant_id = 1;
  slug = "course";
  reviewer_policy = ReviewerPolicy.separate_reviewer_required;
  current_published_version_id = none;
  instructor_membership_ids = 7 ∷ [];
  row_version = 1;
}

abbrev block : Uuid → ℕ → RichTextBlock
block id position = record {
  id = id;
  tenant_id = 1;
  course_version_id = 3;
  lesson_id = 5;
  kind = "rich_text";
  position = position;
  row_version = 1;
  document = fields [];
}

-- The blocks are stored out of their order.
abbrev section : CurriculumSection
section = record {
  id = 4;
  tenant_id = 1;
  course_version_id = 3;
  title = "section";
  position = 1;
  row_version = 1;
  lessons =
      record {
        id = 5;
        tenant_id = 1;
        course_version_id = 3;
        section_id = 4;
        title = "lesson";
        position = 1;
        is_required = true;
        row_version = 1;
        content_blocks = block 6 2 ∷ block 7 1 ∷ [];
      }
      ∷ [];
}

abbrev hash_of : JsonObject → String
hash_of p = "00"

abbrev version : CourseStatus → CourseVersion
version status = record {
  id = 3;
  tenant_id = 1;
  course_id = 2;
  predecessor_version_id = none;
  version_number = 1;
  status = status;
  origin_type = OriginType.manual;
  primary_locale = "en";
  title = "course";
  description = "a course";
  content_hash = "sha256:00";
  submitted_hash = none;
  approved_hash = none;
  row_version = 1;
}

-- Submitted by the first editor.
abbrev aggregate : CourseStatus → CourseAggregate
aggregate status = record {
  course = course;
  version = version status;
  sections = section ∷ [];
  latest_review = none;
  submitted_by_actor_id = some 7;
}

abbrev decision : Transition → TransitionDecision
decision t = record {
  target_status = transition_target t;
  required_permission = transition_permission t;
  self_review = false;
}

submits :
    authorize_transition (editor 7) (aggregate draft) submit_review ≡ ok (decision submit_review)
unfolding authorize_transition require_permission require_human
submits = refl

approves : authorize_transition (editor 8) (aggregate under_review) approve ≡ ok (decision approve)
unfolding authorize_transition require_permission require_human
approves = refl

-- The submitter's own approval is refused.
approves_own :
    authorize_transition (editor 7) (aggregate under_review) approve
    ≡ err (course_failure reviewer_separation_required)
unfolding authorize_transition require_permission require_human
approves_own = refl

publishes :
    authorize_transition (editor 7) (aggregate CourseStatus.approved) publish
    ≡ ok (decision publish)
unfolding authorize_transition require_permission require_human
publishes = refl

withdraws : authorize_transition (editor 7) (aggregate published) withdraw ≡ ok (decision withdraw)
unfolding authorize_transition require_permission require_human
withdraws = refl

published_course : History (publish ∷ approve ∷ submit_review ∷ []) published
published_course =
    moved (editor 7) (aggregate CourseStatus.approved) (decision publish)
      (moved (editor 8) (aggregate under_review) (decision approve)
        (moved (editor 7) (aggregate draft) (decision submit_review) created refl submits refl) refl
        approves refl)
      refl publishes refl

withdrawn_course : Later published withdrawn
withdrawn_course =
    next (editor 7) (aggregate published) withdraw (decision withdraw) now refl withdraws refl

-- The copy puts the blocks in their order.
copied_blocks :
    content_projection
      (snapshot (copy_successor (λ n. 100 + n) hash_of 2 (aggregate published) 0).0)
    ≡ content_projection (snapshot (aggregate published))
unfolding copy_successor content_projection canonical_content_hash
copied_blocks = refl

authorize_transition_iff_example :
    (authorize_transition (editor 8) (aggregate under_review) approve ≡ ok (decision approve))
    ↔ IsAuthorized (editor 8) (aggregate under_review) approve (decision approve)
authorize_transition_iff_example =
    authorize_transition_iff (editor 8) (aggregate under_review) approve (decision approve)

published-History_example :
    (rest : List Transition) × ((publish ∷ approve ∷ submit_review ∷ [])
      ≡ publish ∷ approve ∷ submit_review ∷ rest)
published-History_example = published-History published_course

Later-is_mutable_example : is_mutable withdrawn ≡ false
Later-is_mutable_example = Later-is_mutable withdrawn_course refl

copy_successor-content_projection_example :
    content_projection
      (snapshot (copy_successor (λ n. 100 + n) hash_of 2 (aggregate published) 0).0)
    ≡ content_projection (snapshot (aggregate published))
copy_successor-content_projection_example =
    copy_successor-content_projection (λ n. 100 + n) hash_of 2 (aggregate published) 0
