-- ===== src/Courses/ServiceTests.antt =====
-- The theorems on the course service and its validation, at concrete runs.
use lawrence_ai_lms.Prelude.{◌≡◌, ◌↔◌, some}
use lawrence_ai_lms.Prelude.Exec.{ok}
use lawrence_ai_lms.Json.{object}
use lawrence_ai_lms.Courses.Types.{submit_review, snapshot}
use lawrence_ai_lms.Courses.Hashing.{canonical_content_hash}
use lawrence_ai_lms.Courses.Validation.Documents.{validate_rich_text_document}
use lawrence_ai_lms.Courses.Validation.Requests.{validate_transition}
use lawrence_ai_lms.Courses.Validation.Identifiers.{validate_replace_curriculum}
use lawrence_ai_lms.Courses.Validation.Complete.{validate_complete_course}
use lawrence_ai_lms.Courses.Validation.Document.{IsDocument, validate_rich_text_document_iff}
use lawrence_ai_lms.Courses.Validation.Transition.{IsTransitionCommand, validate_transition_iff}
use lawrence_ai_lms.Courses.Validation.Unrepeated.{
  IsCurriculumCommand, validate_replace_curriculum_iff,
}
use lawrence_ai_lms.Courses.Validation.Course.{IsCompleteCourse, validate_complete_course_iff}
use lawrence_ai_lms.Courses.Service.Transitions.{decide_transition}
use lawrence_ai_lms.Courses.Service.Bound.{IsBound}
use lawrence_ai_lms.Courses.Service.Edges.{IsRooted}
use lawrence_ai_lms.Courses.Service.Evolved.{Evolved-IsBound, Evolved-IsRooted, Evolved-published}
use lawrence_ai_lms.Courses.Service.Ready.{IsAdmitted, decide_transition_iff}
use lawrence_ai_lms.Courses.Memory.{author, document, memory, at, decision_for}
use lawrence_ai_lms.Courses.Runs.{
  full_draft, submission, submitted, released, crowded, published_memory, is_released,
}

Evolved-published_example :
    (released.version.submitted_hash
      ≡ some (canonical_content_hash memory.digest (snapshot released)))
    × (released.version.approved_hash
        ≡ some (canonical_content_hash memory.digest (snapshot released)))
Evolved-published_example = Evolved-published memory published_memory is_released

Evolved-IsBound_example : IsBound memory.digest released
Evolved-IsBound_example = Evolved-IsBound memory published_memory

Evolved-IsRooted_example : IsRooted released
Evolved-IsRooted_example = Evolved-IsRooted memory published_memory

validate_rich_text_document_iff_example :
    (validate_rich_text_document (object document) ≡ ok tt) ↔ IsDocument (object document)
validate_rich_text_document_iff_example = validate_rich_text_document_iff (object document)

validate_transition_iff_example :
    (validate_transition submission ≡ ok tt) ↔ IsTransitionCommand submission
validate_transition_iff_example = validate_transition_iff submission

validate_replace_curriculum_iff_example :
    (validate_replace_curriculum crowded ≡ ok tt) ↔ IsCurriculumCommand crowded
validate_replace_curriculum_iff_example = validate_replace_curriculum_iff crowded

validate_complete_course_iff_example :
    (validate_complete_course (snapshot full_draft) ≡ ok tt)
    ↔ IsCompleteCourse (snapshot full_draft)
validate_complete_course_iff_example = validate_complete_course_iff (snapshot full_draft)

decide_transition_iff_example :
    (decide_transition memory 1 3 submission (author 7) full_draft (at full_draft)
      ≡ (ok (decision_for submit_review, submitted), at full_draft))
    ↔ IsAdmitted memory 1 3 submission
        (author 7)
        full_draft
        (decision_for submit_review)
        submitted
        (at full_draft)
        (at full_draft)
decide_transition_iff_example = decide_transition_iff memory 1 3 submission (author 7) full_draft
