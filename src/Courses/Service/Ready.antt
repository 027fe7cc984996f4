-- ===== src/Courses/Service/Ready.antt =====
-- When a transition of backend/src/lms/modules/courses/services.py is decided, and to what.
use lawrence_ai_lms.Prelude.{
  ◌+◌, pos, String, ◌≡◌, sym, ap, ◌∙◌, ◌↔◌, false, Option, not, eq_ℤ_iff, str_eq, str_eq_iff,
}
use lawrence_ai_lms.Prelude.Exec.{ok, guarded-ok, >>=-ok}
use lawrence_ai_lms.Learning.Types.{Uuid}
use lawrence_ai_lms.Courses.Types.{
  Course, CourseReview, CourseAggregate, AuthorizedActor, TransitionDecision, snapshot,
}
use lawrence_ai_lms.Courses.Commands.{TransitionCourseVersionCommand}
use lawrence_ai_lms.Courses.Hashing.{canonical_content_hash}
use lawrence_ai_lms.Courses.Lifecycle.{IsAuthorized, authorize_transition_iff}
use lawrence_ai_lms.Courses.Service.Ports.{CoursePorts, CourseWorld}
use lawrence_ai_lms.Courses.Service.Transitions.{
  submitted_after, approved_after, submitter_after, transition_updated, decide_transition,
}
use lawrence_ai_lms.Courses.Service.Admitted.{
  FitsSubmission, FitsHashes, Points, Records, FitsSubmission-lemma, FitsHashes-lemma, Points-lemma,
  Records-after, Records-unique,
}
use lawrence_ai_lms.Courses.Service.Reviewed.{
  IsSourced, check_sources_iff, Reviews, transition_review_iff,
}
use lawrence_ai_lms.Courses.Service.Decided.{IsDecided, decide_transition-IsDecided}

module _ {D : Type 0} (ports : CoursePorts D) (tenant_id version_id : Uuid)
    (command : TransitionCourseVersionCommand) (actor : AuthorizedActor) (a : CourseAggregate) where
  -- The hash of the content of the aggregate.
  abbrev content : String
  content = canonical_content_hash ports.digest (snapshot a)

  -- What a transition needs and what it makes: the expected version and content, the right to the
  -- transition, allowed sources, a complete course for a submission, the content that was submitted
  -- or approved, the course's pointer, the review, and the aggregate, one row version up.
  pub record IsAdmitted (d : TransitionDecision) (u : CourseAggregate) (w w' : CourseWorld D)
      : Type 0 where
    pub versioned : command.expected_version_row_version ≡ pos a.version.row_version
    pub right : a.version.content_hash ≡ content
    pub expected : command.expected_content_hash ≡ content
    pub authorized : IsAuthorized actor a command.transition d
    pub asked : CourseWorld D
    pub sourced : IsSourced ports command.transition a w asked
    pub complete : FitsSubmission command.transition (snapshot a)
    pub of_content : FitsHashes command.transition a.version content
    pub course : Course
    pub points : Points command.transition a course
    pub review : Option CourseReview
    pub reviewed :
        Reviews ports tenant_id version_id command.reason_codes d content asked command.transition
          actor a review w'
    pub submitted : Option String
    pub accepted : Option String
    pub submitter : Option Uuid
    pub recorded : Records command.transition actor a content submitted accepted submitter
    pub updated : u ≡ record {
      course = course;
      version = record a.version {
        status = d.target_status;
        content_hash = content;
        submitted_hash = submitted;
        approved_hash = accepted;
        row_version = a.version.row_version + 1;
      };
      sections = a.sections;
      latest_review = review;
      submitted_by_actor_id = submitter;
    }

  module _ {d : TransitionDecision} {u : CourseAggregate} {w w' : CourseWorld D} where
    IsDecided-IsAdmitted :
        IsDecided ports tenant_id version_id command actor a d u w w' → IsAdmitted d u w w'
    unfolding transition_updated
    IsDecided-IsAdmitted i = record {
      versioned = sym ((eq_ℤ_iff _ _).0 i.versioned);
      right = i.right;
      expected = i.expected;
      authorized = (authorize_transition_iff actor a command.transition d).0 i.authorized;
      asked = i.asked;
      sourced = (check_sources_iff ports command.transition a w).0 i.sources;
      complete = (FitsSubmission-lemma command.transition a).0 i.complete;
      of_content = (FitsHashes-lemma command.transition a.version content).0 i.unrefused;
      course = i.course;
      points = (Points-lemma command.transition a i.course).0 i.pointed;
      review = i.review;
      reviewed =
          (transition_review_iff ports tenant_id version_id command command.transition actor d
              content a i.asked).0
            i.reviews;
      submitted = submitted_after command.transition a.version content;
      accepted = approved_after command.transition a.version content;
      submitter = submitter_after command.transition actor a.submitted_by_actor_id;
      recorded = Records-after command.transition actor a content;
      updated = sym i.updated;
    }

    IsAdmitted-updated :
        (i : IsAdmitted d u w w')
        → transition_updated command.transition actor d content a i.course i.review ≡ u
    unfolding transition_updated
    IsAdmitted-updated i =
        let (p, q, r) = Records-unique command.transition actor a content i.recorded in
        (λ j. record {
          course = i.course;
          version = record a.version {
            status = d.target_status;
            content_hash = content;
            submitted_hash = sym p j;
            approved_hash = sym q j;
            row_version = a.version.row_version + 1;
          };
          sections = a.sections;
          latest_review = i.review;
          submitted_by_actor_id = sym r j;
        })
        ∙ sym i.updated

    IsAdmitted-decide_transition :
        IsAdmitted d u w w'
        → decide_transition ports tenant_id version_id command actor a w ≡ (ok (d, u), w')
    unfolding decide_transition
    IsAdmitted-decide_transition i =
        let decides = (authorize_transition_iff actor a command.transition d).1 i.authorized in
        let asks = (check_sources_iff ports command.transition a w).1 i.sourced in
        let complete = (FitsSubmission-lemma command.transition a).1 i.complete in
        let unrefused = (FitsHashes-lemma command.transition a.version content).1 i.of_content in
        let points = (Points-lemma command.transition a i.course).1 i.points in
        let reviews =
          (transition_review_iff ports tenant_id version_id command command.transition actor d
              content a i.asked).1
            i.reviewed in
        guarded-ok _ _ _ w (ap not ((eq_ℤ_iff _ _).1 (sym i.versioned))) (
          guarded-ok _ _ _ w (not-same _ _ i.right) (
            guarded-ok _ _ _ w (not-same _ _ i.expected) (
              >>=-ok _ _ w (ap (λ x. (x, w)) decides)
              ∙ (>>=-ok _ _ w asks
                  ∙ (>>=-ok _ _ i.asked (ap (λ x. (x, i.asked)) complete)
                      ∙ guarded-ok _ _ _ i.asked unrefused (
                          >>=-ok _ _ i.asked (ap (λ x. (x, i.asked)) points)
                          ∙ (>>=-ok _ _ i.asked reviews
                              ∙ ap (λ x. (ok (d, x), w')) (IsAdmitted-updated i))))))))
      where
        not-same : (s t : String) → s ≡ t → not (str_eq s t) ≡ false
        not-same s t h = ap not ((str_eq_iff s t).1 h)

    -- A transition is decided, to a decision and an aggregate, exactly if the version and the content
    -- are those the caller expects, the actor may make the transition, the sources of a generated
    -- version allow its approval or publication, a submission is of a complete course, a review of
    -- the content submitted, a publication of the content submitted and approved, a withdrawal of
    -- the version that the course points to and a review by a member; and the aggregate is the one
    -- loaded with the status, the hashes, the pointer, the review, the submitter and the row versions
    -- that the transition gives it.
    pub decide_transition_iff :
        (decide_transition ports tenant_id version_id command actor a w ≡ (ok (d, u), w'))
        ↔ IsAdmitted d u w w'
    decide_transition_iff = (
      λ h.
          IsDecided-IsAdmitted
            (decide_transition-IsDecided ports tenant_id version_id command actor a w h),
      IsAdmitted-decide_transition,
    )
