-- ===== src/Courses/Service/Evolved.antt =====
-- The aggregates that the operations of backend/src/lms/modules/courses/services.py put together.
use lawrence_ai_lms.Prelude.{
  refl, ℕ, ◌≡◌, sym, ap, ◌∙◌, subst, ℤ, Bool, true, false, some, inl, inr, option_eq, Bool-cases,
}
use lawrence_ai_lms.Prelude.Exec.{
  Result, ok, err, >>=-eq-ok, guarded-eq-ok, lift->>=-eq-ok, pure-eq-ok,
}
use lawrence_ai_lms.Learning.Types.{Uuid}
use lawrence_ai_lms.Courses.Types.{
  draft, published, is_mutable, Course, CourseVersion, CourseAggregate, AuthorizedActor, Transition,
  publish, withdraw, submit_review, request_changes, approve, archive, TransitionDecision, snapshot,
}
use lawrence_ai_lms.Courses.Errors.{CourseLifecycleError}
use lawrence_ai_lms.Courses.Policies.{require_mutable_version, check}
use lawrence_ai_lms.Courses.Validation.Decides.{All}
use lawrence_ai_lms.Courses.Commands.{
  UpdateCourseVersionCommand, ReplaceCurriculumCommand, TransitionCourseVersionCommand,
}
use lawrence_ai_lms.Courses.Hashing.{canonical_content_hash}
use lawrence_ai_lms.Courses.Successor.{copy_successor}
use lawrence_ai_lms.Courses.Service.Ports.{CoursePorts, CourseWorld}
use lawrence_ai_lms.Courses.Service.Curriculum.{materialize_curriculum}
use lawrence_ai_lms.Courses.Service.Drafts.{new_aggregate, updated_aggregate, load_draft}
use lawrence_ai_lms.Courses.Service.Transitions.{
  transition_course, transition_updated, decide_transition,
}
use lawrence_ai_lms.Courses.Service.Bound.{
  IsBound, Binds, new_aggregate-IsBound, updated_aggregate-IsBound, with_sections-IsBound,
  copy_successor-IsBound,
}
use lawrence_ai_lms.Courses.Service.Decided.{decide_transition-IsDecided, decide_transition-IsBound}
use lawrence_ai_lms.Courses.Service.Edges.{
  IsRooted, IsRootedSection, materialize_curriculum-IsRooted, materialize_curriculum-eq-ok,
  copy_successor-IsRooted,
}

-- An aggregate starts as a draft or as a successor, is edited where `load_draft` loads it for editing,
-- and moves by decided transitions.
pub data Evolved {D : Type 0} (ports : CoursePorts D) : CourseAggregate → Type 0 where
  created :
      (course : Course) (version : CourseVersion)
      → version.status ≡ draft
      → Evolved ports (new_aggregate ports.digest course version)
  copied :
      (source : CourseAggregate) (version_number n : ℕ)
      → Evolved ports source
      → Evolved ports (copy_successor ports.new_uuid ports.digest version_number source n).0
  edited :
      (actor_id tenant_id course_id version_id : Uuid) (command : UpdateCourseVersionCommand)
      (a : CourseAggregate) (w w' : CourseWorld D)
      → Evolved ports a
      → load_draft ports actor_id tenant_id course_id version_id
          command.expected_version_row_version w
        ≡ (ok a, w')
      → Evolved ports (updated_aggregate ports.digest command a)
  replaced :
      (actor_id tenant_id course_id version_id : Uuid) (command : ReplaceCurriculumCommand)
      (a u : CourseAggregate) (w w' : CourseWorld D) (n m : ℕ)
      → Evolved ports a
      → load_draft ports actor_id tenant_id course_id version_id
          command.expected_version_row_version w
        ≡ (ok a, w')
      → materialize_curriculum ports.new_uuid a ports.digest command.sections n ≡ (ok u, m)
      → Evolved ports u
  decided :
      (tenant_id version_id : Uuid) (command : TransitionCourseVersionCommand)
      (actor : AuthorizedActor) (a u : CourseAggregate) (d : TransitionDecision)
      (w w' : CourseWorld D)
      → Evolved ports a
      → decide_transition ports tenant_id version_id command actor a w ≡ (ok (d, u), w')
      → Evolved ports u

check-eq-ok : (b : Bool) (e : CourseLifecycleError) {u : Unit {0}} → check b e ≡ ok u → b ≡ true
check-eq-ok true e h = refl
check-eq-ok false e h = cc

-- What is loaded for editing is open to editing.
load_draft-is_mutable :
    {D : Type 0} (ports : CoursePorts D) (actor_id tenant_id course_id version_id : Uuid)
    (expected : ℤ) (w : CourseWorld D) {a : CourseAggregate} {w' : CourseWorld D}
    → load_draft ports actor_id tenant_id course_id version_id expected w ≡ (ok a, w')
    → is_mutable a.version.status ≡ true
unfolding load_draft require_mutable_version
load_draft-is_mutable ports actor_id tenant_id course_id version_id expected w h =
    let (actor, w1, p1, h1) = >>=-eq-ok _ _ w h in
    let (a, w2, p2, h2) = >>=-eq-ok _ _ w1 h1 in
    let (u, p3, h3) = lift->>=-eq-ok _ w2 _ h2 in
    let (p4, h4) = guarded-eq-ok _ _ _ w2 h3 in
    subst (λ x. is_mutable x.version.status ≡ true) (pure-eq-ok _ w2 h4).0 (check-eq-ok _ _ p3)

module _ {D : Type 0} (ports : CoursePorts D) where
  -- In every aggregate that the service puts together the content hash is right; a version under
  -- review has the hash of its content submitted, and from approval on that hash is submitted and
  -- approved.
  pub Evolved-IsBound : {a : CourseAggregate} → Evolved ports a → IsBound ports.digest a
  Evolved-IsBound (created course version h) = new_aggregate-IsBound ports.digest course version h
  Evolved-IsBound (copied source version_number n h) =
      copy_successor-IsBound ports.digest ports.new_uuid version_number source n
  Evolved-IsBound (edited actor_id tenant_id course_id version_id command a w w' h loads) =
      updated_aggregate-IsBound ports.digest command a
        (load_draft-is_mutable ports actor_id tenant_id course_id version_id _ w loads)
  Evolved-IsBound
        (replaced actor_id tenant_id course_id version_id command a u w w' n m h loads e) =
      let editable =
        load_draft-is_mutable ports actor_id tenant_id course_id version_id _ w loads in
      let (sections, same) =
        materialize_curriculum-eq-ok ports.new_uuid a ports.digest command.sections n e in
      subst (IsBound ports.digest) same
        (with_sections-IsBound ports.digest ports.new_uuid a sections editable)
  Evolved-IsBound (decided tenant_id version_id command actor a u d w w' h e) =
      decide_transition-IsBound ports tenant_id version_id command actor a w (Evolved-IsBound h) e

  tenant_or : Uuid → Result CourseLifecycleError Course → Uuid
  tenant_or d (ok course) = course.tenant_id
  tenant_or d (err e) = d

  pointer_keeps-tenant :
      (t : Transition) (a : CourseAggregate) {course : Course}
      → transition_course t a ≡ ok course
      → course.tenant_id ≡ a.course.tenant_id
  unfolding transition_course tenant_or
  pointer_keeps-tenant publish a h = sym (ap (tenant_or a.course.tenant_id) h)
  pointer_keeps-tenant withdraw a h =
      elim (Bool-cases (option_eq a.course.current_published_version_id (some a.version.id))) [
        | inl e ↦ sym (ap (tenant_or a.course.tenant_id) (rw e at h))
        | inr e ↦ absurd (refused (rw e at h))
      ]
    where
      refused :
          {x : CourseLifecycleError} {y : Course}
          → ◌≡◌ {A = Result CourseLifecycleError Course} (err x) (ok y)
          → ⊥
      refused q = cc
  pointer_keeps-tenant submit_review a h = sym (ap (tenant_or a.course.tenant_id) h)
  pointer_keeps-tenant request_changes a h = sym (ap (tenant_or a.course.tenant_id) h)
  pointer_keeps-tenant approve a h = sym (ap (tenant_or a.course.tenant_id) h)
  pointer_keeps-tenant archive a h = sym (ap (tenant_or a.course.tenant_id) h)

  -- In every aggregate that the service puts together each section, lesson and block hangs under its
  -- own parent, in the version and the tenant of the aggregate.
  pub Evolved-IsRooted : {a : CourseAggregate} → Evolved ports a → IsRooted a
  unfolding new_aggregate updated_aggregate transition_updated
  Evolved-IsRooted (created course version h) = tt
  Evolved-IsRooted (copied source version_number n h) =
      copy_successor-IsRooted ports.new_uuid ports.digest version_number source n
  Evolved-IsRooted (edited actor_id tenant_id course_id version_id command a w w' h loads) =
      Evolved-IsRooted h
  Evolved-IsRooted
        (replaced actor_id tenant_id course_id version_id command a u w w' n m h loads e) =
      materialize_curriculum-IsRooted ports.new_uuid a ports.digest command.sections n e
  Evolved-IsRooted (decided tenant_id version_id command actor a u d w w' h e) =
      let i = decide_transition-IsDecided ports tenant_id version_id command actor a w e in
      subst IsRooted i.updated (
        subst (λ x. All (IsRootedSection x a.version.id) a.sections)
          (sym (pointer_keeps-tenant command.transition a i.pointed)) (Evolved-IsRooted h))

  -- In a published version that the service has put together the content is what was submitted and
  -- what was approved: both recorded hashes are the hash of the content as it stands.
  pub Evolved-published :
      {a : CourseAggregate}
      → Evolved ports a
      → a.version.status ≡ published
      → (a.version.submitted_hash ≡ some (canonical_content_hash ports.digest (snapshot a)))
        × (a.version.approved_hash ≡ some (canonical_content_hash ports.digest (snapshot a)))
  Evolved-published {a} h e =
      let i = Evolved-IsBound h in
      let v = a.version in
      let (submitted, accepted) =
        subst (λ s. Binds s v.content_hash v.submitted_hash v.approved_hash) e i.bound in
      (submitted ∙ ap some i.right, accepted ∙ ap some i.right)
