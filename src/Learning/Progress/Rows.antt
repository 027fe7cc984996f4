-- ===== src/Learning/Progress/Rows.antt =====
-- What a save leaves in the tables of progress.
use lawrence_ai_lms.Prelude.{
  ℕ, ◌+◌, ◌≡◌, refl, ◌∙◌, inl, inr, true, false, Option, none, some, List, [], ◌∷◌, ◌++◌, arith,
  any, find?, replace_first, any-replace_first, any-append, find?-passes, find?-replace_first,
  find?-append_new, Bool-cases,
}
use lawrence_ai_lms.Prelude.Exec.{ok, ◌>>=◌}
use lawrence_ai_lms.Learning.Types.{Uuid, Datetime, LessonProgressState, CourseProgressState}
use lawrence_ai_lms.Learning.Store.{LessonProgressRow, CourseProgressRow, World}
use lawrence_ai_lms.Learning.Repository.{
  ProgressScope, is_lesson_row, is_course_row, same_lesson_key, new_lesson_row, moved_lesson_row,
  new_course_row, moved_course_row, save_lesson_progress, save_course_progress, row_version_of,
}
use lawrence_ai_lms.Learning.Progress.Completion.{UniqueLessons, key_scope}

abbrev pub saved_lesson :
    ProgressScope
    → Uuid
    → Option LessonProgressRow
    → LessonProgressState
    → Option Datetime
    → LessonProgressRow
saved_lesson s l none next at = new_lesson_row s l next at
saved_lesson s l (some r) next at = moved_lesson_row r next at

abbrev pub with_lesson :
    ProgressScope
    → Uuid
    → Option LessonProgressRow
    → LessonProgressRow
    → List LessonProgressRow
    → List LessonProgressRow
with_lesson s l none y rows = rows ++ (y ∷ [])
with_lesson s l (some r) y rows = replace_first (is_lesson_row s l) y rows

abbrev pub lesson_saved :
    ProgressScope
    → Uuid
    → Option LessonProgressRow
    → LessonProgressState
    → Option Datetime
    → World
    → World
lesson_saved s l found next at w = record w {
  database = record w.database {
    lesson_progress =
        with_lesson s l found (saved_lesson s l found next at) w.database.lesson_progress;
  };
}

abbrev pub FreeKey : ProgressScope → Uuid → Option LessonProgressRow → World → Type 0
FreeKey s l none w = any (same_lesson_key s l) w.database.lesson_progress ≡ false
FreeKey s l (some r) w = Unit

pub save_lesson_progress-eq-ok :
    (s : ProgressScope) (l : Uuid) (found : Option LessonProgressRow) (next : LessonProgressState)
    (at : Option Datetime) (w : World) {u : Unit {0}} {t : World}
    → save_lesson_progress s l found next at w ≡ (ok u, t)
    → (t ≡ lesson_saved s l found next at w) × FreeKey s l found w
unfolding save_lesson_progress ◌>>=◌
save_lesson_progress-eq-ok s l none next at w e = ground arith
save_lesson_progress-eq-ok s l (some r) next at w e = (cc, tt)

saved_lesson-key :
    (s : ProgressScope) (l : Uuid) (r : LessonProgressRow)
    → is_lesson_row s l r ≡ true
    → (r.tenant_id ≡ s.tenant_id)
      × (r.enrollment_id ≡ s.enrollment_id)
      × (r.course_version_id ≡ s.course_version_id)
      × (r.lesson_id ≡ l)
saved_lesson-key s l r h = ground arith

-- The saved row is what the next command reads.
pub find?-lesson_saved :
    (s : ProgressScope) (l : Uuid) (found : Option LessonProgressRow) (next : LessonProgressState)
    (at : Option Datetime) (w : World)
    → find? (is_lesson_row s l) w.database.lesson_progress ≡ found
    → find? (is_lesson_row s l) (lesson_saved s l found next at w).database.lesson_progress
      ≡ some (saved_lesson s l found next at)
find?-lesson_saved s l none next at w f =
    find?-append_new (is_lesson_row s l) w.database.lesson_progress _ (ground arith) f
find?-lesson_saved s l (some r) next at w f =
    find?-replace_first (is_lesson_row s l) _ w.database.lesson_progress
      (find?-passes (is_lesson_row s l) w.database.lesson_progress f) f

UniqueLessons-append :
    (s : ProgressScope) (l : Uuid) (next : LessonProgressState) (at : Option Datetime)
    (rows : List LessonProgressRow)
    → UniqueLessons rows
    → any (same_lesson_key s l) rows ≡ false
    → UniqueLessons (rows ++ (new_lesson_row s l next at ∷ []))
UniqueLessons-append s l next at [] u free = (refl, tt)
UniqueLessons-append s l next at (r ∷ rows) u free = (
  any-append (same_lesson_key (key_scope r) r.lesson_id) rows (new_lesson_row s l next at)
      ∙ ground arith,
  UniqueLessons-append s l next at rows u.1 (ground arith),
)

UniqueLessons-replace :
    (s : ProgressScope) (l : Uuid) (next : LessonProgressState) (at : Option Datetime)
    (r : LessonProgressRow) (rows : List LessonProgressRow)
    → UniqueLessons rows
    → find? (is_lesson_row s l) rows ≡ some r
    → UniqueLessons (replace_first (is_lesson_row s l) (moved_lesson_row r next at) rows)
UniqueLessons-replace s l next at r [] u f = tt
UniqueLessons-replace s l next at r (x ∷ rows) u f = elim (Bool-cases (is_lesson_row s l x)) [
  | inl h ↦ rw h (let same : x ≡ r = ground arith in rw (← same) u)
  | inr h ↦ rw h (
    any-replace_first (same_lesson_key (key_scope x) x.lesson_id) (is_lesson_row s l) _ rows
          (rw h at f) refl
        ∙ u.0,
    UniqueLessons-replace s l next at r rows u.1 (rw h at f),
  )
]

pub UniqueLessons-lesson_saved :
    (s : ProgressScope) (l : Uuid) (found : Option LessonProgressRow) (next : LessonProgressState)
    (at : Option Datetime) (w : World)
    → UniqueLessons w.database.lesson_progress
    → find? (is_lesson_row s l) w.database.lesson_progress ≡ found
    → FreeKey s l found w
    → UniqueLessons (lesson_saved s l found next at w).database.lesson_progress
UniqueLessons-lesson_saved s l none next at w u f free =
    UniqueLessons-append s l next at w.database.lesson_progress u free
UniqueLessons-lesson_saved s l (some r) next at w u f free =
    UniqueLessons-replace s l next at r w.database.lesson_progress u f

abbrev pub saved_course :
    ProgressScope
    → Uuid
    → Option CourseProgressRow
    → CourseProgressState
    → ℕ
    → ℕ
    → Datetime
    → CourseProgressRow
saved_course s l none state required completed at = new_course_row s l state required completed at
saved_course s l (some r) state required completed at = moved_course_row r l state completed at

abbrev pub with_course :
    ProgressScope
    → Option CourseProgressRow
    → CourseProgressRow
    → List CourseProgressRow
    → List CourseProgressRow
with_course s none y rows = rows ++ (y ∷ [])
with_course s (some r) y rows = replace_first (is_course_row s) y rows

abbrev pub course_saved :
    ProgressScope → Option CourseProgressRow → CourseProgressRow → World → World
course_saved s found y w = record w {
  database = record w.database {
    course_progress = with_course s found y w.database.course_progress;
  };
}

-- A course row that is saved has the required count of the course, and a completed count within it.
pub save_course_progress-eq-ok :
    (s : ProgressScope) (l : Uuid) (found : Option CourseProgressRow) (state : CourseProgressState)
    (required completed : ℕ) (at : Datetime) (w : World) {n : ℕ} {t : World}
    → save_course_progress s l found state required completed at w ≡ (ok n, t)
    → (t ≡ course_saved s found (saved_course s l found state required completed at) w)
      × (n ≡ row_version_of found + 1)
      × ((saved_course s l found state required completed at).required_lesson_count ≡ required)
unfolding save_course_progress ◌>>=◌
save_course_progress-eq-ok s l none state required completed at w e = ground arith
save_course_progress-eq-ok s l (some r) state required completed at w e = ground arith

pub find?-course_saved :
    (s : ProgressScope) (l : Uuid) (found : Option CourseProgressRow) (state : CourseProgressState)
    (required completed : ℕ) (at : Datetime) (w : World)
    → find? (is_course_row s) w.database.course_progress ≡ found
    → find?
        (is_course_row s)
        (course_saved s found
          (saved_course s l found state required completed at)
          w).database.course_progress
      ≡ some (saved_course s l found state required completed at)
find?-course_saved s l none state required completed at w f =
    find?-append_new (is_course_row s) w.database.course_progress _ (ground arith) f
find?-course_saved s l (some r) state required completed at w f =
    find?-replace_first (is_course_row s) _ w.database.course_progress
      (find?-passes (is_course_row s) w.database.course_progress f) f
