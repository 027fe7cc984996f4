-- ===== src/Courses/Validation/Decides.antt =====
-- What a check of backend/src/lms/modules/courses/validation.py decides: it adds no error where a
-- condition holds, and leaves no empty collector where it fails.
use lawrence_ai_lms.Prelude.{
  ℕ, zero, suc, take, if◌then◌else◌, String, ◌≡◌, refl, ap, ◌∙◌, ◌↔◌, ◌⊎◌, inl, inr, Bool, true,
  false, List, [], ◌∷◌, ltb, leb, length, arith, Bool-cases,
}
use lawrence_ai_lms.Prelude.Exec.{ok}
use lawrence_ai_lms.Json.{
  JsonValue, null, text, integer, uuid, timestamp, flag, array, object, JsonObject,
}
use lawrence_ai_lms.Learning.Errors.{FieldError}
use lawrence_ai_lms.Courses.Validation.Collector.{
  Errors, collected, crashed, Check, add, crash, demand, ◌then◌, accept, raise_if_any, run_checks,
  element, check_each, values, with_mapping, with_array, max_errors,
}

abbrev no_errors : Errors
no_errors = collected []

pub record Decides (c : Check) (P : Type 0) : Type 0 where
  pub accepts : (errors : Errors) → P → c errors ≡ errors
  pub rejects : (errors : Errors) → c errors ≡ no_errors → (errors ≡ no_errors) × P

-- A condition on every item of a list.
abbrev pub All : {A : Type 0} → (A → Type 0) → List A → Type 0
All P [] = Unit
All P (x ∷ xs) = P x × All P xs

-- A condition on the fields of an object, and on the items of an array.
abbrev pub IsObject : (JsonObject → Type 0) → JsonValue → Type 0
IsObject P (object o) = P o
IsObject P _ = ⊥

abbrev pub IsArray : (List JsonValue → Type 0) → JsonValue → Type 0
IsArray P (array vs) = P (values vs)
IsArray P _ = ⊥

nonempty-add : (e : FieldError) (errors : Errors) → add e errors ≡ no_errors → ⊥
unfolding add
nonempty-add e crashed h = cc
nonempty-add e (collected []) h = cc
nonempty-add e (collected (x ∷ xs)) h = elim (Bool-cases (ltb (length (x ∷ xs)) max_errors)) [
  | inl p ↦ absurd_cons (rw p at h)
  | inr p ↦ absurd_cons (rw p at h)
]
  where
    absurd_cons :
        {y : FieldError} {ys : List FieldError}
        → ◌≡◌ {A = Errors} (collected (y ∷ ys)) no_errors
        → ⊥
    absurd_cons q = cc

pub add-Decides : (e : FieldError) → Decides (add e) ⊥
add-Decides e = record {
  accepts = λ errors p. absurd p;
  rejects = λ errors h. absurd (nonempty-add e errors h);
}

pub crash-Decides : Decides crash ⊥
unfolding crash
crash-Decides = record {
  accepts = λ errors p. absurd p;
  rejects = λ errors h. absurd (not_crashed h);
}
  where
    not_crashed : crashed ≡ no_errors → ⊥
    not_crashed q = cc

pub accept-Decides : Decides accept Unit
unfolding accept
accept-Decides = record { accepts = λ errors p. refl; rejects = λ errors h. (h, tt) }

pub demand-Decides : (b : Bool) (e : FieldError) → Decides (demand b e) (b ≡ true)
unfolding demand
demand-Decides true e = record { accepts = λ errors p. refl; rejects = λ errors h. (h, refl) }
demand-Decides false e = record {
  accepts = λ errors p. absurd (false_true p);
  rejects = λ errors h. absurd (nonempty-add e errors h);
}
  where
    false_true : false ≡ true → ⊥
    false_true q = cc

module _ {c : Check} {P : Type 0} (dc : Decides c P) where
  pub then-Decides : {d : Check} {Q : Type 0} → Decides d Q → Decides (c then d) (P × Q)
  unfolding ◌then◌
  then-Decides {d = d} dd = record {
    accepts = λ errors p. ap d (dc.accepts errors p.0) ∙ dd.accepts errors p.1;
    rejects = λ errors h.
        (let (e, q) = dd.rejects (c errors) h in let (e', p) = dc.rejects errors e in (e', (p, q)));
  }

  -- The same check, described otherwise.
  pub as-Decides : {Q : Type 0} → P ↔ Q → Decides c Q
  as-Decides r = record {
    accepts = λ errors q. dc.accepts errors (r.1 q);
    rejects = λ errors h. (let (e, p) = dc.rejects errors h in (e, r.0 p));
  }

pub each-Decides :
    {A : Type 0} {f : String → A → Check} {P : A → Type 0}
    → ((path : String) (x : A) → Decides (f path x) (P x))
    → (path : String) (n : ℕ) (xs : List A) → Decides (check_each f path n xs) (All P xs)
unfolding check_each
each-Decides df path n [] = record { accepts = λ errors p. refl; rejects = λ errors h. (h, tt) }
each-Decides {f = f} df path n (x ∷ xs) =
    let dx = df (element path n) x in
    let dr = each-Decides df path (suc n) xs in
    record {
      accepts = λ errors p.
          ap (check_each f path (suc n) xs) (dx.accepts errors p.0) ∙ dr.accepts errors p.1;
      rejects = λ errors h.
          (let (e, q) = dr.rejects (f (element path n) x errors) h in
            let (e', p) = dx.rejects errors e in (e', (p, q)));
    }

module _ {rest : JsonObject → Check} {P : JsonObject → Type 0}
    (decided : (o : JsonObject) → Decides (rest o) (P o)) (path : String) where
  pub with_mapping-Decides : (v : JsonValue) → Decides (with_mapping v path rest) (IsObject P v)
  unfolding with_mapping
  with_mapping-Decides (object o) = decided o
  with_mapping-Decides null = add-Decides _
  with_mapping-Decides (text s) = add-Decides _
  with_mapping-Decides (integer n) = add-Decides _
  with_mapping-Decides (flag b) = add-Decides _
  with_mapping-Decides (uuid u) = add-Decides _
  with_mapping-Decides (timestamp t) = add-Decides _
  with_mapping-Decides (array vs) = add-Decides _

module _ {rest : List JsonValue → Check} {P : List JsonValue → Type 0}
    (decided : (vs : List JsonValue) → Decides (rest vs) (P vs)) (path : String) where
  pub with_array-Decides : (v : JsonValue) → Decides (with_array v path rest) (IsArray P v)
  unfolding with_array
  with_array-Decides (array vs) = decided (values vs)
  with_array-Decides null = add-Decides _
  with_array-Decides (text s) = add-Decides _
  with_array-Decides (integer n) = add-Decides _
  with_array-Decides (flag b) = add-Decides _
  with_array-Decides (uuid u) = add-Decides _
  with_array-Decides (timestamp t) = add-Decides _
  with_array-Decides (object o) = add-Decides _

raise_if_any-eq-ok :
    (errors : Errors) {u : Unit {0}} → raise_if_any errors ≡ ok u → errors ≡ no_errors
raise_if_any-eq-ok (collected []) h = refl
raise_if_any-eq-ok (collected (e ∷ es)) h = cc
raise_if_any-eq-ok crashed h = cc

pub take-all : {A : Type 0} (n : ℕ) (xs : List A) → leb (length xs) n ≡ true → take n xs ≡ xs
take-all zero [] h = refl
take-all zero (x ∷ xs) h = absurd (ground arith)
take-all (suc n) [] h = refl
take-all (suc n) (x ∷ xs) h = ap (λ ys. x ∷ ys) (take-all n xs (ground arith))

module _ {c : Check} {P : Type 0} (dc : Decides c P) where
  -- A validator returns exactly where its condition holds.
  pub run_checks_iff : (run_checks c ≡ ok tt) ↔ P
  unfolding run_checks
  run_checks_iff = (
    (λ h. (dc.rejects no_errors (raise_if_any-eq-ok (c no_errors) h)).1),
    (λ p. ap raise_if_any (dc.accepts no_errors p)),
  )

-- A check that one of two tests stands before.
pub if-Decides :
    (b : Bool) {c d : Check} {P Q : Type 0}
    → Decides c P
    → Decides d Q
    → (P → b ≡ true)
    → (Q → b ≡ false)
    → Decides (if b then c else d) (P ⊎ Q)
if-Decides true dc dd left right =
    as-Decides dc
      ((λ p. inl p), (λ s. elim s [ inl p ↦ p | inr q ↦ absurd (true_false (right q)) ]))
  where
    true_false : true ≡ false → ⊥
    true_false q = cc
if-Decides false dc dd left right =
    as-Decides dd ((λ q. inr q), (λ s. elim s [ inl p ↦ absurd (false_true (left p)) | inr q ↦ q ]))
  where
    false_true : false ≡ true → ⊥
    false_true q = cc

pub if-add-Decides :
    (b : Bool) (e : FieldError) {c : Check} {P : Type 0}
    → Decides c P
    → (P → b ≡ true)
    → Decides (if b then c else add e) P
if-add-Decides true e dc left = dc
if-add-Decides false e dc left =
    as-Decides (add-Decides e) ((λ p. absurd p), (λ p. false_true (left p)))
  where
    false_true : false ≡ true → ⊥
    false_true q = cc

pub if-crash-Decides :
    (b : Bool) {c : Check} {P : Type 0}
    → Decides c P
    → (P → b ≡ false)
    → Decides (if b then crash else c) P
if-crash-Decides true dc right =
    as-Decides crash-Decides ((λ p. absurd p), (λ p. true_false (right p)))
  where
    true_false : true ≡ false → ⊥
    true_false q = cc
if-crash-Decides false dc right = dc
