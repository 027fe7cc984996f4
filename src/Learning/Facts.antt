-- ===== src/Learning/Facts.antt =====
-- backend/src/lms/modules/learning/persistence.py: the audit and outbox rows of learning facts.
use lawrence_ai_lms.Prelude.{ℕ, ◌+◌, List, [], ◌∷◌, ◌++◌}
use lawrence_ai_lms.Prelude.Exec.{pure, raise, gets, ◌>>=◌, ok}
use lawrence_ai_lms.Learning.Errors.{failure, service_contract_error}
use lawrence_ai_lms.Learning.Types.{Uuid, LearningFact}
use lawrence_ai_lms.Learning.Store.{
  AuditRow, OutboxRow, Database, RequestSetting, unset, malformed, request, Action, write,
}

abbrev pub audit_row : Uuid → LearningFact → AuditRow
audit_row request_id fact = record {
  id = fact.id;
  tenant_id = fact.tenant_id;
  event_type = fact.event_type;
  actor_id = fact.actor_id;
  subject_type = fact.aggregate_type;
  subject_id = fact.aggregate_id;
  request_id = request_id;
  payload = fact.payload;
}

abbrev pub outbox_row : Uuid → LearningFact → OutboxRow
outbox_row request_id fact = record {
  id = fact.id;
  tenant_id = fact.tenant_id;
  event_type = fact.event_type;
  aggregate_type = fact.aggregate_type;
  aggregate_id = fact.aggregate_id;
  actor_id = fact.actor_id;
  request_id = request_id;
  payload = fact.payload;
}

abbrev pub add_fact : Uuid → LearningFact → Database → Database
add_fact request_id fact db = record db {
  audit_facts = db.audit_facts ++ (audit_row request_id fact ∷ []);
  outbox_facts = db.outbox_facts ++ (outbox_row request_id fact ∷ []);
}

-- `UUIDFactory.new_uuid`, and `uuid.uuid4()` too: the n-th identifier that is drawn.
unfoldable pub draw_uuid : (ℕ → Uuid) → Action Uuid
draw_uuid new_uuid w = (ok (new_uuid w.ids_drawn), record w { ids_drawn = w.ids_drawn + 1 })

abbrev pub setting_id : (ℕ → Uuid) → RequestSetting → Action Uuid
setting_id new_uuid unset = draw_uuid new_uuid
setting_id new_uuid malformed = raise (failure service_contract_error)
setting_id new_uuid (request u) = pure u

unfoldable pub request_id : (ℕ → Uuid) → Action Uuid
unfolding draw_uuid
request_id new_uuid = do setting ← gets (λ w. w.current_request_id); setting_id new_uuid setting

abbrev pub add_facts : Uuid → List LearningFact → Database → Database
add_facts request_id [] db = db
add_facts request_id (fact ∷ facts) db = add_facts request_id facts (add_fact request_id fact db)

unfoldable pub append : (ℕ → Uuid) → List LearningFact → Action (Unit {0})
unfolding request_id
append new_uuid facts = do id ← request_id new_uuid; write (add_facts id facts)
