-- ===== src/Offline/Tests.antt =====
-- Runs of the queue of apps/web/src/lib/offline against a server that takes every submission.
pub mod Lost
use fg_details_to_be_added_f.Prelude.{
  String, ◌==◌, ◌≤◌, ◌≡◌, refl, sym, ap, true, false, none, some, [], ◌∷◌, eq_refl, length,
  if◌then◌else◌, arith,
}
use fg_details_to_be_added_f.Records.{RecordStatus, draft, submitted}
use fg_details_to_be_added_f.Exec.{Outcome, ok, err}
use fg_details_to_be_added_f.Offline.{
  QueueItem, waiting_to_sync, daily_cleaning, max_entries, is_synced,
}
use fg_details_to_be_added_f.Offline.Conflicts.{Api, Fetched, ApiError, is_open_status}
use fg_details_to_be_added_f.Offline.Engine.{
  verdict, saving, processing, use_all, process_queue, is_due,
}
use fg_details_to_be_added_f.Offline.Bounds.{use_all-bounded}

abbrev Server : Type 0
Server = String → RecordStatus

abbrev submit_to : String → Server → Server
submit_to rid s other = if other == rid then submitted else s other

abbrev test_api : Api Server
test_api = record {
  fetch = λ rid s. (
    ok (record {
      status = s rid;
      updated_at = none;
      template_version_number = 1;
      editable = is_open_status (s rid);
    }),
    s,
  );
  submit = λ rid payload key s. (ok tt, submit_to rid s);
}

abbrev drafts : Server
drafts rid = draft

abbrev pub item_1 : QueueItem
item_1 = record {
  id = "q1";
  record_type = daily_cleaning;
  record_id = "r1";
  idempotency_key = "k1";
  state = waiting_to_sync;
  payload = "{}";
  template_version_number = some 1;
  server_updated_at = none;
  created_at = 5;
  updated_at = 5;
  attempt_count = 0;
  last_error = none;
  conflict_reason = none;
  next_retry_at = none;
}

-- A full pass sends the item and clears it.
process_test : (process_queue test_api true false 9 (item_1 ∷ [], drafts)).0.0 ≡ []
unfolding process_queue is_due
process_test = refl

use_all-bounded_example :
    length (use_all test_api (saving item_1 ∷ processing true false 9 ∷ []) ([], drafts)).0
    ≤ max_entries
use_all-bounded_example =
    use_all-bounded test_api (saving item_1 ∷ processing true false 9 ∷ []) [] drafts (omega arith)
