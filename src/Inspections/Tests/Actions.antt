-- ===== src/Inspections/Tests/Actions.antt =====
-- The corrective actions of a submission of apps/api/src/inspection-records, for one failing item.
use fg_details_to_be_added_f.Prelude.{◌≡◌, inl, refl, true, none, some, [], ◌∷◌}
use fg_details_to_be_added_f.Checklist.Items
use fg_details_to_be_added_f.Checklist.Items.{Item, Response, ResponseMap}
use fg_details_to_be_added_f.Checklist.Responses.{is_failure_response}
use fg_details_to_be_added_f.Records
use fg_details_to_be_added_f.Prisma.Memory.{memory, memory_laws}
use fg_details_to_be_added_f.Inspections.State
use fg_details_to_be_added_f.Inspections.State.{InspectionResult}
use fg_details_to_be_added_f.Inspections.Fixture.{packaging, operator, db_at}
use fg_details_to_be_added_f.Inspections.Submit.{create_corrective_actions_for_failures}
use fg_details_to_be_added_f.Inspections.Submit.Actions.{
  has_action, create_corrective_actions_complete,
}

abbrev torn : Item
torn = record packaging { corrective_action_required_on_fail = true }

abbrev failing : ResponseMap
failing =
    (
      "i1",
      record {
        item_id = "i1";
        value = some (Items.status Items.fail);
        remark = some "torn";
        issue_reason = none;
        correction = none;
        corrective_action = some "repack";
        evidence = none;
      },
    )
    ∷ []

abbrev result : InspectionResult
result = record {
  id = "x1";
  record_id = "r1";
  item_id = "i1";
  status = State.fail;
  issue_reason = none;
  correction = none;
  corrective_action = some "repack";
  notes = some "torn";
}

torn_fails :
    is_failure_response torn (
      some (record {
        item_id = "i1";
        value = some (Items.status Items.fail);
        remark = some "torn";
        issue_reason = none;
        correction = none;
        corrective_action = some "repack";
        evidence = none;
      }))
    ≡ true
unfolding is_failure_response
torn_fails = refl

create_corrective_actions_complete_example :
    has_action memory
      (create_corrective_actions_for_failures memory operator "r1"
        (torn ∷ [])
        failing
        (result ∷ [])
        (db_at Records.draft)).1
      "x1"
    ≡ true
create_corrective_actions_complete_example =
    create_corrective_actions_complete memory memory_laws operator "r1" failing (result ∷ [])
      (torn ∷ []) (db_at Records.draft) torn result (inl refl) refl torn_fails refl
