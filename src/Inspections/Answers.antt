-- ===== src/Inspections/Answers.antt =====
-- Saving answers: persistResponses, persistOneResponse and saveDraft of inspection-records.service.ts.
pub mod Keeping
pub mod Saving
pub mod Stored
pub mod Filed
use Prim.Native.String
use fg_details_to_be_added_f.Prelude.{
  ℕ, String, ◌==◌, Bool, true, false, ◌&&◌, not, Option, none, some, List, [], ◌∷◌, find_last,
  is_truthy, if◌then◌else◌,
}
use fg_details_to_be_added_f.Checklist.Items.{
  StatusValue, ItemValue, status, EvidencePhoto, Response, Item,
}
use fg_details_to_be_added_f.Checklist.Order.{flatten_items}
use fg_details_to_be_added_f.Exec.{Exec, ◌>>=◌, ◌>>◌, skip, gets, modify, or_throw, throw, when}
use fg_details_to_be_added_f.Prisma.{Prisma, id, pair}
use fg_details_to_be_added_f.Inspections.State.{
  RequestUser, InspectionRecord, InspectionResult, InspectionAttachment, TemplateVersion, Exception,
  invalid_record_payload, row_missing, evidence_failed, Parsed, success, failure, World, Db,
}
use fg_details_to_be_added_f.Inspections.Access.{find_record_or_throw, assert_owner_can_edit}
use fg_details_to_be_added_f.Inspections.Mapping.{
  result_status_from_normalized, is_data_url, is_decodable, parse_data_url_mime_type,
}
use fg_details_to_be_added_f.Inspections.Detail.{Detail, get_by_id, load_template_version_content}
use fg_details_to_be_added_f.Inspections.Review.{update_record}

-- SaveDraftResponsesInput. An entry comes with what checklistItemResponseSchema makes of it.
pub record SaveDraftInput : Type 0 where
  pub responses : List (String × Parsed Response)
  pub area_label : Option String

-- `areaLabel && areaLabel !== record.areaLabel`
abbrev is_new_label : String → Option String → Bool
is_new_label label none = is_truthy label
is_new_label label (some old) = is_truthy label && not (label == old)

module _ (p : Prisma) (w : World) (user : RequestUser) (rid : String) where
  attachment_of : String → String → String → EvidencePhoto → Option String → InspectionAttachment
  attachment_of aid result_id url photo file = record {
    id = aid;
    record_id = rid;
    result_id = result_id;
    file_url = url;
    file_name = photo.file_name;
    mime_type = parse_data_url_mime_type photo.url;
    grid_fs_file_id = file;
    uploaded_by_id = user.id;
    uploaded_at = w.now_iso;
  }

  create_attachment :
      String → String → String → EvidencePhoto → Option String → Exec Exception (Db p) (Unit {0})
  create_attachment aid result_id url photo file = modify (λ s. record s {
    attachments = p.create (id aid) (attachment_of aid result_id url photo file) s.attachments;
  })

  -- The body of the loop over `response.evidence`: a data URL is uploaded, and its attachment then
  -- gets the address of the download.
  store_photo : String → EvidencePhoto → Exec Exception (Db p) (Unit {0})
  unfolding attachment_of create_attachment
  store_photo result_id photo = do
    aid ← gets (λ s. p.next_id s.attachments)
    if is_data_url photo.url
        then (do
          file ←
              or_throw evidence_failed (if is_decodable photo.url then w.upload photo.url else none)
          create_attachment aid result_id (String.◌++◌ "gridfs://" file) photo (some file)
          modify (λ s. record s {
            attachments =
                p.update (id aid)
                  (λ a. record a {
                    file_url = String.◌++◌ "/evidence/" (String.◌++◌ aid "/download");
                  })
                  s.attachments;
          }))
        else create_attachment aid result_id photo.url photo none

  store_photos : String → List EvidencePhoto → Exec Exception (Db p) (Unit {0})
  unfolding store_photo
  store_photos result_id [] = skip
  store_photos result_id (photo ∷ photos) = do
    store_photo result_id photo
    store_photos result_id photos

  -- `if (response.evidence) { ... }`
  replace_evidence : String → Option (List EvidencePhoto) → Exec Exception (Db p) (Unit {0})
  unfolding store_photos
  replace_evidence result_id none = skip
  replace_evidence result_id (some photos) = do
    modify (λ s. record s {
      attachments = p.delete_many (λ a. a.result_id == result_id) s.attachments;
    })
    store_photos result_id photos

  -- The upsert of a result.
  upsert_result : Item → StatusValue → Response → Db p → Db p
  upsert_result item v response s =
      let fill : InspectionResult → InspectionResult = λ r. record r {
        status = result_status_from_normalized item.item_type v;
        issue_reason = response.issue_reason;
        correction = response.correction;
        corrective_action = response.corrective_action;
        notes = response.remark;
      } in
      record s {
        results =
            p.upsert (pair rid item.id)
              (record {
                id = p.next_id s.results;
                record_id = rid;
                item_id = item.id;
                status = result_status_from_normalized item.item_type v;
                issue_reason = response.issue_reason;
                correction = response.correction;
                corrective_action = response.corrective_action;
                notes = response.remark;
              })
              fill s.results;
      }

  -- persistOneResponse from the upsert on.
  pub persist_status : Item → StatusValue → Response → Exec Exception (Db p) (Unit {0})
  unfolding upsert_result replace_evidence
  persist_status item v response = do
    modify (upsert_result item v response)
    found ← gets (λ s. p.find_unique (pair rid item.id) s.results)
    result ← or_throw row_missing found
    replace_evidence result.id response.evidence

  -- persistOneResponse: only answers of status kind are stored.
  persist_value : Item → Response → Option ItemValue → Exec Exception (Db p) (Unit {0})
  unfolding persist_status
  persist_value item response (some (status v)) = persist_status item v response
  persist_value item response _ = skip

  pub persist_one_response : Item → Response → Exec Exception (Db p) (Unit {0})
  unfolding persist_value
  persist_one_response item response = persist_value item response response.value

  -- One entry of the loop of persistResponses; an id without an item is skipped unread.
  persist_entry : Option Item → Parsed Response → Exec Exception (Db p) (Unit {0})
  unfolding persist_one_response
  persist_entry none raw = skip
  persist_entry (some item) (failure message) = throw (invalid_record_payload message)
  persist_entry (some item) (success response) = persist_one_response item response

  -- persistResponses
  unfoldable pub persist_responses :
      List Item → List (String × Parsed Response) → Exec Exception (Db p) (Unit {0})
  unfolding persist_entry
  persist_responses items [] = skip
  persist_responses items ((item_id, raw) ∷ rest) = do
    persist_entry (find_last (λ i. i.id == item_id) items) raw
    persist_responses items rest

module _ (p : Prisma) (w : World) (user : RequestUser) where
  -- `if (areaLabel && areaLabel !== record.areaLabel) { ... }`
  label_record : String → Option String → Option String → Exec Exception (Db p) (Unit {0})
  unfolding update_record
  label_record rid old none = skip
  label_record rid old (some label) =
      when (is_new_label label old)
        (update_record p rid (λ x. record x { area_label = some label }))

  -- The tail of saveDraft, once the payload has been parsed.
  save_parsed : String → SaveDraftInput → Exec Exception (Db p) Detail
  unfolding find_record_or_throw assert_owner_can_edit load_template_version_content
      persist_responses label_record get_by_id
  save_parsed rid input = do
    r ← find_record_or_throw p rid
    assert_owner_can_edit p r user
    version ← load_template_version_content p r.template_version_id
    persist_responses p w user r.id (flatten_items version.sections) input.responses
    label_record rid r.area_label input.area_label
    get_by_id p user rid

  -- saveDraft
  unfoldable pub save_draft : String → Parsed SaveDraftInput → Exec Exception (Db p) Detail
  unfolding save_parsed
  save_draft rid (failure message) = throw (invalid_record_payload message)
  save_draft rid (success input) = save_parsed rid input
