-- ===== src/Inspections/Mapping.antt =====
-- Between the engine's answers and the stored rows: inspection-records.mappers.ts.
use Prim.Native.Char.{Char, code}
use fg_details_to_be_added_f.Prelude.{
  ℕ, ◌+◌, String, Bool, false, ◌&&◌, Option, none, some, List, [], ◌∷◌, map, eqb, leb, is_some,
  is_truthy, insert, if◌then◌else◌,
}
use fg_details_to_be_added_f.Checklist.Items.{
  ItemType, pass_fail_na, StatusValue, status, EvidencePhoto, Response, ResponseMap,
}
use fg_details_to_be_added_f.Inspections.State.{
  ResultStatus, acceptable, unacceptable, not_applicable, pass, fail, InspectionResult,
  InspectionAttachment,
}

-- normalizedStatusFromResultStatus
unfoldable pub normalized_status_from_result_status : ResultStatus → StatusValue
normalized_status_from_result_status acceptable = StatusValue.pass
normalized_status_from_result_status pass = StatusValue.pass
normalized_status_from_result_status unacceptable = StatusValue.fail
normalized_status_from_result_status fail = StatusValue.fail
normalized_status_from_result_status not_applicable = StatusValue.not_applicable

-- resultStatusFromNormalized
unfoldable pub result_status_from_normalized : ItemType → StatusValue → ResultStatus
result_status_from_normalized t StatusValue.not_applicable = not_applicable
result_status_from_normalized pass_fail_na StatusValue.pass = pass
result_status_from_normalized pass_fail_na StatusValue.fail = fail
result_status_from_normalized _ StatusValue.pass = acceptable
result_status_from_normalized _ StatusValue.fail = unacceptable

photo_of : InspectionAttachment → EvidencePhoto
photo_of a = record {
  id = a.id;
  url = a.file_url;
  file_name = a.file_name;
  captured_at = a.uploaded_at;
}

-- The response that one stored result stands for.
unfoldable pub response_of : InspectionResult → List InspectionAttachment → Response
unfolding photo_of normalized_status_from_result_status
response_of result attachments = record {
  item_id = result.item_id;
  value = some (status (normalized_status_from_result_status result.status));
  remark = result.notes;
  issue_reason = result.issue_reason;
  correction = result.correction;
  corrective_action = result.corrective_action;
  evidence = some (map photo_of attachments);
}

-- The loop of toResponseMap; a result comes with its attachments.
to_response_map_loop :
    List (InspectionResult × List InspectionAttachment) → ResponseMap → ResponseMap
to_response_map_loop [] m = m
to_response_map_loop ((r, attachments) ∷ rest) m =
    to_response_map_loop rest (insert r.item_id (response_of r attachments) m)

-- toResponseMap
unfoldable pub to_response_map : List (InspectionResult × List InspectionAttachment) → ResponseMap
unfolding to_response_map_loop response_of
to_response_map results = to_response_map_loop results []

abbrev lower : ℕ → ℕ
lower c = if leb b'A' c && leb c b'Z' then c + 32 else c

abbrev same_char : Char → Char → Bool
same_char c d = eqb (code c) (code d)

-- Equality under the `i` flag.
abbrev same_letter : Char → Char → Bool
same_letter c d = eqb (lower (code c)) (lower (code d))

-- What follows a prefix, if the text begins with it.
strip : (Char → Char → Bool) → String → String → Option String
strip same String.[] s = some s
strip same (String.◌∷◌ c p) String.[] = none
strip same (String.◌∷◌ c p) (String.◌∷◌ d s) =
    let rest = strip same p s in if same c d then rest else none

-- `[^;]*` and what follows it.
before_semicolon : String → String
before_semicolon String.[] = ""
before_semicolon (String.◌∷◌ c s) =
    let rest = before_semicolon s in if eqb (code c) b';' then "" else String.◌∷◌ c rest

from_semicolon : String → String
from_semicolon String.[] = ""
from_semicolon (String.◌∷◌ c s) =
    let rest = from_semicolon s in if eqb (code c) b';' then String.◌∷◌ c s else rest

-- The media type and the payload of `data:<type>;base64,<payload>`.
media_and_payload : (Char → Char → Bool) → String → Option (String × String)
unfolding strip before_semicolon from_semicolon
media_and_payload same url = elim (strip same "data:" url) [
  | none ↦ none
  | some rest ↦ elim (strip same ";base64," (from_semicolon rest)) [
    | none ↦ none
    | some payload ↦
        if is_truthy (before_semicolon rest) then some (before_semicolon rest, payload) else none
  ]
]

-- isDataUrl
unfoldable pub is_data_url : String → Bool
unfolding media_and_payload
is_data_url url = is_some (media_and_payload same_letter url)

-- parseDataUrlMimeType
unfoldable pub parse_data_url_mime_type : String → String
unfolding media_and_payload
parse_data_url_mime_type url = elim (media_and_payload same_char url) [
  | none ↦ "application/octet-stream"
  | some (media, payload) ↦ media
]

-- decodeDataUrlToBuffer throws unless this holds.
unfoldable pub is_decodable : String → Bool
unfolding media_and_payload
is_decodable url = elim (media_and_payload same_char url) [
  | none ↦ false
  | some (media, payload) ↦ is_truthy payload
]
