-- ===== src/Checklist/Items.antt =====
-- The data model of checklist-engine.ts. An optional or nullable field is an `Option`: the code
-- tests both `undefined` and `null` by truthiness or `??`, which do not tell them apart.
use fg_details_to_be_added_f.Prelude.{ℕ, String, Bool, true, false, Option, List, Dict, Number}

-- ChecklistItemType
pub data ItemType : Type 0 where
  pass_fail_na acceptable_unacceptable_na yes_no_na : ItemType
  short_text long_text number temperature date time : ItemType
  single_select photo_evidence signature : ItemType

-- isStatusItemType
abbrev pub is_status_item_type : ItemType → Bool
is_status_item_type pass_fail_na = true
is_status_item_type acceptable_unacceptable_na = true
is_status_item_type yes_no_na = true
is_status_item_type _ = false

-- NormalizedStatusValue
pub data StatusValue : Type 0 where
  pass fail not_applicable : StatusValue

pub record EvidencePhoto : Type 0 where
  pub id : String
  pub url : String
  pub file_name : String
  pub captured_at : String

pub record SignatureValue : Type 0 where
  pub signed_by_name : String
  pub signed_at : String

-- ChecklistItemValue, a union tagged by `kind`
pub data ItemValue : Type 0 where
  status : StatusValue → ItemValue
  text : String → ItemValue
  number : Number → ItemValue
  date time select : String → ItemValue
  photo : List EvidencePhoto → ItemValue
  signature : SignatureValue → ItemValue

-- ChecklistItemResponse
pub record Response : Type 0 where
  pub item_id : String
  pub value : Option ItemValue
  pub remark : Option String
  pub issue_reason : Option String
  pub correction : Option String
  pub corrective_action : Option String
  pub evidence : Option (List EvidencePhoto)

-- ChecklistResponseMap
abbrev pub ResponseMap : Type 0
ResponseMap = Dict Response

pub record OptionDefinition : Type 0 where
  pub value : String
  pub label : String
  pub sort_order : ℕ

-- ChecklistItemDefinition with the fields of ChecklistItemRules. A sort order is an integer that the
-- schemas keep at 0 or more.
pub record Item : Type 0 where
  pub id : String
  pub label : String
  pub sort_order : ℕ
  pub item_type : ItemType
  pub options : List OptionDefinition
  pub is_required : Bool
  pub allow_not_applicable : Bool
  pub requires_evidence_on_fail : Bool
  pub is_critical_failure : Bool
  pub remark_required_on_fail : Bool
  pub corrective_action_required_on_fail : Bool
  pub min_value : Option Number
  pub max_value : Option Number
  pub default_response : Option String

-- ChecklistSectionDefinition
pub record Section : Type 0 where
  pub id : String
  pub name : String
  pub sort_order : ℕ
  pub items : List Item
