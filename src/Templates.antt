-- ===== src/Templates.antt =====
-- The versions of checklist templates: apps/api/src/checklist-templates. A version holds its sections,
-- which hold their items with their options, as each row belongs to one parent; a version is
-- referred to by its unique index of the template and the number, and a template by its
-- unique code, which no operation changes.
pub mod Content
pub mod Service
pub mod History
pub mod Lifecycle
pub mod Numbering
pub mod Lasting
pub mod Sound
pub mod Current
mod Tests
use fg_details_to_be_added_f.Prelude.{ℕ, String, Bool, true, false, Option, List}
use fg_details_to_be_added_f.Checklist.Items.{ItemType, Section}
use fg_details_to_be_added_f.Checklist.Validation.{RuleIssue}
use fg_details_to_be_added_f.Prelude.{Number}
use fg_details_to_be_added_f.Inspections.State.{TemplateStatus, draft, published}
use fg_details_to_be_added_f.Prisma.{Prisma, Key, numbered}

-- ChecklistTemplate
pub record Template : Type 0 where
  pub code : String
  pub title : String
  pub description : Option String
  pub is_active : Bool
  pub current_version : Option Key
  pub created_by_id : String

-- ChecklistTemplateVersion with its content
pub record Version : Type 0 where
  pub template_code : String
  pub version_number : ℕ
  pub status : TemplateStatus
  pub notes : Option String
  pub published_by_id : Option String
  pub published_at : Option ℕ
  pub sections : List Section

abbrev pub key_of : Version → Key
key_of v = numbered v.template_code v.version_number

abbrev pub is_draft : TemplateStatus → Bool
is_draft draft = true
is_draft _ = false

abbrev pub is_published : TemplateStatus → Bool
is_published published = true
is_published _ = false

-- ItemOptionDto
pub record OptionInput : Type 0 where
  pub value : String
  pub label : String
  pub sort_order : Option ℕ

-- AddItemDto without its label, and UpdateItemDto
pub record ItemInput : Type 0 where
  pub sort_order : Option ℕ
  pub item_type : Option ItemType
  pub is_required : Option Bool
  pub allow_not_applicable : Option Bool
  pub requires_evidence_on_fail : Option Bool
  pub is_critical_failure : Option Bool
  pub remark_required_on_fail : Option Bool
  pub corrective_action_required_on_fail : Option Bool
  pub min_value : Option Number
  pub max_value : Option Number
  pub default_response : Option String
  pub options : Option (List OptionInput)

-- What a request takes from outside: the time, the id of the row that it creates, and the ids that
-- the copies of rows get.
pub record Fresh : Type 0 where
  pub now : ℕ
  pub new_id : String
  pub copy_id : String → String

-- checklist-templates.errors.ts, the violation of a unique index of schema.prisma, and the row that
-- findUniqueOrThrow misses
pub data TemplatesException : Type 0 where
  template_not_found code_conflict published_version_not_found : String → TemplatesException
  version_not_found : ℕ → TemplatesException
  section_not_found item_not_found not_editable not_draft empty_template : TemplatesException
  already_archived unique_violation row_missing : TemplatesException
  invalid_item_rules : List RuleIssue → TemplatesException

-- ChecklistTemplateVersionDefinition
pub record Definition : Type 0 where
  pub code : String
  pub title : String
  pub description : Option String
  pub version_number : ℕ
  pub status : TemplateStatus
  pub sections : List Section

module _ (p : Prisma) where
  open p use {Table}

  pub record TemplatesDb : Type 0 where
    pub templates : Table Template
    pub versions : Table Version
