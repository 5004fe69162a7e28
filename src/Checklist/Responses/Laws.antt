-- ===== src/Checklist/Responses/Laws.antt =====
-- What the classification and the failure test say of one another.
use fg_details_to_be_added_f.Prelude.{◌≡◌, ◌↔◌, true, Option, arith}
use fg_details_to_be_added_f.Checklist.Items.{is_status_item_type, Response, Item}
use fg_details_to_be_added_f.Checklist.Responses.{
  failed, classify_response_status, status_of, is_failure_response,
}

-- For a status item the failure test and the classification agree.
pub is_failure_response-status :
    (item : Item) (r : Option Response)
    → is_status_item_type item.item_type ≡ true
    → (is_failure_response item r ≡ true) ↔ (status_of item r ≡ failed)
unfolding is_failure_response classify_response_status
is_failure_response-status item r h = (λ e. ground arith, λ e. ground arith)
