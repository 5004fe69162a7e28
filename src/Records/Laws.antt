-- ===== src/Records/Laws.antt =====
-- Editing, duplicate prevention and tallies.
use fg_details_to_be_added_f.Prelude.{
  ℕ, ◌+◌, String, eq_iff, ◌≡◌, ◌≢◌, ◌⊎◌, ◌↔◌, refl, Bool, true, false, Option, none, some, List, [],
  ◌∷◌, length, keep, lookup, arith, if◌then◌else◌,
}
use fg_details_to_be_added_f.Checklist.Items.{ResponseMap, Item}
use fg_details_to_be_added_f.Checklist.Responses.{ResponseStatus, passed, marked_na, status_of}
use fg_details_to_be_added_f.Records.{
  RecordStatus, archived, is_record_editable, is_active_blocking_status, ExistingRecord, create,
  resume, resolve_draft_duplicate, RecordCounts, count_loop, count_one, no_counts,
  compute_record_counts,
}

-- Every status is exactly one of these: editable, blocking, or archived.
status_kinds :
    (s : RecordStatus)
    → (if is_record_editable s
        then (is_active_blocking_status s ≡ false) × (s ≢ archived)
        else (is_active_blocking_status s ≡ true)
        ⊎ (s ≡ archived))
unfolding is_record_editable is_active_blocking_status
status_kinds s = ground arith

-- What stands in the way of a new record, and what may be resumed: a new record is created exactly if
-- there is none or an archived one; the existing one is resumed exactly if it is editable and belongs
-- to the requester; all else is a conflict, and each of the three excludes the others.
pub resolve_draft_duplicate_outcomes :
    (existing : Option ExistingRecord) (requester : String)
    → ((resolve_draft_duplicate existing requester ≡ create)
        ↔ ((r : ExistingRecord) → existing ≡ some r → r.status ≡ archived))
      × ((id : String)
          → (resolve_draft_duplicate existing requester ≡ resume id) ↔ (
              (r : ExistingRecord) × (existing ≡ some r)
              × (is_record_editable r.status ≡ true)
              × (r.created_by_id ≡ requester)
              × (r.id ≡ id)))
unfolding resolve_draft_duplicate is_active_blocking_status is_record_editable
resolve_draft_duplicate_outcomes none requester =
    ((λ _ r e. cc, λ _. refl), λ id. (λ e. cc, λ h. cc (h.1)))
resolve_draft_duplicate_outcomes (some x) requester = (
  (λ e r same. ground (arith, eq_iff x.created_by_id requester), λ h. ground (arith, h x refl)),
  λ id. (
    λ e. (
      x,
      refl,
      ground (arith, eq_iff x.created_by_id requester),
      ground (arith, eq_iff x.created_by_id requester),
      ground (arith, eq_iff x.created_by_id requester),
    ),
    λ h. ground (arith, h.1, h.2, h.3, eq_iff x.created_by_id requester),
  ),
)

abbrev has_response_status : ResponseStatus → ResponseStatus → Bool
has_response_status passed passed = true
has_response_status ResponseStatus.failed ResponseStatus.failed = true
has_response_status marked_na marked_na = true
has_response_status ResponseStatus.unanswered ResponseStatus.unanswered = true
has_response_status _ _ = false

-- The number of items whose response has a status.
abbrev pub tally : ResponseStatus → List Item → ResponseMap → ℕ
tally s items responses =
    length (keep (λ i. has_response_status s (status_of i (lookup i.id responses))) items)

-- The tallies of `d`, against those of `c` and the items in between.
record IsCounted (c d : RecordCounts) (items : List Item) (responses : ResponseMap) : Type 0 where
  acceptable : d.acceptable ≡ c.acceptable + tally passed items responses
  failed : d.failed ≡ c.failed + tally ResponseStatus.failed items responses
  not_applicable : d.not_applicable ≡ c.not_applicable + tally marked_na items responses
  unanswered : d.unanswered ≡ c.unanswered + tally ResponseStatus.unanswered items responses
  total : d.total ≡ c.total

count_loop-IsCounted :
    (c : RecordCounts) (items : List Item) (responses : ResponseMap)
    → IsCounted c (count_loop c items responses) items responses
unfolding count_loop
count_loop-IsCounted c [] responses = omega arith
count_loop-IsCounted c (item ∷ items) responses = ground (
  arith,
  count_loop-IsCounted (count_one (status_of item (lookup item.id responses)) c) items responses,
)

tally-total :
    (items : List Item) (responses : ResponseMap)
    → tally passed items responses
        + tally ResponseStatus.failed items responses
        + tally marked_na items responses
        + tally ResponseStatus.unanswered items responses
      ≡ length items
tally-total [] responses = refl
tally-total (item ∷ items) responses = ground (arith, tally-total items responses)

-- Each count is the number of items whose response has that status, the total is the number of items,
-- and the four counts add up to it.
pub compute_record_counts_tallies :
    (items : List Item) (responses : ResponseMap)
    → let c = compute_record_counts items responses in
      (c.acceptable ≡ tally passed items responses)
      × (c.failed ≡ tally ResponseStatus.failed items responses)
      × (c.not_applicable ≡ tally marked_na items responses)
      × (c.unanswered ≡ tally ResponseStatus.unanswered items responses)
      × (c.total ≡ length items)
      × (c.acceptable + c.failed + c.not_applicable + c.unanswered ≡ c.total)
unfolding compute_record_counts
compute_record_counts_tallies items responses = omega (
  arith,
  count_loop-IsCounted (no_counts (length items)) items responses,
  tally-total items responses,
)
