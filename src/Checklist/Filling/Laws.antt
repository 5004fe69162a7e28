-- ===== src/Checklist/Filling/Laws.antt =====
-- What Mark All Acceptable changes, and what it leaves alone.
use fg_details_to_be_added_f.Prelude.{
  String, ◌==◌, eq_iff, ◌≡◌, refl, Bool, true, false, ◌&&◌, ◌||◌, inl, inr, ap, ◌∙◌, some, List, [],
  ◌∷◌, any, is_empty, Bool-cases, lookup, lookup-insert, includes, arith, if◌then◌else◌,
}
use fg_details_to_be_added_f.Checklist.Items.{
  is_status_item_type, pass, status, Response, ResponseMap, Item,
}
use fg_details_to_be_added_f.Checklist.Responses.{is_unanswered, status_of}
use fg_details_to_be_added_f.Checklist.Filling.{
  acceptable_value_for_item_type, preview_mark_all_acceptable, filled_response, fill_item,
  fill_loop, apply_mark_all_acceptable,
}

-- A status item without an answer.
abbrev pub is_open : ResponseMap → Item → Bool
is_open responses item =
    is_status_item_type item.item_type && is_unanswered (status_of item (lookup item.id responses))

abbrev pub is_open_at : ResponseMap → String → Item → Bool
is_open_at responses id item = item.id == id && is_open responses item

abbrev is_status_at : String → Item → Bool
is_status_at id item = item.id == id && is_status_item_type item.item_type

abbrev pub accepted : String → Response
accepted id = filled_response id (status pass)

pub includes-preview :
    (items : List Item) (responses : ResponseMap) (id : String)
    → includes (preview_mark_all_acceptable items responses).item_ids_to_fill id
      ≡ any (is_open_at responses id) items
unfolding preview_mark_all_acceptable
includes-preview [] responses id = refl
includes-preview (item ∷ items) responses id = ground (arith, includes-preview items responses id)

any-is_status_at :
    (items : List Item) (responses : ResponseMap) (id : String)
    → any (is_open_at responses id) items ≡ true
    → any (is_status_at id) items ≡ true
any-is_status_at [] responses id h = h
any-is_status_at (item ∷ items) responses id h = ground (arith, any-is_status_at items responses id)

lookup-fill_item :
    (b : Bool) (item : Item) (next : ResponseMap) (id : String)
    → lookup id (fill_item b (acceptable_value_for_item_type item.item_type) item next) ≡ (
        if item.id == id && (b && is_status_item_type item.item_type)
        then some (accepted id)
        else lookup id next)
unfolding fill_item
lookup-fill_item false item next id = ground arith
lookup-fill_item true item next id = elim (Bool-cases (is_status_item_type item.item_type)) [
  | inl e ↦ rw e (lookup-insert item.id id (accepted item.id) next ∙ same_id (item.id == id) refl)
  | inr e ↦ rw e (ground arith)
]
  where
    same_id :
        (b : Bool)
        → (item.id == id) ≡ b
        → (if b then some (accepted item.id) else lookup id next)
          ≡ (if b && true then some (accepted id) else lookup id next)
    same_id true e = ap (λ k. some (accepted k)) ((eq_iff item.id id).0 e)
    same_id false e = refl

merge_tests {ℓ} :
    {A : Type ℓ} (inc inc' at st rest : Bool) (x y : A)
    → (at ≡ true → inc' ≡ inc)
    → (if inc && rest then x else if at && (inc' && st) then x else y)
      ≡ (if inc && ((at && st) || rest) then x else y)
merge_tests true inc' true st true x y h = ground arith
merge_tests true inc' true st false x y h = rw (h refl) (ground arith)
merge_tests true inc' false st rest x y h = ground arith
merge_tests false inc' true st rest x y h = rw (h refl) refl
merge_tests false inc' false st rest x y h = refl

lookup-fill_loop :
    (ids : List String) (items : List Item) (next : ResponseMap) (id : String)
    → lookup id (fill_loop ids items next) ≡ (
        if includes ids id && any (is_status_at id) items
        then some (accepted id)
        else lookup id next)
unfolding fill_loop
lookup-fill_loop ids [] next id = ground arith
lookup-fill_loop ids (item ∷ items) next id =
    lookup-fill_loop ids items _ id
    ∙ rw (lookup-fill_item (includes ids item.id) item next id) (
        merge_tests (includes ids id) (includes ids item.id) (item.id == id) _ _ _ _
          (λ e. ap (includes ids) ((eq_iff item.id id).0 e)))

includes-is_empty :
    (ids : List String) (id : String) → is_empty ids ≡ true → includes ids id ≡ false
includes-is_empty [] id h = refl
includes-is_empty (x ∷ ids) id h = cc

-- What the loop has at an id, for the list of ids that the preview gives.
lookup-fill_loop_preview :
    (items : List Item) (responses : ResponseMap) (id : String)
    → lookup id
        (fill_loop (preview_mark_all_acceptable items responses).item_ids_to_fill items responses)
      ≡ (if any (is_open_at responses id) items then some (accepted id) else lookup id responses)
lookup-fill_loop_preview items responses id =
    let ids = (preview_mark_all_acceptable items responses).item_ids_to_fill in
    rw (lookup-fill_loop ids items responses id, includes-preview items responses id)
      (elim (Bool-cases (any (is_open_at responses id) items)) [
        | inl e ↦ rw (e, any-is_status_at items responses id e)
        | inr e ↦ rw e
      ])

-- After Mark All Acceptable an item id has the acceptable answer if some status item with that id
-- had none, and else the answer, or the absence of one, that it had before.
pub lookup-apply_mark_all_acceptable :
    (items : List Item) (responses : ResponseMap) (id : String)
    → lookup id (apply_mark_all_acceptable items responses)
      ≡ (if any (is_open_at responses id) items then some (accepted id) else lookup id responses)
unfolding apply_mark_all_acceptable
lookup-apply_mark_all_acceptable items responses id =
    let ids = (preview_mark_all_acceptable items responses).item_ids_to_fill in
    elim (Bool-cases (is_empty ids)) [
      | inl e ↦ rw e (rw (← includes-preview items responses id, includes-is_empty ids id e) refl)
      | inr e ↦ rw e (lookup-fill_loop_preview items responses id)
    ]
