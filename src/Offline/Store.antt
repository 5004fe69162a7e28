-- ===== src/Offline/Store.antt =====
-- apps/web/src/lib/offline/queue-store.ts.
use fg_details_to_be_added_f.Prelude.{
  ℕ, String, ◌==◌, not, Option, none, some, List, [], ◌∷◌, length, keep, ltb, leb, if◌then◌else◌,
}
use fg_details_to_be_added_f.Offline.{QueueItem, is_synced, max_entries}

-- queue-store.ts, over the object store of IndexedDB, whose rows have distinct ids.

abbrev pub put : QueueItem → List QueueItem → List QueueItem
put item [] = item ∷ []
put item (x ∷ rest) =
    let others = put item rest in if x.id == item.id then item ∷ rest else x ∷ others

abbrev pub get : String → List QueueItem → Option QueueItem
get qid [] = none
get qid (x ∷ rest) = let others = get qid rest in if x.id == qid then some x else others

abbrev pub remove : String → List QueueItem → List QueueItem
remove qid [] = []
remove qid (x ∷ rest) = let others = remove qid rest in if x.id == qid then rest else x ∷ others

-- `sort(by updatedAt)[0]`: the first of the least.
abbrev pub oldest : Option QueueItem → List QueueItem → Option QueueItem
oldest best [] = best
oldest none (x ∷ rest) = oldest (some x) rest
oldest (some b) (x ∷ rest) = oldest (some (if ltb x.updated_at b.updated_at then x else b)) rest

abbrev pub insert_by_created : QueueItem → List QueueItem → List QueueItem
insert_by_created x [] = x ∷ []
insert_by_created x (y ∷ rest) =
    let others = insert_by_created x rest in
    if leb x.created_at y.created_at then x ∷ y ∷ rest else y ∷ others

-- listOfflineQueue: a stable sort by createdAt
unfoldable pub list_queue : List QueueItem → List QueueItem
list_queue [] = []
list_queue (x ∷ rest) = insert_by_created x (list_queue rest)

-- enqueueOfflineSubmission with the new item: a full queue gives up its oldest synced item or throws.
unfoldable pub enqueue : QueueItem → List QueueItem → Option (List QueueItem)
enqueue item queue =
    if leb max_entries (length queue)
    then elim (oldest none (keep (λ (x : QueueItem). is_synced x.state) queue)) [
      | none ↦ none
      | some x ↦ some (put item (remove x.id queue))
    ]
    else some (put item queue)

-- `store.put({ ...current, ...patch, updatedAt })`
unfoldable pub update_item : ℕ → String → (QueueItem → QueueItem) → List QueueItem → List QueueItem
update_item now qid patch [] = []
update_item now qid patch (x ∷ rest) =
    let others = update_item now qid patch rest in
    if x.id == qid then record (patch x) { updated_at = now } ∷ rest else x ∷ others

-- clearSyncedOfflineItems
unfoldable pub clear_synced : List QueueItem → List QueueItem
clear_synced queue = keep (λ (x : QueueItem). not (is_synced x.state)) queue

abbrev pub enqueued : List QueueItem → Option (List QueueItem) → List QueueItem
enqueued queue none = queue
enqueued queue (some queue') = queue'
