-- ===== src/Offline/Engine.antt =====
-- apps/web/src/lib/offline/sync-engine.ts.
use fg_details_to_be_added_f.Prelude.{
  ℕ, String, ◌+◌, Bool, true, false, ◌&&◌, ◌||◌, not, Option, none, some, List, [], ◌∷◌, eqb, ltb,
  if◌then◌else◌,
}
use fg_details_to_be_added_f.Exec.{Outcome, ok, err, Exec, ◌>>=◌, ◌>>◌, pure}
use fg_details_to_be_added_f.Offline.{
  QueueState, ConflictReason, QueueItem, is_synced, waiting_to_sync, syncing, sync_failed,
}
use fg_details_to_be_added_f.Offline.Store.{
  get, list_queue, enqueue, update_item, clear_synced, enqueued,
}
use fg_details_to_be_added_f.Offline.Conflicts.{
  Fetched, ApiError, Api, is_open_status, classify_conflict, says_submitted, Patch, in_conflict,
  done, failed, early_return,
}

module _ {S : Type 0} (api : Api S) where
  -- The `try` block of syncOne: the patch that it ends with.
  unfoldable pub try_sync : QueueItem → Exec ApiError S Patch
  unfolding early_return
  try_sync item = do
    server ← api.fetch item.record_id
    elim (early_return item server) [
      | some patch ↦ pure patch
      | none ↦ api.submit item.record_id item.payload item.idempotency_key >> pure done
    ]

  abbrev pub conflict_or_failed : ℕ → QueueItem → ApiError → Option ConflictReason → Patch
  conflict_or_failed now item e (some reason) = in_conflict reason e.message
  conflict_or_failed now item e none = failed now (item.attempt_count + 1) e.message

  -- The end of its `catch` block.
  unfoldable pub give_up : ℕ → QueueItem → ApiError → Patch
  unfolding classify_conflict
  give_up now item e = conflict_or_failed now item e (classify_conflict e.status e.message none)

  -- Its `catch` block: a record that is past its draft counts as synced.
  unfoldable pub after_refetch : ℕ → QueueItem → ApiError → Outcome ApiError Fetched × S → Patch × S
  unfolding give_up
  after_refetch now item e (ok server, s) =
      (if is_open_status server.status then give_up now item e else done, s)
  after_refetch now item e (err _, s) = (give_up now item e, s)

  unfoldable pub recover : ℕ → QueueItem → ApiError → S → Patch × S
  unfolding says_submitted give_up
  recover now item e s =
      if eqb e.status 409 || says_submitted e.message
      then after_refetch now item e (api.fetch item.record_id s)
      else (give_up now item e, s)

  abbrev pub settled : ℕ → QueueItem → Outcome ApiError Patch × S → Patch × S
  settled now item (ok patch, s) = (patch, s)
  settled now item (err e, s) = recover now item e s

  -- The patch that syncOne ends with.
  unfoldable pub verdict : ℕ → QueueItem → S → Patch × S
  unfolding try_sync recover
  verdict now item s = settled now item (try_sync item s)

  abbrev pub started : Patch
  started item = record item { state = syncing; last_error = none }

  -- syncOne
  unfoldable pub sync_one : ℕ → QueueItem → List QueueItem × S → List QueueItem × S
  unfolding verdict update_item
  sync_one now item (queue, s) =
      let (patch, s') = verdict now item s in
      (update_item now item.id patch (update_item now item.id started queue), s')

  -- The tests of the loop: an item that is sent now.
  abbrev pub is_due_state : Bool → ℕ → Option ℕ → QueueState → Bool
  is_due_state force now retry_at waiting_to_sync = true
  is_due_state force now none sync_failed = true
  is_due_state force now (some at) sync_failed = not (ltb now at && not force)
  is_due_state force now retry_at _ = false

  unfoldable pub is_due : Bool → ℕ → QueueItem → Bool
  is_due force now item = is_due_state force now item.next_retry_at item.state

  abbrev pub count_synced : Option QueueItem → ℕ
  count_synced none = 0
  count_synced (some item) = if is_synced item.state then 1 else 0

  -- The loop of processOfflineQueue over the list that it read, with the counts.
  unfoldable pub process_items :
      Bool → ℕ → List QueueItem → List QueueItem × S → (List QueueItem × S) × (ℕ × ℕ)
  unfolding sync_one
  process_items force now [] d = (d, (0, 0))
  process_items force now (item ∷ rest) d = elim (is_due force now item) [
    | false ↦ process_items force now rest d
    | true ↦
        let d' = sync_one now item d in
        let (last, (processed, count)) = process_items force now rest d' in
        (last, (processed + 1, count_synced (get item.id d'.0) + count))
  ]

  -- processOfflineQueue on a device with IndexedDB
  unfoldable pub process_queue :
      Bool → Bool → ℕ → List QueueItem × S → (List QueueItem × S) × (ℕ × ℕ)
  unfolding process_items list_queue clear_synced
  process_queue online force now (queue, s) =
      if not online && not force
      then ((queue, s), (0, 0))
      else let ((queue', s'), counts) = process_items force now (list_queue queue) (queue, s) in
        ((clear_synced queue', s'), counts)

  -- retryOfflineItem
  unfoldable pub retry_item : Bool → ℕ → String → List QueueItem × S → List QueueItem × S
  unfolding process_queue update_item
  retry_item online now qid (queue, s) =
      (process_queue online true now (
        update_item now qid
            (λ item. record item {
              state = waiting_to_sync;
              next_retry_at = none;
              last_error = none;
            })
            queue,
        s,
      )).0

  -- The operations on the queue of a device; a save that throws leaves it as it is.
  pub data Use : Type 0 where
    saving : QueueItem → Use
    processing : Bool → Bool → ℕ → Use
    retrying : Bool → ℕ → String → Use
    clearing : Use

  unfoldable pub use_queue : Use → List QueueItem × S → List QueueItem × S
  unfolding enqueue process_queue retry_item clear_synced
  use_queue (saving item) (queue, s) = (enqueued queue (enqueue item queue), s)
  use_queue (processing online force now) d = (process_queue online force now d).0
  use_queue (retrying online now qid) d = retry_item online now qid d
  use_queue clearing (queue, s) = (clear_synced queue, s)

  abbrev pub use_all : List Use → List QueueItem × S → List QueueItem × S
  use_all [] d = d
  use_all (u ∷ rest) d = use_all rest (use_queue u d)
