-- ===== src/Offline/Bounds.antt =====
-- The bounds that packages/shared/src/offline-queue.ts and queue-store.ts state.
use fg_details_to_be_added_f.Prelude.{
  ℕ, suc, String, ◌==◌, ◌≤◌, ◌≡◌, inl, inr, refl, ap, ◌∙◌, Bool, true, false, not, Option, none,
  some, List, [], ◌∷◌, In, In-keep_inv, length, keep, leb, arith, Bool-cases, Option-cases, ◌⊎◌,
  ◌&&◌, ltb, if◌then◌else◌, eq_refl,
}
use fg_details_to_be_added_f.Offline.{QueueItem, waiting_to_sync, is_synced, max_entries}
use fg_details_to_be_added_f.Offline.Store.{
  put, remove, oldest, list_queue, enqueue, enqueued, update_item, clear_synced,
}
use fg_details_to_be_added_f.Offline.Conflicts.{Api}
use fg_details_to_be_added_f.Offline.Engine.{
  sync_one, started, verdict, is_due, process_items, process_queue, retry_item, Use, saving,
  processing, retrying, clearing, use_queue, use_all,
}

length-put :
    (item : QueueItem) (queue : List QueueItem) → length (put item queue) ≤ suc (length queue)
length-put item [] = omega arith
length-put item (x ∷ rest) =
    let h = length-put item rest in
    elim (Bool-cases (x.id == item.id)) [ inl e ↦ rw e (omega arith) | inr e ↦ rw e (omega arith) ]

length-remove :
    (x : QueueItem) (queue : List QueueItem)
    → In x queue
    → suc (length (remove x.id queue)) ≡ length queue
length-remove x [] m = absurd m
length-remove x (y ∷ rest) m = elim (Bool-cases (y.id == x.id)) [
  | inl e ↦ rw e refl
  | inr e ↦ rw e (ap suc (later m e (length-remove x rest)))
]
  where
    later :
        (y ≡ x) ⊎ In x rest
        → y.id == x.id ≡ false
        → (In x rest → suc (length (remove x.id rest)) ≡ length rest)
        → suc (length (remove x.id rest)) ≡ length rest
    later (inl same) e ih =
        let r = ap (λ (z : QueueItem). z.id == x.id) same ∙ eq_refl x.id in absurd cc
    later (inr n) e ih = ih n

In-oldest :
    (best : Option QueueItem) (queue : List QueueItem) (x : QueueItem)
    → oldest best queue ≡ some x
    → (best ≡ some x) ⊎ In x queue
In-oldest best [] x h = inl h
In-oldest none (y ∷ rest) x h = elim (In-oldest (some y) rest x h) [
  | inl e ↦ inr (inl cc)
  | inr m ↦ inr (inr m)
]
In-oldest (some b) (y ∷ rest) x h =
    elim (In-oldest (some (if ltb y.updated_at b.updated_at then y else b)) rest x h) [
      | inl e ↦ of_test (Bool-cases (ltb y.updated_at b.updated_at)) e
      | inr m ↦ inr (inr m)
    ]
  where
    of_test :
        (ltb y.updated_at b.updated_at ≡ true) ⊎ (ltb y.updated_at b.updated_at ≡ false)
        → some (if ltb y.updated_at b.updated_at then y else b) ≡ some x
        → (some b ≡ some x) ⊎ In x (y ∷ rest)
    of_test (inl t) e = let e' = rw t at e in inr (inl cc)
    of_test (inr t) e = inl (rw t at e)

pub length-enqueue :
    (item : QueueItem) (queue : List QueueItem)
    → length queue ≤ max_entries
    → length (enqueued queue (enqueue item queue)) ≤ max_entries
unfolding enqueue
length-enqueue item queue h = elim (Bool-cases (leb max_entries (length queue))) [
  | inl full ↦
      rw full
        (of_oldest (Option-cases (oldest none (keep (λ (x : QueueItem). is_synced x.state) queue))))
  | inr room ↦ rw room (let l = length-put item queue in ground arith)
]
  where
    of_oldest :
        (oldest none (keep (λ (x : QueueItem). is_synced x.state) queue) ≡ none)
          ⊎ ((x : QueueItem) × (oldest none (keep (λ (x : QueueItem). is_synced x.state) queue)
                ≡ some x))
        → length (
            enqueued queue (elim (oldest none (keep (λ (x : QueueItem). is_synced x.state) queue)) [
              | none ↦ none
              | some x ↦ some (put item (remove x.id queue))
            ]))
          ≤ max_entries
    of_oldest (inl e) = rw e h
    of_oldest (inr (x, e)) =
        rw e (elim (In-oldest none (keep (λ (x : QueueItem). is_synced x.state) queue) x e) [
          | inl n ↦ absurd cc
          | inr m ↦
              let r =
                length-remove x queue
                  (In-keep_inv (λ (x : QueueItem). is_synced x.state) queue x m).0 in
              let l = length-put item (remove x.id queue) in omega arith
        ])

length-update_item :
    (now : ℕ) (qid : String) (patch : QueueItem → QueueItem) (queue : List QueueItem)
    → length (update_item now qid patch queue) ≡ length queue
unfolding update_item
length-update_item now qid patch [] = refl
length-update_item now qid patch (x ∷ rest) = elim (Bool-cases (x.id == qid)) [
  | inl e ↦ rw e refl
  | inr e ↦ rw e (ap suc (length-update_item now qid patch rest))
]

length-keep : (p : QueueItem → Bool) (queue : List QueueItem) → length (keep p queue) ≤ length queue
length-keep p [] = omega arith
length-keep p (x ∷ rest) =
    let h = length-keep p rest in
    elim (Bool-cases (p x)) [ inl e ↦ rw e (omega arith) | inr e ↦ rw e (omega arith) ]

module _ {S : Type 0} (api : Api S) where
  length-sync_one :
      (now : ℕ) (item : QueueItem) (d : List QueueItem × S)
      → length (sync_one api now item d).0 ≡ length d.0
  unfolding sync_one
  length-sync_one now item (queue, s) =
      length-update_item now item.id (verdict api now item s).0
        (update_item now item.id (started api) queue)
      ∙ length-update_item now item.id (started api) queue

  length-process_items :
      (force : Bool) (now : ℕ) (items : List QueueItem) (d : List QueueItem × S)
      → length (process_items api force now items d).0.0 ≡ length d.0
  unfolding process_items
  length-process_items force now [] d = refl
  length-process_items force now (item ∷ rest) d = elim (Bool-cases (is_due api force now item)) [
    | inl e ↦
        rw (e, process_items)
          (length-process_items force now rest (sync_one api now item d)
            ∙ length-sync_one now item d)
    | inr e ↦ rw (e, process_items) (length-process_items force now rest d)
  ]

  length-process_queue :
      (online force : Bool) (now : ℕ) (d : List QueueItem × S)
      → length (process_queue api online force now d).0.0 ≤ length d.0
  unfolding process_queue clear_synced
  length-process_queue online force now (queue, s) = elim (Bool-cases (not online && not force)) [
    | inl e ↦ rw e (omega arith)
    | inr e ↦ rw e (
        let n = length-process_items force now (list_queue queue) (queue, s) in
        let k =
          length-keep (λ (x : QueueItem). not (is_synced x.state))
            (process_items api force now (list_queue queue) (queue, s)).0.0 in
        omega arith)
  ]

  length-use_queue :
      (u : Use api) (d : List QueueItem × S)
      → length d.0 ≤ max_entries
      → length (use_queue api u d).0 ≤ max_entries
  unfolding use_queue retry_item clear_synced
  length-use_queue (saving item) (queue, s) h = length-enqueue item queue h
  length-use_queue (processing online force now) d h =
      let k = length-process_queue online force now d in omega arith
  length-use_queue (retrying online now qid) (queue, s) h =
      let k = length-process_queue online true now (
        update_item now qid
            (λ item. record item {
              state = waiting_to_sync;
              next_retry_at = none;
              last_error = none;
            })
            queue,
        s,
      ) in
      let l =
        length-update_item now qid
          (λ item. record item { state = waiting_to_sync; next_retry_at = none; last_error = none })
          queue in
      omega arith
  length-use_queue clearing (queue, s) h =
      let k = length-keep (λ (x : QueueItem). not (is_synced x.state)) queue in omega arith

  -- However a device uses its queue, if the queue holds at most forty submissions, it never holds more than
  -- forty.
  pub use_all-bounded :
      (uses : List (Use api)) (queue : List QueueItem) (s : S)
      → length queue ≤ max_entries
      → length (use_all api uses (queue, s)).0 ≤ max_entries
  use_all-bounded [] queue s h = h
  use_all-bounded (u ∷ rest) queue s h =
      let d = use_queue api u (queue, s) in
      use_all-bounded rest d.0 d.1 (length-use_queue u (queue, s) h)
