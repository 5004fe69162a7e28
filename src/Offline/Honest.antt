-- ===== src/Offline/Honest.antt =====
-- What the syncOne of apps/web/src/lib/offline/sync-engine.ts may mark as synced.
use fg_details_to_be_added_f.Prelude.{
  ℕ, String, ◌≡◌, inl, inr, refl, sym, ap, ◌∙◌, Bool, true, false, Option, none, some, Bool-cases,
  Option-cases, eqb, ◌||◌, not, if◌then◌else◌,
}
use fg_details_to_be_added_f.Records.{RecordStatus}
use fg_details_to_be_added_f.Exec.{Outcome, ok, err, Exec, ◌>>◌, pure, continue}
use fg_details_to_be_added_f.Offline.{QueueItem, is_synced}
use fg_details_to_be_added_f.Offline.Conflicts.{
  Patch, Api, Fetched, ApiError, is_open_status, early_return, classify_conflict, says_submitted,
  done, is_newer, is_other_version, is_action_draft,
}
use fg_details_to_be_added_f.Offline.Engine.{
  try_sync, recover, give_up, after_refetch, settled, verdict,
}

-- The statuses of the server's records, as the calls of the API report and change them, from states
-- of the server that are `Good`.
pub record HonestApi {S : Type 0} (api : Api S) (Good : S → Type 0)
    (status : String → S → RecordStatus) : Type 0 where
  pub fetch-good : (rid : String) (s : S) → Good s → Good (api.fetch rid s).1
  pub fetch-same : (rid : String) (s : S) → status rid (api.fetch rid s).1 ≡ status rid s
  pub fetch-status :
      (rid : String) (s : S) (server : Fetched)
      → (api.fetch rid s).0 ≡ ok server
      → server.status ≡ status rid s
  pub submit-status :
      (rid payload key : String) (s : S)
      → Good s
      → (api.submit rid payload key s).0 ≡ ok tt
      → is_open_status (status rid (api.submit rid payload key s).1) ≡ false

-- No patch of an early return marks its item as synced.
abbrev IsUnsynced : Option Patch → Type 0
IsUnsynced o = (patch : Patch) (x : QueueItem) → o ≡ some patch → is_synced (patch x).state ≡ false

some-IsUnsynced :
    (p : Patch) → ((x : QueueItem) → is_synced (p x).state ≡ false) → IsUnsynced (some p)
some-IsUnsynced p f patch x h =
    let k = Patch_same p patch h in ap (λ (q : Patch). is_synced (q x).state) (sym k) ∙ f x
  where
    Patch_same : (a b : Patch) → some a ≡ some b → a ≡ b
    Patch_same a b e = cc

if-IsUnsynced :
    (b : Bool) (p : Patch) (rest : Option Patch)
    → ((x : QueueItem) → is_synced (p x).state ≡ false)
    → IsUnsynced rest
    → IsUnsynced (if b then some p else rest)
if-IsUnsynced true p rest f g = some-IsUnsynced p f
if-IsUnsynced false p rest f g = g

early_return-IsUnsynced :
    (item : QueueItem) (server : Fetched) → IsUnsynced (early_return item server)
unfolding early_return
early_return-IsUnsynced item server =
    if-IsUnsynced (is_newer item.server_updated_at server.updated_at) _ _ (λ x. refl)
      (if-IsUnsynced (is_other_version item.template_version_number server.template_version_number)
        _ _ (λ x. refl)
        (if-IsUnsynced (not server.editable) _ _ (λ x. refl)
          (if-IsUnsynced (is_action_draft item.record_type) _ _ (λ x. refl) (λ patch x h. cc))))

module _ {S : Type 0} (api : Api S) where
  give_up-unsynced :
      (now : ℕ) (item : QueueItem) (e : ApiError) (x : QueueItem)
      → is_synced (give_up api now item e x).state ≡ false
  unfolding give_up
  give_up-unsynced now item e x = elim (Option-cases (classify_conflict e.status e.message none)) [
    | inl c ↦ rw c refl
    | inr (reason, c) ↦ rw c refl
  ]

  module _ (Good : S → Type 0) (status : String → S → RecordStatus)
      (honest : HonestApi api Good status) where
    Settles : QueueItem → Patch × S → Type 0
    Settles item (patch, s) =
        (x : QueueItem)
        → is_synced (patch x).state ≡ true
        → is_open_status (status item.record_id s) ≡ false

    unsynced-Settles :
        (item : QueueItem) (patch : Patch) (s : S)
        → ((x : QueueItem) → is_synced (patch x).state ≡ false)
        → Settles item (patch, s)
    unfolding Settles
    unsynced-Settles item patch s h x t = absurd (let f = h x in cc)

    after_refetch-Settles :
        (now : ℕ) (item : QueueItem) (e : ApiError) (s : S) (r : Outcome ApiError Fetched × S)
        → r ≡ api.fetch item.record_id s
        → Settles item (after_refetch api now item e r)
    unfolding Settles after_refetch
    after_refetch-Settles now item e s (ok server, s') h x t =
        elim (Bool-cases (is_open_status server.status)) [
          | inl o ↦ absurd (let f = give_up-unsynced now item e x in let t' = rw o at t in cc)
          | inr o ↦
              let g =
                honest.fetch-status item.record_id s server
                  (sym (ap (λ (r : Outcome ApiError Fetched × S). r.0) h)) in
              let same =
                ap (λ (r : Outcome ApiError Fetched × S). status item.record_id r.1) h
                ∙ honest.fetch-same item.record_id s in
              ap is_open_status same ∙ ap is_open_status (sym g) ∙ o
        ]
    after_refetch-Settles now item e s (err d, s') h x t =
        absurd (let f = give_up-unsynced now item e x in cc)

    recover-Settles :
        (now : ℕ) (item : QueueItem) (e : ApiError) (s : S)
        → Settles item (recover api now item e s)
    unfolding recover
    recover-Settles now item e s =
        elim (Bool-cases (eqb e.status 409 || says_submitted e.message)) [
          | inl t ↦ rw t (after_refetch-Settles now item e s (api.fetch item.record_id s) refl)
          | inr t ↦
              rw t (unsynced-Settles item (give_up api now item e) s (give_up-unsynced now item e))
        ]

    -- The end of the `try` block, from what the submission comes back with.
    submitted-Settles :
        (now : ℕ) (item : QueueItem) (s : S) (r : Outcome ApiError (Unit {0}) × S)
        → Good s
        → r ≡ api.submit item.record_id item.payload item.idempotency_key s
        → Settles item (settled api now item (continue r (λ _. pure done)))
    unfolding Settles
    submitted-Settles now item s (ok u, s') good h x t =
        ap (λ (r : Outcome ApiError (Unit {0}) × S). is_open_status (status item.record_id r.1)) h
        ∙ honest.submit-status item.record_id item.payload item.idempotency_key s good
            (sym (ap (λ (r : Outcome ApiError (Unit {0}) × S). r.0) h))
    submitted-Settles now item s (err e, s') good h x t = recover-Settles now item e s' x t

    decided-Settles :
        (now : ℕ) (item : QueueItem) (s : S) (o : Option Patch)
        → Good s
        → IsUnsynced o
        → Settles item (
            settled api now item (
              (elim o as (λ _. Exec ApiError S Patch) [
                | none ↦ api.submit item.record_id item.payload item.idempotency_key >> pure done
                | some patch ↦ pure patch
              ])
                s))
    decided-Settles now item s none good f =
        submitted-Settles now item s (api.submit item.record_id item.payload item.idempotency_key s)
          good refl
    decided-Settles now item s (some patch) good f =
        unsynced-Settles item patch s (λ x. f patch x refl)

    fetched-Settles :
        (now : ℕ) (item : QueueItem) (s : S) (r : Outcome ApiError Fetched × S)
        → Good r.1
        → Settles item (
            settled api now item (
              continue r (λ server. elim (early_return item server) [
                | some patch ↦ pure patch
                | none ↦ api.submit item.record_id item.payload item.idempotency_key >> pure done
              ])))
    fetched-Settles now item s (ok server, s') good =
        decided-Settles now item s' (early_return item server) good
          (early_return-IsUnsynced item server)
    fetched-Settles now item s (err e, s') good = recover-Settles now item e s'

    pub verdict-Settles :
        (now : ℕ) (item x : QueueItem) (s : S)
        → Good s
        → is_synced ((verdict api now item s).0 x).state ≡ true
        → is_open_status (status item.record_id (verdict api now item s).1) ≡ false
    unfolding verdict try_sync Settles
    verdict-Settles now item x s good t =
        fetched-Settles now item s (api.fetch item.record_id s)
          (honest.fetch-good item.record_id s good) x t
