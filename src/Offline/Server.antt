-- ===== src/Offline/Server.antt =====
-- The API that syncOne of apps/web/src/lib/offline/sync-engine.ts calls: the handlers of
-- apps/api/src/inspection-records behind a network that may lose a request or its answer.
use fg_details_to_be_added_f.Prelude.{
  ℕ, String, ◌≡◌, refl, sym, ap, subst, ◌∙◌, true, false, Option, none, some, List, [], ◌∷◌, arith,
}
use fg_details_to_be_added_f.Checklist.Items.{Response}
use fg_details_to_be_added_f.Records.{RecordStatus, draft}
use fg_details_to_be_added_f.Exec.{Outcome, ok, err, Exec}
use fg_details_to_be_added_f.Prisma.{Prisma, PrismaLaws, id}
use fg_details_to_be_added_f.Inspections.State.{
  RequestUser, InspectionRecord, Exception, World, Parsed, success, failure, Db,
}
use fg_details_to_be_added_f.Inspections.Detail.{Detail, get_by_id}
use fg_details_to_be_added_f.Inspections.Review.Duty.{IsKeyed}
use fg_details_to_be_added_f.Inspections.Review.Effects.{get_by_id-state}
use fg_details_to_be_added_f.Inspections.Submit.{SubmitResult, submit}
use fg_details_to_be_added_f.Inspections.Submit.Laws.{submit-ok}
use fg_details_to_be_added_f.Offline.{Time, QueueItem, is_synced}
use fg_details_to_be_added_f.Offline.Conflicts.{Fetched, ApiError, Api, is_open_status}
use fg_details_to_be_added_f.Offline.Engine.{verdict}
use fg_details_to_be_added_f.Offline.Honest.{HonestApi, verdict-Settles}

-- What the network does to one call. A request that a guard refuses counts as one that is lost.
pub data Delivery : Type 0 where
  delivered : Delivery
  request_lost : ApiError → Delivery
  answer_lost : ApiError → Delivery

-- What the client makes of the answers: the error for an exception, the time of the last write of a
-- record, which the model of the server leaves out, and what the server's pipes read in a payload.
pub record Wire : Type 0 where
  pub error_of : Exception → ApiError
  pub updated_at : InspectionRecord → Option Time
  pub parse : String → Parsed (Option (List (String × Parsed Response)))

abbrev answered :
    {A B : Type 0} → (Exception → ApiError) → (A → B) → Outcome Exception A → Outcome ApiError B
answered error_of f (ok a) = ok (f a)
answered error_of f (err e) = err (error_of e)

module _ (p : Prisma) (w : World) (user : RequestUser) (wire : Wire) where
  -- The deliveries of the calls to come, and the database. Past the list each call is delivered.
  abbrev pub Remote : Type 0
  Remote = List Delivery × Db p

  -- One request of apiFetch under a delivery.
  deliver :
      {A B : Type 0}
      → Delivery
      → (A → B)
      → Exec Exception (Db p) A
      → Db p
      → Outcome ApiError B × Db p
  deliver delivered f handler s = let (r, s') = handler s in (answered wire.error_of f r, s')
  deliver (request_lost e) f handler s = (err e, s)
  deliver (answer_lost e) f handler s = (err e, (handler s).1)

  call : {A B : Type 0} → (A → B) → Exec Exception (Db p) A → Remote → Outcome ApiError B × Remote
  unfolding deliver
  call f handler ([], s) = let (r, s') = deliver delivered f handler s in (r, ([], s'))
  call f handler (d ∷ rest, s) = let (r, s') = deliver d f handler s in (r, (rest, s'))

  fetched_of : Detail → Fetched
  fetched_of d = record {
    status = d.header.status;
    updated_at = wire.updated_at d.header;
    template_version_number = d.version.version_number;
    editable = d.editable;
  }

  -- fetchInspectionRecord and submitInspectionRecord
  unfoldable pub server : Api Remote
  unfolding call fetched_of
  server = record {
    fetch = λ rid. call fetched_of (get_by_id p user rid);
    submit = λ rid payload key.
        call (λ (r : SubmitResult). tt) (submit p w user rid (wire.parse payload));
  }

  abbrev status_or_draft : Option InspectionRecord → RecordStatus
  status_or_draft none = draft
  status_or_draft (some r) = r.status

  abbrev stored_status : String → Remote → RecordStatus
  stored_status rid (ds, s) = status_or_draft (p.find_unique (id rid) s.records)

  abbrev KeyedRemote : Remote → Type 0
  KeyedRemote (ds, s) = IsKeyed p s

  get_by_id-header :
      (rid : String) (s : Db p) (d : Detail)
      → (get_by_id p user rid s).0 ≡ ok d
      → p.find_unique (id rid) s.records ≡ some d.header
  unfolding get_by_id
  get_by_id-header rid s d h = ground arith

  deliver-state :
      (rid : String) (d : Delivery) (s : Db p)
      → (deliver d fetched_of (get_by_id p user rid) s).1 ≡ s
  unfolding deliver
  deliver-state rid delivered s = get_by_id-state p user rid s
  deliver-state rid (request_lost e) s = refl
  deliver-state rid (answer_lost e) s = get_by_id-state p user rid s

  fetch-state : (rid : String) (x : Remote) → ((server.fetch rid x).1).1 ≡ x.1
  unfolding server
  fetch-state rid ([], s) = deliver-state rid delivered s
  fetch-state rid (d ∷ rest, s) = deliver-state rid d s

  answered-eq-ok :
      {A B : Type 0} (f : A → B) (o : Outcome Exception A) (b : B)
      → answered wire.error_of f o ≡ ok b
      → (a : A) × (o ≡ ok a) × (f a ≡ b)
  answered-eq-ok f (ok a) b h = (a, refl, cc h)
  answered-eq-ok f (err e) b h = cc h

  deliver-eq-ok :
      {A B : Type 0} (d : Delivery) (f : A → B) (handler : Exec Exception (Db p) A) (s : Db p)
      (b : B)
      → (deliver d f handler s).0 ≡ ok b
      → (a : A) × ((handler s).0 ≡ ok a) × (f a ≡ b) × ((deliver d f handler s).1 ≡ (handler s).1)
  unfolding deliver
  deliver-eq-ok delivered f handler s b h =
      let (a, ran, same) = answered-eq-ok f (handler s).0 b h in (a, ran, same, refl)
  deliver-eq-ok (request_lost e) f handler s b h = cc h
  deliver-eq-ok (answer_lost e) f handler s b h = cc h

  call-eq-ok :
      {A B : Type 0} (f : A → B) (handler : Exec Exception (Db p) A) (x : Remote) (b : B)
      → (call f handler x).0 ≡ ok b
      → (a : A) × ((handler x.1).0 ≡ ok a)
        × (f a ≡ b)
        × (((call f handler x).1).1 ≡ (handler x.1).1)
  unfolding call
  call-eq-ok f handler ([], s) b h = deliver-eq-ok delivered f handler s b h
  call-eq-ok f handler (d ∷ rest, s) b h = deliver-eq-ok d f handler s b h

  module _ (laws : PrismaLaws p) where
    submit-closes :
        (rid : String) (parsed : Parsed (Option (List (String × Parsed Response)))) (s s' : Db p)
        (result : SubmitResult)
        → IsKeyed p s
        → submit p w user rid parsed s ≡ (ok result, s')
        → is_open_status (status_or_draft (p.find_unique (id rid) s'.records)) ≡ false
    unfolding submit
    submit-closes rid (failure message) s s' result keyed h = cc (ap (λ x. x.0) h)
    submit-closes rid (success responses) s s' result keyed h =
        let (r, t, found, owner, editable, kept, given, done) =
          submit-ok p laws w user rid responses s s' result h in
        rw (sym (keyed rid r found), done.after) refl

    fetched-status :
        (rid : String) (x : Remote) (f : Fetched)
        → (server.fetch rid x).0 ≡ ok f
        → f.status ≡ stored_status rid x
    unfolding server fetched_of
    fetched-status rid x f h =
        let (d, ran, same, _) = call-eq-ok fetched_of (get_by_id p user rid) x f h in
        ap (λ (y : Fetched). y.status) (sym same)
        ∙ sym (ap status_or_draft (get_by_id-header rid x.1 d ran))

    submitted-status :
        (rid payload key : String) (x : Remote)
        → KeyedRemote x
        → (server.submit rid payload key x).0 ≡ ok tt
        → is_open_status (stored_status rid (server.submit rid payload key x).1) ≡ false
    unfolding server
    submitted-status rid payload key x good h =
        let handler = submit p w user rid (wire.parse payload) in
        let (result, ran, _, same) = call-eq-ok (λ (r : SubmitResult). tt) handler x tt h in
        ap (λ (s : Db p). is_open_status (status_or_draft (p.find_unique (id rid) s.records))) same
        ∙ submit-closes rid (wire.parse payload) x.1 (handler x.1).1 result good
            (pair_eta (handler x.1) ran)
      where
        pair_eta :
            (y : Outcome Exception SubmitResult × Db p) {result : SubmitResult}
            → y.0 ≡ ok result
            → y ≡ (ok result, y.1)
        pair_eta (o, s) e = ap (λ (z : Outcome Exception SubmitResult). (z, s)) e

    server-HonestApi : HonestApi server KeyedRemote stored_status
    server-HonestApi = record {
      fetch-good = λ rid x good. subst (IsKeyed p) (sym (fetch-state rid x)) good;
      fetch-same =
          λ rid x. ap (λ s. status_or_draft (p.find_unique (id rid) s.records)) (fetch-state rid x);
      fetch-status = λ rid x f h. fetched-status rid x f h;
      submit-status = λ rid payload key x good h. submitted-status rid payload key x good h;
    }

    some_closed :
        (o : Option InspectionRecord)
        → is_open_status (status_or_draft o) ≡ false
        → (r : InspectionRecord) × (o ≡ some r) × (is_open_status r.status ≡ false)
    some_closed none h = cc h
    some_closed (some r) h = (r, refl, h)

    -- Given the laws of the database client, with each record stored under its own id, and whatever
    -- the network loses: if syncOne marks an item as synced, then the item's record is stored, and it
    -- is neither a draft nor returned for correction.
    pub sync-settles :
        (now : ℕ) (item x : QueueItem) (deliveries : List Delivery) (s s' : Db p)
        (rest : List Delivery) (patch : QueueItem → QueueItem)
        → IsKeyed p s
        → verdict server now item (deliveries, s) ≡ (patch, (rest, s'))
        → is_synced (patch x).state ≡ true
        → (r : InspectionRecord) × (p.find_unique (id item.record_id) s'.records ≡ some r)
          × (is_open_status r.status ≡ false)
    sync-settles now item x deliveries s s' rest patch keyed h t =
        some_closed (p.find_unique (id item.record_id) s'.records) (
          ap
            (λ (y : (QueueItem → QueueItem) × Remote).
              is_open_status (stored_status item.record_id y.1))
            (sym h)
          ∙ verdict-Settles server KeyedRemote stored_status server-HonestApi now item x
              (deliveries, s) keyed
              (ap (λ (y : (QueueItem → QueueItem) × Remote). is_synced (y.0 x).state) h ∙ t))
