-- ===== src/Inspections/Detail/Laws.antt =====
-- What the review queues show.
use fg_details_to_be_added_f.Prelude.{
  ◌≡◌, refl, ap, subst, ◌∙◌, Bool, true, ◌&&◌, List, [], ◌∷◌, every, arith,
}
use fg_details_to_be_added_f.Records.{RecordStatus, has_status}
use fg_details_to_be_added_f.Exec.{Outcome, ok, err, ◌>>◌}
use fg_details_to_be_added_f.Prisma.{Prisma, PrismaLaws}
use fg_details_to_be_added_f.Inspections.State.{RequestUser, InspectionRecord, Exception, Db}
use fg_details_to_be_added_f.Inspections.Access.{can_view, assert_can_view}
use fg_details_to_be_added_f.Inspections.Detail.{
  Detail, add_shown, build_detail, collect_details, list_by_statuses,
}

module _ (p : Prisma) (user : RequestUser) where
  add_shown-every :
      (good : Detail → Bool) (o : Outcome Exception Detail) (rest : List Detail)
      → ((d : Detail) → o ≡ ok d → good d ≡ true)
      → every good rest ≡ true
      → every good (add_shown p o rest) ≡ true
  unfolding add_shown
  add_shown-every good (ok d) rest h k = ground (arith, h d refl)
  add_shown-every good (err e) rest h k = k

  build_detail-header :
      (r : InspectionRecord) (s : Db p) (d : Detail)
      → ((assert_can_view p r user >> build_detail p r user) s).0 ≡ ok d
      → (can_view r user ≡ true) × (d.header ≡ r)
  unfolding build_detail assert_can_view
  build_detail-header r s d h = (ground arith, ground arith)

  collect_details-every :
      (q : InspectionRecord → Bool) (rows : List InspectionRecord) (s : Db p)
      → every q rows ≡ true
      → every (λ d. can_view d.header user && q d.header) (collect_details p user rows s) ≡ true
  unfolding collect_details
  collect_details-every q [] s h = refl
  collect_details-every q (r ∷ rows) s h =
      add_shown-every (λ d. can_view d.header user && q d.header)
        ((assert_can_view p r user >> build_detail p r user) s).0 (collect_details p user rows s)
        (λ d e.
          let (visible, same) = build_detail-header r s d e in
          ap (λ x. can_view x user && q x) same ∙ ground arith)
        (collect_details-every q rows s (ground arith))

  -- Given the laws of the database client: a review queue that returns shows only records that the
  -- user may see and whose status is one of those asked for.
  pub list_by_statuses-every :
      (laws : PrismaLaws p) (statuses : List RecordStatus) (s s' : Db p) (details : List Detail)
      → list_by_statuses p user statuses s ≡ (ok details, s')
      → every (λ d. can_view d.header user && has_status statuses d.header.status) details ≡ true
  unfolding list_by_statuses
  list_by_statuses-every laws statuses s s' details h =
      let rows =
        p.find_page (λ r. has_status statuses r.status) (λ r. r.submitted_at) 50 s.records in
      let shown : collect_details p user rows s ≡ details = same_list (ap (λ r. r.0) h) in
      subst
        (λ ds. every (λ d. can_view d.header user && has_status statuses d.header.status) ds ≡ true)
        shown
        (collect_details-every (λ r. has_status statuses r.status) rows s
          (laws.find_page_sound (λ r. has_status statuses r.status) (λ r. r.submitted_at) 50
            s.records))
    where
      same_list :
          {a b : List Detail} → (let x : Outcome Exception (List Detail) = ok a in x) ≡ ok b → a ≡ b
      same_list e = cc e
