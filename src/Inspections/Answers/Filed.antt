-- ===== src/Inspections/Answers/Filed.antt =====
-- Which rows persistResponses of inspection-records.service.ts leaves, entry by entry.
use fg_details_to_be_added_f.Prelude.{
  ◌&&◌, String, ◌==◌, ◌≡◌, Bool, true, not, some, List, [], ◌∷◌, every,
}
use fg_details_to_be_added_f.Checklist.Items.{StatusValue, Response, Item}
use fg_details_to_be_added_f.Prisma.{Prisma, PrismaLaws, pair}
use fg_details_to_be_added_f.Inspections.State.{RequestUser, InspectionResult, Parsed, World, Db}
use fg_details_to_be_added_f.Inspections.Answers.Stored.{IsStoredAs}

module _ (p : Prisma) (w : World) (user : RequestUser) (rid : String) where
  module _ (laws : PrismaLaws p) where
    -- No entry is for the item `x`.
    abbrev is_absent : String → List (String × Parsed Response) → Bool
    is_absent x entries = every (λ e. not (e.0 == x)) entries

    -- Each item has one entry at most, as in an object.
    abbrev pub has_distinct_keys : List (String × Parsed Response) → Bool
    has_distinct_keys [] = true
    has_distinct_keys ((x, raw) ∷ entries) = is_absent x entries && has_distinct_keys entries

    IsOnFile : Item → StatusValue → Response → Db p → Type 0
    IsOnFile item v response s =
        (r : InspectionResult) × (p.find_unique (pair rid item.id) s.results ≡ some r)
        × IsStoredAs item v response r
