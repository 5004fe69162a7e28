-- ===== src/Accounts/Reading.antt =====
-- What a run that returns says of the user that it read.
use fg_details_to_be_added_f.Prelude.{String, ◌≡◌, inl, inr, ap, some, Option-cases}
use fg_details_to_be_added_f.Exec.{Exec, ok, ◌>>=◌}
use fg_details_to_be_added_f.Prisma.{Prisma, id}
use fg_details_to_be_added_f.Accounts.State.{User, AccountException, AccountDb}
use fg_details_to_be_added_f.Accounts.{stored_user}

pub stored_user-eq-ok :
    (p : Prisma) (uid : String) {A : Type 0} (e : AccountException)
    (k : User → Exec AccountException (AccountDb p) A) {s s' : AccountDb p} {r : A}
    → (stored_user p e uid >>= k) s ≡ (ok r, s')
    → (u : User) × (p.find_unique (id uid) s.users ≡ some u) × (k u s ≡ (ok r, s'))
stored_user-eq-ok p uid e k {s} h = elim (Option-cases (p.find_unique (id uid) s.users)) [
  | inl missing ↦ cc (ap (λ x. x.0) (rw missing at h))
  | inr (u, found) ↦ (u, found, rw found at h)
]
