-- ===== src/Visitors/Repository.antt =====
-- app/modules/visitor_management/repository.py: visitors and walk-in visits, the statements that write
-- and the queries that the writing methods of the service read.
use nestora_server.Prelude.{ℕ, ◌+◌, Bool, true, false, Option, none, some, List, ◌&&◌, not, ◌==◌}
use nestora_server.Prelude.Table.{first, update, insert, exists, latest}
use nestora_server.Prelude.Text.{Text, text_eq}
use nestora_server.Http.{Exec, ok, modify}
use nestora_server.Directory.{Directory, unit_is_in_associations}
use nestora_server.Visitors.Data.{Visitor, VisitorVisit, Db, VisitorVisitStatus, VisitorRequest}

abbrev pub is_none {ℓ} : {A : Type ℓ} → Option A → Bool
is_none none = true
is_none (some a) = false

-- UUID of a new row.
abbrev pub uuid4 : Exec Db ℕ
uuid4 s = (ok s.next_uuid, record s { next_uuid = s.next_uuid + 1 })

-- `association_ids`: `none` is every association.
unfoldable pub unit_is_in : ℕ → Option (List ℕ) → Directory → Bool
unit_is_in unit_id none d = true
unit_is_in unit_id (some ids) d = unit_is_in_associations unit_id ids d

-- visitors vis JOIN visitor_visits vv … WHERE b.association_id IN :association_ids
abbrev pub has_visit : ℕ → Option (List ℕ) → Db → Bool
has_visit visitor_id none s = true
has_visit visitor_id (some ids) s =
    exists
      (λ (v : VisitorVisit).
        v.visitor_id == visitor_id
        && not v.is_deleted
        && unit_is_in_associations v.unit_id ids s.directory)
      s.visitor_visits

unfoldable pub find_visitor : Text → Option (List ℕ) → Db → Option Visitor
find_visitor mobile ids s =
    latest (λ (v : Visitor). text_eq v.mobile mobile && not v.is_deleted && has_visit v.id ids s)
      (λ v. v.created_at) s.visitors

-- COALESCE(:photo_url,photo_url)
abbrev pub coalesce : Option Text → Option Text → Option Text
coalesce none old = old
coalesce (some new) old = some new

unfoldable pub save_visitor : VisitorRequest → Exec Db ℕ
unfolding find_visitor
save_visitor p s = elim (find_visitor p.mobile none s) [
  | some found ↦ (
    ok found.id,
    record s {
      visitors =
          update (λ (v : Visitor). v.id == found.id && not v.is_deleted)
            (λ v. record v {
              name = p.name;
              photo_url = coalesce p.photo_url v.photo_url;
              id_type = p.id_type;
              id_number = p.id_number;
            })
            s.visitors;
    },
  )
  | none ↦ (
    ok s.next_uuid,
    record s {
      visitors =
          insert
            (record {
              id = s.next_uuid;
              name = p.name;
              mobile = p.mobile;
              photo_url = p.photo_url;
              id_type = p.id_type;
              id_number = p.id_number;
              created_at = s.now;
              is_deleted = false;
            })
            s.visitors;
      next_uuid = s.next_uuid + 1;
    },
  )
]

abbrev pub new_visit : ℕ → VisitorRequest → ℕ → ℕ → VisitorVisit
new_visit visitor_id p uuid now = record {
  id = uuid;
  visitor_id = visitor_id;
  unit_id = p.unit_id;
  purpose = p.purpose;
  visitor_type = p.visitor_type;
  number_of_visitors = p.number_of_visitors;
  vehicle_number = p.vehicle_number;
  notes = p.notes;
  expected_duration = p.expected_duration;
  status = VisitorVisitStatus.pending;
  pass_code = none;
  check_in_time = none;
  check_out_time = none;
  created_at = now;
  is_deleted = false;
}

unfoldable pub create_visit : ℕ → VisitorRequest → Exec Db ℕ
create_visit visitor_id p s = (
  ok s.next_uuid,
  record s {
    visitor_visits = insert (new_visit visitor_id p s.next_uuid s.now) s.visitor_visits;
    next_uuid = s.next_uuid + 1;
  },
)

abbrev pub is_pending : VisitorVisitStatus → Bool
is_pending VisitorVisitStatus.pending = true
is_pending _ = false

abbrev pub is_approved : VisitorVisitStatus → Bool
is_approved VisitorVisitStatus.approved = true
is_approved _ = false

abbrev pub is_checked_in : VisitorVisitStatus → Bool
is_checked_in VisitorVisitStatus.checked_in = true
is_checked_in _ = false

abbrev pub is_visit : ℕ → VisitorVisit → Bool
is_visit visit_id v = v.id == visit_id && not v.is_deleted

-- `get_visit` without a status, and with "Pending".
unfoldable pub get_visit : ℕ → Db → Option VisitorVisit
get_visit visit_id s = first (is_visit visit_id) s.visitor_visits

unfoldable pub get_pending_visit : ℕ → Db → Option VisitorVisit
get_pending_visit visit_id s =
    first (λ v. is_visit visit_id v && is_pending v.status) s.visitor_visits

unfoldable pub update_visit : ℕ → (VisitorVisit → VisitorVisit) → Exec Db Unit
update_visit visit_id values =
    modify (λ s. record s { visitor_visits = update (is_visit visit_id) values s.visitor_visits })

abbrev pub is_arriving : ℕ → VisitorVisit → Bool
is_arriving visit_id v = is_visit visit_id v && is_approved v.status

abbrev pub is_leaving : ℕ → VisitorVisit → Bool
is_leaving visit_id v = is_visit visit_id v && is_checked_in v.status

abbrev pub arrived : ℕ → VisitorVisit → VisitorVisit
arrived now v = record v { status = VisitorVisitStatus.checked_in; check_in_time = some now }

abbrev pub left_premises : ℕ → VisitorVisit → VisitorVisit
left_premises now v = record v {
  status = VisitorVisitStatus.checked_out;
  check_out_time = some now;
}

-- The results are `bool(result.rowcount)`.
unfoldable pub check_in_visit : ℕ → Exec Db Bool
check_in_visit visit_id s = (
  ok (exists (is_arriving visit_id) s.visitor_visits),
  record s { visitor_visits = update (is_arriving visit_id) (arrived s.now) s.visitor_visits },
)

unfoldable pub check_out_visit : ℕ → Exec Db Bool
check_out_visit visit_id s = (
  ok (exists (is_leaving visit_id) s.visitor_visits),
  record s { visitor_visits = update (is_leaving visit_id) (left_premises s.now) s.visitor_visits },
)

unfoldable pub visit_is_in : ℕ → Option (List ℕ) → Db → Bool
visit_is_in visit_id none s = true
visit_is_in visit_id (some ids) s =
    exists (λ v. is_visit visit_id v && unit_is_in_associations v.unit_id ids s.directory)
      s.visitor_visits
