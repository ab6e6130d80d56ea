-- ===== src/Visitors/Data.antt =====
-- app/modules/visitor_management/models.py, the statuses of constants.py and the payloads of schemas.py.
-- Columns that no method reads or writes are left out. A date counts days, a time of day seconds.
use nestora_server.Prelude.{ℕ, String, Bool, Option, List}
use nestora_server.Prelude.Text.{Text}
use nestora_server.Directory.{Directory}
use nestora_server.Notifications.Data.{Inbox}

pub data VisitorPassStatus : Type 0 where
  active used expired cancelled : VisitorPassStatus

pub data VisitorVisitStatus : Type 0 where
  pending approved denied checked_in checked_out : VisitorVisitStatus

pub record Visitor : Type 0 where
  pub id : ℕ
  pub name : Text
  pub mobile : Text
  pub photo_url : Option Text
  pub id_type : Option Text
  pub id_number : Option Text
  pub created_at : ℕ
  pub is_deleted : Bool

pub record VisitorVisit : Type 0 where
  pub id : ℕ
  pub visitor_id : ℕ
  pub unit_id : ℕ
  pub purpose : Text
  pub visitor_type : Text
  pub number_of_visitors : ℕ
  pub vehicle_number : Option Text
  pub notes : Option Text
  pub expected_duration : Option Text
  pub status : VisitorVisitStatus
  pub pass_code : Option Text
  pub check_in_time : Option ℕ
  pub check_out_time : Option ℕ
  pub created_at : ℕ
  pub is_deleted : Bool

pub record PreApprovedVisitor : Type 0 where
  pub id : ℕ
  pub resident_id : Option ℕ
  pub unit_id : ℕ
  pub visitor_name : Text
  pub mobile : Text
  pub visitor_type : Text
  pub pass_code : Text
  pub otp : Option Text
  pub visit_date : ℕ
  pub start_time : ℕ
  pub end_time : ℕ
  pub number_of_visitors : ℕ
  pub vehicle_number : Option Text
  pub purpose : Option Text
  pub pass_type : String
  pub status : VisitorPassStatus
  pub created_by : ℕ
  pub is_deleted : Bool

pub record VisitorLog : Type 0 where
  pub id : ℕ
  pub pre_approved_id : ℕ
  pub check_in : ℕ
  pub check_out : Option ℕ
  pub gate : Option Text
  pub guard_id : ℕ
  pub visitor_photo_url : Option Text
  pub remarks : Option Text
  pub is_deleted : Bool

pub record Delivery : Type 0 where
  pub id : ℕ
  pub unit_id : ℕ
  pub resident_id : Option ℕ
  pub delivery_type : Text
  pub company_name : Option Text
  pub delivery_person_name : Option Text
  pub mobile : Option Text
  pub status : Text
  pub gate : Option Text
  pub guard_id : ℕ
  pub package_photo_url : Option Text
  pub check_in : ℕ
  pub check_out : Option ℕ
  pub is_deleted : Bool

pub record VisitorRequest : Type 0 where
  pub mobile : Text
  pub name : Text
  pub visitor_type : Text
  pub number_of_visitors : ℕ
  pub vehicle_number : Option Text
  pub photo_url : Option Text
  pub id_type : Option Text
  pub id_number : Option Text
  pub unit_id : ℕ
  pub purpose : Text
  pub expected_duration : Option Text
  pub notes : Option Text

pub record PreApprovedVisitorRequest : Type 0 where
  pub visitor_name : Text
  pub mobile : Text
  pub visitor_type : Text
  pub visit_date : ℕ
  pub start_time : ℕ
  pub end_time : ℕ
  pub number_of_visitors : ℕ
  pub vehicle_number : Option Text
  pub purpose : Option Text
  pub pass_type : String

pub record CheckInRequest : Type 0 where
  pub otp : Option Text
  pub gate : Option Text
  pub visitor_photo_url : Option Text
  pub remarks : Option Text

pub record DeliveryRequest : Type 0 where
  pub unit_id : ℕ
  pub delivery_type : Text
  pub company_name : Option Text
  pub delivery_person_name : Option Text
  pub mobile : Option Text
  pub status : Text
  pub gate : Option Text
  pub package_photo_url : Option Text

-- The tables, the clock in seconds, and the next `uuid.uuid4()`.
pub record Db : Type 0 where
  pub directory : Directory
  pub inbox : Inbox
  pub visitors : List Visitor
  pub visitor_visits : List VisitorVisit
  pub pre_approved_visitors : List PreApprovedVisitor
  pub visitor_logs : List VisitorLog
  pub deliveries : List Delivery
  pub now : ℕ
  pub next_uuid : ℕ
