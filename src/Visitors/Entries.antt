-- ===== src/Visitors/Entries.antt =====
-- How often the visitors of the passes were let in, as a condition on the tables.
use nestora_server.Prelude.{ℕ, ◌≤◌, ◌≡◌, refl, true, List, [], ◌∷◌, ◌==◌, arith}
use nestora_server.Prelude.Table.{All, sum_where}
use nestora_server.Prelude.Keys.{Keyed, KeysBelow}
use nestora_server.Visitors.Data.{PreApprovedVisitor, VisitorLog, Db}
use nestora_server.Visitors.Gate.{is_open_log}
use nestora_server.Visitors.Service.{is_active, is_single_entry}

abbrev pub pass_key : PreApprovedVisitor → ℕ
pass_key p = p.id

abbrev pub log_key : VisitorLog → ℕ
log_key l = l.pre_approved_id

-- How often the pass was used to enter.
abbrev pub entries : ℕ → List VisitorLog → ℕ
entries k logs = sum_where (λ (l : VisitorLog). l.pre_approved_id == k) (λ l. 1) logs

-- How many visitors the pass has inside.
abbrev pub inside : ℕ → List VisitorLog → ℕ
inside k logs = sum_where (is_open_log k) (λ l. 1) logs

-- A pass for a single entry is used once at most, and not at all while it is active.
abbrev pub Admits : List VisitorLog → PreApprovedVisitor → Type 0
Admits logs p =
    is_single_entry p ≡ true
    → (entries p.id logs ≤ 1) × (is_active p.status ≡ true → entries p.id logs ≡ 0)

pub record Admissions (s : Db) : Type 0 where
  pub keyed : Keyed pass_key s.pre_approved_visitors
  pub old : KeysBelow pass_key s.next_uuid s.pre_approved_visitors
  pub logs_old : KeysBelow log_key s.next_uuid s.visitor_logs
  pub one_inside : (k : ℕ) → inside k s.visitor_logs ≤ 1
  pub single : All (Admits s.visitor_logs) s.pre_approved_visitors

pub entries_none :
    (n k : ℕ) (logs : List VisitorLog) → KeysBelow log_key n logs → n ≤ k → entries k logs ≡ 0
unfolding sum_where
entries_none n k [] h le = refl
entries_none n k (l ∷ logs) h le =
    let low = h.0 in let rest = entries_none n k logs h.1 le in ground arith
