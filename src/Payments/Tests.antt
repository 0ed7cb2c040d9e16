-- ===== src/Payments/Tests.antt =====
-- A payments database, a broker, and runs on them.
mod Starting
mod Orders
mod Letters
mod Intake
use study_microsservices_nod.Base.{ℕ, String, none}
use study_microsservices_nod.Payments.Charge.{Process}

-- A payments process at time 1000, with no transaction issued yet.
abbrev pub process_with : {D : Type 0} → D → Process D
process_with db = record {
  clock = 1000;
  draws = λ n. 12345;
  drawn = 0;
  uuids = λ n. "uuid";
  issued = 0;
  db = db;
}
