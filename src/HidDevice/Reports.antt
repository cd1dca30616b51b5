-- ===== src/HidDevice/Reports.antt =====
-- pkg/hid/report.go: reports and the outcome of a native write.
use fido_go.Base.{ℕ, Bool, ◌&&◌, [], ◌==◌, length, Bytes}

pub record ReportSpec : Type 0 where
  pub id : ℕ
  pub size : ℕ

pub record ReportLayout : Type 0 where
  pub input : ReportSpec
  pub output : ReportSpec

pub record Report : Type 0 where
  pub id : ℕ
  pub content : Bytes

-- `Report{}`
abbrev pub empty_report : Report
empty_report = record { id = 0; content = [] }

pub data WriteOutcome : Type 0 where
  unknown not_submitted completed : WriteOutcome

-- `report.ID == spec.ID && len(report.Data) == spec.Size`
unfoldable pub fits : ReportSpec → Report → Bool
fits spec report = report.id == spec.id && length report.content == spec.size
