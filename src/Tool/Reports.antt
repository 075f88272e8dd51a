-- ===== src/Tool/Reports.antt =====
-- `compare` of cmd/spin-machine/main.go, of the reading of a file and of the decoder of a report.
use spin_machine.Common.{Text, ◌||◌, [], Result, ok, ◌>>=◌, ◌>>◌, reject, wrap, is_empty}
use spin_machine.Report.{Report}
use spin_machine.Report.Numbers.{Floats}
use spin_machine.Report.Compared.{diff}

pub data CompareError : Type 0 where
  both_required : CompareError
  not_read : Text → CompareError
  not_decoded : Text → Text → CompareError

module _ (F : Floats) where
  -- `compareFlags`.
  pub record CompareFlags : Type 0 where
    pub old : Text
    pub new : Text
    pub threshold : F.Num

  -- `register`: the defaults.
  unfoldable pub default_compare : CompareFlags
  default_compare = record { old = []; new = []; threshold = F.literal 5 2 }

  module _ (read : Text → Result Text Text) (decode : Text → Result Text (Report F.Num)) where
    -- A round of the loop over the two files.
    unfoldable pub report_of : Text → Result CompareError (Report F.Num)
    report_of p = do b ← wrap not_read (read p); wrap (not_decoded p) (decode b)

    -- `compare`: what it writes, or its error.
    unfoldable pub compare_reports : CompareFlags → Result CompareError Text
    unfolding report_of diff
    compare_reports o = do
      reject (is_empty o.old || is_empty o.new) both_required
      old ← report_of o.old
      new ← report_of o.new
      ok (diff F old new o.threshold)
