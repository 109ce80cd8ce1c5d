-- ===== src/Display/SummaryExamples.antt =====
-- A test of the summary of a publish run of four clients.
use mqtt_load_generator.Base.{◌≡◌, false, some, refl, arith}
use mqtt_load_generator.Base.Text.{codes}
use mqtt_load_generator.Base.FixedPoint.{Billionths, billionths}
use mqtt_load_generator.Publish.Progress.{PublishProgress, new_publish_progress}
use mqtt_load_generator.Publish.Run.{run_publish}
use mqtt_load_generator.Report.Publish.{PublishReport, build_publish_report}
use mqtt_load_generator.Report.Compose.{AddsUp, report-AddsUp}
use mqtt_load_generator.Report.Examples.{tallies, four, quiet_course, options}
use mqtt_load_generator.Display.Summary.{Alike, log_publish_summary, publish_summary-Alike}

abbrev ended : PublishProgress
ended = (run_publish quiet_course (new_publish_progress 4)).0

built :
    (report : PublishReport Billionths) × (build_publish_report tallies ended four options
        (codes "host")
        2
      ≡ some report)
    × AddsUp report false quiet_course.counters
built =
    report-AddsUp tallies false 4 quiet_course four options (codes "host") 2 refl (omega arith)
      (omega arith) (omega arith) (refl, (refl, (refl, (refl, tt))))

publish_summary-Alike_example : Alike built.0 (log_publish_summary ended)
publish_summary-Alike_example =
    publish_summary-Alike tallies ended four options (codes "host") 2 built.0 built.1
