-- ===== src/Report/Table.antt =====
-- RenderMarkdown of internal/report/table.go, and the update of the README in cmd/report/main.go.
pub mod Rows
use sluice_gate_telemetery_i.Base.{
  Bytes, codes, ◌≡◌, ap, ◌∙◌, List, [], ◌∷◌, ◌++◌, append_assoc, Bool, true, false, Option, none,
  some, if◌then◌else◌,
}
use sluice_gate_telemetery_i.Event.{Result, ok}
use sluice_gate_telemetery_i.Strconv.{format_int}
use sluice_gate_telemetery_i.Report.{
  Float64, SweepPoint, LossTest, DedupTest, DlqTest, Backpressure, ScalingPoint, Scaling, Report,
}
use sluice_gate_telemetery_i.Report.Markers.{
  marker_begin, marker_end, replace_between_markers, StartsWith, Replaced,
  replace_between_markers-Replaced,
}
use sluice_gate_telemetery_i.Report.Table.Rows.{
  join, newline, sweep_rows, loss_row, dedup_row, dlq_row, backpressure_row, scaling_section,
}

-- A text between the two markers in the place of the old one.
marked_again :
    (x original updated : Bytes) (q : Replaced original (marker_begin ++ (x ++ marker_end)) updated)
    → updated ≡ q.before ++ (marker_begin ++ (x ++ (marker_end ++ q.after)))
marked_again x original updated q =
    q.result_whole ∙ ap (λ s. q.before ++ (marker_begin ++ s)) (append_assoc x marker_end q.after)

-- formatFloat, "%.1f" of a float64, is a parameter.
module _ (format_float : Float64 → Bytes) where
  -- What stands between the two markers.
  unfoldable pub render_body : Report → Bytes
  unfolding sweep_rows loss_row dedup_row dlq_row backpressure_row scaling_section
  render_body r = join (
      newline
      ∷ newline
      ∷ codes "Machine: "
      ∷ r.machine_tag
      ∷ newline
      ∷ newline
      ∷ codes "### Ingest sweep (concurrency {8, 32, 128})"
      ∷ newline
      ∷ newline
      ∷ codes
          "| Phase | Sink | Real Infra | Concurrency | Throughput (events/sec) | p50 (ms) | p95 (ms) | p99 (ms) |"
      ∷ newline
      ∷ codes "|---|---|---|---|---|---|---|---|"
      ∷ newline
      ∷ sweep_rows format_float r.sweeps
      ∷ newline
      ∷ codes "### Correctness"
      ∷ newline
      ∷ newline
      ∷ codes "| Test | Result |"
      ∷ newline
      ∷ codes "|---|---|"
      ∷ newline
      ∷ loss_row format_float r.loss_test
      ∷ dedup_row format_float r.dedup
      ∷ dlq_row format_float r.dlq
      ∷ backpressure_row format_float r.backpressure
      ∷ newline
      ∷ codes "### Kubernetes replica scaling"
      ∷ newline
      ∷ newline
      ∷ scaling_section format_float r.scaling
      ∷ newline
      ∷ [])

  unfoldable pub render_markdown : Report → Bytes
  unfolding render_body
  render_markdown r = marker_begin ++ (render_body r ++ marker_end)

  -- Rendered, and put into the text of the README.
  unfoldable pub update_readme : Report → Bytes → Result Bytes
  unfolding replace_between_markers render_markdown
  update_readme r original = replace_between_markers original (render_markdown r)

  -- What is written is the old text outside of a begin marker and an end marker behind it, and between
  -- the two the body.
  pub update_readme-marked :
      (r : Report) (original updated : Bytes)
      → update_readme r original ≡ ok updated
      → (before : Bytes) × (old : Bytes) × (inner : Bytes) × (after : Bytes) × (original
          ≡ before ++ old)
        × StartsWith old marker_begin
        × (old ≡ inner ++ (marker_end ++ after))
        × (updated ≡ before ++ (marker_begin ++ (render_body r ++ (marker_end ++ after))))
  unfolding update_readme render_markdown
  update_readme-marked r original updated h =
      let q = replace_between_markers-Replaced original (render_markdown r) updated h in
      (
        q.before,
        q.body,
        q.inner,
        q.after,
        q.whole,
        q.begins,
        q.ends,
        marked_again (render_body r) original updated q,
      )
