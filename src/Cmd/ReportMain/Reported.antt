-- ===== src/Cmd/ReportMain/Reported.antt =====
-- What cmd/report/main.go has written when it ends.
use sluice_gate_telemetery_i.Base.{
  Bytes, codes, ◌≡◌, refl, ap, subst, ◌∙◌, ◌++◌, Option, none, some,
}
use sluice_gate_telemetery_i.Event.{Error, Result, ok, err}
use sluice_gate_telemetery_i.Report.{Float64, Report}
use sluice_gate_telemetery_i.Report.Load.{load}
use sluice_gate_telemetery_i.Report.Markers.{StartsWith, marker_begin, marker_end}
use sluice_gate_telemetery_i.Report.Table.{render_body, update_readme, update_readme-marked}
use sluice_gate_telemetery_i.Report.Charts.Plots.{
  Plotting, Chart, throughput_chart, throughput_vs_concurrency, save_png, bind,
}
use sluice_gate_telemetery_i.Report.Charts.Lines.{Shows, throughput_chart-Shows}
use sluice_gate_telemetery_i.Cmd.ReportMain.{
  Flags, Disk, report_failed, read_failed, update_failed, write_failed, Written, Outcome, stopped,
  finished, charts, write_readme, put_table, read_readme, report_main,
}

module _ (format_float : Float64 → Bytes) (k : Plotting) (f : Flags) (d : Disk) where
  -- The chart behind a path.
  abbrev pub Charted : Report → Result Bytes → Type 0
  Charted r (err x) = Unit
  Charted r (ok path) =
      (c : Chart) × (throughput_chart k r ≡ ok c) × (k.save c path ≡ none) × Shows k r.sweeps c

  pub record Reported (w : Written) : Type 0 where
    pub report : Report
    pub loaded : load f.results_dir d.files d.entries ≡ ok report
    pub before : Bytes
    pub old : Bytes
    pub inner : Bytes
    pub after : Bytes
    pub read : d.read_file f.readme_path ≡ ok (before ++ old)
    pub begins : StartsWith old marker_begin
    pub ends : old ≡ inner ++ (marker_end ++ after)
    pub written :
        w.readme
        ≡ before ++ (marker_begin ++ (render_body format_float report ++ (marker_end ++ after)))
    pub stored : d.write_file f.readme_path w.readme ≡ none
    pub charted : Charted report w.throughput

  abbrev throughput_file : Bytes
  throughput_file = codes "throughput-vs-concurrency.png"

  save_png-saved :
      (file path : Bytes) (c : Chart)
      → save_png k f.charts_dir file c ≡ ok path
      → k.save c path ≡ none
  unfolding save_png
  save_png-saved file path c h =
      by_answers (k.mkdir_all f.charts_dir) (k.save c (k.join f.charts_dir file)) refl h
    where
      by_answers :
          (m s : Option Error)
          → k.save c (k.join f.charts_dir file) ≡ s
          → (let a : Result Bytes = elim m [
            | some x ↦ err x
            | none ↦ elim s [ some x ↦ err x | none ↦ ok (k.join f.charts_dir file) ]
          ] in
              a)
            ≡ ok path
          → k.save c path ≡ none
      by_answers (some x) s e g = cc
      by_answers none (some x) e g = cc
      by_answers none none e g =
          let same : k.join f.charts_dir file ≡ path = cc in subst (λ q. k.save c q ≡ none) same e

  throughput-Charted : (r : Report) → Charted r (throughput_vs_concurrency k r f.charts_dir)
  unfolding throughput_vs_concurrency
  throughput-Charted r = by_chart (throughput_chart k r) refl
    where
      by_path :
          (c : Chart) (o : Result Bytes)
          → throughput_chart k r ≡ ok c
          → save_png k f.charts_dir throughput_file c ≡ o
          → Charted r o
      by_path c (err x) h s = tt
      by_path c (ok path) h s =
          (c, h, save_png-saved throughput_file path c s, throughput_chart-Shows k r c h)

      by_chart :
          (o : Result Chart)
          → throughput_chart k r ≡ o
          → Charted r (bind o (save_png k f.charts_dir throughput_file))
      by_chart (err x) h = tt
      by_chart (ok c) h = by_path c (save_png k f.charts_dir throughput_file c) h refl

  abbrev AllReported : Outcome → Type 0
  AllReported (stopped x) = Unit
  AllReported (finished w) = Reported w

  report_main-AllReported : AllReported (report_main format_float k f d)
  unfolding report_main
  report_main-AllReported = by_load (load f.results_dir d.files d.entries) refl
    where
      by_write :
          (r : Report) (original updated : Bytes)
          → load f.results_dir d.files d.entries ≡ ok r
          → d.read_file f.readme_path ≡ ok original
          → update_readme format_float r original ≡ ok updated
          → (o : Option Error) → d.write_file f.readme_path updated ≡ o
          → AllReported (elim o [
            | some x ↦ stopped (write_failed x)
            | none ↦ charts format_float k f d r updated
          ])
      by_write r original updated l h u (some x) e = tt
      by_write r original updated l h u none e =
          let (before, old, inner, after, whole, begins, ends, marked) =
            update_readme-marked format_float r original updated u in
          record {
            report = r;
            loaded = l;
            before = before;
            old = old;
            inner = inner;
            after = after;
            read = h ∙ ap ok whole;
            begins = begins;
            ends = ends;
            written = marked;
            stored = e;
            charted = throughput-Charted r;
          }

      by_update :
          (r : Report) (original : Bytes)
          → load f.results_dir d.files d.entries ≡ ok r
          → d.read_file f.readme_path ≡ ok original
          → (o : Result Bytes) → update_readme format_float r original ≡ o
          → AllReported (elim o [
            | err x ↦ stopped (update_failed x)
            | ok updated ↦ write_readme format_float k f d r updated
          ])
      by_update r original l h (err x) u = tt
      by_update r original l h (ok updated) u =
          by_write r original updated l h u (d.write_file f.readme_path updated) refl

      by_read :
          (r : Report)
          → load f.results_dir d.files d.entries ≡ ok r
          → (o : Result Bytes) → d.read_file f.readme_path ≡ o
          → AllReported (elim o [
            | err x ↦ stopped (read_failed x)
            | ok original ↦ put_table format_float k f d r original
          ])
      by_read r l (err x) h = tt
      by_read r l (ok original) h =
          by_update r original l h (update_readme format_float r original) refl

      by_load :
          (o : Result Report)
          → load f.results_dir d.files d.entries ≡ o
          → AllReported (elim o [
            | err x ↦ stopped (report_failed x)
            | ok r ↦ read_readme format_float k f d r
          ])
      by_load (err x) l = tt
      by_load (ok r) l = by_read r l (d.read_file f.readme_path) refl

  -- When the program ends, it has loaded a report; the README had a text, a begin marker and an end
  -- marker behind it, and a text behind that; it was stored with both texts as they were, and between
  -- them the rendered report in its two markers; and if the throughput chart was written, it shows the
  -- report's sweeps, each on the line of its phase.
  pub report_main-Reported :
      (w : Written) → report_main format_float k f d ≡ finished w → Reported w
  report_main-Reported w h = subst AllReported h report_main-AllReported
