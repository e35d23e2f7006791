-- ===== src/Kubevirt/Boot.antt =====
-- syncBootStatus of apps/api/internal/kubevirt/watcher.go, and the counters of
-- apps/api/internal/vmmetrics/vmmetrics.go as a list of what was recorded, the latest first.
use Prim.Native.String.{◌++◌}
use cledyu.Base.{
  ℕ, ◌-◌, String, Bool, ◌&&◌, ◌||◌, List, ◌∷◌, Option, none, some, GoMap, lookup, insert, str_eq,
  ltb, ◌==◌, if◌then◌else◌,
}
use cledyu.Session.{Err, other}
use cledyu.Kubevirt.Cluster.{Fault, absent, fault, got, failed, Namespace, Kube}

pub data Recorded : Type 0 where
  -- result and environment
  boot : String → String → Recorded
  -- result, environment, reason and seconds
  lab_start : String → String → String → Option ℕ → Recorded

pub record State (W : Type 0) : Type 0 where
  pub cluster : W
  pub recorded : List Recorded

abbrev pub label_managed_by : String
label_managed_by = "cledyu.io/managed-by"

abbrev pub managed_by_value : String
managed_by_value = "cledyu-session"

abbrev pub ann_ready : String
ann_ready = "cledyu.io/ready-at"

abbrev pub ann_recorded : String
ann_recorded = "cledyu.io/boot-result-recorded"

abbrev pub ann_started : String
ann_started = "cledyu.io/started-at"

-- m[k] of a map of texts
abbrev pub text_at : String → GoMap String → String
text_at k m = elim (lookup k m) [ some v ↦ v | none ↦ "" ]

-- The instant 0 is Go's zero time, which a text that does not parse gives.
abbrev pub time_or_zero : Option ℕ → ℕ
time_or_zero (some t) = t
time_or_zero none = 0

abbrev pub message : Fault → String
message (absent e) = e
message (fault e) = e

-- fmt.Errorf("…: %w", err), which is never the contract's ErrNotFound
abbrev pub wrap : String → Fault → Err
wrap what e = other (what ++ ": " ++ message e)

abbrev pub write_error : String → Option Fault → Option Err
write_error what (some f) = some (wrap what f)
write_error what none = none

abbrev pub if_written : {A : Type 0} → Option Fault → A → A → A
if_written (some f) old new = old
if_written none old new = new

unfoldable pub is_failure : String → Bool
is_failure phase = str_eq phase "Failed" || (str_eq phase "Succeeded" || str_eq phase "TimedOut")

-- the seconds that RecordLabStart observes: none if they are negative
abbrev pub elapsed : ℕ → ℕ → Option ℕ
elapsed from to = if ltb to from then none else some (to - from)

module _ {W : Type 0} (k : Kube W) where
  abbrev pub started_at : Namespace → ℕ
  started_at n = time_or_zero (k.parse_time (text_at ann_started n.annotations))

  -- time.Since
  abbrev pub since : ℕ → W → ℕ
  since t w = k.now w - t

  -- what is recorded once the annotation has been written
  unfoldable pub record_success : Namespace → ℕ → List Recorded → List Recorded
  record_success n ready l =
      if started_at n == 0
      then l
      else lab_start "success" "onprem" "ready" (elapsed (started_at n) ready)
        ∷ boot "success" "kubevirt"
        ∷ l

  unfoldable pub record_failure : String → Namespace → W → List Recorded → List Recorded
  record_failure phase n w l =
      lab_start "failed" "onprem" (if str_eq phase "TimedOut" then "timeout" else "vm_failed")
        (if started_at n == 0 then none else elapsed (started_at n) (k.now w))
      ∷ boot "failed" "kubevirt"
      ∷ l

  -- the Update of the annotations, and the recording after it
  unfoldable pub write_annotation :
      String
      → String
      → String
      → (W → List Recorded → List Recorded)
      → Namespace
      → State W
      → Option Err × State W
  write_annotation what key value recording n s =
      let (e, w) =
        k.update_namespace (record n { annotations = insert key value n.annotations }) s.cluster in
      (
        write_error what e,
        record { cluster = w; recorded = if_written e s.recorded (recording w s.recorded) },
      )

  unfoldable pub sync_phase : String → Namespace → State W → Option Err × State W
  unfolding write_annotation record_success record_failure is_failure
  sync_phase phase n s =
      if str_eq phase "Running"
      then if str_eq (text_at ann_ready n.annotations) ""
        then write_annotation "update ready-at annotation" ann_ready
            (k.format_time (k.now s.cluster)) (λ w. record_success n (k.now s.cluster)) n s
        else (none, s)
      else if is_failure phase
      then if str_eq (text_at ann_ready n.annotations) ""
          && str_eq (text_at ann_recorded n.annotations) ""
        then write_annotation "update boot-result-recorded annotation" ann_recorded "true"
            (record_failure phase n) n s
        else (none, s)
      else (none, s)

  -- Namespaces without the label are not the platform's, and are left alone.
  unfoldable pub sync_boot_status : String → String → State W → Option Err × State W
  unfolding sync_phase
  sync_boot_status ns phase s = elim (k.get_namespace ns s.cluster) [
    | failed (absent e) ↦ (none, s)
    | failed (fault e) ↦ (some (wrap "get namespace" (fault e)), s)
    | got n ↦
        if str_eq (text_at label_managed_by n.labels) managed_by_value
        then sync_phase phase n s
        else (none, s)
  ]

  -- the watcher's event handler, with the namespace and the phase of the event's object
  unfoldable pub handle_vmi_event : String → Option String → State W → State W
  unfolding sync_boot_status
  handle_vmi_event ns none s = s
  handle_vmi_event ns (some phase) s =
      if str_eq phase "" then s else (sync_boot_status ns phase s).1
