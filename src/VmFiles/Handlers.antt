-- ===== src/VmFiles/Handlers.antt =====
-- apps/api/internal/api/handlers/vm_files.go: the list of a session's files, and the preview of one.
-- `v` is the session provider's state and `s` that of the files' service; either may be missing.
use cledyu.Base.{ℕ, String, Bool, true, false, not, [], Option, none, some, if◌then◌else◌}
use cledyu.Engine.{Text}
use cledyu.Session.{
  Session, Provider, ProviderKind, kubevirt, ec2, Status, provisioning, ready, failed, not_found,
  other,
}
use cledyu.Session as Sessions
use cledyu.Lifecycle.{deny_if_not_owner}
use cledyu.VmFiles.{
  Snapshot, FileErr, busy, file_not_listed, failure, Result, ok, err, Runner, Lib, State, text_eq,
  list_files, read_file,
}

pub record FilePreview : Type 0 where
  pub path : Text
  pub content : String
  pub truncated : Bool

pub data Reply : Type 0 where
  fails : ℕ → Reply
  listed : Snapshot → Reply
  shown : FilePreview → Reply

abbrev pub is_ready : Status → Bool
is_ready ready = true
is_ready provisioning = false
is_ready failed = false

-- A session that names no provider is one of KubeVirt's.
abbrev pub is_kubevirt : ProviderKind → Bool
is_kubevirt kubevirt = true
is_kubevirt ec2 = false

-- handleVMFileError
abbrev pub file_error : FileErr → Reply
file_error busy = fails 429
file_error file_not_listed = fails 404
file_error failure = fails 502

-- parseFilePreview, behind the decoder
abbrev pub matching_preview : Text → Option FilePreview → Option FilePreview
matching_preview p none = none
matching_preview p (some v) =
    if text_eq v.path [] then none else if text_eq v.path p then some v else none

abbrev pub preview_reply : Option FilePreview → Reply
preview_reply none = fails 502
preview_reply (some v) = shown v

abbrev pub Handled : Type 0 → Type 0 → Type 0
Handled V W = Reply × (V × State W)

module _ {V W : Type 0} where
  abbrev pub gated :
      String
      → Sessions.Result Session × V
      → State W
      → (Session → V → State W → Handled V W)
      → Handled V W
  gated uid (Sessions.err not_found, v) s k = (fails 404, (v, s))
  gated uid (Sessions.err (other e), v) s k = (fails 500, (v, s))
  gated uid (Sessions.ok x, v) s k =
      if deny_if_not_owner uid x.user_id
      then (fails 404, (v, s))
      else if not (is_kubevirt x.provider)
      then (fails 409, (v, s))
      else if not (is_ready x.status)
      then (fails 409, (v, s))
      else k x v s

  -- readyFileSession; `files` is whether there is a files' service.
  unfoldable pub ready_file_session :
      Option (Provider V)
      → Bool
      → String
      → String
      → V × State W
      → (Session → V → State W → Handled V W)
      → Handled V W
  ready_file_session none files uid id (v, s) k = (fails 503, (v, s))
  ready_file_session (some p) false uid id (v, s) k = (fails 503, (v, s))
  ready_file_session (some p) true uid id (v, s) k = gated uid (p.get id v) s k

  abbrev pub list_reply : V → Result Snapshot × State W → Handled V W
  list_reply v (ok x, s) = (listed x, (v, s))
  list_reply v (err e, s) = (file_error e, (v, s))

  abbrev pub preview_of :
      (Text → Option FilePreview) → Text → V → Result Text × State W → Handled V W
  preview_of decode p v (err e, s) = (file_error e, (v, s))
  preview_of decode p v (ok raw, s) = (preview_reply (matching_preview p (decode raw)), (v, s))

  module _ (b : Lib) (r : Runner W) (max_concurrent : ℕ) (decode : Text → Option FilePreview)
      (sessions : Option (Provider V)) (files : Bool) where
    unfoldable pub list_session_files : String → String → V × State W → Handled V W
    unfolding ready_file_session
    list_session_files uid id st =
        ready_file_session sessions files uid id st
          (λ x v s. list_reply v (list_files b r max_concurrent x.id s))

    abbrev pub preview : Text → Session → V → State W → Handled V W
    preview p x v s =
        if text_eq p []
        then (fails 400, (v, s))
        else preview_of decode p v (read_file b r max_concurrent x.id p s)

    unfoldable pub preview_session_file : String → String → Text → V × State W → Handled V W
    unfolding ready_file_session
    preview_session_file uid id p st = ready_file_session sessions files uid id st (preview p)
