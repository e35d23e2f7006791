-- ===== src/VmFiles/Samples.antt =====
-- Instances of the theorems on the files of a VM.
use cledyu.Base.{
  ℕ, suc, ◌≡◌, refl, ◌⊎◌, true, false, [], ◌∷◌, Option, none, some, codes, if◌then◌else◌, str_eq,
}
use cledyu.Engine.{pos, Text}
use cledyu.Session.{
  Session, Provider, ProviderKind, kubevirt, ec2, Status, ready, not_found, other, Err,
}
use cledyu.Session as Sessions
use cledyu.Lifecycle.{deny_if_not_owner}
use cledyu.VmFiles.{
  read_file, sort, place, validate_entry, validate_relative_path, split, Entry, Lib, text_eq, ok,
  Runner, parse_snapshot, list_files, snapshot_contains_file,
}
use cledyu.VmFiles.Confined.{Bounded, parse_snapshot-Bounded}
use cledyu.VmFiles.Handlers.{ready_file_session, FilePreview, fails, shown, preview_session_file}
use cledyu.VmFiles.Gate.{Granted, Served, preview_session_file-Served}

abbrev notes : Entry
notes = record { path = codes "work/a.txt"; name = codes "a.txt"; type = "file"; depth = pos 2 }

abbrev work : Entry
work = record { path = codes "work"; name = codes "work"; type = "directory"; depth = pos 1 }

abbrev base_of : Text → Text
base_of p = if text_eq p (codes "work") then p else codes "a.txt"

abbrev lib : Lib
lib = record {
  decode_snapshot = λ raw. some (record {
    decoded_root = "/home/lab";
    decoded_items = some (notes ∷ work ∷ []);
    decoded_truncated = false;
  });
  clean = λ p. p;
  base = base_of;
  is_control = λ c. false;
  less = λ p q. text_eq p (codes "work");
}

-- The VM counts the commands it is sent.
abbrev vm : Runner ℕ
vm = record {
  run = λ id n. (some (codes "list"), suc n);
  read = some (λ id p n. (some (codes "text"), suc n));
}

abbrev mine : Session
mine = record {
  id = "s1";
  lab_id = "linux";
  user_id = "ann";
  status = ready;
  provisioning_stage = "";
  started_at = 0;
  expires_at = 9;
  provider = kubevirt;
  instance_id = "";
  region = "";
  tailnet_enabled = false;
}

abbrev sessions : Provider ℕ
sessions = record {
  create = λ id lab u b v. (Sessions.ok mine, v);
  get = λ id v. (Sessions.ok mine, v);
  delete = λ id v. (none, v);
  find_active_by_user = λ u v. (Sessions.ok "s1", v);
  count_active_sessions = λ v. (Sessions.ok 1, v);
  reap_stuck_sessions = λ n v. (([], none), v);
  reap_expired_sessions = λ v. (([], none), v);
  vmi_address = λ id v. (Sessions.ok "10.0.0.1", v);
  capacity = 4;
}

abbrev decode : Text → Option FilePreview
decode raw = some (record { path = codes "work/a.txt"; content = "text"; truncated = false })

-- The tests: the listing is sorted, a listed file is shown with two commands sent, another's is not.
listing :
    list_files lib vm 2 "s1" (0, 0)
    ≡ (ok (record { root = "/home/lab"; items = work ∷ notes ∷ []; truncated = false }), (0, 1))
unfolding str_eq list_files parse_snapshot sort place validate_entry validate_relative_path split
listing = refl

shows :
    preview_session_file lib vm 2 decode
      (some sessions)
      true
      "ann"
      "s1"
      (codes "work/a.txt")
      (7, (0, 0))
    ≡ (
      shown (record { path = codes "work/a.txt"; content = "text"; truncated = false }),
      (7, (0, 2)),
    )
unfolding str_eq preview_session_file ready_file_session deny_if_not_owner read_file list_files
    parse_snapshot sort place validate_entry validate_relative_path split snapshot_contains_file
shows = refl

hides :
    preview_session_file lib vm 2 decode
      (some sessions)
      true
      "bob"
      "s1"
      (codes "work/a.txt")
      (7, (0, 0))
    ≡ (fails 404, (7, (0, 0)))
unfolding str_eq preview_session_file ready_file_session deny_if_not_owner
hides = refl

parse_snapshot-Bounded_example : Bounded lib (parse_snapshot lib (codes "list"))
parse_snapshot-Bounded_example = parse_snapshot-Bounded lib (codes "list")

preview_session_file-Served_example :
    let o =
      preview_session_file lib vm 2 decode
        (some sessions)
        true
        "ann"
        "s1"
        (codes "work/a.txt")
        (7, (0, 0)) in
    ((o.1.1 ≡ (0, 0)) × ((n : ℕ) × (o.0 ≡ fails n)))
    ⊎ ((x : Session) × Granted lib vm 2 decode (some sessions) true "ann" "s1" 7 x
        × Served lib vm 2 decode (some sessions) true x.id (codes "work/a.txt") (0, 0) o)
preview_session_file-Served_example =
    preview_session_file-Served lib vm 2 decode (some sessions) true "ann" "s1" (codes "work/a.txt")
      7 (0, 0)
