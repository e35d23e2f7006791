-- ===== src/VmFiles.antt =====
-- apps/api/internal/vmfiles/snapshot.go and service.go: the read-only view of the files of a session's
-- VM. A path is the list of its characters, an answer of the VM that of its bytes. The runner, over its
-- state `W`, the JSON decoder, path.Clean, path.Base, unicode.IsControl and the order of strings are
-- parameters. Requests are neither merged nor cancelled: each has a listing of its own.
pub mod Confined
pub mod Handlers
pub mod Gate
mod Samples
use cledyu.Base.{
  ℕ, zero, suc, ◌+◌, ◌-◌, String, Bool, true, false, not, ◌&&◌, ◌||◌, List, [], ◌∷◌, Option, none,
  some, codes, str_eq, ltb, leb, ◌==◌, length, all, if◌then◌else◌,
}
use cledyu.Engine.{ℤ, pos, negsuc, Text}
use cledyu.Engine.Checker.Words.{one_of}

pub record Entry : Type 0 where
  pub path : Text
  pub name : Text
  pub type : String
  pub depth : ℤ

pub record Snapshot : Type 0 where
  pub root : String
  pub items : List Entry
  pub truncated : Bool

-- What the decoder gives: `items` may be missing or null.
pub record Decoded : Type 0 where
  pub decoded_root : String
  pub decoded_items : Option (List Entry)
  pub decoded_truncated : Bool

abbrev pub root_path : String
root_path = "/home/lab"

abbrev pub max_depth : ℕ
max_depth = 4

abbrev pub max_entries : ℕ
max_entries = 500

abbrev pub max_payload_bytes : ℕ
max_payload_bytes = 262144

pub record Lib : Type 0 where
  pub decode_snapshot : Text → Option Decoded
  pub clean : Text → Text
  pub base : Text → Text
  pub is_control : ℕ → Bool
  pub less : Text → Text → Bool

abbrev pub text_eq : Text → Text → Bool
text_eq [] [] = true
text_eq [] (d ∷ t) = false
text_eq (c ∷ s) [] = false
text_eq (c ∷ s) (d ∷ t) = c == d && text_eq s t

abbrev pub starts_with : ℕ → Text → Bool
starts_with c [] = false
starts_with c (d ∷ s) = d == c

abbrev pub cut : Bool → ℕ → List Text → List Text
cut true c l = [] ∷ l
cut false c [] = (c ∷ []) ∷ []
cut false c (g ∷ l) = (c ∷ g) ∷ l

-- strings.Split at one byte
unfoldable pub split : ℕ → Text → List Text
split d [] = [] ∷ []
split d (c ∷ s) = cut (c == d) c (split d s)

abbrev pub any_of : (ℕ → Bool) → Text → Bool
any_of p [] = false
any_of p (c ∷ s) = p c || any_of p s

abbrev pub depth_is : ℤ → ℕ → Bool
depth_is (pos n) m = n == m
depth_is (negsuc n) m = false

-- Errors of the service, as far as the handlers tell them apart.
pub data FileErr : Type 0 where
  busy file_not_listed failure : FileErr

pub data Result (A : Type 0) : Type 0 where
  ok : A → Result A
  err : FileErr → Result A

module _ (b : Lib) where
  abbrev pub safe_segment : Text → Bool
  safe_segment g = not (text_eq g []) && (not (starts_with b'.' g) && not (any_of b.is_control g))

  unfoldable pub validate_relative_path : Text → Option (List Text)
  unfolding split
  validate_relative_path p =
      if text_eq p [] || (starts_with b'/' p || not (text_eq (b.clean p) p))
      then none
      else if one_of p b'\\'
      then none
      else if all safe_segment (split b'/' p)
      then some (split b'/' p)
      else none

  abbrev pub fits : Entry → Option (List Text) → Bool
  fits e none = false
  fits e (some segments) =
      not (ltb max_depth (length segments))
      && (depth_is e.depth (length segments) && text_eq e.name (b.base e.path))

  unfoldable pub validate_entry : Entry → Bool
  validate_entry e =
      (str_eq e.type "file" || str_eq e.type "directory") && fits e (validate_relative_path e.path)

  unfoldable pub place : Entry → List Entry → List Entry
  place e [] = e ∷ []
  place e (f ∷ l) = let rest = place e l in if b.less f.path e.path then f ∷ rest else e ∷ f ∷ l

  -- sort.Slice, as a sort that keeps equal entries in their order
  unfoldable pub sort : List Entry → List Entry
  unfolding place
  sort [] = []
  sort (e ∷ l) = place e (sort l)

  abbrev pub items_of : Option (List Entry) → List Entry
  items_of none = []
  items_of (some l) = l

  abbrev pub checked_listing : Option Decoded → Result Snapshot
  checked_listing none = err failure
  checked_listing (some d) =
      let items = items_of d.decoded_items in
      if not (str_eq d.decoded_root root_path)
      then err failure
      else if ltb max_entries (length items)
      then err failure
      else if all validate_entry items
      then ok
          (record { root = d.decoded_root; items = sort items; truncated = d.decoded_truncated })
      else err failure

  unfoldable pub parse_snapshot : Text → Result Snapshot
  unfolding validate_entry sort
  parse_snapshot raw =
      if ltb max_payload_bytes (length raw)
      then err failure
      else checked_listing (b.decode_snapshot raw)

-- The runner lists the files of a session's VM, and may be able to read one.
pub record Runner (W : Type 0) : Type 0 where
  pub run : String → W → Option Text × W
  pub read : Option (String → Text → W → Option Text × W)

-- the number of the slots in use, those of other requests among them, and the world
abbrev pub State : Type 0 → Type 0
State W = ℕ × W

module _ {W : Type 0} (b : Lib) (r : Runner W) (max_concurrent : ℕ) where
  -- What runs in a slot, which is given back behind it.
  abbrev pub released : {A : Type 0} → Result A × State W → Result A × State W
  released (x, (n, w)) = (x, (n - 1, w))

  abbrev pub in_slot : {A : Type 0} → (State W → Result A × State W) → State W → Result A × State W
  in_slot f (n, w) = if ltb n max_concurrent then released (f (suc n, w)) else (err busy, (n, w))

  abbrev pub parsed : ℕ → Option Text × W → Result Snapshot × State W
  parsed n (none, w) = (err failure, (n, w))
  parsed n (some raw, w) = (parse_snapshot b raw, (n, w))

  -- `List`
  unfoldable pub list_files : String → State W → Result Snapshot × State W
  list_files id s =
      if str_eq id "" then (err failure, s) else in_slot (λ q. parsed q.0 (r.run id q.1)) s

  abbrev pub lists_file : Text → List Entry → Bool
  lists_file p [] = false
  lists_file p (e ∷ l) = (text_eq e.path p && str_eq e.type "file") || lists_file p l

  unfoldable pub snapshot_contains_file : Snapshot → Text → Bool
  snapshot_contains_file s p = lists_file p s.items

  abbrev pub outcome : ℕ → Option Text × W → Result Text × State W
  outcome n (none, w) = (err failure, (n, w))
  outcome n (some out, w) = (ok out, (n, w))

  abbrev pub read_listed :
      (String → Text → W → Option Text × W)
      → String
      → Text
      → Result Snapshot × State W
      → Result Text × State W
  read_listed reader id p (err e, s) = (err e, s)
  read_listed reader id p (ok snapshot, s) =
      if not (snapshot_contains_file snapshot p)
      then (err file_not_listed, s)
      else in_slot (λ q. outcome q.0 (reader id p q.1)) s

  -- `Read`
  unfoldable pub read_file : String → Text → State W → Result Text × State W
  unfolding list_files snapshot_contains_file
  read_file id p s = elim r.read [
    | none ↦ (err failure, s)
    | some reader ↦ read_listed reader id p (list_files id s)
  ]
