-- ===== src/Kubevirt/Live.antt =====
-- Which namespaces of a list are active, and what marking one for deletion does to that.
use cledyu.Base.{
  ◌+◌, ◌≤◌, ◌&&◌, true, inl, inr, tally, str_eq, str_eq_iff, Bool-cases, count-off, count-off_le, ℕ,
  String, ◌≡◌, refl, Bool, List, [], ◌∷◌, map, Option, GoMap, arith, count, shows, alive,
  SwitchesOff,
}
use cledyu.Kubevirt.{session_id_of}
use cledyu.Kubevirt.Cluster.{Namespace}
use cledyu.Kubevirt.Laws.{name_of, is_active, marked, annotated}

abbrev pub shown : Option Namespace → Bool
shown = shows name_of is_active

-- There is an active namespace of that name.
abbrev pub live : String → List Namespace → Bool
live = alive name_of is_active

pub count-annotated :
    (ns : String) (a : GoMap String) (l : List Namespace)
    → count is_active (map (annotated ns a) l) ≡ count is_active l
count-annotated ns a [] = refl
count-annotated ns a (n ∷ l) = ground (arith, count-annotated ns a l)

pub live-annotated :
    (j ns : String) (a : GoMap String) (l : List Namespace)
    → live j (map (annotated ns a) l) ≡ live j l
live-annotated j ns a [] = refl
live-annotated j ns a (n ∷ l) = ground (arith, live-annotated j ns a l)

pub marked-SwitchesOff : (ns : String) (t : ℕ) → SwitchesOff name_of is_active (marked ns t) ns
marked-SwitchesOff ns t = record {
  off = λ n h. ground (arith, h);
  rest = λ n h. ground (arith, h);
  same_key = λ n. ground arith;
}

-- The test for the names that are reported as an ID.
abbrev pub goes_by : String → String → Bool
goes_by x name = str_eq x (session_id_of name)

-- The active ones whose name satisfies a test.
abbrev pub active_among : (String → Bool) → Namespace → Bool
active_among p n = is_active n && p n.name

pub count-named_annotated :
    (p : String → Bool) (ns : String) (a : GoMap String) (l : List Namespace)
    → count (active_among p) (map (annotated ns a) l) ≡ count (active_among p) l
count-named_annotated p ns a [] = refl
count-named_annotated p ns a (n ∷ l) = ground (arith, count-named_annotated p ns a l)

among-SwitchesOff :
    (p : String → Bool) (ns : String) (t : ℕ)
    → SwitchesOff name_of (active_among p) (marked ns t) ns
among-SwitchesOff p ns t = record {
  off = λ n h. ground (arith, h);
  rest = λ n h. ground (arith, h);
  same_key = λ n. ground arith;
}

alive-among :
    (p : String → Bool) (ns : String) (l : List Namespace)
    → p ns ≡ true
    → live ns l ≡ true
    → alive name_of (active_among p) ns l ≡ true
alive-among p ns [] h a = a
alive-among p ns (n ∷ l) h a = elim (Bool-cases (str_eq n.name ns)) [
  | inl e ↦
      let same : n.name ≡ ns = (str_eq_iff n.name ns).0 e in
      let act : is_active n ≡ true = rw e at a in rw e (rw act (rw same h))
  | inr e ↦ rw e (alive-among p ns l h (rw e at a))
]

pub marked-among :
    (p : String → Bool) (ns : String) (t : ℕ) (l : List Namespace)
    → live ns l ≡ true
    → count (active_among p) (map (marked ns t) l) + tally (true && p ns) ≤ count (active_among p) l
marked-among p ns t l a = elim (Bool-cases (p ns)) [
  | inl e ↦ rw e (
      omega (
        arith,
        count-off name_of (active_among p) (marked ns t) ns (among-SwitchesOff p ns t) l
            (alive-among p ns l e a),
      ))
  | inr e ↦ rw e (
      omega (
        arith,
        count-off_le name_of (active_among p) (marked ns t) ns (among-SwitchesOff p ns t) l,
      ))
]
