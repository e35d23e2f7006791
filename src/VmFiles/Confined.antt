-- ===== src/VmFiles/Confined.antt =====
-- ParseSnapshot: what it lets through stays below the lab's home.
use cledyu.Base.{
  ℕ, zero, suc, ◌+◌, ◌≤◌, String, ◌≡◌, refl, ap, ◌∙◌, ◌⊎◌, inl, inr, Bool, true, false, not, ◌||◌,
  List, [], ◌∷◌, Option, none, some, arith, codes, str_eq, str_eq_iff, ltb, length, all, All,
  if◌then◌else◌, Bool-cases, and-eq-true,
}
use cledyu.Engine.{ℤ, pos, negsuc, Text}
use cledyu.Engine.Checker.Words.{one_of}
use cledyu.VmFiles.{
  Entry, Snapshot, Decoded, root_path, max_depth, max_entries, max_payload_bytes, Lib, text_eq,
  split, depth_is, Result, ok, err, safe_segment, validate_relative_path, fits, validate_entry,
  place, sort, items_of, checked_listing, parse_snapshot,
}

-- How deep below a directory a walk along segments gets: none where it leaves the directory.
abbrev pub above : ℕ → Option ℕ
above zero = none
above (suc n) = some n

abbrev pub moved : ℕ → Text → Option ℕ
moved n g =
    if text_eq g [] || text_eq g (codes ".")
    then some n
    else if text_eq g (codes "..")
    then above n
    else some (suc n)

unfoldable pub walk : ℕ → List Text → Option ℕ
walk n [] = some n
walk n (g ∷ l) = elim (moved n g) [ none ↦ none | some m ↦ walk m l ]

pub text_eq-eq : (s t : Text) → text_eq s t ≡ true → s ≡ t
text_eq-eq [] [] h = refl
text_eq-eq [] (d ∷ t) h = absurd (cc h)
text_eq-eq (c ∷ s) [] h = absurd (cc h)
text_eq-eq (c ∷ s) (d ∷ t) h = ground (arith, text_eq-eq s t)

-- What an accepted entry is.
abbrev pub Confined : Lib → Entry → Type 0
Confined b e =
    (d : ℕ) × (walk 0 (split b'/' e.path) ≡ some d)
    × (d ≤ 4)
    × (e.depth ≡ pos d)
    × (e.name ≡ b.base e.path)
    × ((e.type ≡ "file") ⊎ (e.type ≡ "directory"))

third :
    {A : Type 0} (c d e : Bool) (x y : A)
    → (if c then none else if d then none else if e then some x else none) ≡ some y
    → (y ≡ x) × (e ≡ true)
third true d e x y h = absurd (cc h)
third false true e x y h = absurd (cc h)
third false false true x y h = (cc h, refl)
third false false false x y h = absurd (cc h)

module _ (b : Lib) where
  safe-moved : (n : ℕ) (g : Text) → safe_segment b g ≡ true → moved n g ≡ some (suc n)
  safe-moved n [] h = absurd (cc h)
  safe-moved n (c ∷ s) h = ground (arith, h)

  safe-walk :
      (n : ℕ) (l : List Text) → all (safe_segment b) l ≡ true → walk n l ≡ some (n + length l)
  unfolding walk
  safe-walk n [] h = ground arith
  safe-walk n (g ∷ l) h =
      let (s, ss) = and-eq-true (safe_segment b g) (all (safe_segment b) l) h in
      rw (safe-moved n g s, walk) (safe-walk (suc n) l ss ∙ ap (λ m. some m) (omega arith))

  accepted-segments :
      (p : Text) (l : List Text)
      → validate_relative_path b p ≡ some l
      → (l ≡ split b'/' p) × (all (safe_segment b) l ≡ true)
  unfolding validate_relative_path
  accepted-segments p l h =
      let (e, a) =
        third _ (one_of p b'\\') (all (safe_segment b) (split b'/' p)) (split b'/' p) l h in
      (e, rw e a)

  depth_is-pos : (d : ℤ) (m : ℕ) → depth_is d m ≡ true → d ≡ pos m
  depth_is-pos (pos n) m h = ground arith
  depth_is-pos (negsuc n) m h = absurd (cc h)

  -- what fits, and a type that is allowed
  fits-Confined :
      (e : Entry) (o : Option (List Text))
      → validate_relative_path b e.path ≡ o
      → fits b e o ≡ true
      → (e.type ≡ "file") ⊎ (e.type ≡ "directory")
      → Confined b e
  fits-Confined e none h f t = absurd (cc f)
  fits-Confined e (some l) h f t =
      let (l_is, safe) = accepted-segments e.path l h in
      let (shallow, rest) = and-eq-true (not (ltb max_depth (length l))) _ f in
      let (deep, named) = and-eq-true (depth_is e.depth (length l)) _ rest in
      (
        length l,
        rw (← l_is) (safe-walk 0 l safe ∙ ap (λ m. some m) (omega arith)),
        ground (arith, shallow),
        depth_is-pos e.depth (length l) deep,
        text_eq-eq e.name (b.base e.path) named,
        t,
      )

  type_of :
      (t : String)
      → (str_eq t "file" || str_eq t "directory") ≡ true
      → (t ≡ "file") ⊎ (t ≡ "directory")
  type_of t h = elim (Bool-cases (str_eq t "file")) [
    | inl e ↦ inl ((str_eq_iff t "file").0 e)
    | inr e ↦ inr ((str_eq_iff t "directory").0 (rw e at h))
  ]

  entry-Confined : (e : Entry) → validate_entry b e ≡ true → Confined b e
  unfolding validate_entry
  entry-Confined e h =
      let (t, f) = and-eq-true (str_eq e.type "file" || str_eq e.type "directory") _ h in
      fits-Confined e (validate_relative_path b e.path) refl f (type_of e.type t)

  all-Confined : (l : List Entry) → all (validate_entry b) l ≡ true → All (Confined b) l
  all-Confined [] h = tt
  all-Confined (e ∷ l) h =
      let (x, xs) = and-eq-true (validate_entry b e) (all (validate_entry b) l) h in
      (entry-Confined e x, all-Confined l xs)

  place-All :
      (P : Entry → Type 0) (e : Entry) (l : List Entry) → P e → All P l → All P (place b e l)
  unfolding place
  place-All P e [] h hs = (h, tt)
  place-All P e (f ∷ l) h (g, gs) = elim (Bool-cases (b.less f.path e.path)) [
    | inl q ↦ rw q (g, place-All P e l h gs)
    | inr q ↦ rw q (h, (g, gs))
  ]

  sort-All : (P : Entry → Type 0) (l : List Entry) → All P l → All P (sort b l)
  unfolding sort
  sort-All P [] h = tt
  sort-All P (e ∷ l) (h, hs) = place-All P e (sort b l) h (sort-All P l hs)

  length-place : (e : Entry) (l : List Entry) → length (place b e l) ≡ suc (length l)
  unfolding place
  length-place e [] = refl
  length-place e (f ∷ l) = ground (arith, length-place e l)

  length-sort : (l : List Entry) → length (sort b l) ≡ length l
  unfolding sort
  length-sort [] = refl
  length-sort (e ∷ l) = omega (arith, length-place e (sort b l), length-sort l)

  -- What a listing may be.
  abbrev pub Bounded : Result Snapshot → Type 0
  Bounded (err e) = Unit
  Bounded (ok x) = (x.root ≡ "/home/lab") × (length x.items ≤ 500) × All (Confined b) x.items

  listing-Bounded : (o : Option Decoded) → Bounded (checked_listing b o)
  listing-Bounded none = tt
  listing-Bounded (some d) =
      let items : List Entry = items_of b d.decoded_items in
      elim (Bool-cases (str_eq d.decoded_root root_path)) [
        | inr e ↦ rw e tt
        | inl e ↦ rw e (elim (Bool-cases (ltb max_entries (length items))) [
          | inl f ↦ rw f tt
          | inr f ↦ rw f (elim (Bool-cases (all (validate_entry b) items)) [
            | inr g ↦ rw g tt
            | inl g ↦ rw g (
              (str_eq_iff d.decoded_root root_path).0 e,
              let few : length items ≤ 500 = ground (arith, f) in
                  omega (arith, few, length-sort items),
              sort-All (Confined b) items (all-Confined items g),
            )
          ])
        ])
      ]

  -- Whatever a VM sends: a listing that is accepted is of the lab's home, of 500 entries at most, and
  -- each is a file or a directory whose path, walked along segment by segment, never leaves the home and
  -- ends at most four levels below it, at the depth that the entry names, with the path's last name.
  pub parse_snapshot-Bounded : (raw : Text) → Bounded (parse_snapshot b raw)
  unfolding parse_snapshot
  parse_snapshot-Bounded raw = elim (Bool-cases (ltb max_payload_bytes (length raw))) [
    | inl e ↦ rw e tt
    | inr e ↦ rw e (listing-Bounded (b.decode_snapshot raw))
  ]
