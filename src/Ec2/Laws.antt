-- ===== src/Ec2/Laws.antt =====
-- What the EC2 API does to an instance: how filters match it, how it is launched, stopped and tagged.
use cledyu.Base.{
  String, Bool, true, false, ◌&&◌, ◌||◌, List, [], ◌∷◌, map, Option, none, some, str_eq,
  if◌then◌else◌,
}
use cledyu.Ec2.{to_string, tag_lookup, managed_filter, active_state_filter}
use cledyu.Ec2.Cloud.{Tag, Instance, Filter, tag_is, state_in, RunInput}

abbrev pub one_of : List String → String → Bool
one_of [] n = false
one_of (x ∷ l) n = str_eq x n || one_of l n

abbrev pub value_is : String → Option String → Bool
value_is v (some x) = str_eq x v
value_is v none = false

-- An instance passes a filter on a tag by its value, and one on the state by any of the names.
abbrev pub matches_one : Filter → Instance → Bool
matches_one (tag_is k v) i = value_is v (tag_lookup i k)
matches_one (state_in l) i = elim i.state [ some n ↦ one_of l n | none ↦ false ]

abbrev pub matches : List Filter → Instance → Bool
matches [] i = true
matches (f ∷ fs) i = matches_one f i && matches fs i

abbrev pub id_of : Instance → String
id_of i = to_string i.instance_id

-- An active session of the platform.
abbrev pub is_active : Instance → Bool
is_active = matches (managed_filter ∷ active_state_filter ∷ [])

abbrev pub as_tags : List (String × String) → List Tag
as_tags l = map (λ p. record { key = some p.0; value = some p.1 }) l

abbrev pub launched : RunInput → String → Instance
launched r id = record { instance_id = some id; state = some "pending"; tags = as_tags r.tags }

abbrev pub stopped : String → Instance → Instance
stopped id i = if str_eq (id_of i) id then record i { state = some "shutting-down" } else i

abbrev pub drop_tag : String → List Tag → List Tag
drop_tag k [] = []
drop_tag k (t ∷ l) = if str_eq (to_string t.key) k then drop_tag k l else t ∷ drop_tag k l

abbrev pub tagged : String → String → String → Instance → Instance
tagged id k v i =
    if str_eq (id_of i) id
    then record i { tags = record { key = some k; value = some v } ∷ drop_tag k i.tags }
    else i
