-- ===== src/Lock/KeepOut.antt =====
-- The tries and the releases of the other replicas while one holds the lock and it has not expired.
use cledyu.Base.{
  ℕ, String, ◌≡◌, refl, ap, ◌∙◌, Bool, true, false, inl, inr, List, [], ◌∷◌, Option, some, arith,
  str_eq, str_eq_iff, if◌then◌else◌, Bool-cases, All,
}
use cledyu.Lock.{Reply, set, failed, Redis, lock_ttl, release}
use cledyu.Lock.Acquire.{SetSpec, Waits}

-- One SETNX of Acquire's loop, or a release, with the key and the token.
pub data Act : Type 0 where
  attempt : String → String → Act
  give_back : String → String → Act

abbrev pub token_of : Act → String
token_of (attempt k t) = t
token_of (give_back k t) = t

pub record Keeps {W : Type 0} (r : Redis W) : Type 0 where
  pub set_keeps :
      (key token : String) (ttl : ℕ) (j x : String) (w : W)
      → r.get j w ≡ some x
      → r.get j (r.set_nx key token ttl w).1 ≡ some x
  pub del_others :
      (key j : String) (w : W) → str_eq key j ≡ false → r.get j (r.del key w) ≡ r.get j w

module _ {W : Type 0} (r : Redis W) where
  abbrev pub act : Act → W → W
  act (attempt key token) w = (r.set_nx key token lock_ttl w).1
  act (give_back key token) w = release r key token w

  -- Whether the act was a try for `key` that got the lock.
  abbrev pub is_set : Reply → Bool
  is_set (set b) = b
  is_set failed = false

  abbrev pub got : String → Act → W → Bool
  got key (attempt k token) w =
      if str_eq k key then is_set (r.set_nx k token lock_ttl w).0 else false
  got key (give_back k token) w = false

  -- None of the acts, done one after the other, gets the lock, and it is held by `t` at the end.
  abbrev pub KeptOut : String → String → List Act → W → Type 0
  KeptOut key t [] w = r.get key w ≡ some t
  KeptOut key t (a ∷ l) w = (got key a w ≡ false) × KeptOut key t l (act a w)

  module _ (ws : Waits r) (ks : Keeps r) where
    release-keeps :
        (key token j x : String) (w : W)
        → str_eq token x ≡ false
        → r.get j w ≡ some x
        → r.get j (release r key token w) ≡ some x
    unfolding release
    release-keeps key token j x w d h = elim (Bool-cases (str_eq key j)) [
      | inl e ↦ ground (arith, h, d, str_eq_iff key j, str_eq_iff x token, str_eq_iff token x)
      | inr e ↦ ground (arith, h, ks.del_others key j w e)
    ]

    refused :
        (t token : String) (before after : Option String) (a : Reply)
        → SetSpec token before after a
        → before ≡ some t
        → is_set a ≡ false
    refused t token before after (set true) h b = ground (arith, h.0, b)
    refused t token before after (set false) h b = refl
    refused t token before after failed h b = refl

    got-false : (key t : String) (a : Act) (w : W) → r.get key w ≡ some t → got key a w ≡ false
    got-false key t (give_back k token) w h = refl
    got-false key t (attempt k token) w h = elim (Bool-cases (str_eq k key)) [
      | inl e ↦ rw e (
          refused t token _ _ _ (ws.set_effect k token lock_ttl w)
            (ap (λ j. r.get j w) ((str_eq_iff k key).0 e) ∙ h))
      | inr e ↦ rw e refl
    ]

    act-keeps :
        (key t : String) (a : Act) (w : W)
        → str_eq (token_of a) t ≡ false
        → r.get key w ≡ some t
        → r.get key (act a w) ≡ some t
    act-keeps key t (attempt k token) w d h = ks.set_keeps k token lock_ttl key t w h
    act-keeps key t (give_back k token) w d h = release-keeps k token key t w d h

    -- Before the lock of a key expires, held with a token: whatever tries and releases are made with
    -- other tokens, of this key or of another, in any order, no try for the key gets the lock, and the
    -- holder keeps it. On a client whose SETNX sets only a free key and whose DEL removes one key only.
    pub acts-KeptOut :
        (key t : String) (l : List Act) (w : W)
        → All (λ a. str_eq (token_of a) t ≡ false) l
        → r.get key w ≡ some t
        → KeptOut key t l w
    acts-KeptOut key t [] w d h = h
    acts-KeptOut key t (a ∷ l) w (d, ds) h =
        (got-false key t a w h, acts-KeptOut key t l (act a w) ds (act-keeps key t a w d h))
