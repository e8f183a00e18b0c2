-- ===== src/Base/Table.antt =====
-- Keyed containers of the standard library over texts: `std::unordered_map` as an association list in
-- iteration order, `std::unordered_set` as a list without repetition.
use Prim.Native.Nat.{ℕ, ◌+◌, ◌≤◌}
use mathlib.Core.Path.{◌≡◌, refl}
use mathlib.Core.Logic.{ite, ◌↔◌, ◌≢◌, inl, inr}
use mathlib.Core.Bool.{Bool, true, false}
use mathlib.Core.Option.{Option, none, some}
use mathlib.Core.List.{List, [], ◌∷◌, ◌++◌}
use native.Mathlib.Omega.{arith}
use pgw.Base.Tests.{Option-cases}
use pgw.Base.Lists.{length}
use pgw.Base.Texts.{Text, Text_discrete}

module _ {ℓ} {V : Type ℓ} where
  unfoldable pub find : Text → List (Text × V) → Option V
  find k [] = none
  find k ((j, v) ∷ t) = ite (Text_discrete j k) (some v) (find k t)

  -- `map[k] = v`: an entry with the key is overwritten; a new one goes somewhere, here to the front.
  unfoldable pub overwrite : Text → V → List (Text × V) → List (Text × V)
  overwrite k v [] = []
  overwrite k v ((j, w) ∷ t) = ite (Text_discrete j k) ((j, v) ∷ t) ((j, w) ∷ overwrite k v t)

  unfoldable pub insert : Text → V → List (Text × V) → List (Text × V)
  insert k v t = elim (find k t) [ none ↦ (k, v) ∷ t | some w ↦ overwrite k v t ]

  -- `erase(find(k))`: the entry with the key goes.
  unfoldable pub erase : Text → List (Text × V) → List (Text × V)
  erase k [] = []
  erase k ((j, v) ∷ t) = ite (Text_discrete j k) t ((j, v) ∷ erase k t)

  abbrev pub keys : List (Text × V) → List Text
  keys [] = []
  keys ((j, v) ∷ t) = j ∷ keys t

-- How often a text stands in a list.
unfoldable pub count : Text → List Text → ℕ
count k [] = 0
count k (j ∷ l) = ite (Text_discrete j k) 1 0 + count k l

unfoldable pub member : Text → List Text → Bool
member k [] = false
member k (j ∷ l) = ite (Text_discrete j k) true (member k l)

unfoldable pub set_insert : Text → List Text → List Text
set_insert k l = elim (member k l) [ true ↦ l | false ↦ k ∷ l ]

unfoldable pub set_erase : Text → List Text → List Text
set_erase k [] = []
set_erase k (j ∷ l) = ite (Text_discrete j k) l (j ∷ set_erase k l)

-- No text stands twice.
abbrev pub IsDistinct : List Text → Type 0
IsDistinct l = (k : Text) → count k l ≤ 1

pub count-append : (k : Text) (l r : List Text) → count k (l ++ r) ≡ count k l + count k r
unfolding count
count-append k [] r = omega arith
count-append k (j ∷ l) r = omega (arith, count-append k l r)

pub member_lem : (k : Text) (l : List Text) → (member k l ≡ true) ↔ (count k l ≢ 0)
unfolding member count
member_lem k [] = ground arith
member_lem k (j ∷ l) = ground (arith, member_lem k l)

pub member-set_insert :
    (k j : Text) (l : List Text)
    → member j (set_insert k l) ≡ ite (Text_discrete k j) true (member j l)
unfolding member set_insert
member-set_insert k j l = ground arith

pub count-set_insert : (k j : Text) (l : List Text) → IsDistinct l → count j (set_insert k l) ≤ 1
unfolding count set_insert
count-set_insert k j l d = ground (arith, d j, member_lem k l)

pub member-set_erase_other :
    (k j : Text) (l : List Text) → k ≢ j → member j l ≡ true → member j (set_erase k l) ≡ true
unfolding member set_erase
member-set_erase_other k j [] n h = cc
member-set_erase_other k j (i ∷ l) n h = ground (arith, member-set_erase_other k j l)

pub member-set_erase :
    (k j : Text) (l : List Text)
    → count k l ≤ 1
    → member j (set_erase k l) ≡ ite (Text_discrete k j) false (member j l)
unfolding member set_erase count
member-set_erase k j [] h = ground arith
member-set_erase k j (i ∷ l) h = ground (arith, member-set_erase k j l, member_lem k l)

pub count-set_erase-le : (k j : Text) (l : List Text) → count j (set_erase k l) ≤ count j l
unfolding count set_erase
count-set_erase-le k j [] = omega arith
count-set_erase-le k j (i ∷ l) = ground (arith, count-set_erase-le k j l)

module _ {ℓ} {V : Type ℓ} where
  pub find-none_iff : (k : Text) (t : List (Text × V)) → (find k t ≡ none) ↔ (count k (keys t) ≡ 0)
  unfolding find count
  find-none_iff k [] = ground arith
  find-none_iff k ((j, v) ∷ t) = ground (arith, find-none_iff k t)

  pub find-erase :
      (k j : Text) (t : List (Text × V))
      → count k (keys t) ≤ 1
      → find j (erase k t) ≡ ite (Text_discrete k j) none (find j t)
  unfolding find erase count
  find-erase k j [] h = ground arith
  find-erase k j ((i, v) ∷ t) h = ground (arith, find-erase k j t, find-none_iff k t)

  -- What is not there stays away.
  pub find-erase-none :
      (k j : Text) (t : List (Text × V)) → find j t ≡ none → find j (erase k t) ≡ none
  unfolding find erase
  find-erase-none k j [] h = refl
  find-erase-none k j ((i, v) ∷ t) h = ground (arith, find-erase-none k j t)

  pub erase_absent : (k : Text) (t : List (Text × V)) → find k t ≡ none → erase k t ≡ t
  unfolding find erase
  erase_absent k [] h = refl
  erase_absent k ((j, v) ∷ t) h = ground (arith, erase_absent k t)

  pub count-keys-erase :
      (k j : Text) (t : List (Text × V)) (v : V)
      → find k t ≡ some v
      → count j (keys (erase k t)) + ite (Text_discrete k j) 1 0 ≡ count j (keys t)
  unfolding find erase count
  count-keys-erase k j [] v h = cc
  count-keys-erase k j ((i, w) ∷ t) v h = ground (arith, count-keys-erase k j t v)

  find-overwrite :
      (k j : Text) (v w : V) (t : List (Text × V))
      → find k t ≡ some w
      → find j (overwrite k v t) ≡ ite (Text_discrete k j) (some v) (find j t)
  unfolding find overwrite
  find-overwrite k j v w [] h = cc
  find-overwrite k j v w ((i, u) ∷ t) h = ground (arith, find-overwrite k j v w t)

  keys-overwrite : (k : Text) (v : V) (t : List (Text × V)) → keys (overwrite k v t) ≡ keys t
  unfolding overwrite
  keys-overwrite k v [] = refl
  keys-overwrite k v ((i, u) ∷ t) = ground (arith, keys-overwrite k v t)

  pub find-insert :
      (k j : Text) (v : V) (t : List (Text × V))
      → find j (insert k v t) ≡ ite (Text_discrete k j) (some v) (find j t)
  unfolding insert find
  find-insert k j v t = elim (Option-cases (find k t)) [
    | inl e ↦ ground arith
    | inr (w, e) ↦ ground (arith, find-overwrite k j v w t e)
  ]

  pub count-keys-insert :
      (k j : Text) (v : V) (t : List (Text × V))
      → find k t ≡ none
      → count j (keys (insert k v t)) ≡ ite (Text_discrete k j) 1 0 + count j (keys t)
  unfolding insert count
  count-keys-insert k j v t h = rw (h, insert)

  pub keys-insert_present :
      (k : Text) (v w : V) (t : List (Text × V)) → find k t ≡ some w → keys (insert k v t) ≡ keys t
  unfolding insert
  keys-insert_present k v w t h = rw (h, insert) (keys-overwrite k v t)

  pub length-erase :
      (k : Text) (t : List (Text × V)) (v : V)
      → find k t ≡ some v
      → length (erase k t) + 1 ≡ length t
  unfolding find erase
  length-erase k [] v h = cc
  length-erase k ((j, w) ∷ t) v h = ground (arith, length-erase k t v)
