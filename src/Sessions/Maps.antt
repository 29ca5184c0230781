-- ===== src/Sessions/Maps.antt =====
-- src/core/session/ActiveSessions.cpp: the maps by identifiers.
use hermes_flow_server.Common.{
  ℕ, ◌≡◌, refl, false, none, some, List, [], ◌∷◌, arith, if◌then◌else◌, ◌==◌,
}
use hermes_flow_server.Sessions.{find, insert, erase, contains, remove_key}

pub find-insert :
    {A : Type 0} (id other : ℕ) (a : A) (xs : List (ℕ × A))
    → find other (insert id a xs) ≡ (if id == other then some a else find other xs)
find-insert id other a [] = ground arith
find-insert id other a ((k, v) ∷ xs) = ground (arith, find-insert id other a xs)

pub find-insert_self :
    {A : Type 0} (id : ℕ) (a : A) (xs : List (ℕ × A)) → find id (insert id a xs) ≡ some a
find-insert_self id a xs = ground (arith, find-insert id id a xs)

-- A key has one entry.
abbrev pub KeysDistinct : {A : Type 0} → List (ℕ × A) → Type 0
KeysDistinct [] = Unit
KeysDistinct ((k, v) ∷ xs) = (find k xs ≡ none) × KeysDistinct xs

pub find-erase :
    {A : Type 0} (id other : ℕ) (xs : List (ℕ × A))
    → KeysDistinct xs
    → find other (erase id xs) ≡ (if id == other then none else find other xs)
find-erase id other [] d = ground arith
find-erase id other ((k, v) ∷ xs) d = ground (arith, find-erase id other xs d.1)

pub insert-KeysDistinct :
    {A : Type 0} (id : ℕ) (a : A) (xs : List (ℕ × A))
    → KeysDistinct xs
    → KeysDistinct (insert id a xs)
insert-KeysDistinct id a [] d = (refl, tt)
insert-KeysDistinct id a ((k, v) ∷ xs) d =
    ground (arith, insert-KeysDistinct id a xs d.1, find-insert id k a xs)

pub erase-KeysDistinct :
    {A : Type 0} (id : ℕ) (xs : List (ℕ × A)) → KeysDistinct xs → KeysDistinct (erase id xs)
erase-KeysDistinct id [] d = tt
erase-KeysDistinct id ((k, v) ∷ xs) d =
    ground (arith, erase-KeysDistinct id xs d.1, find-erase id k xs d.1)

-- Keys without values, none of them twice.
abbrev pub IdsDistinct : List ℕ → Type 0
IdsDistinct [] = Unit
IdsDistinct (k ∷ ks) = (contains k ks ≡ false) × IdsDistinct ks

pub contains-remove_key :
    (id other : ℕ) (ks : List ℕ)
    → IdsDistinct ks
    → contains other (remove_key id ks) ≡ (if id == other then false else contains other ks)
contains-remove_key id other [] d = ground arith
contains-remove_key id other (k ∷ ks) d = ground (arith, contains-remove_key id other ks d.1)

pub remove_key-IdsDistinct :
    (id : ℕ) (ks : List ℕ) → IdsDistinct ks → IdsDistinct (remove_key id ks)
remove_key-IdsDistinct id [] d = tt
remove_key-IdsDistinct id (k ∷ ks) d =
    ground (arith, remove_key-IdsDistinct id ks d.1, contains-remove_key id k ks d.1)
