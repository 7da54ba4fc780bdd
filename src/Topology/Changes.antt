-- ===== src/Topology/Changes.antt =====
-- What the change set says of two scans.
use openethercat.Base.{
  ℕ, ◌≡◌, refl, ◌↔◌, ◌⊎◌, inl, inr, ◌≤◌, List, [], ◌∷◌, Option, none, some, arith, if◌then◌else◌,
  leb, ◌==◌, All, Bool-cases, Option-cases,
}
use openethercat.Base.Maps.{find, put, find-put, nat_key}
use openethercat.Base.Members.{Elem, AreKeyed, put-AreKeyed, Elem-find}
use openethercat.Topology.{
  SlaveInfo, Snapshot, SlaveDelta, fill_table, by_position, absent_from, updates, insert, sort,
  compare_scans,
}

-- The last entry of a scan at a position.
abbrev last_at : ℕ → List SlaveInfo → Option SlaveInfo
last_at position [] = none
last_at position (s ∷ rest) = elim (last_at position rest) [
  | some later ↦ some later
  | none ↦ if s.position == position then some s else none
]

abbrev or_else : Option SlaveInfo → Option SlaveInfo → Option SlaveInfo
or_else (some s) other = some s
or_else none other = other

find-fill_table :
    (slaves : List SlaveInfo) (table : List (ℕ × SlaveInfo)) (position : ℕ)
    → find position (fill_table slaves table)
      ≡ or_else (last_at position slaves) (find position table)
unfolding fill_table
find-fill_table [] table position = refl
find-fill_table (s ∷ rest) table position = ground (
  arith,
  find-fill_table rest (put s.position s table) position,
  find-put s.position position s table,
)

find-by_position :
    (slaves : List SlaveInfo) (position : ℕ)
    → find position (by_position slaves) ≡ last_at position slaves
unfolding by_position find
find-by_position slaves position = ground (arith, find-fill_table slaves [] position)

fill_table-AreKeyed :
    (slaves : List SlaveInfo) (table : List (ℕ × SlaveInfo))
    → AreKeyed table
    → AreKeyed (fill_table slaves table)
unfolding fill_table
fill_table-AreKeyed [] table h = h
fill_table-AreKeyed (s ∷ rest) table h =
    fill_table-AreKeyed rest _ (put-AreKeyed s.position s table h)

by_position-AreKeyed : (slaves : List SlaveInfo) → AreKeyed (by_position slaves)
unfolding by_position
by_position-AreKeyed slaves = fill_table-AreKeyed slaves [] tt

last_at_position :
    (position : ℕ) (slaves : List SlaveInfo) (s : SlaveInfo)
    → last_at position slaves ≡ some s
    → s.position ≡ position
last_at_position position [] s h = cc
last_at_position position (t ∷ rest) s h = ground (arith, last_at_position position rest s)

-- The entries of a keyed table that another table lacks.
Elem-absent_from :
    (s : SlaveInfo) (table other : List (ℕ × SlaveInfo))
    → Elem s (absent_from table other)
      ↔ ((position : ℕ) × Elem (position, s) table × (find position other ≡ none))
unfolding absent_from
Elem-absent_from s [] other = (λ e. absurd e, λ e. e.1)
Elem-absent_from s ((position, t) ∷ rest) other = elim (Option-cases (find position other)) [
  | inl gone ↦
      rw (gone, absent_from)
        (
          elim [
            | inl e ↦ (position, inl (ground (arith, e)), gone)
            | inr e ↦ let (q, m, f) = (Elem-absent_from s rest other).0 e in (q, inr m, f)
          ],
          λ e.
              let (q, m, f) = e in
              elim m [
                | inl m ↦ inl (ground (arith, m))
                | inr m ↦ inr ((Elem-absent_from s rest other).1 (q, m, f))
              ],
        )
  | inr (u, there) ↦
      rw (there, absent_from)
        (
          λ e. let (q, m, f) = (Elem-absent_from s rest other).0 e in (q, inr m, f),
          λ e.
              let (q, m, f) = e in
              elim m [
                | inl m ↦ absurd (ground (arith, m, there, f))
                | inr m ↦ (Elem-absent_from s rest other).1 (q, m, f)
              ],
        )
]

-- The slaves of one scan at positions that another does not have.
Elem-gained :
    (s : SlaveInfo) (here there : List SlaveInfo)
    → Elem s (absent_from (by_position here) (by_position there))
      ↔ ((last_at s.position here ≡ some s) × (last_at s.position there ≡ none))
Elem-gained s here there = (
  λ e.
      let (q, m, f) = (Elem-absent_from s (by_position here) (by_position there)).0 e in
      let found = (Elem-find q s (by_position here) (by_position-AreKeyed here)).0 m in
      let last : last_at q here ≡ some s = ground (arith, found, find-by_position here q) in
      let none_there : last_at q there ≡ none = ground (arith, f, find-by_position there q) in
      simp (last_at_position q here s last) (last, none_there),
  λ e. (Elem-absent_from s (by_position here) (by_position there)).1 (
    s.position,
    (Elem-find s.position s (by_position here) (by_position-AreKeyed here)).1
        (ground (arith, e.0, find-by_position here s.position)),
    ground (arith, e.1, find-by_position there s.position),
  ),
)

module _ {A : Type 0} (position : A → ℕ) where
  Elem-insert : (x a : A) (xs : List A) → Elem x (insert position a xs) ↔ ((a ≡ x) ⊎ Elem x xs)
  unfolding insert
  Elem-insert x a [] = (λ e. e, λ e. e)
  Elem-insert x a (b ∷ rest) = elim (Bool-cases (leb (position a) (position b))) [
    | inl le ↦ rw le (λ e. e, λ e. e)
    | inr gt ↦ rw gt (
      elim [
        | inl e ↦ inr (inl e)
        | inr e ↦ elim ((Elem-insert x a rest).0 e) [ inl e ↦ inl e | inr e ↦ inr (inr e) ]
      ],
      elim [
        | inl e ↦ inr ((Elem-insert x a rest).1 (inl e))
        | inr (inl e) ↦ inl e
        | inr (inr e) ↦ inr ((Elem-insert x a rest).1 (inr e))
      ],
    )
  ]

  Elem-sort : (x : A) (xs : List A) → Elem x (sort position xs) ↔ Elem x xs
  unfolding sort
  Elem-sort x [] = (λ e. e, λ e. e)
  Elem-sort x (a ∷ rest) = (
    λ e. elim ((Elem-insert x a (sort position rest)).0 e) [
      | inl e ↦ inl e
      | inr e ↦ inr ((Elem-sort x rest).0 e)
    ],
    elim [
      | inl e ↦ (Elem-insert x a (sort position rest)).1 (inl e)
      | inr e ↦ (Elem-insert x a (sort position rest)).1 (inr ((Elem-sort x rest).1 e))
    ],
  )

  -- Positions do not fall along the list.
  abbrev IsSorted : List A → Type 0
  IsSorted [] = Unit
  IsSorted (a ∷ rest) = All (λ b. position a ≤ position b) rest × IsSorted rest

  insert-All :
      (n : ℕ) (a : A) (xs : List A)
      → n ≤ position a
      → All (λ b. n ≤ position b) xs
      → All (λ b. n ≤ position b) (insert position a xs)
  unfolding insert
  insert-All n a [] h k = (h, tt)
  insert-All n a (b ∷ rest) h k = ground (arith, insert-All n a rest)

  All-weaken :
      (m n : ℕ) (xs : List A) → m ≤ n → All (λ b. n ≤ position b) xs → All (λ b. m ≤ position b) xs
  All-weaken m n [] h k = tt
  All-weaken m n (b ∷ rest) h k = (omega arith, All-weaken m n rest h k.1)

  insert-IsSorted : (a : A) (xs : List A) → IsSorted xs → IsSorted (insert position a xs)
  unfolding insert
  insert-IsSorted a [] s = (tt, tt)
  insert-IsSorted a (b ∷ rest) s = ground (
    arith,
    All-weaken (position a) (position b) rest,
    insert-All (position b) a rest,
    insert-IsSorted a rest,
  )

  sort-IsSorted : (xs : List A) → IsSorted (sort position xs)
  unfolding sort
  sort-IsSorted [] = tt
  sort-IsSorted (a ∷ rest) = insert-IsSorted a (sort position rest) (sort-IsSorted rest)

-- The slaves reported as added are those whose last entry in the new scan is at a position of which
-- the old scan has no entry; those reported as removed are the same with the scans exchanged. Both
-- lists are in order of position.
pub compare_scans_added_removed :
    (previous current : Snapshot) (generation : ℕ) (s : SlaveInfo)
    → let changes = compare_scans previous current generation in
      (Elem s changes.added ↔ (
        (last_at s.position current.slaves ≡ some s) × (last_at s.position previous.slaves ≡ none)))
      × (Elem s changes.removed ↔ (
          (last_at s.position previous.slaves ≡ some s)
          × (last_at s.position current.slaves ≡ none)))
      × IsSorted SlaveInfo.position changes.added
      × IsSorted SlaveInfo.position changes.removed
      × IsSorted SlaveDelta.position changes.updated
unfolding compare_scans
compare_scans_added_removed previous current generation s = (
  through current.slaves previous.slaves,
  through previous.slaves current.slaves,
  sort-IsSorted SlaveInfo.position
      (absent_from (by_position current.slaves) (by_position previous.slaves)),
  sort-IsSorted SlaveInfo.position
      (absent_from (by_position previous.slaves) (by_position current.slaves)),
  sort-IsSorted SlaveDelta.position
      (updates (by_position previous.slaves) (by_position current.slaves)),
)
  where
    through :
        (here there : List SlaveInfo)
        → Elem s (sort SlaveInfo.position (absent_from (by_position here) (by_position there)))
          ↔ ((last_at s.position here ≡ some s) × (last_at s.position there ≡ none))
    through here there =
        let sorted =
          Elem-sort SlaveInfo.position s (absent_from (by_position here) (by_position there)) in
        let gained = Elem-gained s here there in
        (λ e. gained.0 (sorted.0 e), λ e. sorted.1 (gained.1 e))
