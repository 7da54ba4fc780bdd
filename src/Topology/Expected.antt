-- ===== src/Topology/Expected.antt =====
-- Which configured slaves are missing, and which slaves are there unasked.
use openethercat.Base.{
  ℕ, ◌≡◌, refl, sym, ◌↔◌, ◌⊎◌, inl, inr, Bool, true, false, ◌&&◌, not, List, [], ◌∷◌, arith, ◌==◌,
  Bool-cases,
}
use openethercat.Base.Members.{Elem}
use openethercat.Config.{SlaveIdentity}
use openethercat.Topology.{SlaveInfo, is_online, has_position, detect_missing, detect_hot_connected}

-- Some entry of the scan is online at the position.
abbrev IsPresent : ℕ → List SlaveInfo → Type 0
IsPresent position [] = ⊥
IsPresent position (info ∷ rest) =
    ((info.online ≡ true) × (info.position ≡ position)) ⊎ IsPresent position rest

abbrev IsExpected : ℕ → List SlaveIdentity → Type 0
IsExpected position [] = ⊥
IsExpected position (s ∷ rest) = (s.position ≡ position) ⊎ IsExpected position rest

is_online_iff :
    (position : ℕ) (slaves : List SlaveInfo)
    → (is_online position slaves ≡ true) ↔ IsPresent position slaves
unfolding is_online
is_online_iff position [] = (λ e. cc, λ e. absurd e)
is_online_iff position (info ∷ rest) = (
  λ e. elim (Bool-cases (info.online && (info.position == position))) [
    | inl here ↦ inl (ground (arith, here))
    | inr other ↦ inr ((is_online_iff position rest).0 (ground (arith, other, e)))
  ],
  λ e. ground (arith, e, (is_online_iff position rest).1),
)

has_position_iff :
    (position : ℕ) (expected : List SlaveIdentity)
    → (has_position position expected ≡ true) ↔ IsExpected position expected
unfolding has_position
has_position_iff position [] = (λ e. cc, λ e. absurd e)
has_position_iff position (s ∷ rest) = (
  λ e. elim (Bool-cases (s.position == position)) [
    | inl here ↦ inl (ground (arith, here))
    | inr other ↦ inr ((has_position_iff position rest).0 (ground (arith, other, e)))
  ],
  λ e. ground (arith, e, (has_position_iff position rest).1),
)

ap_online :
    (slaves : List SlaveInfo) (t s : SlaveIdentity) {b : Bool}
    → t ≡ s
    → is_online t.position slaves ≡ b
    → is_online s.position slaves ≡ b
ap_online slaves t s same e = rw (sym same) e

-- A slave is reported missing exactly if it is configured and no entry of the scan is online at its
-- position.
pub detect_missing_iff :
    (slaves : List SlaveInfo) (expected : List SlaveIdentity) (s : SlaveIdentity)
    → Elem s (detect_missing slaves expected)
      ↔ (Elem s expected × (IsPresent s.position slaves → ⊥))
unfolding detect_missing
detect_missing_iff slaves [] s = (λ e. absurd e, λ e. absurd e.0)
detect_missing_iff slaves (t ∷ rest) s = elim (Bool-cases (is_online t.position slaves)) [
  | inl online ↦ rw online (
    λ e. (
      inr ((detect_missing_iff slaves rest s).0 e).0,
      ((detect_missing_iff slaves rest s).0 e).1,
    ),
    λ e. elim e.0 [
      | inl same ↦
          absurd (e.1 ((is_online_iff s.position slaves).0 (ap_online slaves t s same online)))
      | inr later ↦ (detect_missing_iff slaves rest s).1 (later, e.1)
    ],
  )
  | inr offline ↦ rw offline (
    elim [
      | inl same ↦ (
        inl same,
        λ e. absurd (cc (ap_online slaves t s same offline, (is_online_iff s.position slaves).1 e)),
      )
      | inr later ↦ (
        inr ((detect_missing_iff slaves rest s).0 later).0,
        ((detect_missing_iff slaves rest s).0 later).1,
      )
    ],
    λ e. elim e.0 [
      | inl same ↦ inl same
      | inr later ↦ inr ((detect_missing_iff slaves rest s).1 (later, e.1))
    ],
  )
]

both_of_conj : (a b : Bool) → (a && not b) ≡ true → (a ≡ true) × (b ≡ false)
both_of_conj true true h = cc
both_of_conj true false h = (refl, refl)
both_of_conj false b h = cc

right_of_conj : (a b : Bool) → (a && not b) ≡ false → a ≡ true → b ≡ true
right_of_conj true true h e = refl
right_of_conj true false h e = cc
right_of_conj false b h e = cc

-- The slaves that are reported hot-connected, taken as positions, are those of the scan that are
-- online and stand at a position that no configured slave has.
detect_hot_connected_iff :
    (slaves : List SlaveInfo) (expected : List SlaveIdentity) (position : ℕ)
    → IsExpected position (detect_hot_connected slaves expected)
      ↔ (IsPresent position slaves × (IsExpected position expected → ⊥))
unfolding detect_hot_connected
detect_hot_connected_iff [] expected position = (λ e. absurd e, λ e. absurd e.0)
detect_hot_connected_iff (info ∷ rest) expected position =
    elim (Bool-cases (info.online && not (has_position info.position expected))) [
      | inl unasked ↦ rw unasked (
        elim [
          | inl e ↦ (
            inl ((both_of_conj info.online _ unasked).0, e),
            λ x. cc (
              (both_of_conj info.online _ unasked).1,
              (has_position_iff position expected).1 x,
              e,
            ),
          )
          | inr later ↦ (
            inr ((detect_hot_connected_iff rest expected position).0 later).0,
            ((detect_hot_connected_iff rest expected position).0 later).1,
          )
        ],
        λ x. elim x.0 [
          | inl e ↦ inl e.1
          | inr later ↦ inr ((detect_hot_connected_iff rest expected position).1 (later, x.1))
        ],
      )
      | inr asked ↦ rw asked (
        λ later. (
          inr ((detect_hot_connected_iff rest expected position).0 later).0,
          ((detect_hot_connected_iff rest expected position).0 later).1,
        ),
        λ x. elim x.0 [
          | inl e ↦ absurd (
              x.1 (
                (has_position_iff position expected).0
                  (cc (right_of_conj info.online _ asked e.0, e.1))))
          | inr later ↦ (detect_hot_connected_iff rest expected position).1 (later, x.1)
        ],
      )
    ]
