-- ===== src/Topology.antt =====
-- The types of include/openethercat/master/topology_manager.hpp, and the comparison of two scans in
-- src/master/topology_manager.cpp. The tables by position are association lists; `std::sort` is an
-- insertion sort, and the positions that it compares are distinct.
pub mod Changes
pub mod Expected
pub mod Manager
pub mod Refresh
mod Runs
use openethercat.Base.{
  ℕ, ◌+◌, Bool, true, false, ◌&&◌, ◌||◌, not, List, [], ◌∷◌, ◌++◌, Option, none, some, String, ◌<>◌,
  if◌then◌else◌, leb, ◌==◌, bool_eq,
}
use openethercat.Base.Maps.{find, put, nat_key}
use openethercat.Base.Text.{to_string}
use openethercat.Config.{SlaveIdentity}
use openethercat.SlaveState.{SlaveState, same_state}

pub record SlaveInfo : Type 0 where
  pub position : ℕ
  pub vendor_id : ℕ
  pub product_code : ℕ
  pub esc_type : ℕ
  pub esc_revision : ℕ
  pub identity_from_coe : Bool
  pub identity_from_sii : Bool
  pub al_state_valid : Bool
  pub al_state : SlaveState
  pub online : Bool

pub record Snapshot : Type 0 where
  pub slaves : List SlaveInfo
  pub redundancy_healthy : Bool

pub record SlaveDelta : Type 0 where
  pub position : ℕ
  pub was_online : Bool
  pub is_online : Bool
  pub previous_vendor_id : ℕ
  pub previous_product_code : ℕ
  pub vendor_id : ℕ
  pub product_code : ℕ

pub record ChangeSet : Type 0 where
  pub generation : ℕ
  pub changed : Bool
  pub redundancy_changed : Bool
  pub previous_redundancy_healthy : Bool
  pub redundancy_healthy : Bool
  pub added : List SlaveInfo
  pub removed : List SlaveInfo
  pub updated : List SlaveDelta

-- The members as they are initialised.
abbrev pub initial_snapshot : Snapshot
initial_snapshot = record { slaves = []; redundancy_healthy = true }

abbrev pub initial_changes : ChangeSet
initial_changes = record {
  generation = 0;
  changed = false;
  redundancy_changed = false;
  previous_redundancy_healthy = true;
  redundancy_healthy = true;
  added = [];
  removed = [];
  updated = [];
}

-- `table[slave.position] = slave` for each slave: of two entries at one position the last stays.
fill_table : List SlaveInfo → List (ℕ × SlaveInfo) → List (ℕ × SlaveInfo)
unfolding put
fill_table [] table = table
fill_table (s ∷ rest) table = fill_table rest (put s.position s table)

by_position : List SlaveInfo → List (ℕ × SlaveInfo)
unfolding fill_table
by_position slaves = fill_table slaves []

differs : SlaveInfo → SlaveInfo → Bool
unfolding same_state
differs prev now =
    not (bool_eq prev.online now.online)
    || not (prev.vendor_id == now.vendor_id)
    || not (prev.product_code == now.product_code)
    || not (bool_eq prev.al_state_valid now.al_state_valid)
    || (prev.al_state_valid && now.al_state_valid && not (same_state prev.al_state now.al_state))

delta : ℕ → SlaveInfo → SlaveInfo → SlaveDelta
delta position prev now = record {
  position = position;
  was_online = prev.online;
  is_online = now.online;
  previous_vendor_id = prev.vendor_id;
  previous_product_code = prev.product_code;
  vendor_id = now.vendor_id;
  product_code = now.product_code;
}

-- The entries of the first table at positions that the second does not have: the slaves added, and
-- with the tables exchanged the slaves removed.
absent_from : List (ℕ × SlaveInfo) → List (ℕ × SlaveInfo) → List SlaveInfo
unfolding find
absent_from [] other = []
absent_from ((position, s) ∷ rest) other = elim (find position other) [
  | none ↦ s ∷ absent_from rest other
  | some t ↦ absent_from rest other
]

updates : List (ℕ × SlaveInfo) → List (ℕ × SlaveInfo) → List SlaveDelta
unfolding find differs delta
updates previous [] = []
updates previous ((position, now) ∷ rest) = elim (find position previous) [
  | none ↦ updates previous rest
  | some prev ↦
      if differs prev now
      then delta position prev now ∷ updates previous rest
      else updates previous rest
]

module _ {ℓ} {A : Type ℓ} (position : A → ℕ) where
  pub insert : A → List A → List A
  insert a [] = a ∷ []
  insert a (b ∷ rest) = if leb (position a) (position b) then a ∷ b ∷ rest else b ∷ insert a rest

  unfoldable pub sort : List A → List A
  unfolding insert
  sort [] = []
  sort (a ∷ rest) = insert a (sort rest)

abbrev is_nil {ℓ} : {A : Type ℓ} → List A → Bool
is_nil [] = true
is_nil (a ∷ rest) = false

-- The change set that `refresh` makes of the last scan and a new one.
pub compare_scans : Snapshot → Snapshot → ℕ → ChangeSet
unfolding by_position absent_from updates sort
compare_scans previous current generation =
    let before = by_position previous.slaves in
    let now = by_position current.slaves in
    let redundancy_changed = not (bool_eq previous.redundancy_healthy current.redundancy_healthy) in
    record {
      generation = generation;
      changed =
          redundancy_changed
          || not (is_nil (absent_from now before))
          || not (is_nil (absent_from before now))
          || not (is_nil (updates before now));
      redundancy_changed = redundancy_changed;
      previous_redundancy_healthy = previous.redundancy_healthy;
      redundancy_healthy = current.redundancy_healthy;
      added = sort SlaveInfo.position (absent_from now before);
      removed = sort SlaveInfo.position (absent_from before now);
      updated = sort SlaveDelta.position (updates before now);
    }

has_position : ℕ → List SlaveIdentity → Bool
has_position position [] = false
has_position position (s ∷ rest) = s.position == position || has_position position rest

pub detect_hot_connected : List SlaveInfo → List SlaveIdentity → List SlaveIdentity
unfolding has_position to_string
detect_hot_connected [] expected = []
detect_hot_connected (info ∷ rest) expected =
    if info.online && not (has_position info.position expected)
    then record {
      name = "HotConnected@" <> to_string info.position;
      alias = 0;
      position = info.position;
      vendor_id = info.vendor_id;
      product_code = info.product_code;
    }
      ∷ detect_hot_connected rest expected
    else detect_hot_connected rest expected

is_online : ℕ → List SlaveInfo → Bool
is_online position [] = false
is_online position (info ∷ rest) =
    (info.online && (info.position == position)) || is_online position rest

pub detect_missing : List SlaveInfo → List SlaveIdentity → List SlaveIdentity
unfolding is_online
detect_missing slaves [] = []
detect_missing slaves (s ∷ rest) =
    if not (is_online s.position slaves)
    then s ∷ detect_missing slaves rest
    else detect_missing slaves rest
