-- ===== src/Master/Reactions.antt =====
-- What the callbacks of a dispatch in src/master/ethercat_master.cpp do to the master.
use openethercat.Base.{
  ℕ, ◌≡◌, refl, ap, ◌∙◌, Bool, true, false, not, ◌||◌, List, [], ◌∷◌, Option, none, some, String,
  if◌then◌else◌, leb, length, set,
}
use openethercat.Base.Bits.{write_bit}
use openethercat.Base.Maps.{find, string_key}
use openethercat.Base.Checked.{returns, throws, bind}
use openethercat.Config.{SignalBinding}
use openethercat.Image.{nth, write_output_bit}
use openethercat.Mapper.{is_output, set_output}
use openethercat.Master.{Master}
use openethercat.Master.Cycle.{set_output_by_name, output_result, set_all, react}

-- The outputs with the bit of a name set, if the name is that of an output inside them.
abbrev pub store : List (String × SignalBinding) → String → Bool → List ℕ → List ℕ
unfolding find
store bindings name value outputs = elim (find name bindings) [
  | none ↦ outputs
  | some s ↦
      if not (is_output s.direction) || leb 8 s.bit_offset || leb (length outputs) s.byte_offset
      then outputs
      else set outputs s.byte_offset (write_bit (nth outputs s.byte_offset) s.bit_offset value)
]

abbrev pub store_all : List (String × SignalBinding) → List (String × Bool) → List ℕ → List ℕ
store_all bindings [] outputs = outputs
store_all bindings ((name, value) ∷ rest) outputs =
    store_all bindings rest (store bindings name value outputs)

-- The outputs after the calls of a dispatch.
abbrev pub store_calls :
    (ℕ → Bool → List (String × Bool))
    → List (String × SignalBinding)
    → List (ℕ × Bool)
    → List ℕ
    → List ℕ
store_calls reacts bindings [] outputs = outputs
store_calls reacts bindings ((callback, value) ∷ calls) outputs =
    store_calls reacts bindings calls (store_all bindings (reacts callback value) outputs)

module _ {T : Type 0} where
  -- A master with other outputs and another error.
  abbrev pub with_outputs : List ℕ → String → Master T → Master T
  with_outputs outputs error m = record m {
    image = record (m.image) { output = outputs };
    error = error;
  }

  -- Nothing but the outputs and the error has changed, and the outputs to those given.
  abbrev pub Stores : Master T → List ℕ → Master T → Type 0
  Stores before outputs after = (error : String) × (after ≡ with_outputs outputs error before)

  -- The three ways in which a write to a bit of the outputs ends.
  written-Stores :
      (name : String) (value : Bool) (m : Master T) (s : SignalBinding) (a b c : Bool)
      → Stores m
          (if not a || b || c
            then m.image.output
            else set m.image.output s.byte_offset
                (write_bit (nth m.image.output s.byte_offset) s.bit_offset value))
          (output_result name m (
            if not a
            then returns (m.image, false)
            else bind
                (bind {0, 0}
                  (if b
                    then throws "bitIndex must be < 8"
                    else if c
                    then throws "byteOffset out of range"
                    else returns tt)
                  (λ _. returns (record (m.image) {
                    output =
                        set m.image.output s.byte_offset
                          (write_bit (nth m.image.output s.byte_offset) s.bit_offset value);
                  })))
                (λ written. returns (written, true)))).0
  written-Stores name value m s false b c = (_, refl)
  written-Stores name value m s true true c = (_, refl)
  written-Stores name value m s true false true = (_, refl)
  written-Stores name value m s true false false = (_, refl)

  set_output_by_name-Stores :
      (name : String) (value : Bool) (m : Master T)
      → Stores m
          (store m.mapper.bindings name value m.image.output)
          (set_output_by_name name value m).0
  unfolding set_output_by_name set_output write_output_bit
  set_output_by_name-Stores name value m = found (find name m.mapper.bindings)
    where
      found :
          (o : Option SignalBinding)
          → Stores m
              (elim o [
                | none ↦ m.image.output
                | some s ↦
                    if not (is_output s.direction)
                      || leb 8 s.bit_offset
                      || leb (length m.image.output) s.byte_offset
                    then m.image.output
                    else set m.image.output s.byte_offset
                        (write_bit (nth m.image.output s.byte_offset) s.bit_offset value)
              ])
              (output_result name m (elim o [
                | none ↦ returns (m.image, false)
                | some s ↦
                    if not (is_output s.direction)
                    then returns (m.image, false)
                    else bind
                        (write_output_bit m.image s.byte_offset s.bit_offset value)
                        (λ written. returns (written, true))
              ])).0
      found none = (_, refl)
      found (some s) =
          written-Stores name value m s (is_output s.direction) (leb 8 s.bit_offset)
            (leb (length m.image.output) s.byte_offset)

  set_all-Stores :
      (writes : List (String × Bool)) (m : Master T)
      → Stores m (store_all m.mapper.bindings writes m.image.output) (set_all writes m)
  unfolding set_all
  set_all-Stores [] m = (_, refl)
  set_all-Stores ((name, value) ∷ rest) m =
      let (e, first) = set_output_by_name-Stores name value m in
      let (f, later) =
        set_all-Stores rest
          (with_outputs (store m.mapper.bindings name value m.image.output) e m) in
      (f, ap (set_all rest) first ∙ later)

  pub react-Stores :
      (reacts : ℕ → Bool → List (String × Bool)) (calls : List (ℕ × Bool)) (m : Master T)
      → Stores m (store_calls reacts m.mapper.bindings calls m.image.output) (react reacts calls m)
  unfolding react
  react-Stores reacts [] m = (_, refl)
  react-Stores reacts ((callback, value) ∷ calls) m =
      let (e, first) = set_all-Stores (reacts callback value) m in
      let (f, later) =
        react-Stores reacts calls
          (with_outputs (store_all m.mapper.bindings (reacts callback value) m.image.output) e m) in
      (f, ap (react reacts calls) first ∙ later)
