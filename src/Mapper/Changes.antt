-- ===== src/Mapper/Changes.antt =====
-- Which callbacks a dispatch of src/mapping/io_mapper.cpp calls.
use text.Mathlib.TextEquality.{eq_iff}
use openethercat.Base.{
  ℕ, ◌≡◌, ◌≢◌, refl, sym, ap, ◌∙◌, inl, inr, Bool, true, false, List, [], ◌∷◌, ◌++◌, Option, none,
  some, String, arith, All, bool_eq, Bool-cases, if◌then◌else◌,
}
use openethercat.Base.Checked.{Checked, returns, throws, bind}
use openethercat.Base.Maps.{find, put, find-put, string_key}
use openethercat.Config.{SignalBinding}
use openethercat.Image.{ProcessImage, read_input_bit}
use openethercat.Mapper.{
  IoMapper, Dispatched, is_output, differs, current_input, get_input, dispatch_loop,
  dispatch_input_changes,
}
use openethercat.Mapper.Dispatch.{
  reading_cases, read_step, skip_step, throw_step, dispatch_input_changes_idem,
}

-- Each name has one callback, as in a map.
abbrev pub IsMap : List (String × ℕ) → Type 0
IsMap [] = Unit
IsMap ((name, callback) ∷ rest) = All (λ e. name ≢ e.0) rest × IsMap rest

abbrev pub remembers : Option Bool → Bool → Bool
remembers none current = false
remembers (some before) current = bool_eq before current

-- The call that is due for what an input gives and what is remembered for it.
abbrev pub due_of : ℕ → Option Bool → Checked (Option Bool) → List (ℕ × Bool)
due_of callback before (throws message) = []
due_of callback before (returns none) = []
due_of callback before (returns (some current)) =
    if remembers before current then [] else (callback, current) ∷ []

-- The call that is due for one entry: its input can be read, and does not have the value that is
-- remembered for it.
abbrev pub due : IoMapper → ProcessImage → List (String × Bool) → String × ℕ → List (ℕ × Bool)
unfolding get_input find
due m image previous (name, callback) =
    due_of callback (find name previous) (get_input m image name)

abbrev pub all_due :
    IoMapper → ProcessImage → List (String × Bool) → List (String × ℕ) → List (ℕ × Bool)
all_due m image previous [] = []
all_due m image previous (e ∷ rest) = due m image previous e ++ all_due m image previous rest

-- `getInput` gives what the loop reads.
abbrev got : Option (Checked Bool) → Checked (Option Bool)
got none = returns none
got (some (throws message)) = throws message
got (some (returns current)) = returns (some current)

module _ (m : IoMapper) (image : ProcessImage) where
  got-current : (name : String) → get_input m image name ≡ got (current_input m.bindings image name)
  unfolding get_input current_input
  got-current name = from_binding (find name m.bindings)
    where
      from_reading : (r : Checked Bool) → bind r (λ value. returns (some value)) ≡ got (some r)
      from_reading (throws message) = refl
      from_reading (returns value) = refl

      from_binding :
          (o : Option SignalBinding)
          → elim o as (λ _. Checked (Option Bool)) [
            | none ↦ returns none
            | some s ↦
                if is_output s.direction
                then returns none
                else bind
                    (read_input_bit image s.byte_offset s.bit_offset)
                    (λ value. returns (some value))
          ]
            ≡ got (elim o [
              | none ↦ none
              | some s ↦
                  if is_output s.direction
                  then none
                  else some (read_input_bit image s.byte_offset s.bit_offset)
            ])
      from_binding none = refl
      from_binding (some s) = elim (Bool-cases (is_output s.direction)) [
        | inl out ↦ rw out refl
        | inr inp ↦ rw inp (from_reading (read_input_bit image s.byte_offset s.bit_offset))
      ]

  changed :
      (o : Option Bool) (current : Bool) → differs o current ≡ true → remembers o current ≡ false
  changed none current h = refl
  changed (some true) true h = cc
  changed (some true) false h = refl
  changed (some false) true h = refl
  changed (some false) false h = cc

  same : (o : Option Bool) (current : Bool) → differs o current ≡ false → remembers o current ≡ true
  same none current h = cc
  same (some true) true h = refl
  same (some true) false h = cc
  same (some false) true h = cc
  same (some false) false h = refl

  -- The loop remembers for the names to come what was remembered at the start.
  abbrev Agrees : List (String × Bool) → List (String × Bool) → List (String × ℕ) → Type 0
  Agrees now start = All (λ e. find e.0 now ≡ find e.0 start)

  put-Agrees :
      (name : String) (current : Bool) (now start : List (String × Bool)) (rest : List (String × ℕ))
      → All (λ e. name ≢ e.0) rest
      → Agrees now start rest
      → Agrees (put name current now) start rest
  put-Agrees name current now start [] apart agrees = tt
  put-Agrees name current now start ((other, callback) ∷ rest) apart agrees = (
    ground (arith, find-put name other current now, eq_iff name other, apart.0, agrees.0),
    put-Agrees name current now start rest apart.1 agrees.1,
  )

  -- What an entry adds, by what the loop reads for it.
  due-got :
      (name : String) (callback : ℕ) (start : List (String × Bool)) (o : Option (Checked Bool))
      → current_input m.bindings image name ≡ o
      → due m image start (name, callback) ≡ due_of callback (find name start) (got o)
  unfolding due get_input
  due-got name callback start o e =
      ap (due_of callback (find name start)) (got-current name ∙ ap got e)

  loop-all_due :
      (rest : List (String × ℕ)) (now start : List (String × Bool))
      → IsMap rest
      → Agrees now start rest
      → (dispatch_loop m.bindings image rest now).thrown ≡ none
      → (dispatch_loop m.bindings image rest now).calls ≡ all_due m image start rest
  loop-all_due [] now start distinct agrees h = unfold dispatch_loop in refl
  loop-all_due ((name, callback) ∷ rest) now start distinct agrees h =
      let added : List (ℕ × Bool) → List (ℕ × Bool) =
        λ calls. calls ++ all_due m image start rest in
      let thrown : Dispatched → Option String = λ d. d.thrown in
      elim (reading_cases m.bindings image (current_input m.bindings image name)) [
        | inl e ↦
            let step = skip_step m.bindings image name callback rest now e in
            ap (λ (d : Dispatched). d.calls) step
            ∙ loop-all_due rest now start distinct.1 agrees.1 (sym (ap thrown step) ∙ h)
            ∙ sym (ap added (due-got name callback start none e))
        | inr (inl (message, e)) ↦
            absurd (cc (throw_step m.bindings image name callback rest now message e))
        | inr (inr (b, e)) ↦ elim (read_step m.bindings image name callback rest now b e) [
          | inl (d, step) ↦
              ap (λ (d : Dispatched). d.calls) step
              ∙ loop-all_due rest now start distinct.1 agrees.1 (sym (ap thrown step) ∙ h)
              ∙ sym (
                  ap added (
                    due-got name callback start (some (returns b)) e
                    ∙ ap (λ (r : Bool). if r then [] else (callback, b) ∷ [])
                        (same (find name start) b
                          (sym (ap (λ (o : Option Bool). differs o b) agrees.0) ∙ d))))
          | inr (d, step) ↦
              ap (λ (d : Dispatched). d.calls) step
              ∙ ap (◌∷◌ (callback, b)) (
                  loop-all_due rest (put name b now) start distinct.1
                    (put-Agrees name b now start rest distinct.0 agrees.1)
                    (sym (ap thrown step) ∙ h))
              ∙ sym (
                  ap added (
                    due-got name callback start (some (returns b)) e
                    ∙ ap (λ (r : Bool). if r then [] else (callback, b) ∷ [])
                        (changed (find name start) b
                          (sym (ap (λ (o : Option Bool). differs o b) agrees.0) ∙ d))))
        ]
      ]

agrees_refl :
    (previous : List (String × Bool)) (rest : List (String × ℕ))
    → All (λ e. find e.0 previous ≡ find e.0 previous) rest
agrees_refl previous [] = tt
agrees_refl previous (e ∷ rest) = (refl, agrees_refl previous rest)

-- A dispatch that no exception ended calls, in the order of the table, the callback of each input that
-- can be read and does not have the value remembered for it, once and with the new value, and no
-- other. A second one on the same image makes no call and leaves the remembered states as they are.
-- A name has one callback at most, as in the source's map.
pub dispatch_input_changes_once :
    (m : IoMapper) (image : ProcessImage)
    → IsMap m.callbacks
    → (dispatch_input_changes m image).1.thrown ≡ none
    → let again = dispatch_input_changes (dispatch_input_changes m image).0 image in
      ((dispatch_input_changes m image).1.calls ≡ all_due m image m.previous m.callbacks)
      × (again.1.calls ≡ [])
      × (again.0.previous ≡ (dispatch_input_changes m image).0.previous)
unfolding dispatch_input_changes
dispatch_input_changes_once m image distinct h = (
  loop-all_due m image m.callbacks m.previous m.previous distinct
      (agrees_refl m.previous m.callbacks) h,
  (dispatch_input_changes_idem m image h).0,
  (dispatch_input_changes_idem m image h).1,
)
