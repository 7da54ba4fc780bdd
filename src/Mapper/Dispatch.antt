-- ===== src/Mapper/Dispatch.antt =====
-- Callbacks are called on changes, and only then.
use text.Mathlib.TextEquality.{eq_iff}
use openethercat.Base.{
  ℕ, ◌≡◌, refl, ◌⊎◌, inl, inr, Bool, true, false, List, [], ◌∷◌, Option, none, some, String, arith,
  All, Bool-cases,
}
use openethercat.Base.Checked.{Checked, returns, throws}
use openethercat.Base.Maps.{find, put, find-put, string_key}
use openethercat.Config.{SignalBinding}
use openethercat.Image.{ProcessImage}
use openethercat.Mapper.{IoMapper, differs, current_input, dispatch_loop, dispatch_input_changes}

still : (o : Option Bool) (b : Bool) → differs o b ≡ true → o ≡ some b → ⊥
still none b d e = cc
still (some true) true d e = cc
still (some true) false d e = cc
still (some false) true d e = cc
still (some false) false d e = cc

module _ (bindings : List (String × SignalBinding)) (image : ProcessImage) where
  -- The state remembered for a name is the bit's present value, if the name is an input's.
  IsSettled : List (String × Bool) → String → Type 0
  IsSettled previous name =
      (current : Bool)
      → current_input bindings image name ≡ some (returns current)
      → find name previous ≡ some current

  -- The names of all callbacks.
  AreSettled : List (String × Bool) → List (String × ℕ) → Type 0
  AreSettled previous = All (λ e. IsSettled previous e.0)

  cons_settled :
      (previous : List (String × Bool)) (name : String) (callback : ℕ) (rest : List (String × ℕ))
      → IsSettled previous name
      → AreSettled previous rest
      → AreSettled previous ((name, callback) ∷ rest)
  unfolding AreSettled
  cons_settled previous name callback rest here later = (here, later)

  put-IsSettled :
      (previous : List (String × Bool)) (name other : String) (current : Bool)
      → current_input bindings image name ≡ some (returns current)
      → IsSettled previous other
      → IsSettled (put name current previous) other
  unfolding IsSettled
  put-IsSettled previous name other current here settled now there =
      ground (arith, find-put name other current previous, eq_iff name other, settled now there)

  pub reading_cases :
      (o : Option (Checked Bool))
      → (o ≡ none) ⊎ ((m : String) × (o ≡ some (throws m))) ⊎ ((b : Bool) × (o ≡ some (returns b)))
  reading_cases none = inl refl
  reading_cases (some (throws m)) = inr (inl (m, refl))
  reading_cases (some (returns b)) = inr (inr (b, refl))

  -- One round of the loop on an input that is read.
  pub read_step :
      (name : String) (callback : ℕ) (rest : List (String × ℕ)) (previous : List (String × Bool))
      (current : Bool)
      → current_input bindings image name ≡ some (returns current)
      → ((differs (find name previous) current ≡ false)
          × (dispatch_loop bindings image ((name, callback) ∷ rest) previous
              ≡ dispatch_loop bindings image rest previous))
        ⊎ ((differs (find name previous) current ≡ true)
            × (dispatch_loop bindings image ((name, callback) ∷ rest) previous ≡ (
                let later = dispatch_loop bindings image rest (put name current previous) in
                record later { calls = (callback, current) ∷ later.calls })))
  unfolding dispatch_loop
  read_step name callback rest previous current e =
      elim (Bool-cases (differs (find name previous) current)) [
        | inl changed ↦ inr (changed, rw (e, changed, dispatch_loop))
        | inr same ↦ inl (same, rw (e, same, dispatch_loop))
      ]

  pub skip_step :
      (name : String) (callback : ℕ) (rest : List (String × ℕ)) (previous : List (String × Bool))
      → current_input bindings image name ≡ none
      → dispatch_loop bindings image ((name, callback) ∷ rest) previous
        ≡ dispatch_loop bindings image rest previous
  unfolding dispatch_loop
  skip_step name callback rest previous e = rw (e, dispatch_loop)

  pub throw_step :
      (name : String) (callback : ℕ) (rest : List (String × ℕ)) (previous : List (String × Bool))
      (m : String)
      → current_input bindings image name ≡ some (throws m)
      → dispatch_loop bindings image ((name, callback) ∷ rest) previous
        ≡ record { previous = previous; calls = []; thrown = some m }
  unfolding dispatch_loop
  throw_step name callback rest previous m e = rw (e, dispatch_loop)

  loop-IsSettled :
      (rest : List (String × ℕ)) (previous : List (String × Bool)) (other : String)
      → IsSettled previous other
      → IsSettled (dispatch_loop bindings image rest previous).previous other
  loop-IsSettled [] previous other s = unfold dispatch_loop in s
  loop-IsSettled ((name, callback) ∷ rest) previous other s =
      elim (reading_cases (current_input bindings image name)) [
        | inl e ↦
            rw (skip_step name callback rest previous e) (loop-IsSettled rest previous other s)
        | inr (inl (m, e)) ↦ rw (throw_step name callback rest previous m e) s
        | inr (inr (b, e)) ↦ elim (read_step name callback rest previous b e) [
          | inl (_, same) ↦ rw same (loop-IsSettled rest previous other s)
          | inr (_, called) ↦ rw called (
              loop-IsSettled rest (put name b previous) other
                (put-IsSettled previous name other b e s))
        ]
      ]

  found-IsSettled :
      (name : String) (current : Bool) (previous : List (String × Bool))
      → current_input bindings image name ≡ some (returns current)
      → find name previous ≡ some current
      → IsSettled previous name
  unfolding IsSettled
  found-IsSettled name current previous e f now there = ground arith

  just_put :
      (name : String) (current : Bool) (previous : List (String × Bool))
      → current_input bindings image name ≡ some (returns current)
      → IsSettled (put name current previous) name
  just_put name current previous e =
      found-IsSettled name current (put name current previous) e
        (ground (arith, find-put name name current previous, eq_iff name name))

  skipped :
      (name : String) (previous : List (String × Bool))
      → current_input bindings image name ≡ none
      → IsSettled previous name
  unfolding IsSettled
  skipped name previous e now there = cc

  same_find : (o : Option Bool) (current : Bool) → differs o current ≡ false → o ≡ some current
  same_find none current h = cc
  same_find (some true) true h = refl
  same_find (some true) false h = cc
  same_find (some false) true h = cc
  same_find (some false) false h = refl

  -- After a loop that no exception ended every callback's name is settled.
  loop_settles :
      (rest : List (String × ℕ)) (previous : List (String × Bool))
      → (dispatch_loop bindings image rest previous).thrown ≡ none
      → AreSettled (dispatch_loop bindings image rest previous).previous rest
  loop_settles [] previous h = unfold AreSettled in tt
  loop_settles ((name, callback) ∷ rest) previous h =
      elim (reading_cases (current_input bindings image name)) [
        | inl e ↦ rw (skip_step name callback rest previous e) (
            cons_settled _ name callback rest (skipped name _ e)
              (loop_settles rest previous (rw (skip_step name callback rest previous e) at h)))
        | inr (inl (m, e)) ↦ absurd (cc (throw_step name callback rest previous m e))
        | inr (inr (b, e)) ↦ elim (read_step name callback rest previous b e) [
          | inl (d, same) ↦ rw same (
              cons_settled _ name callback rest
                (loop-IsSettled rest previous name
                  (found-IsSettled name b previous e (same_find _ b d)))
                (loop_settles rest previous (rw same at h)))
          | inr (_, called) ↦ rw called (
              cons_settled _ name callback rest
                (loop-IsSettled rest (put name b previous) name (just_put name b previous e))
                (loop_settles rest (put name b previous) (rw called at h)))
        ]
      ]

  -- Where every name is settled the loop calls nothing and remembers nothing new.
  settled_loop :
      (rest : List (String × ℕ)) (previous : List (String × Bool))
      → AreSettled previous rest
      → ((dispatch_loop bindings image rest previous).calls ≡ [])
        × ((dispatch_loop bindings image rest previous).previous ≡ previous)
  settled_loop [] previous s = unfold dispatch_loop in (refl, refl)
  settled_loop ((name, callback) ∷ rest) previous s =
      elim (reading_cases (current_input bindings image name)) [
        | inl e ↦
            rw (skip_step name callback rest previous e)
              (settled_loop rest previous (unfold AreSettled in s.1))
        | inr (inl (m, e)) ↦ rw (throw_step name callback rest previous m e) (refl, refl)
        | inr (inr (b, e)) ↦ elim (read_step name callback rest previous b e) [
          | inl (_, same) ↦ rw same (settled_loop rest previous (unfold AreSettled in s.1))
          | inr (d, called) ↦
              absurd (still (find name previous) b d (unfold IsSettled AreSettled in s.0 b e))
        ]
      ]

-- After a dispatch that no exception ended, a second one on the same image makes no call and leaves the
-- remembered states as they are.
pub dispatch_input_changes_idem :
    (m : IoMapper) (image : ProcessImage)
    → (dispatch_input_changes m image).1.thrown ≡ none
    → let again = dispatch_input_changes (dispatch_input_changes m image).0 image in
      (again.1.calls ≡ []) × (again.0.previous ≡ (dispatch_input_changes m image).0.previous)
unfolding dispatch_input_changes
dispatch_input_changes_idem m image h =
    settled_loop m.bindings image m.callbacks _
      (loop_settles m.bindings image m.callbacks m.previous h)
