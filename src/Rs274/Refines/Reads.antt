-- ===== src/Rs274/Refines/Reads.antt =====
-- Functions that check their arguments and change nothing: the coordinates and the options.
use edm_project.Rs274.Refines.Numbers.{not-true}
use edm_project.Rs274.Enums.{MotionMode}
use edm_project.Rs274.Errors.{check, with_stackmessage}
use edm_project.Rs274.Interpreter.State.{Interpreter}
use edm_project.Prelude.{
  ℕ, ◌≡◌, ◌⊎◌, inl, inr, refl, String, ◌++◌, Bool, Bool-cases, ◌∷◌, false, true, ap, [], sym,
}
use edm_project.Python.Value.{nil, cons, Value, is_null, Items, cons, null}
use edm_project.Python.Exec.{Result, ok, err, interpreter, FString, and_then, ◌>>=◌, Exec, lift}
use edm_project.Python.Frames.{Stack, enter}
use edm_project.Rs274.Interpreter.Motion.{coordinate, get_coordinate_dict, check_options}
use edm_project.Rs274.Spec.Sound.{IsCoordinate, IsPosition, AreTexts}
use edm_project.Rs274.Spec.Outcome.{
  call_site, stack_message, Outcome, with_motion, location_2, location, raised,
}

-- `r` is `a`, and then `P` holds; or it is an exception that names the line.
abbrev pub Reads : {A : Type 0} → ℕ → String → Result A → A → Type 0 → Type 0
Reads n code r a P =
    ((r ≡ ok a) × P) ⊎ ((m : FString) × (r ≡ err (interpreter (m ++ stack_message n code))))

module _ {n : ℕ} {code : String} where
  pub Reads-then :
      {A B : Type 0} {P Q : Type 0} (r : Result A) {a : A} (f : A → Result B) {b : B}
      → Reads n code r a P
      → (P → Reads n code (f a) b Q)
      → Reads n code (and_then r f) b Q
  Reads-then r f (inl (e, p)) h = rw e (h p)
  Reads-then r f (inr (m, e)) h = inr (m, rw e)

  pub Reads-map :
      {A : Type 0} {P Q : Type 0} {r : Result A} {a : A}
      → Reads n code r a P
      → (P → Q)
      → Reads n code r a Q
  Reads-map (inl (e, p)) h = inl (e, h p)
  Reads-map (inr (m, e)) h = inr (m, e)

  -- A test that raises where its value is not as it should be.
  pub Reads-check :
      {P : Type 0} (b : Bool) {r : Result FString} (m : FString)
      → r ≡ ok (m ++ stack_message n code)
      → (b ≡ false → P)
      → Reads n code (check b r) tt P
  Reads-check true m e h = inr (m, rw e)
  Reads-check false m e h = inl (refl, h refl)

  pub Reads-Outcome :
      {i : Interpreter} (mode : MotionMode)
      → {A : Type 0} {P : Type 0} {r : Result A} {a : A} (k : A → Exec Interpreter (Unit {0}))
      → i.environment.program_end_flag ≡ false
      → Reads n code r a P
      → (P → Outcome n code i (k a (with_motion mode i)))
      → Outcome n code i ((lift r >>= k) (with_motion mode i))
  unfolding ◌>>=◌
  Reads-Outcome mode k live (inl (e, p)) h = rw e (h p)
  Reads-Outcome mode k live (inr (m, e)) h = rw e (raised m mode live)

pub is_null-null : (v : Value) → is_null v ≡ true → v ≡ null
unfolding is_null
is_null-null null h = refl
is_null-null _ h = cc

module _ (st : Stack) {n : ℕ} {code : String} (readable : call_site st ≡ ok (n, code)) where
  Reads-test :
      {P : Type 0} (name : String) (m : FString) {b : Bool}
      → (b ≡ false → P)
      → Reads n code (check b (with_stackmessage m 1 (enter name st))) tt P
  Reads-test name m {b} h = Reads-check b m (location st readable m name) h

  Reads-test_inner :
      {P : Type 0} (name inner : String) (m : FString) {b : Bool}
      → (b ≡ false → P)
      → Reads n code (check b (with_stackmessage m 2 (enter inner (enter name st)))) tt P
  Reads-test_inner name inner m {b} h = Reads-check b m (location_2 st readable m name inner) h

  coordinate-Reads :
      (name axis : String) (v : Value)
      → Reads n code
          (coordinate (enter "_get_coordinate_dict" (enter name st)) axis v)
          v
          (IsCoordinate v)
  coordinate-Reads name axis v = elim (Bool-cases (is_null v)) [
    | inl e ↦ rw e (inl (ap ok (sym (is_null-null v e)), inl refl))
    | inr e ↦ rw e (
        Reads-then _ _ (Reads-test_inner name "_get_coordinate_dict" _ (λ h. not-true _ h))
          (λ h. inl (refl, inr h)))
  ]

  pub get_coordinate_dict-Reads :
      (name : String) (x y z b c a : Value)
      → Reads n code
          (get_coordinate_dict (enter name st) x y z b c a)
          (x ∷ y ∷ z ∷ b ∷ c ∷ a ∷ [])
          (IsPosition (x ∷ y ∷ z ∷ b ∷ c ∷ a ∷ []))
  unfolding get_coordinate_dict
  get_coordinate_dict-Reads name x y z b c a = Reads-then _ _ (coordinate-Reads name "x" x) λ hx.
      Reads-then _ _ (coordinate-Reads name "y" y) λ hy.
        Reads-then _ _ (coordinate-Reads name "z" z) λ hz.
          Reads-then _ _ (coordinate-Reads name "b" b) λ hb.
            Reads-then _ _ (coordinate-Reads name "c" c) λ hc.
              Reads-then _ _ (coordinate-Reads name "a" a)
                λ ha. inl (refl, (refl, (hx, (hy, (hz, (hb, (hc, (ha, tt))))))))

  pub check_options-Reads :
      (name : String) (options : Items)
      → Reads n code (check_options (enter name st) options) tt (AreTexts options)
  unfolding check_options
  check_options-Reads name nil = inl (refl, tt)
  check_options-Reads name (cons v vs) =
      Reads-then _ _ (Reads-test name _ (λ h. not-true _ h))
        (λ h. Reads-map (check_options-Reads name vs) (λ k. (h, k)))
