-- ===== src/Rs274/Points/Runs.antt =====
-- A script's calls on one Points object, and what holds of the points that they leave.
use edm_project.Rs274.Refines.Numbers.{not-true}
use edm_project.Rs274.Errors.{raise_if, raise_with, with_stackmessage}
use edm_project.Prelude.{
  ◌≡◌, ◌≢◌, ◌⊎◌, inl, inr, refl, true, false, List, [], ◌∷◌, All, All-append, if◌then◌else◌, Bool,
  Bool-cases, ℕ, String, ap,
}
use edm_project.Python.Value.{Value, is_int, is_null, is_number}
use edm_project.Python.Exec.{
  Exec, Result, ok, err, interpreter, FString, ◌>>=◌, ◌>>◌, pure, Exception, text, type_of,
  continue, lift, modify,
}
use edm_project.Python.Frames.{Stack, enter}
use edm_project.Rs274.Enums.{CoordinateMode, is_undefined_coordinate}
use edm_project.Rs274.Points
use edm_project.Rs274.Points.{Point, Points, Returned, new_points, nothing, self}
use edm_project.Rs274.Spec.Sound.{IsCoordinate, IsPosition}

pub data PointsCall : Type 0 where
  g90 g91 : PointsCall
  f : Value → PointsCall
  push : Value → Value → Value → Value → Value → Value → Value → PointsCall

unfoldable pub points_call : Stack → PointsCall → Exec Points Returned
points_call st PointsCall.g90 = Points.g90
points_call st PointsCall.g91 = Points.g91
points_call st (PointsCall.f speed) = Points.f st speed
points_call st (PointsCall.push x y z b c a feed) = Points.push st x y z b c a feed

-- One statement for each call; the first exception ends the script.
unfoldable pub run_points : List (Stack × PointsCall) → Exec Points (Unit {0})
run_points [] = pure tt
run_points ((st, c) ∷ calls) = do points_call st c; run_points calls

-- A point was pushed under g90 or g91, its coordinates are None or numbers, and its feed rate is a
-- whole number or a bool.
pub record IsPoint (p : Point) : Type 0 where
  pub mode : p.coordinate_mode ≢ CoordinateMode.undefined
  pub position : IsPosition p.coords
  pub feedrate : is_int p.feedrate ≡ true

pub record ArePoints (ps : Points) : Type 0 where
  pub every : All IsPoint ps.points
  pub default : is_int ps.feedrate ≡ true

check_values-cases :
    (vs : List Value)
    → ((Points.check_values vs ≡ ok tt) × All IsCoordinate vs)
      ⊎ ((e : Exception) × (Points.check_values vs ≡ err e))
unfolding Points.check_values
check_values-cases [] = inl (refl, tt)
check_values-cases (v ∷ vs) = first (is_null v) (is_number v) refl refl (check_values-cases vs)
  where
    first :
        (p q : Bool)
        → is_null v ≡ p
        → is_number v ≡ q
        → ((Points.check_values vs ≡ ok tt) × All IsCoordinate vs)
          ⊎ ((e : Exception) × (Points.check_values vs ≡ err e))
        → ((Points.check_values (v ∷ vs) ≡ ok tt) × All IsCoordinate (v ∷ vs))
          ⊎ ((e : Exception) × (Points.check_values (v ∷ vs) ≡ err e))
    first true q ep eq (inl (e, h)) = inl (rw ep e, (inl ep, h))
    first true q ep eq (inr (x, e)) = inr (x, rw ep e)
    first false true ep eq (inl (e, h)) = inl (rw (ep, eq) e, (inr eq, h))
    first false true ep eq (inr (x, e)) = inr (x, rw (ep, eq) e)
    first false false ep eq rest =
        inr
          (interpreter (text "Point value type invalid: " ∷ type_of v ∷ text " " ∷ []), rw (ep, eq))

-- The `try` of push either fails, or has filled in six checked coordinates and a checked feed rate.
module _ (x y z b c a feed default : Value) (p : Point) where
  abbrev values : List Value
  values = x ∷ y ∷ z ∷ b ∷ c ∷ a ∷ []

  abbrev chosen : Value
  chosen = if is_null feed then default else feed

  abbrev Filled : Type 0
  Filled =
      ((Points.fill_point x y z b c a feed default p
          ≡ (ok tt, record p { coords = values; feedrate = chosen }))
        × IsPosition values
        × (is_int chosen ≡ true))
      ⊎ ((e : Exception) × (q : Point) × (Points.fill_point x y z b c a feed default p
            ≡ (err e, q)))

  fill :
      ((Points.check_values values ≡ ok tt) × All IsCoordinate values)
        ⊎ ((e : Exception) × (Points.check_values values ≡ err e))
      → (is_int chosen ≡ true) ⊎ (is_int chosen ≡ false)
      → Filled
  unfolding Points.fill_point Points.set_point Points.set_feedrate ◌>>=◌ raise_if
  fill (inl (e, h)) (inl w) = inl (rw (e, w), (refl, h), w)
  fill (inl (e, h)) (inr w) = inr (
    interpreter (text "set_feedrate type invalid: " ∷ type_of chosen ∷ text " " ∷ []),
    record p { coords = values },
    rw (e, w),
  )
  fill (inr (x', e)) w = inr (x', record p { coords = values }, rw e)

  fill_point-cases : Filled
  fill_point-cases = fill (check_values-cases values) (Bool-cases (is_int chosen))

module _ {A B : Type 0} (k : A → Exec Points B) (ps : Points) where
  bind-ArePoints :
      (m : Exec Points A)
      → ArePoints (m ps).1
      → ((a : A) → ArePoints (k a (m ps).1).1)
      → ArePoints ((m >>= k) ps).1
  unfolding ◌>>=◌
  bind-ArePoints m h rest = after (m ps).0 (m ps).1 h rest
    where
      after :
          (r : Result A) (ps' : Points)
          → ArePoints ps'
          → ((a : A) → ArePoints (k a ps').1)
          → ArePoints (continue r k ps').1
      after (ok a) ps' h rest = rest a
      after (err e) ps' h rest = h

module _ {B : Type 0} (k : Unit {0} → Exec Points B) (ps : Points) (h : ArePoints ps) where
  test-ArePoints :
      (b : Bool) (r : Result FString)
      → (b ≡ false → ArePoints (k tt ps).1)
      → ArePoints ((raise_if b r >>= k) ps).1
  unfolding ◌>>=◌ raise_if
  test-ArePoints true (ok m) rest = h
  test-ArePoints true (err e) rest = h
  test-ArePoints false r rest = rest refl

store_point-ArePoints :
    (here : Stack) (ps : Points) (o : Result (Unit {0}) × Point)
    → ArePoints ps
    → (o.0 ≡ ok tt → IsPoint o.1)
    → ArePoints (Points.store_point here o ps).1
store_point-ArePoints here ps (ok u, p) h k = record {
  every = All-append IsPoint ps.points (p ∷ []) h.every (k refl, tt);
  default = h.default;
}
store_point-ArePoints here ps (err e, p) h k = h

-- A new point that has been filled in.
filled-IsPoint :
    (x y z b c a feed : Value) (ps : Points) (n : ℕ) (code : String)
    → ps.current_coordinate_mode ≢ CoordinateMode.undefined
    → let o =
        Points.fill_point x y z b c a feed ps.feedrate
          (Points.new_point ps.current_coordinate_mode n code) in
      (o.0 ≡ ok tt → IsPoint o.1)
unfolding Points.new_point
filled-IsPoint x y z b c a feed ps n code set h = filled (
    fill_point-cases x y z b c a feed ps.feedrate
      (Points.new_point ps.current_coordinate_mode n code))
  where
    filled :
        Filled x y z b c a feed ps.feedrate (Points.new_point ps.current_coordinate_mode n code)
        → IsPoint
            (Points.fill_point x y z b c a feed ps.feedrate
              (Points.new_point ps.current_coordinate_mode n code)).1
    filled (inl (e, position, whole)) =
        rw e (record { mode = set; position = position; feedrate = whole })
    filled (inr (x', q, e)) = cc (ap (λ (o : Result (Unit {0}) × Point). o.0) e)

environment-ArePoints :
    {B : Type 0} (st : Stack) (k : Unit {0} → Exec Points B) (ps : Points)
    → ArePoints ps
    → (ps.current_coordinate_mode ≢ CoordinateMode.undefined → ArePoints (k tt ps).1)
    → ArePoints ((Points.check_environment st >>= k) ps).1
unfolding Points.check_environment ◌>>=◌ raise_if
environment-ArePoints st k ps h rest =
    after ps.current_coordinate_mode
      (with_stackmessage (text "CoordinateMode Undefined " ∷ []) 2 (enter "_check_environment" st))
      rest
  where
    after :
        (m : CoordinateMode) (r : Result FString)
        → (m ≢ CoordinateMode.undefined → ArePoints (k tt ps).1)
        → ArePoints (continue (if is_undefined_coordinate m then raise_with r else ok tt) k ps).1
    after CoordinateMode.undefined (ok m) rest = h
    after CoordinateMode.undefined (err e) rest = h
    after CoordinateMode.absolute_mode r rest = rest (cc)
    after CoordinateMode.increment_mode r rest = rest (cc)

push-ArePoints :
    (st : Stack) (x y z b c a feed : Value) (ps : Points)
    → ArePoints ps
    → ArePoints (Points.push st x y z b c a feed ps).1
unfolding Points.push lift
push-ArePoints st x y z b c a feed ps h = environment-ArePoints _ _ ps h λ set.
    bind-ArePoints _ ps _ h λ n.
      bind-ArePoints _ ps _ h
        λ code. store_point-ArePoints _ ps _ h (filled-IsPoint x y z b c a feed ps n code set)

default-ArePoints :
    (speed : Value) (ps : Points)
    → ArePoints ps
    → is_int speed ≡ true
    → ArePoints
        ((modify (λ (q : Points). record q { feedrate = speed }) >>= λ _. pure nothing) ps).1
unfolding ◌>>=◌
default-ArePoints speed ps h whole = record { every = h.every; default = whole }

-- What a call leaves in the object, returning or raising.
points_call-ArePoints :
    (st : Stack) (c : PointsCall) (ps : Points) → ArePoints ps → ArePoints (points_call st c ps).1
unfolding points_call Points.g90 Points.g91 Points.f lift
points_call-ArePoints st PointsCall.g90 ps h =
    unfold ◌>>=◌ in record { every = h.every; default = h.default }
points_call-ArePoints st PointsCall.g91 ps h =
    unfold ◌>>=◌ in record { every = h.every; default = h.default }
points_call-ArePoints st (PointsCall.f speed) ps h = test-ArePoints _ ps h _ _ λ e.
    bind-ArePoints _ ps _ h
      λ b. test-ArePoints _ ps h _ _ λ e'. default-ArePoints speed ps h (not-true _ e)
points_call-ArePoints st (PointsCall.push x y z b c a feed) ps h =
    push-ArePoints st x y z b c a feed ps h

-- Whatever a script calls on a Points object that is new or keeps to the invariant, and whether it
-- raises or not: every point that the
-- object holds was pushed under g90 or g91, has six coordinates that are None or numbers, and a feed
-- rate that is a whole number (or a bool).
pub run_points-ArePoints :
    (calls : List (Stack × PointsCall)) (ps : Points)
    → ArePoints ps
    → ArePoints (run_points calls ps).1
unfolding run_points pure
run_points-ArePoints [] ps h = h
run_points-ArePoints ((st, c) ∷ calls) ps h =
    let h' = points_call-ArePoints st c ps h in
    bind-ArePoints _ ps _ h' λ _. run_points-ArePoints calls (points_call st c ps).1 h'

pub new_points-ArePoints : ArePoints new_points
unfolding new_points is_int
new_points-ArePoints = record { every = tt; default = refl }
