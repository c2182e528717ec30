-- ===== src/Socket/Connection.antt =====
-- The connection loop of src/ax_interface/socket_io.py. The attempts are those that find the run
-- event set.
use sonic_snmpagent.Prelude.{
  ℕ, zero, suc, ◌+◌, ◌-◌, min, ◌≡◌, refl, ap, arith, List, [], ◌∷◌, ◌++◌, replicate, Bool-cases,
  inl, inr, All, Result, ok, err, Exn, leb, if◌then◌else◌, ◌>>=◌,
}

-- How an attempt ends: the connection is established and later closed, an OSError is raised, or
-- any other exception is.
pub data Attempt : Type 0 where
  closed os_error : Attempt
  raised : Exn → Attempt

pub data Level : Type 0 where
  warning error : Level

abbrev pub retry_error_threshold : ℕ
retry_error_threshold = 10

-- The level of the message about the failure with this number.
unfoldable pub log_level : ℕ → Level
log_level failed_connections =
    if leb failed_connections retry_error_threshold then warning else error

unfoldable pub logged : ℕ → Result (List Level) → Result (List Level)
unfolding log_level
logged failed_connections rest = do levels ← rest; ok (log_level failed_connections ∷ levels)

-- The loop from a number of failures: the levels of the messages. Only an OSError is caught.
unfoldable pub connection_loop : ℕ → List Attempt → Result (List Level)
unfolding logged
connection_loop failed_connections [] = ok []
connection_loop failed_connections (closed ∷ rest) = connection_loop failed_connections rest
connection_loop failed_connections (os_error ∷ rest) =
    logged (failed_connections + 1) (connection_loop (failed_connections + 1) rest)
connection_loop failed_connections (raised e ∷ rest) = err e

unfoldable pub failures : List Attempt → ℕ
failures [] = 0
failures (os_error ∷ rest) = suc (failures rest)
failures (closed ∷ rest) = failures rest
failures (raised e ∷ rest) = failures rest

-- The attempt is not ended by an exception that the loop lets through.
abbrev pub IsCaught : Attempt → Type 0
IsCaught closed = Unit
IsCaught os_error = Unit
IsCaught (raised e) = ⊥

-- The levels of the failures from a number on.
unfoldable pub levels_from : ℕ → ℕ → List Level
unfolding log_level
levels_from n zero = []
levels_from n (suc k) = log_level (n + 1) ∷ levels_from (n + 1) k

loop_levels :
    (n : ℕ) (attempts : List Attempt)
    → All IsCaught attempts
    → connection_loop n attempts ≡ ok (levels_from n (failures attempts))
unfolding connection_loop failures levels_from logged
loop_levels n [] w = refl
loop_levels n (closed ∷ rest) (_, w) = loop_levels n rest w
loop_levels n (os_error ∷ rest) (_, w) = rw (loop_levels (n + 1) rest w) refl
loop_levels n (raised e ∷ rest) (bad, w) = absurd bad

-- Of so many failures, as many as are left are warnings, and the further ones errors.
abbrev levels_left : ℕ → ℕ → List Level
levels_left left failed = replicate (min failed left) warning ++ replicate (failed - left) error

levels_left_none : (failed : ℕ) → levels_left 0 (suc failed) ≡ error ∷ levels_left 0 failed
levels_left_none failed =
    let a : min (suc failed) 0 ≡ 0 = omega arith in
    let b : min failed 0 ≡ 0 = omega arith in
    let c : suc failed - 0 ≡ suc (failed - 0) = omega arith in rw (a, b, c) refl

levels_left_some :
    (left failed : ℕ) → levels_left (suc left) (suc failed) ≡ warning ∷ levels_left left failed
levels_left_some left failed =
    let a : min (suc failed) (suc left) ≡ suc (min failed left) = omega arith in
    let b : suc failed - suc left ≡ failed - left = omega arith in rw (a, b) refl

levels_from_lem : (n failed : ℕ) → levels_from n failed ≡ levels_left (10 - n) failed
unfolding levels_from log_level
levels_from_lem n zero =
    let a : min 0 (10 - n) ≡ 0 = omega arith in
    let b : 0 - (10 - n) ≡ 0 = omega arith in rw (a, b) refl
levels_from_lem n (suc failed) = elim (Bool-cases (leb (n + 1) 10)) [
  | inl few ↦
      let one_less : 10 - n ≡ suc (10 - (n + 1)) = ground arith in
      rw (few, one_less, levels_left_some (10 - (n + 1)) failed)
        (ap (λ more. warning ∷ more) (levels_from_lem (n + 1) failed))
  | inr many ↦
      let no_more : 10 - n ≡ 0 = ground arith in
      let none_left : 10 - (n + 1) ≡ 0 = ground arith in
      let rest : levels_from (n + 1) failed ≡ levels_left 0 failed =
        rw (← none_left) (levels_from_lem (n + 1) failed) in
      rw (many, no_more, levels_left_none failed) (ap (λ more. error ∷ more) rest)
]

-- While no exception but OSErrors is raised, the loop goes through all its attempts and logs each
-- failure once, up to the tenth since its start as a warning and the later ones as errors: an
-- established connection between them does not start the count anew.
pub connection_loop_levels :
    (n : ℕ) (attempts : List Attempt)
    → All IsCaught attempts
    → connection_loop n attempts
      ≡ ok (
          replicate (min (failures attempts) (10 - n)) warning
          ++ replicate (failures attempts - (10 - n)) error)
connection_loop_levels n attempts w =
    rw (← levels_from_lem n (failures attempts)) (loop_levels n attempts w)
