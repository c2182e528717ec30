-- ===== src/Mibs/Sensor/Bounds.antt =====
-- The range of the values of sensors.
use sonic_snmpagent.Prelude.{
  ap, ℤ, pos, negsuc, ◌≤◌, ◌<◌, ◌≡◌, refl, arith, Option, none, some, false, Bool-cases, inl, inr,
}
use sonic_snmpagent.Strings.{Text}
use sonic_snmpagent.Mibs.Sensor.{
  Floats, SensorInterface, MibValues, max_value, min_value, clamp, with_value, values_of, converted,
  times_power, scaled, values_from, mib_values,
}

-- -1e9 to 1e9
abbrev pub InRange : ℤ → Type 0
InRange (pos n) = n ≤ 1000000000
InRange (negsuc n) = n < 1000000000

module _ (floats : Floats)
    (round_bounds : (x : floats.Float) (v : ℤ)
      → floats.greater x max_value ≡ false
      → floats.less x min_value ≡ false
      → floats.round x ≡ some v
      → InRange v) where
  clamp_range : (x : floats.Float) (v : ℤ) → clamp floats x ≡ some v → InRange v
  unfolding clamp
  clamp_range x v h = elim (Bool-cases (floats.greater x max_value)) [
    | inl a ↦ let e : max_value ≡ v = some_inj (rw a at h) in rw (← e) (omega arith)
    | inr a ↦ elim (Bool-cases (floats.less x min_value)) [
      | inl b ↦ let e : min_value ≡ v = some_inj (rw (a, b) at h) in rw (← e) (omega arith)
      | inr b ↦ round_bounds x v a b (rw (a, b) at h)
    ]
  ]
    where
      some_inj : {m n : ℤ} → some m ≡ some n → m ≡ n
      some_inj e = cc

  with_value_range :
      (cls : SensorInterface) (v : Option ℤ) (m : MibValues)
      → ((w : ℤ) → v ≡ some w → InRange w)
      → with_value cls v ≡ some m
      → InRange m.value
  unfolding with_value
  with_value_range cls none m f h = absurd cc
  with_value_range cls (some v) m f h =
      let e : v ≡ m.value = ap value_or_zero h in rw (← e) (f v refl)
    where
      value_or_zero : Option MibValues → ℤ
      value_or_zero none = pos 0
      value_or_zero (some x) = x.value

  scaled_range :
      (cls : SensorInterface) (x : Option floats.Float) (m : MibValues)
      → scaled floats cls x ≡ some m
      → InRange m.value
  unfolding scaled
  scaled_range cls none m h = absurd cc
  scaled_range cls (some x) m h =
      with_value_range cls (clamp floats (times_power floats x cls.precision)) m
        (clamp_range (times_power floats x cls.precision)) h

  -- The value of a sensor is between -10^9 and 10^9, if rounding keeps within the range what the
  -- code has compared with it.
  pub mib_values_range :
      (cls : SensorInterface) (raw_value : Text) (m : MibValues)
      → mib_values floats cls raw_value ≡ some m
      → InRange m.value
  unfolding mib_values
  mib_values_range cls raw_value m h = from (floats.parse raw_value) h
    where
      from : (x : Option floats.Float) → values_from floats cls x ≡ some m → InRange m.value
      from none e =
          unfold values_from values_of in
          (let z : pos 0 ≡ m.value =
              ap (λ o. elim o as (λ x. ℤ) [ none ↦ pos 0 | some y ↦ y.value ]) e in
            rw (← z) (omega arith))
      from (some x) e = unfold values_from in scaled_range cls (converted floats cls x) m e
