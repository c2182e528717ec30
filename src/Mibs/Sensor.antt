-- ===== src/Mibs/Sensor.antt =====
-- src/sonic_ax_impl/mibs/ietf/rfc3433.py: the sensor classes and their values.
pub mod Bounds
pub mod Data
pub mod Sources
pub mod Update
pub mod Columns
pub mod Filled
pub mod Table
use sonic_snmpagent.Prelude.{
  ap, ℕ, ℤ, pos, negsuc, ◌+◌, ◌^◌, ◌≤◌, ◌<◌, ◌≡◌, refl, arith, Option, none, some, Bool, true,
  false, if◌then◌else◌, Bool-cases, inl, inr,
}
use sonic_snmpagent.Strings.{Text}

-- Python's floats: the parser of `float`, where `none` is ValueError; a float multiplied or divided
-- by an int; an int to the power of a float, and `round`, where `none` is an ArithmeticError or
-- ValueError; and whether a float is greater or less than an int.
pub record Floats : Type 1 where
  pub Float : Type 0
  pub parse : Text → Option Float
  pub mul : Float → ℤ → Float
  pub div : Float → ℤ → Float
  pub power : ℤ → Float → Option Float
  pub greater : Float → ℤ → Bool
  pub less : Float → ℤ → Bool
  pub round : Float → Option ℤ

pub data EntitySensorDataType : Type 0 where
  other unknown volts_ac volts_dc amperes watts hertz celsius percent_rh rpm cmm truthvalue :
      EntitySensorDataType

unfoldable pub type_number : EntitySensorDataType → ℕ
type_number other = 1
type_number unknown = 2
type_number volts_ac = 3
type_number volts_dc = 4
type_number amperes = 5
type_number watts = 6
type_number hertz = 7
type_number celsius = 8
type_number percent_rh = 9
type_number rpm = 10
type_number cmm = 11
type_number truthvalue = 12

pub data EntitySensorDataScale : Type 0 where
  yocto zepto atto femto pico nano micro milli units kilo mega giga tera exa peta zetta yotta :
      EntitySensorDataScale

unfoldable pub scale_number : EntitySensorDataScale → ℕ
scale_number yocto = 1
scale_number zepto = 2
scale_number atto = 3
scale_number femto = 4
scale_number pico = 5
scale_number nano = 6
scale_number micro = 7
scale_number milli = 8
scale_number units = 9
scale_number kilo = 10
scale_number mega = 11
scale_number giga = 12
scale_number tera = 13
scale_number exa = 14
scale_number peta = 15
scale_number zetta = 16
scale_number yotta = 17

-- `ok_status` is OK.
pub data EntitySensorStatus : Type 0 where
  ok_status unavailable nonoperational : EntitySensorStatus

unfoldable pub status_number : EntitySensorStatus → ℕ
status_number ok_status = 1
status_number unavailable = 2
status_number nonoperational = 3

-- A sensor class: `converter` tells whether CONVERTER is set.
pub record SensorInterface : Type 0 where
  pub type_ : EntitySensorDataType
  pub scale : EntitySensorDataScale
  pub precision : ℕ
  pub converter : Bool

pub record MibValues : Type 0 where
  pub type_ : EntitySensorDataType
  pub scale : EntitySensorDataScale
  pub precision : ℕ
  pub value : ℤ
  pub oper_status : EntitySensorStatus

abbrev pub max_value : ℤ
max_value = pos 1000000000

abbrev pub min_value : ℤ
min_value = negsuc 999999999

unfoldable pub values_of : SensorInterface → EntitySensorStatus → ℤ → MibValues
values_of cls oper_status value = record {
  type_ = cls.type_;
  scale = cls.scale;
  precision = cls.precision;
  value = value;
  oper_status = oper_status;
}

unfoldable pub with_value : SensorInterface → Option ℤ → Option MibValues
unfolding values_of
with_value cls none = none
with_value cls (some value) = some (values_of cls ok_status value)

module _ (floats : Floats) where
  -- The value cut to the range, or rounded.
  unfoldable pub clamp : floats.Float → Option ℤ
  clamp value =
      if floats.greater value max_value
      then some max_value
      else if floats.less value min_value
      then some min_value
      else floats.round value

  -- `10 ** (x/10)`
  unfoldable pub conv_dbm_mw : floats.Float → Option floats.Float
  conv_dbm_mw x = floats.power (pos 10) (floats.div x (pos 10))

  unfoldable pub converted : SensorInterface → floats.Float → Option floats.Float
  unfolding conv_dbm_mw
  converted cls value = if cls.converter then conv_dbm_mw value else some value

  -- `value * 10 ** precision`
  unfoldable pub times_power : floats.Float → ℕ → floats.Float
  times_power value precision = floats.mul value (pos (10 ^ precision))

  unfoldable pub scaled : SensorInterface → Option floats.Float → Option MibValues
  unfolding clamp with_value times_power
  scaled cls none = none
  scaled cls (some value) = with_value cls (clamp (times_power value cls.precision))

  unfoldable pub values_from : SensorInterface → Option floats.Float → Option MibValues
  unfolding converted scaled values_of
  values_from cls none = some (values_of cls unavailable (pos 0))
  values_from cls (some value) = scaled cls (converted cls value)

  unfoldable pub mib_values : SensorInterface → Text → Option MibValues
  unfolding values_from
  mib_values cls raw_value = values_from cls (floats.parse raw_value)
