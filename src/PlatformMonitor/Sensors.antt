-- ===== src/PlatformMonitor/Sensors.antt =====
-- rm/platformmonitor/platformmonitor.cpp: the chips of libsensors, with platformpower.h,
-- platformtemperature.h and componenttemperature.h of rm/librmcommon. What libsensors finds is a
-- parameter: the chips with their features, and the readings, which are doubles.
use konro.Base.{Bool, true, false, Option, none, some, List, [], ◌∷◌, ◌++◌, if◌then◌else◌}
use konro.Base.Int.{ℤ, negsuc}
use konro.Cgroup.{tsplit}
use konro.Float.{Float}
use konro.ProcFs.{has_text}
use konro.Streams.{strip_prefix}
use konro.Text.{Bytes, codes, is_digit}

abbrev pub to_digit : Bytes → Bytes
to_digit [] = []
to_digit (c ∷ s) = if is_digit c then [] else c ∷ to_digit s

unfoldable pub module_names : Bytes → List Bytes
unfolding tsplit
module_names names = tsplit b',' names

unfoldable pub is_cpu_chip : List Bytes → Bytes → Bool
is_cpu_chip cpu_chips chip = has_text chip cpu_chips

-- The name up to its first digit is looked for.
unfoldable pub is_battery_chip : List Bytes → Bytes → Bool
is_battery_chip battery_chips [] = false
is_battery_chip battery_chips (c ∷ chip) = has_text (to_digit (c ∷ chip)) battery_chips

pub data FeatureType : Type 0 where
  feature_in feature_curr feature_temp feature_other : FeatureType

pub data SubfeatureType : Type 0 where
  temp_input temp_max temp_min temp_highest temp_lowest temp_crit temp_emergency : SubfeatureType
  subfeature_other : SubfeatureType

-- The temperatures of a component, -1 where none is known.
pub record ComponentTemperature : Type 0 where
  pub label : Bytes
  pub num : ℤ
  pub temp : ℤ
  pub max_temp : ℤ
  pub min_temp : ℤ
  pub highest_temp : ℤ
  pub lowest_temp : ℤ
  pub crit_temp : ℤ
  pub emergency_temp : ℤ

pub record PlatformTemperature : Type 0 where
  pub cpus : List ComponentTemperature
  pub cores : List ComponentTemperature

-- The battery's readings; the constructor leaves them uninitialised, `none`.
pub record PlatformPower : Type 0 where
  pub battery_current : Option ℤ
  pub battery_voltage : Option ℤ

module _ (fl : Float) where
  open fl use {F, literal, mul, trunc}

  -- A feature: its main input, if it can be read, and the subfeatures that can.
  pub record Feature : Type 0 where
    pub feature_type : FeatureType
    pub label : Bytes
    pub number : ℤ
    pub input : Option F
    pub subfeatures : List (SubfeatureType × F)

  pub record Chip : Type 0 where
    pub prefix : Bytes
    pub features : List Feature

  abbrev pub battery_input : FeatureType → F → PlatformPower → PlatformPower
  battery_input feature_in val p = record p { battery_voltage = some (trunc val) }
  battery_input feature_curr val p = record p {
    battery_current = some (trunc (mul val (literal 1000 1)));
  }
  battery_input feature_temp val p = p
  battery_input feature_other val p = p

  unfoldable pub handle_battery : List Feature → PlatformPower → PlatformPower
  handle_battery [] p = p
  handle_battery (f ∷ fs) p = handle_battery fs (elim f.input as (λ x. PlatformPower) [
    | none ↦ p
    | some val ↦ battery_input f.feature_type val p
  ])

  abbrev pub set_temperature : SubfeatureType → ℤ → ComponentTemperature → ComponentTemperature
  set_temperature temp_input t c = record c { temp = t }
  set_temperature temp_max t c = record c { max_temp = t }
  set_temperature temp_min t c = record c { min_temp = t }
  set_temperature temp_highest t c = record c { highest_temp = t }
  set_temperature temp_lowest t c = record c { lowest_temp = t }
  set_temperature temp_crit t c = record c { crit_temp = t }
  set_temperature temp_emergency t c = record c { emergency_temp = t }
  set_temperature subfeature_other t c = c

  unfoldable pub subfeature_temperatures :
      List (SubfeatureType × F) → ComponentTemperature → ComponentTemperature
  subfeature_temperatures [] c = c
  subfeature_temperatures ((type, val) ∷ ss) c =
      subfeature_temperatures ss (set_temperature type (trunc val) c)

  abbrev pub no_temperature : Bytes → ℤ → ComponentTemperature
  no_temperature label num = record {
    label = label;
    num = num;
    temp = negsuc 0;
    max_temp = negsuc 0;
    min_temp = negsuc 0;
    highest_temp = negsuc 0;
    lowest_temp = negsuc 0;
    crit_temp = negsuc 0;
    emergency_temp = negsuc 0;
  }

  unfoldable pub get_temperature_info : Feature → ComponentTemperature
  unfolding subfeature_temperatures
  get_temperature_info f = subfeature_temperatures f.subfeatures (no_temperature f.label f.number)

  -- strstr: whether the text is found.
  abbrev pub is_prefix : Bytes → Bytes → Bool
  is_prefix p s = elim (strip_prefix p s) [ none ↦ false | some rest ↦ true ]

  abbrev pub contains : Bytes → Bytes → Bool
  contains p [] = is_prefix p []
  contains p (c ∷ s) = if is_prefix p (c ∷ s) then true else contains p s

  unfoldable pub add_temperature : Feature → PlatformTemperature → PlatformTemperature
  unfolding get_temperature_info
  add_temperature f t =
      if contains (codes "Package") f.label
      then record t { cpus = t.cpus ++ get_temperature_info f ∷ [] }
      else if contains (codes "Core") f.label
      then record t { cores = t.cores ++ get_temperature_info f ∷ [] }
      else t

  abbrev pub is_temperature : FeatureType → Bool
  is_temperature feature_temp = true
  is_temperature feature_in = false
  is_temperature feature_curr = false
  is_temperature feature_other = false

  unfoldable pub handle_cpu_temp : List Feature → PlatformTemperature → PlatformTemperature
  unfolding add_temperature
  handle_cpu_temp [] t = t
  handle_cpu_temp (f ∷ fs) t =
      handle_cpu_temp fs (if is_temperature f.feature_type then add_temperature f t else t)

  unfoldable pub handle_sensors :
      List Bytes
      → List Bytes
      → List Chip
      → PlatformTemperature × PlatformPower
      → PlatformTemperature × PlatformPower
  unfolding is_cpu_chip is_battery_chip handle_cpu_temp handle_battery
  handle_sensors cpu_chips battery_chips [] (t, p) = (t, p)
  handle_sensors cpu_chips battery_chips (cn ∷ chips) (t, p) =
      handle_sensors cpu_chips battery_chips chips (
        if is_cpu_chip cpu_chips cn.prefix
        then (handle_cpu_temp cn.features t, p)
        else if is_battery_chip battery_chips cn.prefix
        then (t, handle_battery cn.features p)
        else (t, p))
