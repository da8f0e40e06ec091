-- ===== src/Printer/Tests.antt =====
-- The status messages on concrete inputs, over a small JSON.
use qidi_plus.Base.{
  ℕ, zero, suc, ◌*◌, ◌≡◌, refl, Bool, true, false, if◌then◌else◌, ltb, Option, none, some, Bytes,
  codes, bytes_eq, List, [], ◌∷◌, arith,
}
use qidi_plus.Printer.Json.{JsonLib, update, rounded_int}
use qidi_plus.Printer.Objects.{parse_extruder, parse_print_stats}
use qidi_plus.Printer.Mesh.{BedMesh, point, put, copy_points, parse_default, parse_bed_mesh}
use qidi_plus.Printer.Mesh.Points.{cell}
use qidi_plus.Printer.Mesh.Block.{HasPoints, parse_bed_mesh_block, parse_bed_mesh_small}
use qidi_plus.Printer.Status.{Printer, parse_subscribe_objects_status}
use qidi_plus.Printer.Status.Again.{parse_subscribe_objects_status-Repeats}

-- `empty` ends an object or an array; `has` is a member in front of an object, `item` an element
-- in front of an array.
data J : Type 0 where
  null empty : J
  num : ℕ → J
  word : Bytes → J
  flag : Bool → J
  has : Bytes → J → J → J
  item : J → J → J

abbrev member_of : J → Bytes → Option J
member_of null key = some null
member_of empty key = some null
member_of (has k v rest) key = if bytes_eq k key then some v else member_of rest key
member_of _ key = none

abbrev elem_of : J → ℕ → Option J
elem_of null i = some null
elem_of empty i = some null
elem_of (item v rest) zero = some v
elem_of (item v rest) (suc i) = elem_of rest i
elem_of _ i = none

abbrev is_null_of : J → Bool
is_null_of null = true
is_null_of _ = false

abbrev num_of : J → Option ℕ
num_of (num n) = some n
num_of _ = none

abbrev word_of : J → Option Bytes
word_of (word s) = some s
word_of _ = none

abbrev flag_of : J → Option Bool
flag_of (flag b) = some b
flag_of _ = none

-- Whole numbers for the floating-point numbers.
abbrev small_lib : JsonLib
small_lib = record {
  Json = J;
  Float = ℕ;
  Int = ℕ;
  member = member_of;
  elem = elem_of;
  is_null = is_null_of;
  to_float = num_of;
  to_text = word_of;
  to_bool = flag_of;
  round_to = λ n x. x;
  rounded = λ x. x;
  percent = λ x. x * 100;
  below = ltb;
}

abbrev zeros : List ℕ
zeros = 0 ∷ 0 ∷ 0 ∷ 0 ∷ 0 ∷ 0 ∷ []

abbrev flat : BedMesh small_lib
flat = record {
  mesh_min = 0 ∷ 0 ∷ [];
  mesh_max = 0 ∷ 0 ∷ [];
  points = zeros ∷ zeros ∷ zeros ∷ zeros ∷ zeros ∷ zeros ∷ [];
  mesh_params = record {
    tension = 0;
    mesh_x_pps = 0;
    algo = [];
    min_x = 0;
    min_y = 0;
    y_count = 0;
    mesh_y_pps = 0;
    x_count = 0;
    max_x = 0;
    max_y = 0;
  };
}

abbrev array : List J → J
array [] = empty
array (x ∷ xs) = item x (array xs)

abbrev mesh_of : J → J
mesh_of points =
    has (codes "profiles") (has (codes "default") (has (codes "points") points empty) empty) empty

abbrev row_of_4 : ℕ → J
row_of_4 n = array (num n ∷ num (n * 2) ∷ num (n * 3) ∷ num (n * 4) ∷ [])

abbrev four_by_four : J
four_by_four = array (row_of_4 1 ∷ row_of_4 2 ∷ row_of_4 3 ∷ row_of_4 4 ∷ [])

abbrev row_of_3 : J
row_of_3 = array (num 1 ∷ num 2 ∷ num 3 ∷ [])

abbrev three_by_three : J
three_by_three = array (row_of_3 ∷ row_of_3 ∷ row_of_3 ∷ [])

has_points : (p : J) → is_null_of p ≡ false → HasPoints small_lib (mesh_of p)
unfolding bytes_eq
has_points p e = record {
  profiles = has (codes "default") (has (codes "points") p empty) empty;
  profile = has (codes "points") p empty;
  points = p;
  has_profiles = (refl, refl);
  has_profile = (refl, refl);
  has_points = (refl, e);
}

abbrev bowed : BedMesh small_lib
bowed = elim (parse_bed_mesh small_lib (mesh_of four_by_four) flat) [ none ↦ flat | some t ↦ t ]

parses_four_by_four : parse_bed_mesh small_lib (mesh_of four_by_four) flat ≡ some bowed
unfolding parse_bed_mesh update parse_default copy_points point put bytes_eq
parses_four_by_four = refl

parse_bed_mesh_block_example :
    (v : ℕ) × (point small_lib (mesh_of four_by_four) 3 3 ≡ some v)
    × (cell bowed.points 3 3 ≡ some v)
parse_bed_mesh_block_example =
    parse_bed_mesh_block small_lib (mesh_of four_by_four) flat bowed (has_points four_by_four refl)
      parses_four_by_four 3 3 (omega arith) (omega arith)

no_fourth : point small_lib (mesh_of three_by_three) 3 3 ≡ none
unfolding point bytes_eq
no_fourth = refl

parse_bed_mesh_small_example : parse_bed_mesh small_lib (mesh_of three_by_three) flat ≡ none
parse_bed_mesh_small_example =
    parse_bed_mesh_small small_lib (mesh_of three_by_three) flat 3 3
      (has_points three_by_three refl) (omega arith) (omega arith) no_fourth

abbrev idle : Printer small_lib
idle = record {
  idle_timeout = codes "Idle";
  bed_mesh = flat;
  webhooks = record { state = codes "ready"; state_message = [] };
  gcode_move = record {
    speed_factor = 1;
    speed = 0;
    extrude_factor = 1;
    homing_origin = 0 ∷ 0 ∷ 0 ∷ 0 ∷ [];
    gcode_position_2 = 0;
    gcode_z_position = 0;
  };
  toolhead = record {
    position = 0 ∷ 0 ∷ 0 ∷ 0 ∷ [];
    x_position = 0;
    y_position = 0;
    z_position = 0;
    axis_minimum = 0 ∷ 0 ∷ 0 ∷ 0 ∷ [];
    axis_maximum = 280 ∷ 280 ∷ 0 ∷ 0 ∷ [];
  };
  extruder = record { temperature = 0; target = 0 };
  heater_bed = record { temperature = 0; target = 0 };
  hot = record { temperature = 0; target = 0 };
  fan_speed = 0;
  heater_fan_speed = 0;
  is_paused = false;
  print_stats = record {
    print_state = codes "standby";
    filename = [];
    print_duration = 0;
    total_duration = 0;
  };
  progress = 0;
  nozzle_fan_speed = 0;
  fan0 = 0;
  fan2 = 0;
  fan3 = 0;
  fila = record { filament_detected = false; enabled = false };
  caselight = 0;
  beep = 0;
  probe = record { x_zoffset = 0; y_zoffset = 0; z_zoffset = 0 };
}

-- The extruder's target, the state of the print, and the mesh.
abbrev printing : J
printing = has (codes "extruder") (has (codes "target") (num 220) empty) (
    has (codes "print_stats") (has (codes "state") (word (codes "printing")) empty)
      (has (codes "bed_mesh") (mesh_of four_by_four) empty))

abbrev heated : Printer small_lib
heated = elim (parse_subscribe_objects_status small_lib printing idle) [ none ↦ idle | some t ↦ t ]

parses_printing : parse_subscribe_objects_status small_lib printing idle ≡ some heated
unfolding parse_subscribe_objects_status update parse_extruder rounded_int parse_print_stats
    parse_bed_mesh parse_default copy_points point put bytes_eq
parses_printing = refl

parse_subscribe_objects_status-Repeats_example :
    parse_subscribe_objects_status small_lib printing heated ≡ some heated
parse_subscribe_objects_status-Repeats_example =
    parse_subscribe_objects_status-Repeats small_lib printing idle heated parses_printing
