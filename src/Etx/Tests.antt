-- ===== src/Etx/Tests.antt =====
-- ETX objects, and the theorems about them at these objects.
use industrial_ams.Base.{◌≡◌, refl, true, none, some}
use industrial_ams.Base.Int.{pos, ◌+ℤ◌, ◌-ℤ◌}
use industrial_ams.Py.{ok, err, value_error, number, datetime}
use industrial_ams.Etx.{Etx, empty, margins, init, program}
use industrial_ams.Etx.Methods.{set_constraints}
use industrial_ams.Etx.Margins.{Apart}
use industrial_ams.Etx.Validity.{IsValid, init-IsValid, set_constraints-Apart}

-- ETX(time=5, constraint_low=0, constraint_high=20, time_high=6, margin_high=3, margin_low=2)
abbrev given : Etx
given = record empty {
  time = some (number (pos 5));
  constraint_low = some (number (pos 0));
  constraint_high = some (number (pos 20));
  time_high = some (number (pos 6));
  margin_high = pos 3;
  margin_low = pos 2;
}

abbrev made : Etx
made = record given { time_high = some (number (pos 8)); time_low = some (number (pos 0)) }

init-given : init given ≡ ok made
unfolding program
init-given = refl

init-tight : init (record given { margin_high = pos 19 }) ≡ err value_error
unfolding program
init-tight = refl

init-IsValid_example : IsValid made
init-IsValid_example = init-IsValid given made init-given

abbrev moved : Etx
moved = record made {
  constraint_low = some (number (pos 1));
  constraint_high = some (number (pos 9));
}

set_constraints-made :
    set_constraints (some (number (pos 1))) (some (number (pos 9))) none made ≡ (ok tt, moved)
unfolding set_constraints ◌+ℤ◌ ◌-ℤ◌
set_constraints-made = refl

set_constraints-Apart_example :
    Apart (margins made) moved.constraint_low moved.constraint_high
    × (moved ≡ record made {
      constraint_low = moved.constraint_low;
      constraint_high = moved.constraint_high;
    })
set_constraints-Apart_example =
    set_constraints-Apart (some (number (pos 1))) (some (number (pos 9))) none made moved
      set_constraints-made

abbrev dated : Etx
dated = record empty { constraint_low = some (datetime (pos 7)); use_datetime = true }
