-- ===== src/Identity/AdminCli.antt =====
-- identity/admin_cli.py: the two commands on the pins. The lines go to the terminal.
pub mod Listing
mod Tests
use ai_agent_security_firewa.Prelude.{
  ℕ, String, Bool, true, false, List, [], ◌∷◌, map, ◌==◌, if◌then◌else◌,
}
use ai_agent_security_firewa.Prelude.Dict.{Dict}
use ai_agent_security_firewa.Prelude.Sorting.{sorted}
use ai_agent_security_firewa.Identity.Store.{Pins, clear, list_all}

-- A line that is printed: the two columns of a pin, one of the answers of clear-pin, the usage.
pub data Line : Type 0 where
  pin_line : (service digest : String) → Line
  cleared : (service : String) → Line
  no_pin : (service : String) → Line
  usage : Line

-- The exit code, the pins that are left and what is printed.
pub record Run : Type 0 where
  pub exit_code : ℕ
  pub pins : Pins
  pub output : List Line

pub clear_pin : String → Pins × Bool → Run
clear_pin service (pins, true) = record {
  exit_code = 0;
  pins = pins;
  output = cleared service ∷ [];
}
clear_pin service (pins, false) = record {
  exit_code = 1;
  pins = pins;
  output = no_pin service ∷ [];
}

list_pins : Pins → Run
list_pins pins = record {
  exit_code = 0;
  pins = pins;
  output = map (λ (service, digest). pin_line service digest) (sorted (list_all pins));
}

print_usage : Pins → Run
print_usage pins = record { exit_code = 2; pins = pins; output = usage ∷ [] }

-- main
unfoldable pub run_main : List String → Pins → Run
unfolding list_pins clear_pin print_usage
run_main (command ∷ []) pins = if command == "list-pins" then list_pins pins else print_usage pins
run_main (command ∷ service ∷ []) pins =
    if command == "clear-pin" then clear_pin service (clear service pins) else print_usage pins
run_main [] pins = print_usage pins
run_main (a ∷ b ∷ c ∷ argv) pins = print_usage pins
